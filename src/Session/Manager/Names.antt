-- ===== src/Session/Manager/Names.antt =====
-- No two sessions have one name, and the names find the sessions.
use paperboat_helper.Base.{
  ℕ, zero, suc, ◌≤◌, ◌<◌, ◌≡◌, ◌≢◌, refl, sym, subst, ap, ◌∙◌, Bool, false, ◌&&◌, Option, none,
  some, List, [], ◌∷◌, Bytes, Bytes_discrete, bytes_key, length, arith, Result, ok, err, lookup,
  insert, erase, inl, inr, Bool-cases, lookup-insert, lookup-insert_self, lookup-erase,
  length-insert_new, length-insert_known, length-erase-le,
}
use paperboat_helper.Session.Process.{Managed}
use paperboat_helper.Session.Manager.{
  Manager, Error, session_exists, created, create_as, identity, choose, is_known,
}

-- The two maps agree, and there are not too many sessions.
pub record Registered (m : Manager) : Type 0 where
  pub named :
      (k id : Bytes)
      → lookup k m.names ≡ some id
      → (s : Managed) × (lookup id m.sessions ≡ some s) × (s.name ≡ k)
  pub known :
      (id : Bytes) (s : Managed) → lookup id m.sessions ≡ some s → lookup s.name m.names ≡ some id
  pub bounded : length m.sessions ≤ m.max_sessions

insert-Registered :
    (m : Manager) (id name : Bytes) (s : Managed)
    → s.name ≡ name
    → lookup id m.sessions ≡ none
    → lookup name m.names ≡ none
    → length m.sessions < m.max_sessions
    → Registered m
    → Registered (record m { sessions = insert id s m.sessions; names = insert name id m.names })
insert-Registered m id name s at new_id new_name room v = record {
  named = λ k i found. elim (Bytes_discrete name k) [
    | yes same ↦
        let mine : id ≡ i = ground (arith, lookup-insert name k id m.names) in
        (
          s,
          subst (λ j. lookup j (insert id s m.sessions) ≡ some s) mine
              (lookup-insert_self id s m.sessions),
          at ∙ same,
        )
    | no other ↦
        let (t, there, called) = v.named k i (ground (arith, lookup-insert name k id m.names)) in
        (
          t,
          (let differ : id ≢ i = λ e. cc (e, new_id, there) in
              ground (arith, differ, lookup-insert id i s m.sessions)),
          called,
        )
  ];
  known = λ i t found. elim (Bytes_discrete id i) [
    | yes same ↦
        let mine : s ≡ t = ground (arith, lookup-insert id i s m.sessions) in
        let called : t.name ≡ name = ap (λ (x : Managed). x.name) (sym mine) ∙ at in
        rw (called, ← same) (lookup-insert_self name id m.names)
    | no other ↦
        let there : lookup i m.sessions ≡ some t =
          ground (arith, lookup-insert id i s m.sessions) in
        let called = v.known i t there in
        let differ : name ≢ t.name = λ e. cc (e, new_name, called) in
        ground (arith, differ, called, lookup-insert name t.name id m.names)
  ];
  bounded = omega (arith, length-insert_new id s m.sessions new_id);
}

pub erase-Registered :
    (m : Manager) (id : Bytes) (s : Managed)
    → lookup id m.sessions ≡ some s
    → Registered m
    → Registered (record m { sessions = erase id m.sessions; names = erase s.name m.names })
erase-Registered m id s there v = record {
  named = λ k i found.
      let differ : s.name ≢ k = λ e. ground (arith, e, lookup-erase s.name k m.names) in
      let (t, at, called) = v.named k i (ground (arith, differ, lookup-erase s.name k m.names)) in
      let other : id ≢ i = λ e.
        let same : s ≡ t = cc (e, there, at) in
        differ (ap (λ (x : Managed). x.name) same ∙ called) in
      (t, ground (arith, other, lookup-erase id i m.sessions), called);
  known = λ i t found.
      let other : id ≢ i = λ e. ground (arith, e, lookup-erase id i m.sessions) in
      let at : lookup i m.sessions ≡ some t = ground (arith, other, lookup-erase id i m.sessions) in
      let called = v.known i t at in
      let mine = v.known id s there in
      let differ : s.name ≢ t.name = λ e. other (cc (e, called, mine)) in
      ground (arith, differ, called, lookup-erase s.name t.name m.names);
  bounded = omega (arith, length-erase-le id m.sessions, v.bounded);
}

pub replace-Registered :
    (m : Manager) (id : Bytes) (s s' : Managed)
    → lookup id m.sessions ≡ some s
    → s'.name ≡ s.name
    → Registered m
    → Registered (record m { sessions = insert id s' m.sessions })
replace-Registered m id s s' there at v = record {
  named = λ k i found.
      let (t, here, called) = v.named k i found in
      elim (Bytes_discrete id i) [
        | yes same ↦
            let mine : s ≡ t = cc (same, there, here) in
            (
              s',
              subst (λ j. lookup j (insert id s' m.sessions) ≡ some s') same
                  (lookup-insert_self id s' m.sessions),
              at ∙ ap (λ (x : Managed). x.name) mine ∙ called,
            )
        | no other ↦ (t, ground (arith, other, lookup-insert id i s' m.sessions), called)
      ];
  known = λ i t found. elim (Bytes_discrete id i) [
    | yes same ↦
        let mine : s' ≡ t = ground (arith, lookup-insert id i s' m.sessions) in
        let called : t.name ≡ s.name = ap (λ (x : Managed). x.name) (sym mine) ∙ at in
        rw (called, ← same) (v.known id s there)
    | no other ↦ v.known i t (ground (arith, other, lookup-insert id i s' m.sessions))
  ];
  bounded = omega (arith, length-insert_known id s' m.sessions there, v.bounded);
}

pub create_as-Registered :
    (m : Manager) (id name : Bytes) (stored : Bool) (launched : Option ℕ) (again : Bool)
    → lookup id m.sessions ≡ none
    → lookup name m.names ≡ none
    → length m.sessions < m.max_sessions
    → Registered m
    → Registered (create_as m id name stored launched again).0
unfolding create_as
create_as-Registered m id name stored none again i n room v = v
create_as-Registered m id name stored (some p) again i n room v =
    elim (Bool-cases (stored && again)) [
      | inr refused ↦ rw refused v
      | inl taken ↦ rw taken (insert-Registered m id name (created name p) refl i n room v)
    ]

pub unknown : {A : Type 0} (o : Option A) → is_known o ≡ false → o ≡ none
unknown none h = refl
unknown (some x) h = absurd (cc h)

-- An identity that is chosen is new.
choose-new :
    (n : ℕ) (randoms : List (Option Bytes)) (sessions : List (Bytes × Managed)) {id : Bytes}
    → choose n randoms sessions ≡ ok id
    → lookup id sessions ≡ none
unfolding choose
choose-new zero randoms sessions h = absurd (cc h)
choose-new (suc n) [] sessions h = absurd (cc h)
choose-new (suc n) (none ∷ randoms) sessions h = absurd (cc h)
choose-new (suc n) (some candidate ∷ randoms) sessions {id} h =
    elim (Bool-cases (is_known (lookup candidate sessions))) [
      | inl taken ↦ choose-new n randoms sessions (rw taken at h)
      | inr free ↦
          let chosen : ◌≡◌ {A = Result Error Bytes} (ok candidate) (ok id) = rw free at h in
          let same : candidate ≡ id = cc chosen in
          subst (λ j. lookup j sessions ≡ none) same (unknown (lookup candidate sessions) free)
    ]

pub identity-new :
    (given : Bytes) (randoms : List (Option Bytes)) (sessions : List (Bytes × Managed)) {id : Bytes}
    → identity given randoms sessions ≡ ok id
    → lookup id sessions ≡ none
identity-new [] randoms sessions h = choose-new 8 randoms sessions h
identity-new (c ∷ cs) randoms sessions {id} h =
    elim (Bool-cases (is_known (lookup (c ∷ cs) sessions))) [
      | inl taken ↦
          let no_id : ◌≡◌ {A = Result Error Bytes} (err session_exists) (ok id) = rw taken at h in
          absurd (cc no_id)
      | inr free ↦
          let chosen : ◌≡◌ {A = Result Error Bytes} (ok (c ∷ cs)) (ok id) = rw free at h in
          let same : c ∷ cs ≡ id = cc chosen in
          subst (λ j. lookup j sessions ≡ none) same (unknown (lookup (c ∷ cs) sessions) free)
    ]
