-- ===== src/Preview/Registry/Lifecycle.antt =====
-- What stays of a record over any calls.
use paperboat_helper.Base.{
  bytes_key, ℕ, ◌≡◌, ◌≤◌, ◌<◌, ◌+◌, refl, inl, inr, ◌⊎◌, Bool, true, false, some, List, [], ◌∷◌,
  length, lookup, insert, lookup-insert, Bytes, arith, ok, u64_mod, add64_exact, subst, sym, ◌∙◌,
}
use paperboat_helper.Preview.Record.{Record, is_removed}
use paperboat_helper.Preview.Registry.{Registry, settle, probe_finish, probe_start}
use paperboat_helper.Preview.Registry.Effects.{
  Op, step, Updates, Effect, step-Effect, unchanged, updated, linked, created,
}
use paperboat_helper.Preview.Registry.Run.{run}

-- How one record can change: its names stay, its revision never falls, and as long as its revision is
-- the same, so are its state and its target; a removed record stays removed at its revision.
pub record Ages (a b : Record) : Type 0 where
  pub identity : b.identity ≡ a.identity
  pub environment_id : b.environment_id ≡ a.environment_id
  pub logical_name : b.logical_name ≡ a.logical_name
  pub rises : a.revision ≤ b.revision
  pub state : a.revision ≡ b.revision → b.state ≡ a.state
  pub target : a.revision ≡ b.revision → b.target ≡ a.target
  pub final : is_removed a.state ≡ true → a.revision ≡ b.revision

Ages-refl : (a : Record) → Ages a a
Ages-refl a = record {
  identity = refl;
  environment_id = refl;
  logical_name = refl;
  rises = omega arith;
  state = λ _. refl;
  target = λ _. refl;
  final = λ _. refl;
}

Ages-trans : (a b c : Record) → Ages a b → Ages b c → Ages a c
Ages-trans a b c s t = record {
  identity = t.identity ∙ s.identity;
  environment_id = t.environment_id ∙ s.environment_id;
  logical_name = t.logical_name ∙ s.logical_name;
  rises = omega (arith, s.rises, t.rises);
  state = λ e.
      let e1 : a.revision ≡ b.revision = omega (arith, s.rises, t.rises, e) in
      let e2 : b.revision ≡ c.revision = omega (arith, e, e1) in t.state e2 ∙ s.state e1;
  target = λ e.
      let e1 : a.revision ≡ b.revision = omega (arith, s.rises, t.rises, e) in
      let e2 : b.revision ≡ c.revision = omega (arith, e, e1) in t.target e2 ∙ s.target e1;
  final = λ gone.
      let e1 = s.final gone in
      let still : is_removed b.state ≡ true = cc (gone, s.state e1) in e1 ∙ t.final still;
}

-- The record after a step.
abbrev Next : Registry → Bytes → Record → Type 0
Next r' i a =
    (b : Record) × (lookup i r'.records ≡ some b) × Ages a b × (b.revision ≤ a.revision + 1)

written-Next :
    (r r' : Registry) (i j : Bytes) (a x y : Record)
    → lookup i r.records ≡ some a
    → lookup j r.records ≡ some x
    → r'.records ≡ insert j y r.records
    → Ages x y
    → y.revision ≤ x.revision + 1
    → Next r' i a
written-Next r r' i j a x y found at records ages near = elim (bytes_key.dec j i) [
  | yes p ↦
      let e : x ≡ a = ground arith in
      let now : lookup i r'.records ≡ some y = ground (arith, lookup-insert j i y r.records) in
      (
        y,
        now,
        subst (λ z. Ages z y) e ages,
        subst (λ (z : Record). y.revision ≤ z.revision + 1) e near,
      )
  | no p ↦
      let now : lookup i r'.records ≡ some a = ground (arith, lookup-insert j i y r.records) in
      (a, now, Ages-refl a, omega arith)
]

updated-Next :
    (r r' : Registry) (i j : Bytes) (a x y : Record)
    → lookup i r.records ≡ some a
    → lookup j r.records ≡ some x
    → r'.records ≡ insert j y r.records
    → is_removed x.state ≡ false
    → Updates x y
    → y.revision ≡ x.revision + 1
    → Next r' i a
updated-Next r r' i j a x y found at records here u more =
    written-Next r r' i j a x y found at records
      (record {
        identity = u.identity;
        environment_id = u.environment_id;
        logical_name = u.logical_name;
        rises = omega (arith, more);
        state = λ e. absurd (omega (arith, more, e));
        target = λ e. absurd (omega (arith, more, e));
        final = λ gone. absurd (cc (gone, here));
      })
      (omega (arith, more))

step-Next :
    (r r' : Registry) (i : Bytes) (a : Record)
    → Effect r r'
    → lookup i r.records ≡ some a
    → a.revision + 1 < u64_mod
    → Next r' i a
step-Next r r' i a (unchanged records logical) found small =
    (a, ground arith, Ages-refl a, omega arith)
step-Next r r' i a (updated j x y at here u records logical) found small =
    elim (bytes_key.dec j i) [
      | yes p ↦
          let e : x ≡ a = ground arith in
          let exact = add64_exact x.revision 1 (ground arith) in
          updated-Next r r' i j a x y found at records here u (u.revision ∙ exact)
      | no p ↦
          let other : lookup i r'.records ≡ some a =
            ground (arith, lookup-insert j i y r.records) in
          (a, other, Ages-refl a, omega arith)
    ]
step-Next r r' i a (linked j x url at records logical) found small =
    written-Next r r' i j a x (record x { public_url = url }) found at records
      (record {
        identity = refl;
        environment_id = refl;
        logical_name = refl;
        rises = omega arith;
        state = λ _. refl;
        target = λ _. refl;
        final = λ _. refl;
      })
      (omega arith)
step-Next r r' i a (created j y missing room good free named records logical) found small =
    let other : lookup i r'.records ≡ some a = ground (arith, lookup-insert j i y r.records) in
    (a, other, Ages-refl a, omega arith)

-- Over fewer calls than its revision has room for, a record of any registry stays, under its
-- identity and with its names; its revision never falls; as long as it is the same, the state and
-- the target are; and a removed record stays at its revision, and so removed.
pub run-Ages :
    (r : Registry) (ops : List Op) (i : Bytes) (a : Record)
    → lookup i r.records ≡ some a
    → a.revision + length ops < u64_mod
    → (b : Record) × (lookup i (run r ops).records ≡ some b) × Ages a b
run-Ages r [] i a found small = (a, found, Ages-refl a)
run-Ages r (op ∷ ops) i a found small =
    let (b, at, first, near) = step-Next r (step r op) i a (step-Effect r op) found (omega arith) in
    let (c, at_c, rest) = run-Ages (step r op) ops i b at (omega (arith, near)) in
    (c, at_c, Ages-trans a b c first rest)

finish-cases :
    (s : Registry) (i : Bytes) (a probed : Record) (healthy done : Bool) (now : ℕ)
    → lookup i s.records ≡ some a
    → ((probe_finish s i probed healthy done now).0.records ≡ s.records)
      ⊎ (a.revision ≡ probed.revision)
unfolding probe_finish settle
finish-cases s i a probed healthy done now found = ground arith

probe_started :
    (r : Registry) (i : Bytes) (probed : Record)
    → (probe_start r i).1 ≡ ok probed
    → lookup i (probe_start r i).0.records ≡ some probed
unfolding probe_start
probe_started r i probed started = ground arith

-- A probe that ends after any other calls, fewer than the revision has room for, either changes no
-- record, or the record of its identity still has the state and the target that were probed.
pub run_probes :
    (r : Registry) (ops : List Op) (i : Bytes) (probed : Record) (healthy done : Bool) (now : ℕ)
    → (probe_start r i).1 ≡ ok probed
    → probed.revision + length ops < u64_mod
    → let s = run (probe_start r i).0 ops in
      ((probe_finish s i probed healthy done now).0.records ≡ s.records)
      ⊎ ((a : Record) × (lookup i s.records ≡ some a)
          × (a.target ≡ probed.target)
          × (a.state ≡ probed.state))
run_probes r ops i probed healthy done now started small =
    let (a, found, ages) =
      run-Ages (probe_start r i).0 ops i probed (probe_started r i probed started) small in
    elim (finish-cases (run (probe_start r i).0 ops) i a probed healthy done now found) [
      | inl kept ↦ inl kept
      | inr current ↦ inr (a, found, ages.target (sym current), ages.state (sym current))
    ]
