-- ===== src/Preview/Registry/Run.antt =====
-- The registry over any calls.
use paperboat_helper.Base.{
  bytes_key, ℕ, ◌≡◌, ◌≢◌, ◌<◌, refl, ◌⊎◌, inl, inr, true, false, none, some, List, [], ◌∷◌,
  Option-cases, lookup, insert, lookup-insert, Bytes, arith, ok, Bytes_discrete,
}
use paperboat_helper.Preview.Record.{Target, Record, valid_id, valid_name, valid_target, name_key}
use paperboat_helper.Preview.Registry.{
  Config, new, Registry, taken, active, register, create, registered,
}
use paperboat_helper.Preview.Registry.Effects.{
  Op, step, Effect, step-Effect, unchanged, updated, linked, created,
}
use paperboat_helper.Preview.Registry.Names.{name_key-injective}

abbrev pub run : Registry → List Op → Registry
run r [] = r
run r (op ∷ ops) = run (step r op) ops

-- The records and the names agree.
pub record IsSound (r : Registry) : Type 0 where
  pub identity : (i : Bytes) (a : Record) → lookup i r.records ≡ some a → a.identity ≡ i
  pub named :
      (i : Bytes) (a : Record) → lookup i r.records ≡ some a → valid_name a.logical_name ≡ true
  pub points :
      (i : Bytes) (a : Record)
      → lookup i r.records ≡ some a
      → lookup (name_key a.environment_id a.logical_name) r.logical ≡ some i
  pub back :
      (k i : Bytes)
      → lookup k r.logical ≡ some i
      → (a : Record) × (lookup i r.records ≡ some a)
        × (name_key a.environment_id a.logical_name ≡ k)

-- What is found after a write is what was written, or was there before.
lookup-written :
    {V : Type 0} (i j : Bytes) (b x : V) (m : List (Bytes × V))
    → lookup j (insert i b m) ≡ some x
    → ((i ≡ j) × (x ≡ b)) ⊎ (lookup j m ≡ some x)
lookup-written i j b x m h = ground (arith, lookup-insert i j b m)

-- A record that is replaced keeps its names.
record Renames (a b : Record) : Type 0 where
  identity : b.identity ≡ a.identity
  environment_id : b.environment_id ≡ a.environment_id
  logical_name : b.logical_name ≡ a.logical_name

replaced-IsSound :
    (r r' : Registry) (i : Bytes) (a b : Record)
    → lookup i r.records ≡ some a
    → Renames a b
    → r'.records ≡ insert i b r.records
    → r'.logical ≡ r.logical
    → IsSound r
    → IsSound r'
replaced-IsSound r r' i a b found same records logical v = record {
  identity = λ j x at. elim (lookup-written i j b x r.records (ground arith)) [
    | inl (p, e) ↦ ground (arith, same.identity, v.identity i a found)
    | inr old ↦ v.identity j x old
  ];
  named = λ j x at. elim (lookup-written i j b x r.records (ground arith)) [
    | inl (p, e) ↦ ground (arith, same.logical_name, v.named i a found)
    | inr old ↦ v.named j x old
  ];
  points = λ j x at. elim (lookup-written i j b x r.records (ground arith)) [
    | inl (p, e) ↦ ground (arith, same.environment_id, same.logical_name, v.points i a found)
    | inr old ↦ rw logical (v.points j x old)
  ];
  back = λ k j at.
      let (x, at_x, key) = v.back k j (ground arith) in
      elim (Bytes_discrete i j) [
        | yes p ↦ (
          b,
          (let e : lookup j r'.records ≡ some b = ground (arith, lookup-insert i j b r.records) in
              e),
          ground (arith, same.environment_id, same.logical_name),
        )
        | no p ↦ (
          x,
          (let e : lookup j r'.records ≡ some x = ground (arith, lookup-insert i j b r.records) in
              e),
          key,
        )
      ];
}

created-IsSound :
    (r r' : Registry) (i : Bytes) (b : Record)
    → lookup i r.records ≡ none
    → valid_name b.logical_name ≡ true
    → taken i (lookup (name_key b.environment_id b.logical_name) r.logical) ≡ false
    → b.identity ≡ i
    → r'.records ≡ insert i b r.records
    → r'.logical ≡ insert (name_key b.environment_id b.logical_name) i r.logical
    → IsSound r
    → IsSound r'
created-IsSound r r' i b missing good free named records logical v =
    let key = name_key b.environment_id b.logical_name in
    record {
      identity = λ j x at. elim (lookup-written i j b x r.records (ground arith)) [
        | inl (p, e) ↦ ground arith
        | inr old ↦ v.identity j x old
      ];
      named = λ j x at. elim (lookup-written i j b x r.records (ground arith)) [
        | inl (p, e) ↦ ground arith
        | inr old ↦ v.named j x old
      ];
      points = λ j x at. elim (lookup-written i j b x r.records (ground arith)) [
        | inl (p, e) ↦
            ground (arith, lookup-insert key (name_key x.environment_id x.logical_name) i r.logical)
        | inr old ↦ ground (
          arith,
          v.points j x old,
          lookup-insert key (name_key x.environment_id x.logical_name) i r.logical,
        )
      ];
      back = λ k j at. elim (lookup-written key k i j r.logical (ground arith)) [
        | inl (p, e) ↦ (b, ground (arith, lookup-insert i j b r.records), p)
        | inr old ↦
            let (x, at_x, key_x) = v.back k j old in
            (x, ground (arith, lookup-insert i j b r.records), key_x)
      ];
    }

unchanged-IsSound :
    (r r' : Registry) → r'.records ≡ r.records → r'.logical ≡ r.logical → IsSound r → IsSound r'
unchanged-IsSound r r' records logical v = record {
  identity = λ i a at. v.identity i a (ground arith);
  named = λ i a at. v.named i a (ground arith);
  points = λ i a at. ground (arith, v.points i a (ground arith));
  back = λ k i at. let (a, found, key) = v.back k i (ground arith) in (a, ground arith, key);
}

Effect-IsSound : (r r' : Registry) → Effect r r' → IsSound r → IsSound r'
Effect-IsSound r r' (unchanged records logical) v = unchanged-IsSound r r' records logical v
Effect-IsSound r r' (updated i a b found here u records logical) v =
    replaced-IsSound r r' i a b found
      (record {
        identity = u.identity;
        environment_id = u.environment_id;
        logical_name = u.logical_name;
      })
      records logical v
Effect-IsSound r r' (linked i a url found records logical) v =
    replaced-IsSound r r' i a (record a { public_url = url }) found
      (record { identity = refl; environment_id = refl; logical_name = refl }) records logical v
Effect-IsSound r r' (created i b missing room good free named records logical) v =
    created-IsSound r r' i b missing good free named records logical v

pub run-IsSound : (r : Registry) (ops : List Op) → IsSound r → IsSound (run r ops)
run-IsSound r [] v = v
run-IsSound r (op ∷ ops) v =
    run-IsSound (step r op) ops (Effect-IsSound r (step r op) (step-Effect r op) v)

pub new-IsSound :
    (targets probes : ℕ) (c : Config) {r : Registry} → new targets probes c ≡ ok r → IsSound r
unfolding new lookup
new-IsSound targets probes c {r} made =
    let empty : (r.records ≡ []) × (r.logical ≡ []) = ground arith in
    record {
      identity = λ i a at. absurd (ground (arith, empty.0, empty.1));
      named = λ i a at. absurd (ground (arith, empty.0, empty.1));
      points = λ i a at. absurd (ground (arith, empty.0, empty.1));
      back = λ k i at. absurd (ground (arith, empty.0, empty.1));
    }

-- After any calls of a new registry, no name in an environment has two identities, even where one
-- of them is removed.
pub run_unique :
    (targets probes : ℕ) (c : Config) (ops : List Op) (i j : Bytes) (a b : Record) {r : Registry}
    → new targets probes c ≡ ok r
    → lookup i (run r ops).records ≡ some a
    → lookup j (run r ops).records ≡ some b
    → a.environment_id ≡ b.environment_id
    → a.logical_name ≡ b.logical_name
    → i ≡ j
run_unique targets probes c ops i j a b {r} made at_i at_j env name =
    let w = run-IsSound r ops (new-IsSound targets probes c made) in
    ground (arith, w.points i a at_i, w.points j b at_j, env, name)

-- What `Register` takes as a new preview.
pub record IsFresh (r : Registry) (i environment_id logical_name : Bytes) : Type 0 where
  pub missing : lookup i r.records ≡ none
  pub unnamed :
      (j : Bytes) (a : Record)
      → lookup j r.records ≡ some a
      → a.environment_id ≡ environment_id
      → a.logical_name ≢ logical_name
  pub room : active r.records < r.max_targets

fresh_free :
    (r : Registry) (i environment_id logical_name : Bytes)
    → IsSound r
    → valid_name logical_name ≡ true
    → IsFresh r i environment_id logical_name
    → lookup (name_key environment_id logical_name) r.logical ≡ none
fresh_free r i environment_id logical_name v good f =
    elim (Option-cases (lookup (name_key environment_id logical_name) r.logical)) [
      | inl free ↦ free
      | inr (j, used) ↦
          let (a, found, key) = v.back (name_key environment_id logical_name) j used in
          let (env, name) =
            name_key-injective a.environment_id environment_id a.logical_name logical_name
              (v.named j a found) good key in
          absurd (f.unnamed j a found env name)
    ]

-- After any calls of a new registry, an acknowledged registration of a valid identity, environment,
-- name and target succeeds if the identity is unknown, no record has the name in the environment
-- and there is room.
pub run_registers :
    (targets probes : ℕ) (c : Config) (ops : List Op) (i environment_id logical_name : Bytes)
    (target : Target) (now : ℕ) {r : Registry}
    → new targets probes c ≡ ok r
    → valid_id i ≡ true
    → valid_id environment_id ≡ true
    → valid_name logical_name ≡ true
    → valid_target target ≡ true
    → IsFresh (run r ops) i environment_id logical_name
    → (register (run r ops) i environment_id logical_name target true now).1
      ≡ ok (registered i environment_id logical_name target now)
unfolding register create
run_registers targets probes c ops i environment_id logical_name target now {r} made id env name t
      f =
    let v = run-IsSound r ops (new-IsSound targets probes c made) in
    let free = fresh_free (run r ops) i environment_id logical_name v name f in
    ground (arith, free, f.missing, f.room)
