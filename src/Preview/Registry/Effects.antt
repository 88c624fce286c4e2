-- ===== src/Preview/Registry/Effects.antt =====
-- What one call of the registry can do to its records.
use paperboat_helper.Base.{
  bytes_key, ℕ, ◌-◌, ◌≡◌, refl, sym, subst, ◌⊎◌, inl, inr, Bool, true, false, none, some, String,
  Option-cases, lookup, insert, add64, Bytes, arith, leb,
}
use paperboat_helper.Preview.Record.{State, Target, Record, is_removed, valid_name, name_key}
use paperboat_helper.Preview.Registry.{
  Registry, taken, active, register, reregister, create, reregistered, registered, assign_url,
  transition, moved, probe_start, probe_finish, settle, verdict,
}

-- The calls that change a registry; a probe is two of them.
pub data Op : Type 0 where
  registers : Bytes → Bytes → Bytes → Target → Bool → ℕ → Op
  assigns_url : Bytes → Bytes → Op
  moves : Bytes → State → String → ℕ → Op
  starts_probe : Bytes → Op
  finishes_probe : Bytes → Record → Bool → Bool → ℕ → Op

abbrev pub step : Registry → Op → Registry
step r (registers identity environment_id logical_name target acknowledged now) =
    (register r identity environment_id logical_name target acknowledged now).0
step r (assigns_url identity url) = assign_url r identity url
step r (moves identity next reason now) = (transition r identity next reason now).0
step r (starts_probe identity) = (probe_start r identity).0
step r (finishes_probe identity probed healthy done now) =
    (probe_finish r identity probed healthy done now).0

-- The record keeps its names, and its revision is one more.
pub record Updates (a b : Record) : Type 0 where
  pub identity : b.identity ≡ a.identity
  pub environment_id : b.environment_id ≡ a.environment_id
  pub logical_name : b.logical_name ≡ a.logical_name
  pub revision : b.revision ≡ add64 a.revision 1

-- What happens to the records and to the names: nothing, a record that is not removed is updated, a
-- record is given its URL, or a new one takes a name that no other identity has.
pub data Effect (r r' : Registry) : Type 0 where
  unchanged : r'.records ≡ r.records → r'.logical ≡ r.logical → Effect r r'
  updated :
      (i : Bytes) (a b : Record)
      → lookup i r.records ≡ some a
      → is_removed a.state ≡ false
      → Updates a b
      → r'.records ≡ insert i b r.records
      → r'.logical ≡ r.logical
      → Effect r r'
  linked :
      (i : Bytes) (a : Record) (url : Bytes)
      → lookup i r.records ≡ some a
      → r'.records ≡ insert i (record a { public_url = url }) r.records
      → r'.logical ≡ r.logical
      → Effect r r'
  created :
      (i : Bytes) (b : Record)
      → lookup i r.records ≡ none
      → leb r.max_targets (active r.records) ≡ false
      → valid_name b.logical_name ≡ true
      → taken i (lookup (name_key b.environment_id b.logical_name) r.logical) ≡ false
      → b.identity ≡ i
      → r'.records ≡ insert i b r.records
      → r'.logical ≡ insert (name_key b.environment_id b.logical_name) i r.logical
      → Effect r r'

same : (r r' : Registry) → r' ≡ r → Effect r r'
same r r' e = rw e (unchanged refl refl)

reregister-Effect :
    (r : Registry) (a : Record) (i environment_id logical_name : Bytes) (target : Target) (now : ℕ)
    → lookup i r.records ≡ some a
    → Effect r (reregister r a i environment_id logical_name target now).0
reregister-Effect r a i environment_id logical_name target now found =
    let r' = (reregister r a i environment_id logical_name target now).0 in
    let cases : (r' ≡ r)
        ⊎ ((is_removed a.state ≡ false)
            × (r'.records ≡ insert i (reregistered a target now) r.records)
            × (r'.logical ≡ r.logical)) =
      unfold reregister in ground arith in
    elim cases [
      | inl e ↦ same r r' e
      | inr (here, records, logical) ↦
          updated i a (reregistered a target now) found here
            (record {
              identity = refl;
              environment_id = refl;
              logical_name = refl;
              revision = refl;
            })
            records logical
    ]

create-Effect :
    (r : Registry) (i environment_id logical_name : Bytes) (target : Target) (now : ℕ)
    → lookup i r.records ≡ none
    → valid_name logical_name ≡ true
    → taken i (lookup (name_key environment_id logical_name) r.logical) ≡ false
    → Effect r (create r i environment_id logical_name target now).0
create-Effect r i environment_id logical_name target now missing good free =
    let r' = (create r i environment_id logical_name target now).0 in
    let b = registered i environment_id logical_name target now in
    let cases : (r' ≡ r)
        ⊎ ((leb r.max_targets (active r.records) ≡ false)
            × (r'.records ≡ insert i b r.records)
            × (r'.logical ≡ insert (name_key environment_id logical_name) i r.logical)) =
      unfold create in ground arith in
    elim cases [
      | inl e ↦ same r r' e
      | inr (room, records, logical) ↦ created i b missing room good free refl records logical
    ]

moved_by : (r r' r'' : Registry) → r' ≡ r'' → Effect r r'' → Effect r r'
moved_by r r' r'' e f = subst (Effect r) (sym e) f

register-Effect :
    (r : Registry) (i environment_id logical_name : Bytes) (target : Target) (acknowledged : Bool)
    (now : ℕ)
    → Effect r (register r i environment_id logical_name target acknowledged now).0
register-Effect r i environment_id logical_name target acknowledged now =
    let r' = (register r i environment_id logical_name target acknowledged now).0 in
    elim (Option-cases (lookup i r.records)) [
      | inl missing ↦
          let cases : (r' ≡ r)
              ⊎ ((valid_name logical_name ≡ true)
                  × (taken i (lookup (name_key environment_id logical_name) r.logical) ≡ false)
                  × (r' ≡ (create r i environment_id logical_name target now).0)) =
            unfold register in ground arith in
          elim cases [
            | inl e ↦ same r r' e
            | inr (good, free, e) ↦
                moved_by r r' _ e
                  (create-Effect r i environment_id logical_name target now missing good free)
          ]
      | inr (a, found) ↦
          let cases : (r' ≡ r)
              ⊎ (r' ≡ (reregister r a i environment_id logical_name target now).0) =
            unfold register in ground arith in
          elim cases [
            | inl e ↦ same r r' e
            | inr e ↦
                moved_by r r' _ e
                  (reregister-Effect r a i environment_id logical_name target now found)
          ]
    ]

assign_url-Effect : (r : Registry) (i url : Bytes) → Effect r (assign_url r i url)
assign_url-Effect r i url = elim (Option-cases (lookup i r.records)) [
  | inl missing ↦ let e : assign_url r i url ≡ r = unfold assign_url in ground arith in same r _ e
  | inr (a, found) ↦
      let e : ((assign_url r i url).records ≡ insert i (record a { public_url = url }) r.records)
          × ((assign_url r i url).logical ≡ r.logical) =
        unfold assign_url in ground arith in
      linked i a url found e.0 e.1
]

moved-Updates :
    (a : Record) (next : State) (reason : String) (now : ℕ) → Updates a (moved a next reason now)
moved-Updates a next reason now = record {
  identity = refl;
  environment_id = refl;
  logical_name = refl;
  revision = refl;
}

-- A call leaves everything, or moves one record to another state.
abbrev Moves : Registry → Registry → Bytes → Record → State → String → ℕ → Type 0
Moves r r' i a next reason now =
    ((r'.records ≡ r.records) × (r'.logical ≡ r.logical))
    ⊎ ((is_removed a.state ≡ false)
        × (r'.records ≡ insert i (moved a next reason now) r.records)
        × (r'.logical ≡ r.logical))

Moves-Effect :
    (r r' : Registry) (i : Bytes) (a : Record) (next : State) (reason : String) (now : ℕ)
    → lookup i r.records ≡ some a
    → Moves r r' i a next reason now
    → Effect r r'
Moves-Effect r r' i a next reason now found (inl (records, logical)) = unchanged records logical
Moves-Effect r r' i a next reason now found (inr (here, records, logical)) =
    updated i a (moved a next reason now) found here (moved-Updates a next reason now) records
      logical

transition-Effect :
    (r : Registry) (i : Bytes) (next : State) (reason : String) (now : ℕ)
    → Effect r (transition r i next reason now).0
transition-Effect r i next reason now =
    let r' = (transition r i next reason now).0 in
    elim (Option-cases (lookup i r.records)) [
      | inl missing ↦ let e : r' ≡ r = unfold transition in ground arith in same r r' e
      | inr (a, found) ↦
          let cases : Moves r r' i a next reason now = unfold transition in ground arith in
          Moves-Effect r r' i a next reason now found cases
    ]

probe_start-Effect : (r : Registry) (i : Bytes) → Effect r (probe_start r i).0
probe_start-Effect r i =
    let e : ((probe_start r i).0.records ≡ r.records) × ((probe_start r i).0.logical ≡ r.logical) =
      unfold probe_start in ground arith in
    unchanged e.0 e.1

settle-Effect :
    (r : Registry) (i : Bytes) (a probed : Record) (healthy : Bool) (now : ℕ)
    → lookup i r.records ≡ some a
    → Moves r
        (settle (record r { slots = r.slots - 1 }) i a probed healthy now).0
        i
        a
        (verdict a.state healthy).0
        (verdict a.state healthy).1
        now
unfolding settle
settle-Effect r i a probed healthy now found = ground arith

probe_finish-Effect :
    (r : Registry) (i : Bytes) (probed : Record) (healthy done : Bool) (now : ℕ)
    → Effect r (probe_finish r i probed healthy done now).0
probe_finish-Effect r i probed healthy done now =
    let r' = (probe_finish r i probed healthy done now).0 in
    elim (Option-cases (lookup i r.records)) [
      | inl missing ↦
          let e : (r'.records ≡ r.records) × (r'.logical ≡ r.logical) =
            unfold probe_finish in ground arith in
          unchanged e.0 e.1
      | inr (a, found) ↦
          let cases : ((r'.records ≡ r.records) × (r'.logical ≡ r.logical))
              ⊎ (r' ≡ (settle (record r { slots = r.slots - 1 }) i a probed healthy now).0) =
            unfold probe_finish in ground arith in
          elim cases [
            | inl e ↦ unchanged e.0 e.1
            | inr e ↦ moved_by r r' _ e (
                Moves-Effect r _ i a (verdict a.state healthy).0 (verdict a.state healthy).1 now
                  found (settle-Effect r i a probed healthy now found))
          ]
    ]

pub step-Effect : (r : Registry) (op : Op) → Effect r (step r op)
step-Effect r (registers i environment_id logical_name target acknowledged now) =
    register-Effect r i environment_id logical_name target acknowledged now
step-Effect r (assigns_url i url) = assign_url-Effect r i url
step-Effect r (moves i next reason now) = transition-Effect r i next reason now
step-Effect r (starts_probe i) = probe_start-Effect r i
step-Effect r (finishes_probe i probed healthy done now) =
    probe_finish-Effect r i probed healthy done now

-- The bounds are never changed.
pub step-max_targets : (r : Registry) (op : Op) → (step r op).max_targets ≡ r.max_targets
unfolding register reregister create assign_url transition probe_start probe_finish settle
step-max_targets r (registers i environment_id logical_name target acknowledged now) = ground arith
step-max_targets r (assigns_url i url) = ground arith
step-max_targets r (moves i next reason now) = ground arith
step-max_targets r (starts_probe i) = ground arith
step-max_targets r (finishes_probe i probed healthy done now) = ground arith
