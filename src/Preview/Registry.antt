-- ===== src/Preview/Registry.antt =====
-- internal/preview/registry.go: the registry of previews.
--
-- The lock makes every method one step, but for `Probe`, which asks its prober with the lock
-- released: `probe_start` is what it does before and `probe_finish` what it does after, with the
-- record that it has read, the answer of the prober and the state of the context as arguments.
-- `RegisterCanonical` is the step of `Register` and the step `assign_url`. The clock's time is an
-- argument. The channel of slots is the number of slots in use. A record is a value, so that
-- `cloneRecord` is left out.
pub mod Effects
pub mod Names
pub mod Run
pub mod Bounds
pub mod Lifecycle
use paperboat_helper.Base.{
  ℕ, suc, ◌+◌, ◌-◌, Bool, true, false, not, ◌&&◌, ◌||◌, Option, none, some, List, [], ◌∷◌, ◌++◌,
  String, is_yes, length, ltb, leb, ◌==◌, if◌then◌else◌, Result, ok, err, Key, lookup, insert,
  add64, ℕ_discrete, zero, ℤ, pos, negsuc, Bytes, Bytes_discrete, bytes_key, bytes_lt,
}
use paperboat_helper.Preview.Record.{
  Error, Record, State, State-discrete, Target, Target-discrete, allowed, cancelled, degraded,
  expired, identity_conflict, invalid_target, invalid_transition, is_expired, is_offline,
  is_removed, loopback_v4, loopback_v6, name_byte, name_bytes, name_key, not_found, offline, ready,
  registering, removed, resource_limit, valid_id, valid_name, valid_target,
}

pub record Config : Type 0 where
  pub has_prober : Bool
  pub probe_timeout : ℤ
  pub max_targets : ℤ
  pub max_concurrent_probes : ℤ

pub record Registry : Type 0 where
  pub max_targets : ℕ
  pub max_probes : ℕ
  pub slots : ℕ
  pub records : List (Bytes × Record)
  pub logical : List (Bytes × Bytes)

-- A setting that is 0 takes its default; `none` is one that is below 1.
abbrev pub setting : ℕ → ℤ → Option ℕ
setting default (pos zero) = if ltb default 1 then none else some default
setting default (pos (suc n)) = some (suc n)
setting default (negsuc n) = none

-- The settings that `New` takes, with the defaults of the configuration of resources.
unfoldable pub new : ℕ → ℕ → Config → Result Error Registry
new default_targets default_probes c = elim (setting 2000000000 c.probe_timeout) [
  | none ↦ err resource_limit
  | some _ ↦ elim (setting default_targets c.max_targets) [
    | none ↦ err resource_limit
    | some targets ↦ elim (setting default_probes c.max_concurrent_probes) [
      | none ↦ err resource_limit
      | some probes ↦
          if not c.has_prober
          then err resource_limit
          else ok (record {
            max_targets = targets;
            max_probes = probes;
            slots = 0;
            records = [];
            logical = [];
          })
    ]
  ]
]

unfoldable pub active : List (Bytes × Record) → ℕ
active [] = 0
active ((_, item) ∷ rest) = if not (is_removed item.state) then suc (active rest) else active rest

-- What `Register` makes of a record that is there.
abbrev pub reregistered : Record → Target → ℕ → Record
reregistered existing target now = record existing {
  target = target;
  revision = add64 existing.revision 1;
  updated_at = now;
  state =
      if is_offline existing.state || is_expired existing.state
      then registering
      else if not (is_yes (Target-discrete existing.target target))
      then degraded
      else existing.state;
  reason =
      if is_offline existing.state || is_expired existing.state
      then ""
      else if not (is_yes (Target-discrete existing.target target))
      then "target_changed"
      else existing.reason;
}

-- `Register` at a record that is there.
unfoldable pub reregister :
    Registry → Record → Bytes → Bytes → Bytes → Target → ℕ → Registry × Result Error Record
reregister r existing identity environment_id logical_name target now =
    if not (is_yes (Bytes_discrete existing.environment_id environment_id))
      || not (is_yes (Bytes_discrete existing.logical_name logical_name))
      || is_removed existing.state
    then (r, err identity_conflict)
    else if is_yes (Target-discrete existing.target target)
        && not (is_offline existing.state)
        && not (is_expired existing.state)
    then (r, ok existing)
    else (
      record r { records = insert identity (reregistered existing target now) r.records },
      ok (reregistered existing target now),
    )

abbrev pub registered : Bytes → Bytes → Bytes → Target → ℕ → Record
registered identity environment_id logical_name target now = record {
  identity = identity;
  environment_id = environment_id;
  logical_name = logical_name;
  target = target;
  state = registering;
  reason = "";
  updated_at = now;
  revision = 1;
  public_url = [];
}

-- `Register` where there is no record.
unfoldable pub create :
    Registry → Bytes → Bytes → Bytes → Target → ℕ → Registry × Result Error Record
create r identity environment_id logical_name target now =
    if leb r.max_targets (active r.records) then (r, err resource_limit) else (
      record r {
        records =
            insert identity (registered identity environment_id logical_name target now) r.records;
        logical = insert (name_key environment_id logical_name) identity r.logical;
      },
      ok (registered identity environment_id logical_name target now),
    )

-- The name is taken by another identity.
abbrev pub taken : Bytes → Option Bytes → Bool
taken identity none = false
taken identity (some existing) = not (is_yes (Bytes_discrete existing identity))

unfoldable pub register :
    Registry → Bytes → Bytes → Bytes → Target → Bool → ℕ → Registry × Result Error Record
unfolding reregister create
register r identity environment_id logical_name target acknowledged now =
    if not (valid_id identity)
      || not (valid_id environment_id)
      || not (valid_name logical_name)
      || not (valid_target target)
      || not acknowledged
    then (r, err invalid_target)
    else if taken identity (lookup (name_key environment_id logical_name) r.logical)
    then (r, err identity_conflict)
    else elim (lookup identity r.records) [
      | some existing ↦ reregister r existing identity environment_id logical_name target now
      | none ↦ create r identity environment_id logical_name target now
    ]

-- The second step of `RegisterCanonical`, whose record is there since `Register` has succeeded.
unfoldable pub assign_url : Registry → Bytes → Bytes → Registry
assign_url r identity public_url = elim (lookup identity r.records) [
  | none ↦ r
  | some item ↦ record r {
    records = insert identity (record item { public_url = public_url }) r.records;
  }
]

-- The order of `sort.Slice` in `List` and `ListEnvironment`.
unfoldable pub insert_sorted : Record → List Record → List Record
insert_sorted a [] = a ∷ []
insert_sorted a (b ∷ bs) =
    if bytes_lt a.identity b.identity then a ∷ b ∷ bs else b ∷ insert_sorted a bs

unfoldable pub list_records : List (Bytes × Record) → List Record
unfolding insert_sorted
list_records [] = []
list_records ((_, item) ∷ rest) = insert_sorted item (list_records rest)

unfoldable pub list : Registry → List Record
unfolding list_records
list r = list_records r.records

unfoldable pub in_environment : Bytes → List (Bytes × Record) → List (Bytes × Record)
in_environment environment_id [] = []
in_environment environment_id ((i, item) ∷ rest) =
    if is_yes (Bytes_discrete item.environment_id environment_id) && not (is_removed item.state)
    then (i, item) ∷ in_environment environment_id rest
    else in_environment environment_id rest

unfoldable pub list_environment : Registry → Bytes → List Record
unfolding list_records in_environment
list_environment r environment_id = list_records (in_environment environment_id r.records)

-- The count of the previews.
unfoldable pub resource_counts : Registry → ℕ
unfolding active
resource_counts r = active r.records

unfoldable pub get : Registry → Bytes → Result Error Record
get r identity = elim (lookup identity r.records) [
  | none ↦ err not_found
  | some item ↦ if is_removed item.state then err not_found else ok item
]

-- The step to another state, with the reason.
abbrev pub moved : Record → State → String → ℕ → Record
moved current next reason now = record current {
  state = next;
  reason = reason;
  updated_at = now;
  revision = add64 current.revision 1;
}

-- `SetOffline`, `Expire` and `Remove` are this at `offline`, `expired` and `removed`.
unfoldable pub transition : Registry → Bytes → State → String → ℕ → Registry × Result Error Record
transition r identity next reason now = elim (lookup identity r.records) [
  | none ↦ (r, err not_found)
  | some current ↦
      if is_removed current.state
      then (r, err not_found)
      else if not (allowed current.state next)
      then (r, err invalid_transition)
      else (
        record r { records = insert identity (moved current next reason now) r.records },
        ok (moved current next reason now),
      )
]

-- `Probe` up to the call of its prober. The slot is kept where the answer is a record.
unfoldable pub probe_start : Registry → Bytes → Registry × Result Error Record
probe_start r identity =
    if leb r.max_probes r.slots then (r, err resource_limit) else elim (lookup identity r.records) [
      | none ↦ (r, err not_found)
      | some item ↦
          if is_removed item.state
          then (r, err not_found)
          else if is_expired item.state
          then (r, err invalid_transition)
          else (record r { slots = r.slots + 1 }, ok item)
    ]

-- The state and the reason that a probe leads to.
abbrev pub verdict : State → Bool → State × String
verdict state true = (ready, "")
verdict state false =
    if is_offline state then (offline, "helper_offline") else (degraded, "target_unhealthy")

-- The part of `probe_finish` at the record that is there.
unfoldable pub settle :
    Registry → Bytes → Record → Record → Bool → ℕ → Registry × Result Error Record
settle r identity current probed healthy now =
    let (next, reason) = verdict current.state healthy in
    if is_removed current.state
    then (r, err not_found)
    else if not (current.revision == probed.revision)
    then (r, ok current)
    else if not (allowed current.state next) && not (is_yes (State-discrete current.state next))
    then (r, err invalid_transition)
    else (
      record r { records = insert identity (moved current next reason now) r.records },
      ok (moved current next reason now),
    )

-- `Probe` from the answer of its prober on: the record that was probed, whether the prober found
-- it healthy, and whether the context is done.
unfoldable pub probe_finish :
    Registry → Bytes → Record → Bool → Bool → ℕ → Registry × Result Error Record
unfolding settle
probe_finish r identity probed healthy done now =
    let freed = record r { slots = r.slots - 1 } in
    if done then (freed, err cancelled) else elim (lookup identity r.records) [
      | none ↦ (freed, err not_found)
      | some current ↦ settle freed identity current probed healthy now
    ]
