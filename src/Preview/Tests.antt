-- ===== src/Preview/Tests.antt =====
-- Runs of the registry on concrete previews.
use paperboat_helper.Base.{
  ◌≡◌, ◌≤◌, refl, ◌⊎◌, true, false, List, [], ◌∷◌, Bytes, Bytes_discrete, bytes_key, lookup, insert,
  some, arith, ok, pos,
}
use paperboat_helper.Preview.Record.{
  Record, Target, valid_id, valid_name, name_bytes, valid_target, name_key, loopback_v4,
  registering, offline, removed,
}
use paperboat_helper.Preview.Registry.{
  Config, Registry, new, register, create, registered, active, probe_start, probe_finish,
}
use paperboat_helper.Preview.Registry.Effects.{Op, registers, moves}
use paperboat_helper.Preview.Registry.Run.{run, run_unique, run_registers, IsFresh}
use paperboat_helper.Preview.Registry.Bounds.{active-run-le}
use paperboat_helper.Preview.Registry.Lifecycle.{Ages, run-Ages, run_probes}

abbrev settings : Config
settings = record {
  has_prober = true;
  probe_timeout = pos 0;
  max_targets = pos 2;
  max_concurrent_probes = pos 1;
}

abbrev empty : Registry
empty = record { max_targets = 2; max_probes = 1; slots = 0; records = []; logical = [] }

made : new 16 4 settings ≡ ok empty
unfolding new
made = refl

abbrev target : Target
target = record { host = loopback_v4; port = 8080 }

abbrev environment : Bytes
environment = 101 ∷ []

abbrev web : Bytes
web = 119 ∷ []

abbrev api : Bytes
api = 97 ∷ []

abbrev first : Bytes
first = 1 ∷ []

abbrev second : Bytes
second = 2 ∷ []

abbrev calls : List Op
calls = registers first environment web target true 5 ∷ []

abbrev shown : Record
shown = registered first environment web target 5

shown_found : lookup first (run empty calls).records ≡ some shown
unfolding register create valid_id valid_name name_bytes valid_target lookup insert Bytes_discrete
    name_key active
shown_found = refl

run_unique_example : first ≡ first
run_unique_example =
    run_unique 16 4 settings calls first first shown shown made shown_found shown_found refl refl

second_valid : valid_id second ≡ true
unfolding valid_id
second_valid = refl

environment_valid : valid_id environment ≡ true
unfolding valid_id
environment_valid = refl

api_valid : valid_name api ≡ true
unfolding valid_name valid_id name_bytes
api_valid = refl

target_valid : valid_target target ≡ true
unfolding valid_target Bytes_discrete
target_valid = refl

-- The first preview goes offline and is removed.
abbrev later : List Op
later = moves first offline "helper_offline" 6 ∷ moves first removed "removed" 7 ∷ []

registers_second : IsFresh (run empty calls) second environment api
unfolding register create valid_id valid_name name_bytes valid_target lookup insert Bytes_discrete
    name_key active
registers_second = record {
  missing = refl;
  unnamed = λ j a at env same. ground arith;
  room = omega arith;
}

run_registers_example :
    (register (run empty calls) second environment api target true 9).1
    ≡ ok (registered second environment api target 9)
run_registers_example =
    run_registers 16 4 settings calls second environment api target 9 made second_valid
      environment_valid api_valid target_valid registers_second

active-run-le_example : active (run empty calls).records ≤ 2
active-run-le_example = active-run-le 16 4 settings calls made

run-Ages_example :
    (b : Record) × (lookup first (run (run empty calls) later).records ≡ some b) × Ages shown b
run-Ages_example = run-Ages (run empty calls) later first shown shown_found (omega arith)

probing : (probe_start (run empty calls) first).1 ≡ ok shown
unfolding probe_start register create valid_id valid_name name_bytes valid_target lookup insert
    Bytes_discrete name_key active
probing = refl

run_probes_example :
    ((probe_finish
        (run (probe_start (run empty calls) first).0 later)
        first
        shown
        true
        false
        9).0.records
      ≡ (run (probe_start (run empty calls) first).0 later).records)
    ⊎ ((a : Record) × (lookup first (run (probe_start (run empty calls) first).0 later).records
          ≡ some a)
        × (a.target ≡ target)
        × (a.state ≡ registering))
run_probes_example =
    run_probes (run empty calls) later first shown true false 9 probing (omega arith)
