-- ===== src/Session/Manager/Tests.antt =====
-- Runs of a manager of at most 2 sessions.
use paperboat_helper.Base.{
  ℕ, ◌≤◌, ◌≡◌, refl, true, none, some, List, [], ◌∷◌, Bytes, bytes_key, length, lookup, insert,
  arith, ok, Bytes_discrete, add64,
}
use paperboat_helper.Session.State.{is_running, transition, new, running}
use paperboat_helper.Session.Process.{
  Managed, Termination, ended, timed_out, load_stream, run_process,
}
use paperboat_helper.Session.Process as Process
use paperboat_helper.Session.Process.Consistency.{Op, restarts, closes, ends}
use paperboat_helper.Session.Process.Consistency as Consistency
use paperboat_helper.Session.Process.Generations.{load_stream_once}
use paperboat_helper.Session.Manager.{created, create, call}
use paperboat_helper.Session.Manager.Run.{Call, creates, calls, run, new_manager, run_one_name}
use paperboat_helper.Session.Manager.Streams.{run_streams, created-IsConsistent}

abbrev shell : Bytes
shell = b's' ∷ b'h' ∷ []

abbrev cs : List Call
cs =
    creates [] shell (some (b'1' ∷ []) ∷ []) true (some 7) true
    ∷ calls (b'1' ∷ []) (ends 7 0)
    ∷ calls (b'1' ∷ []) (restarts true (some 8) true)
    ∷ []

abbrev restarted : Managed
restarted = record {
  name = shell;
  lifecycle = record { state = running; generation = 2 };
  process = some 8;
  live_process = some (8, 2);
  exit = none;
}

there : lookup (b'1' ∷ []) (run (new_manager 2) cs).sessions ≡ some restarted
unfolding lookup call create insert Bytes_discrete Process.restart Process.process_ended transition
    new add64
there = refl

run_one_name_example :
    let m = run (new_manager 2) cs in
    (length m.sessions ≤ 2)
    × ((i j : Bytes) (s t : Managed)
        → lookup i m.sessions ≡ some s
        → lookup j m.sessions ≡ some t
        → s.name ≡ t.name
        → i ≡ j)
    × ((k i : Bytes)
        → lookup k m.names ≡ some i
        → (s : Managed) × (lookup i m.sessions ≡ some s) × (s.name ≡ k))
run_one_name_example = run_one_name 2 cs

loads : load_stream restarted 2 ≡ ok 8
unfolding load_stream
loads = refl

run_streams_example :
    (is_running restarted.lifecycle.state ≡ true)
    × (restarted.process ≡ some 8)
    × (◌≡◌ {A = ℕ} 2 restarted.lifecycle.generation)
run_streams_example = run_streams 2 cs (b'1' ∷ []) restarted 2 8 there loads

-- A restart that is refused, since the session runs.
abbrev between : List Op
between = restarts true (some 9) true ∷ []

loads_first : load_stream (created shell 7) 1 ≡ ok 7
unfolding load_stream transition new add64
loads_first = refl

loads_second : load_stream (Consistency.run (created shell 7) between) 1 ≡ ok 7
unfolding load_stream transition new add64 Process.restart
loads_second = refl

load_stream_once_example : ◌≡◌ {A = ℕ} 7 7
unfolding transition new add64
load_stream_once_example =
    load_stream_once (created shell 7) [] between 1 7 7 (created-IsConsistent shell 7) (omega arith)
      loads_first loads_second
