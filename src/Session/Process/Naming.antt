-- ===== src/Session/Process/Naming.antt =====
-- No method renames a session.
use paperboat_helper.Base.{
  ℕ, ◌≡◌, refl, Bool, true, false, Option, none, some, arith, Result, ok, err,
}
use paperboat_helper.Session.State.{
  State, Lifecycle, transition, creating, running, exited, restarting, closing, closed, deleted,
}
use paperboat_helper.Session.State as State
use paperboat_helper.Session.Process.{
  Managed, Termination, ended, timed_out, run_process, relaunch, restart_with, restart, terminate,
  start_closing, close_in, close_exited, close, finish_closing, process_ended, delete,
}
use paperboat_helper.Session.Process.Consistency.{
  Op, restarts, closes, finishes_closing, ends, deletes, step,
}

run_process-name : (m : Managed) (p : ℕ) (stored : Bool) → (run_process m p stored).0.name ≡ m.name
unfolding run_process
run_process-name m p stored = ground arith

restart_with-name :
    (m : Managed) (l : Lifecycle × Result State.Error (Unit {0})) (stored : Bool)
    (launched : Option ℕ) (again : Bool)
    → (restart_with m l stored launched again).0.name ≡ m.name
unfolding restart_with relaunch
restart_with-name m (l, err e) stored launched again = refl
restart_with-name m (l, ok u) stored none again = refl
restart_with-name m (l, ok u) false (some p) again = refl
restart_with-name m (l, ok u) true (some p) again =
    run_process-name (record m { lifecycle = l }) p again

terminate-name :
    (m : Managed) (outcome : Termination) (stored : Bool)
    → (terminate m outcome stored).0.name ≡ m.name
unfolding terminate
terminate-name m timed_out stored = refl
terminate-name m (ended code failed) stored = refl

close_in-name :
    (state : State) (m : Managed) (stored : Bool) (code : ℕ) (outcome : Termination) (again : Bool)
    → (close_in state m stored code outcome again).0.name ≡ m.name
unfolding close_in start_closing close_exited
close_in-name running m stored code outcome again = ground (
  arith,
  terminate-name (record m { live_process = none; lifecycle = (transition m.lifecycle closing).0 })
      outcome again,
)
close_in-name closing m stored code outcome again = ground (arith, terminate-name m outcome again)
close_in-name exited m stored code outcome again = refl
close_in-name _ m stored code outcome again = refl

pub delete-name : (m : Managed) (stored : Bool) → (delete m stored).0.name ≡ m.name
unfolding delete
delete-name m stored = ground arith

pub step-name : (m : Managed) (op : Op) → (step m op).name ≡ m.name
unfolding restart close finish_closing process_ended
step-name m (restarts stored launched again) =
    ground (arith, restart_with-name m (transition m.lifecycle restarting) stored launched again)
step-name m (closes stored code outcome again) =
    close_in-name m.lifecycle.state m stored code outcome again
step-name m (finishes_closing p none) = refl
step-name m (finishes_closing p (some code)) = ground arith
step-name m (ends p code) = ground arith
step-name m (deletes stored) = delete-name m stored
