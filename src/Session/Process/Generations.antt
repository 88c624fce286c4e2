-- ===== src/Session/Process/Generations.antt =====
-- A generation names one process: what a stream writes under it never reaches another one.
use paperboat_helper.Base.{
  ℕ, ◌+◌, ◌≤◌, ◌<◌, ◌≡◌, refl, subst, Bool, true, false, Option, none, some, List, [], ◌∷◌, length,
  arith, ok, add64_exact, u64_mod, inl, inr, ◌⊎◌, Bool-cases,
}
use paperboat_helper.Session.State.{
  State, Lifecycle, transition, running, exited, restarting, closing, closed, deleted, is_running,
}
use paperboat_helper.Session.Process.{
  Managed, Termination, ended, timed_out, moved, is_exited_or_closed, run_process, relaunch,
  restart, restart_with, terminate, start_closing, close_exited, close_in, close, finish_closing,
  process_ended, delete, load_stream,
}
use paperboat_helper.Session.Process.Consistency.{
  Op, restarts, closes, finishes_closing, ends, deletes, step, run, IsConsistent, IsLive,
  run-IsConsistent, quiet_transition, may_restart,
}

-- The generation is higher, or it is the same, and the live process is the same or gone.
abbrev pub Later : Managed → Managed → Type 0
Later m m' =
    (m.lifecycle.generation < m'.lifecycle.generation)
    ⊎ ((m'.lifecycle.generation ≡ m.lifecycle.generation)
        × ((m'.live_process ≡ m.live_process) ⊎ (m'.live_process ≡ none)))

-- It rises by one at most.
abbrev Follows : Managed → Managed → Type 0
Follows m m' = Later m m' × (m'.lifecycle.generation ≤ m.lifecycle.generation + 1)

Later-trans : (a b c : Managed) → Later a b → Later b c → Later a c
Later-trans a b c h k = ground arith

quiet_generation :
    (l : Lifecycle) (to : State) → is_running to ≡ false → (moved l to).generation ≡ l.generation
unfolding transition
quiet_generation l to q = ground arith

run_process-Follows :
    (m : Managed) (p : ℕ) (stored : Bool)
    → m.lifecycle.state ≡ restarting
    → m.lifecycle.generation + 1 < u64_mod
    → Follows m (run_process m p stored).0
unfolding run_process transition
run_process-Follows m p true s lt =
    let exact = add64_exact m.lifecycle.generation 1 lt in
    rw s (inl (omega (arith, exact)), omega (arith, exact))
run_process-Follows m p false s lt =
    let exact = add64_exact m.lifecycle.generation 1 lt in
    rw s (inl (omega (arith, exact)), omega (arith, exact))

relaunch-Follows :
    (m : Managed) (stored : Bool) (launched : Option ℕ) (again : Bool)
    → m.lifecycle.state ≡ restarting
    → m.lifecycle.generation + 1 < u64_mod
    → Follows m (relaunch m stored launched again).0
unfolding relaunch
relaunch-Follows m stored none again s lt = ground (arith, quiet_generation m.lifecycle closed refl)
relaunch-Follows m false (some p) again s lt =
    ground (arith, quiet_generation m.lifecycle closed refl)
relaunch-Follows m true (some p) again s lt = run_process-Follows m p again s lt

restart-Follows :
    (m : Managed) (stored : Bool) (launched : Option ℕ) (again : Bool)
    → m.lifecycle.generation + 1 < u64_mod
    → Follows m (restart m stored launched again).0
unfolding restart restart_with
restart-Follows m stored launched again lt =
    elim (Bool-cases (is_exited_or_closed m.lifecycle.state)) [
      | inr busy ↦ rw busy (inr (refl, inl refl), omega arith)
      | inl idle ↦
          let l : Lifecycle = record { state = restarting; generation = m.lifecycle.generation } in
          rw
            (
              idle,
              quiet_transition m.lifecycle restarting (may_restart m.lifecycle.state idle) refl,
            )
            (relaunch-Follows (record m { lifecycle = l }) stored launched again refl lt)
    ]

terminate-Follows :
    (m : Managed) (outcome : Termination) (stored : Bool) → Follows m (terminate m outcome stored).0
unfolding terminate
terminate-Follows m timed_out stored = ground arith
terminate-Follows m (ended code failed) stored =
    ground (arith, quiet_generation m.lifecycle closed refl)

start_closing-Follows :
    (m : Managed) (stored : Bool) (code : ℕ) (outcome : Termination) (again : Bool)
    → Follows m (start_closing m stored code outcome again).0
unfolding start_closing terminate
start_closing-Follows m stored code timed_out again = ground (
  arith,
  quiet_generation m.lifecycle closing refl,
  quiet_generation (moved m.lifecycle closing) closed refl,
)
start_closing-Follows m stored code (ended end failed) again = ground (
  arith,
  quiet_generation m.lifecycle closing refl,
  quiet_generation (moved m.lifecycle closing) closed refl,
)

close_in-Follows :
    (state : State) (m : Managed) (stored : Bool) (code : ℕ) (outcome : Termination) (again : Bool)
    → Follows m (close_in state m stored code outcome again).0
unfolding close_in close_exited
close_in-Follows running m stored code outcome again =
    ground (arith, start_closing-Follows m stored code outcome again)
close_in-Follows closing m stored code outcome again =
    ground (arith, terminate-Follows m outcome again)
close_in-Follows exited m stored code outcome again = ground (
  arith,
  quiet_generation m.lifecycle closing refl,
  quiet_generation (moved m.lifecycle closing) closed refl,
)
close_in-Follows _ m stored code outcome again = ground arith

step-Follows :
    (m : Managed) (op : Op) → m.lifecycle.generation + 1 < u64_mod → Follows m (step m op)
unfolding close finish_closing process_ended delete
step-Follows m (restarts stored launched again) lt = restart-Follows m stored launched again lt
step-Follows m (closes stored code outcome again) lt =
    close_in-Follows m.lifecycle.state m stored code outcome again
step-Follows m (finishes_closing p none) lt = ground arith
step-Follows m (finishes_closing p (some code)) lt =
    ground (arith, quiet_generation m.lifecycle closed refl)
step-Follows m (ends p code) lt = ground (arith, quiet_generation m.lifecycle exited refl)
step-Follows m (deletes stored) lt = ground (arith, quiet_generation m.lifecycle deleted refl)

run-Later :
    (m : Managed) (ops : List Op)
    → m.lifecycle.generation + length ops < u64_mod
    → Later m (run m ops)
run-Later m [] lt = inr (refl, inl refl)
run-Later m (op ∷ ops) lt =
    let (later, rise) = step-Follows m op (omega arith) in
    Later-trans m (step m op) (run (step m op) ops) later (run-Later (step m op) ops (omega arith))

run-rise :
    (m : Managed) (ops : List Op)
    → m.lifecycle.generation + length ops < u64_mod
    → (run m ops).lifecycle.generation ≤ m.lifecycle.generation + length ops
run-rise m [] lt = omega arith
run-rise m (op ∷ ops) lt =
    let (later, rise) = step-Follows m op (omega arith) in
    omega (arith, run-rise (step m op) ops (omega arith))

live_generation :
    (m : Managed) (p g : ℕ)
    → IsConsistent m
    → m.live_process ≡ some (p, g)
    → g ≡ m.lifecycle.generation
live_generation m p g v l =
    let published : IsLive (some (p, g)) m = subst (λ o. IsLive o m) l v.published in published.2

pub load_found : (m : Managed) (g p : ℕ) → load_stream m g ≡ ok p → m.live_process ≡ some (p, g)
unfolding load_stream
load_found m g p h = ground arith

-- Two streams that write to a consistent session under one generation, at any two times, with fewer
-- than 2 ^ 64 calls in all, write to the same process.
pub load_stream_once :
    (m : Managed) (before between : List Op) (g p q : ℕ)
    → IsConsistent m
    → m.lifecycle.generation + length before + length between < u64_mod
    → load_stream (run m before) g ≡ ok p
    → load_stream (run (run m before) between) g ≡ ok q
    → q ≡ p
load_stream_once m before between g p q v lt first second =
    let m1 = run m before in
    let m2 = run m1 between in
    let v1 = run-IsConsistent m before v in
    let v2 = run-IsConsistent m1 between v1 in
    let l1 = load_found m1 g p first in
    let l2 = load_found m2 g q second in
    let later : Later m1 m2 =
      run-Later m1 between (omega (arith, run-rise m before (omega arith))) in
    ground (arith, later, l1, l2, live_generation m1 p g v1 l1, live_generation m2 q g v2 l2)
