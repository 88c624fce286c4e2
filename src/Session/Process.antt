-- ===== src/Session/Process.antt =====
-- internal/session/manager.go: one session of the manager and the process that it runs.
--
-- A session's lock makes each method one step, and `WriteStream`, which does not take it, is the
-- step that loads `liveProcess`. A process is a number that the launcher gives out. What the
-- launcher, the store and `Terminate` answer are arguments; without a store every `stored` is true.
pub mod Consistency
pub mod Generations
pub mod Naming
use paperboat_helper.Base.{
  ℕ, Bool, List, true, false, not, ◌&&◌, ◌||◌, Option, none, some, String, ltb, leb, ◌==◌,
  if◌then◌else◌, Result, ok, err,
}
use paperboat_helper.Session.State as State
use paperboat_helper.Session.State.{
  State, Lifecycle, transition, new, creating, running, exited, restarting, closing, closed,
  deleted, is_running,
}

-- Errors of the launcher, the store and the processes are `external`.
pub data Error : Type 0 where
  session_running invalid_transition invalid_input external : Error
  stale_generation : ℕ → Error

-- `managedSession`, without the parts of Session/Live.
pub record Managed : Type 0 where
  pub name : List ℕ
  pub lifecycle : Lifecycle
  pub process : Option ℕ
  -- process and generation
  pub live_process : Option (ℕ × ℕ)
  pub exit : Option ℕ

abbrev pub is_exited_or_closed : State → Bool
is_exited_or_closed exited = true
is_exited_or_closed closed = true
is_exited_or_closed _ = false

abbrev pub is_closing : State → Bool
is_closing closing = true
is_closing _ = false

abbrev pub has_process : Option ℕ → Bool
has_process none = false
has_process (some p) = true

abbrev pub is_process : Option ℕ → ℕ → Bool
is_process none p = false
is_process (some q) p = q == p

-- `_ = session.lifecycle.Transition(to)`.
abbrev pub moved : Lifecycle → State → Lifecycle
moved l to = (transition l to).0

-- The end of `Restart`, with the process that was launched.
unfoldable pub run_process : Managed → ℕ → Bool → Managed × Result Error (Unit {0})
run_process m p stored =
    let (l, done) = transition m.lifecycle running in
    elim done [
      | err e ↦ (m, err invalid_transition)
      | ok _ ↦
          if stored
          then (
            record m {
              lifecycle = l;
              process = some p;
              live_process = some (p, l.generation);
              exit = none;
            },
            ok tt,
          )
          else (
            record m {
              lifecycle = moved l exited;
              process = none;
              live_process = none;
              exit = none;
            },
            err external,
          )
    ]

-- `Restart` behind its first transition.
unfoldable pub relaunch : Managed → Bool → Option ℕ → Bool → Managed × Result Error (Unit {0})
unfolding run_process
relaunch m stored none stored_again =
    (record m { lifecycle = moved m.lifecycle closed }, err external)
relaunch m stored (some p) stored_again =
    if stored
    then run_process m p stored_again
    else (record m { lifecycle = moved m.lifecycle closed }, err external)

-- `Restart` with its first transition.
unfoldable pub restart_with :
    Managed
    → Lifecycle × Result State.Error (Unit {0})
    → Bool
    → Option ℕ
    → Bool
    → Managed × Result Error (Unit {0})
unfolding relaunch
restart_with m (l, err e) stored launched stored_again = (m, err invalid_transition)
restart_with m (l, ok _) stored launched stored_again =
    relaunch (record m { lifecycle = l }) stored launched stored_again

-- `Restart`: what the store says to the state `restarting`, the launcher, and the store again.
unfoldable pub restart : Managed → Bool → Option ℕ → Bool → Managed × Result Error (Unit {0})
unfolding restart_with
restart m stored launched stored_again =
    if not (is_exited_or_closed m.lifecycle.state)
    then (m, err session_running)
    else restart_with m (transition m.lifecycle restarting) stored launched stored_again

-- `Terminate`: the process has ended, with an error or without one, or the time is over.
pub data Termination : Type 0 where
  ended : ℕ → Bool → Termination
  timed_out : Termination

-- `Close` of a session whose state is `closing`.
unfoldable pub terminate : Managed → Termination → Bool → Managed × Result Error (Unit {0})
terminate m timed_out stored = (m, err external)
terminate m (ended code failed) stored = (
  record m {
    lifecycle = moved m.lifecycle closed;
    process = none;
    live_process = none;
    exit = some code;
  },
  if stored && not failed then ok tt else err external,
)

-- `Close` of a running session, when the store has or has not taken `closing`; `code` is what the
-- process ends with where it has not.
unfoldable pub start_closing :
    Managed → Bool → ℕ → Termination → Bool → Managed × Result Error (Unit {0})
unfolding terminate
start_closing m stored code outcome stored_again =
    let closing_m = record m { live_process = none; lifecycle = moved m.lifecycle closing } in
    if stored then terminate closing_m outcome stored_again else (
      record closing_m {
        lifecycle = moved closing_m.lifecycle closed;
        process = none;
        exit = some code;
      },
      err external,
    )

unfoldable pub close_exited : Managed → Bool → Managed × Result Error (Unit {0})
close_exited m stored = (
  record m { lifecycle = moved (moved m.lifecycle closing) closed },
  if stored then ok tt else err external,
)

-- `Close`, by the state.
unfoldable pub close_in :
    State → Managed → Bool → ℕ → Termination → Bool → Managed × Result Error (Unit {0})
unfolding close_exited start_closing terminate
close_in closed m stored code outcome stored_again = (m, ok tt)
close_in exited m stored code outcome stored_again = close_exited m stored
close_in running m stored code outcome stored_again =
    if has_process m.process
    then start_closing m stored code outcome stored_again
    else (m, err session_running)
close_in closing m stored code outcome stored_again =
    if has_process m.process then terminate m outcome stored_again else (m, err session_running)
close_in _ m stored code outcome stored_again = (m, err session_running)

unfoldable pub close : Managed → Bool → ℕ → Termination → Bool → Managed × Result Error (Unit {0})
unfolding close_in
close m = close_in m.lifecycle.state m

-- `finishClosing`, of a process whose `Terminate` gives an exit or an error.
unfoldable pub finish_closing : Managed → ℕ → Option ℕ → Managed
finish_closing m p none = m
finish_closing m p (some code) =
    if not (is_closing m.lifecycle.state) || not (is_process m.process p)
    then m
    else record m { exit = some code; process = none; lifecycle = moved m.lifecycle closed }

-- The end of `capture`: a process has ended by itself.
unfoldable pub process_ended : Managed → ℕ → ℕ → Managed
process_ended m p code =
    if not (is_process m.process p)
    then m
    else if is_running m.lifecycle.state
    then record m {
      lifecycle = moved m.lifecycle exited;
      exit = some code;
      live_process = none;
      process = none;
    }
    else m

-- `Delete`, but for the maps of the manager.
unfoldable pub delete : Managed → Bool → Managed × Result Error (Unit {0})
delete m stored =
    if not (is_exited_or_closed m.lifecycle.state)
    then (m, err session_running)
    else if not stored
    then (m, err external)
    else (record m { lifecycle = moved m.lifecycle deleted }, ok tt)

-- What `WriteStream` loads: the process that it writes to.
unfoldable pub load_stream : Managed → ℕ → Result Error ℕ
load_stream m generation = elim m.live_process [
  | none ↦ err (stale_generation m.lifecycle.generation)
  | some (p, g) ↦ if generation == g then ok p else err (stale_generation m.lifecycle.generation)
]

-- `Signal`: the process that is signalled.
unfoldable pub signal : Managed → ℕ → Result Error ℕ
signal m generation = elim m.process [
  | none ↦ err (stale_generation m.lifecycle.generation)
  | some p ↦
      if not (is_running m.lifecycle.state) || not (generation == m.lifecycle.generation)
      then err (stale_generation m.lifecycle.generation)
      else ok p
]
