-- ===== src/Session/State.antt =====
-- internal/session/state.go: the lifecycles of a session and of an attachment.
--
-- The mutexes make every method one step. A string that names no state is `none`.
use paperboat_helper.Base.{
  ℕ, ◌+◌, ◌≤◌, ◌<◌, ◌≡◌, refl, ◌⊎◌, Bool, true, false, ◌&&◌, ◌||◌, not, Option, none, some, List,
  [], ◌∷◌, length, ◌==◌, if◌then◌else◌, Result, ok, err, add64, u64_mod, arith, inl, inr,
  Bool-cases, add64_exact,
}

pub data State : Type 0 where
  creating running exited restarting closing closed deleted : State

pub data Error : Type 0 where
  invalid_transition : Error

-- The table `transitions`.
abbrev pub allowed : State → State → Bool
allowed creating running = true
allowed creating exited = true
allowed creating closed = true
allowed running exited = true
allowed running closing = true
allowed running restarting = true
allowed exited restarting = true
allowed exited closing = true
allowed exited deleted = true
allowed restarting running = true
allowed restarting exited = true
allowed restarting closed = true
allowed closing closed = true
allowed closed restarting = true
allowed closed deleted = true
allowed _ _ = false

abbrev pub is_creating : State → Bool
is_creating creating = true
is_creating _ = false

abbrev pub is_running : State → Bool
is_running running = true
is_running _ = false

abbrev pub is_restarting : State → Bool
is_restarting restarting = true
is_restarting _ = false

-- `Running`, `Exited`, `Restarting` or `Closing`.
abbrev pub needs_generation : State → Bool
needs_generation running = true
needs_generation exited = true
needs_generation restarting = true
needs_generation closing = true
needs_generation _ = false

pub record Lifecycle : Type 0 where
  pub state : State
  pub generation : ℕ

unfoldable pub new : Lifecycle
new = record { state = creating; generation = 0 }

unfoldable pub recover : Option State → ℕ → Result Error Lifecycle
recover none generation = err invalid_transition
recover (some state) generation =
    if is_creating state && not (generation == 0) || needs_generation state && generation == 0
    then err invalid_transition
    else ok (record { state = state; generation = generation })

unfoldable pub transition : Lifecycle → State → Lifecycle × Result Error (Unit {0})
transition l to = if not (allowed l.state to) then (l, err invalid_transition) else (
  record {
    state = to;
    generation =
        if is_running to && (is_creating l.state || is_restarting l.state)
        then add64 l.generation 1
        else l.generation;
  },
  ok tt,
)

-- A history of calls of `Transition`, whose errors the callers may ignore.
unfoldable pub run : Lifecycle → List State → Lifecycle
run l [] = l
run l (to ∷ rest) = run (transition l to).0 rest

transition_refused :
    (l : Lifecycle) (to : State) → allowed l.state to ≡ false → (transition l to).0 ≡ l
unfolding transition
transition_refused l to h = rw h

-- The generation never falls, and a step into `running` raises it.
transition_mono :
    (l : Lifecycle) (to : State)
    → l.generation + 1 < u64_mod
    → (l.generation ≤ (transition l to).0.generation)
      × ((transition l to).0.generation ≤ l.generation + 1)
      × (is_running l.state ≡ false
          → is_running (transition l to).0.state ≡ true
          → l.generation < (transition l to).0.generation)
unfolding transition
transition_mono l to h = ground (arith, add64_exact l.generation 1)

run_mono :
    (l : Lifecycle) (ts : List State)
    → l.generation + length ts < u64_mod
    → l.generation ≤ (run l ts).generation
unfolding run
run_mono l [] h = omega arith
run_mono l (to ∷ ts) h =
    let step = transition_mono l to (omega arith) in
    omega (arith, step.0, run_mono (transition l to).0 ts (omega (arith, step.1)))

-- Whatever transitions are tried, a session that is not running and is running later has a larger
-- generation by then, as long as the uint64 does not wrap.
pub run_again :
    (l : Lifecycle) (ts : List State)
    → is_running l.state ≡ false
    → is_running (run l ts).state ≡ true
    → l.generation + length ts < u64_mod
    → l.generation < (run l ts).generation
unfolding run
run_again l [] stopped runs h = cc
run_again l (to ∷ ts) stopped runs h =
    let step = transition_mono l to (omega arith) in
    let l' = (transition l to).0 in
    elim (Bool-cases (is_running l'.state)) [
      | inl started ↦ omega (arith, step.2 stopped started, run_mono l' ts (omega (arith, step.1)))
      | inr idle ↦ omega (arith, step.0, run_again l' ts idle runs (omega (arith, step.1)))
    ]

-- A deleted session stays as it is, whatever transitions are tried.
pub run-deleted : (l : Lifecycle) (ts : List State) → l.state ≡ deleted → run l ts ≡ l
unfolding run
run-deleted l [] h = refl
run-deleted l (to ∷ ts) h =
    let stays = transition_refused l to (ground arith) in rw stays (run-deleted l ts h)

-- What holds of every lifecycle that a new one can become.
record IsLive (l : Lifecycle) : Type 0 where
  fresh : l.state ≡ creating → l.generation ≡ 0
  started : l.state ≡ running → 0 < l.generation

transition-IsLive :
    (l : Lifecycle) (to : State)
    → l.generation + 1 < u64_mod
    → IsLive l
    → IsLive (transition l to).0
unfolding transition
transition-IsLive l to h v = ground (arith, add64_exact l.generation 1)

run-IsLive :
    (l : Lifecycle) (ts : List State)
    → l.generation + length ts < u64_mod
    → IsLive l
    → IsLive (run l ts)
unfolding run
run-IsLive l [] h v = v
run-IsLive l (to ∷ ts) h v =
    let step = transition_mono l to (omega arith) in
    run-IsLive (transition l to).0 ts (omega (arith, step.1))
      (transition-IsLive l to (omega arith) v)

recover_live :
    (l : Lifecycle)
    → IsLive l
    → ((0 < l.generation) ⊎ (needs_generation l.state ≡ false)
        → recover (some l.state) l.generation ≡ ok l)
      × (l.generation ≡ 0
          → needs_generation l.state ≡ true
          → recover (some l.state) l.generation ≡ err invalid_transition)
unfolding recover
recover_live l v = (λ p. ground arith, λ z n. ground arith)

-- After any transitions of a new session, fewer than 2 ^ 64, `RecoverLifecycle` gives back what
-- `Snapshot` returned if the session has run or its state is `creating`, `closed` or `deleted`.
pub recover-run :
    (ts : List State)
    → length ts < u64_mod
    → (0 < (run new ts).generation) ⊎ (needs_generation (run new ts).state ≡ false)
    → recover (some (run new ts).state) (run new ts).generation ≡ ok (run new ts)
unfolding new
recover-run ts h =
    (recover_live (run new ts)
      (run-IsLive new ts (omega arith) (record { fresh = λ _. refl; started = λ e. cc }))).0

-- The states of one client's attachment.
pub data AttachmentState : Type 0 where
  attaching attached detached evicted : AttachmentState

-- The table `attachmentTransitions`.
abbrev pub attachment_allowed : AttachmentState → AttachmentState → Bool
attachment_allowed attaching attached = true
attachment_allowed attaching detached = true
attachment_allowed attaching evicted = true
attachment_allowed attached detached = true
attachment_allowed attached evicted = true
attachment_allowed _ _ = false

-- `Attachment.Transition`.
unfoldable pub attachment_transition :
    AttachmentState → AttachmentState → AttachmentState × Result Error (Unit {0})
attachment_transition state to =
    if not (attachment_allowed state to) then (state, err invalid_transition) else (to, ok tt)

unfoldable pub attachment_run : AttachmentState → List AttachmentState → AttachmentState
attachment_run state [] = state
attachment_run state (to ∷ rest) = attachment_run (attachment_transition state to).0 rest

-- An attachment that is detached or evicted stays so, whatever transitions are tried.
pub attachment_final :
    (state : AttachmentState) (ts : List AttachmentState)
    → (state ≡ detached) ⊎ (state ≡ evicted)
    → attachment_run state ts ≡ state
unfolding attachment_run attachment_transition
attachment_final state [] h = refl
attachment_final state (to ∷ ts) h = ground (arith, attachment_final state ts h)
