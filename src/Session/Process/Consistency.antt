-- ===== src/Session/Process/Consistency.antt =====
-- A session has a process exactly while it runs or closes, and publishes it for streams only while
-- it runs.
use paperboat_helper.Base.{
  ℕ, ◌≡◌, refl, sym, subst, ap, ◌∙◌, Bool, true, false, not, ◌||◌, Option, none, some, List, [],
  ◌∷◌, arith, ok, inl, inr, Bool-cases,
}
use paperboat_helper.Session.State.{
  State, Lifecycle, transition, creating, running, exited, restarting, closing, closed, deleted,
  is_running, allowed,
}
use paperboat_helper.Session.Process.{
  Managed, moved, Termination, ended, timed_out, is_closing, is_exited_or_closed, has_process,
  is_process, run_process, relaunch, restart, terminate, start_closing, close_exited, close_in,
  close, finish_closing, process_ended, delete,
}

-- The live process is the session's, of its generation, and the session runs.
abbrev pub IsLive : Option (ℕ × ℕ) → Managed → Type 0
IsLive none m = Unit {0}
IsLive (some (p, g)) m =
    (is_running m.lifecycle.state ≡ true) × (m.process ≡ some p) × (g ≡ m.lifecycle.generation)

pub record IsConsistent (m : Managed) : Type 0 where
  pub held : has_process m.process ≡ is_running m.lifecycle.state || is_closing m.lifecycle.state
  pub published : IsLive m.live_process m

-- A session without a process.
idle-IsConsistent :
    (m : Managed)
    → m.process ≡ none
    → m.live_process ≡ none
    → (is_running m.lifecycle.state || is_closing m.lifecycle.state) ≡ false
    → IsConsistent m
idle-IsConsistent m p l s = record {
  held = rw p (sym s);
  published = subst (λ o. IsLive o m) (sym l) tt;
}

run_process-IsConsistent :
    (m : Managed) (p : ℕ) (stored : Bool)
    → m.lifecycle.state ≡ restarting
    → m.process ≡ none
    → m.live_process ≡ none
    → IsConsistent (run_process m p stored).0
unfolding run_process transition
run_process-IsConsistent m p true s n l =
    rw s (record { held = refl; published = (refl, refl, refl) })
run_process-IsConsistent m p false s n l = rw s (record { held = refl; published = tt })

relaunch-IsConsistent :
    (m : Managed) (stored : Bool) (launched : Option ℕ) (stored_again : Bool)
    → m.lifecycle.state ≡ restarting
    → m.process ≡ none
    → m.live_process ≡ none
    → IsConsistent (relaunch m stored launched stored_again).0
unfolding relaunch transition
relaunch-IsConsistent m stored none again s n l =
    rw s (idle-IsConsistent (record m { lifecycle = _ }) n l refl)
relaunch-IsConsistent m false (some p) again s n l =
    rw s (idle-IsConsistent (record m { lifecycle = _ }) n l refl)
relaunch-IsConsistent m true (some p) again s n l = run_process-IsConsistent m p again s n l

no_process : (o : Option ℕ) → has_process o ≡ false → o ≡ none
no_process none h = refl
no_process (some p) h = absurd (cc h)

no_live :
    (o : Option (ℕ × ℕ)) (m : Managed)
    → IsLive o m
    → (is_running m.lifecycle.state || is_closing m.lifecycle.state) ≡ false
    → o ≡ none
no_live none m v s = refl
no_live (some (p, g)) m v s = absurd (ground (arith, v.0))

-- What consistency says of a session that neither runs nor closes.
idle_process :
    (m : Managed)
    → IsConsistent m
    → (is_running m.lifecycle.state || is_closing m.lifecycle.state) ≡ false
    → (m.process ≡ none) × (m.live_process ≡ none)
idle_process m v s = (no_process m.process (v.held ∙ s), no_live m.live_process m v.published s)

pub may_restart :
    (state : State) → is_exited_or_closed state ≡ true → allowed state restarting ≡ true
may_restart state h = ground arith

at_rest :
    (state : State)
    → is_exited_or_closed state ≡ true
    → (is_running state || is_closing state) ≡ false
at_rest state h = ground arith

-- A transition that is allowed and does not run the session.
pub quiet_transition :
    (l : Lifecycle) (to : State)
    → allowed l.state to ≡ true
    → is_running to ≡ false
    → transition l to ≡ (record { state = to; generation = l.generation }, ok tt)
unfolding transition
quiet_transition l to h q = ground arith

pub quiet_move :
    (l : Lifecycle) (to : State)
    → allowed l.state to ≡ true
    → is_running to ≡ false
    → moved l to ≡ record { state = to; generation = l.generation }
quiet_move l to h q = ap (λ r. r.0) (quiet_transition l to h q)

pub restart-IsConsistent :
    (m : Managed) (stored : Bool) (launched : Option ℕ) (again : Bool)
    → IsConsistent m
    → IsConsistent (restart m stored launched again).0
unfolding restart
restart-IsConsistent m stored launched again v =
    elim (Bool-cases (is_exited_or_closed m.lifecycle.state)) [
      | inr busy ↦ rw busy v
      | inl idle ↦
          let (n, l) = idle_process m v (at_rest m.lifecycle.state idle) in
          rw
            (
              idle,
              quiet_transition m.lifecycle restarting (may_restart m.lifecycle.state idle) refl,
            )
            (relaunch-IsConsistent
              (record m {
                lifecycle = record { state = restarting; generation = m.lifecycle.generation };
              })
              stored launched again refl n l)
    ]

-- `Terminate` of a session whose state is `closing`.
terminate-IsConsistent :
    (m : Managed) (outcome : Termination) (stored : Bool)
    → m.lifecycle.state ≡ closing
    → IsConsistent m
    → IsConsistent (terminate m outcome stored).0
unfolding terminate transition
terminate-IsConsistent m timed_out stored s v = v
terminate-IsConsistent m (ended code failed) stored s v =
    rw s (record { held = refl; published = tt })

start_closing-IsConsistent :
    (m : Managed) (stored : Bool) (code : ℕ) (outcome : Termination) (again : Bool)
    → m.lifecycle.state ≡ running
    → has_process m.process ≡ true
    → IsConsistent (start_closing m stored code outcome again).0
unfolding start_closing transition
start_closing-IsConsistent m false code outcome again s h =
    rw s (record { held = refl; published = tt })
start_closing-IsConsistent m true code outcome again s h = rw s (
    terminate-IsConsistent
      (record m {
        live_process = none;
        lifecycle = record { state = closing; generation = m.lifecycle.generation };
      })
      outcome again refl (record { held = h; published = tt }))

close_exited-IsConsistent :
    (m : Managed) (stored : Bool)
    → m.lifecycle.state ≡ exited
    → IsConsistent m
    → IsConsistent (close_exited m stored).0
unfolding close_exited transition
close_exited-IsConsistent m stored s v =
    let (n, l) = idle_process m v (rw s) in
    rw s (
      idle-IsConsistent
        (record m { lifecycle = record { state = closed; generation = m.lifecycle.generation } }) n
        l refl)

close_in-IsConsistent :
    (state : State) (m : Managed) (stored : Bool) (code : ℕ) (outcome : Termination) (again : Bool)
    → m.lifecycle.state ≡ state
    → IsConsistent m
    → IsConsistent (close_in state m stored code outcome again).0
unfolding close_in
close_in-IsConsistent creating m stored code outcome again s v = v
close_in-IsConsistent restarting m stored code outcome again s v = v
close_in-IsConsistent deleted m stored code outcome again s v = v
close_in-IsConsistent closed m stored code outcome again s v = v
close_in-IsConsistent exited m stored code outcome again s v =
    close_exited-IsConsistent m stored s v
close_in-IsConsistent running m stored code outcome again s v =
    elim (Bool-cases (has_process m.process)) [
      | inr nothing ↦ rw nothing v
      | inl there ↦ rw there (start_closing-IsConsistent m stored code outcome again s there)
    ]
close_in-IsConsistent closing m stored code outcome again s v =
    elim (Bool-cases (has_process m.process)) [
      | inr nothing ↦ rw nothing v
      | inl there ↦ rw there (terminate-IsConsistent m outcome again s v)
    ]

pub close-IsConsistent :
    (m : Managed) (stored : Bool) (code : ℕ) (outcome : Termination) (again : Bool)
    → IsConsistent m
    → IsConsistent (close m stored code outcome again).0
unfolding close
close-IsConsistent m stored code outcome again v =
    close_in-IsConsistent m.lifecycle.state m stored code outcome again refl v

may_close :
    (state : State)
    → is_closing state ≡ true
    → (allowed state closed ≡ true) × (is_running state ≡ false)
may_close state h = ground arith

may_exit : (state : State) → is_running state ≡ true → allowed state exited ≡ true
may_exit state h = ground arith

may_delete : (state : State) → is_exited_or_closed state ≡ true → allowed state deleted ≡ true
may_delete state h = ground arith

-- There is no live process where the session does not run.
closed-IsLive :
    (o : Option (ℕ × ℕ)) (m m' : Managed)
    → IsLive o m
    → is_running m.lifecycle.state ≡ false
    → IsLive o m'
closed-IsLive none m m' v s = tt
closed-IsLive (some (p, g)) m m' v s = absurd (cc (v.0, s))

pub finish_closing-IsConsistent :
    (m : Managed) (p : ℕ) (outcome : Option ℕ)
    → IsConsistent m
    → IsConsistent (finish_closing m p outcome)
unfolding finish_closing
finish_closing-IsConsistent m p none v = v
finish_closing-IsConsistent m p (some code) v =
    elim (Bool-cases (not (is_closing m.lifecycle.state) || not (is_process m.process p))) [
      | inl other ↦ rw other v
      | inr mine ↦
          let (can, still) = may_close m.lifecycle.state (ground arith) in
          rw (mine, quiet_move m.lifecycle closed can refl)
            (record { held = refl; published = closed-IsLive m.live_process m _ v.published still })
    ]

pub process_ended-IsConsistent :
    (m : Managed) (p code : ℕ) → IsConsistent m → IsConsistent (process_ended m p code)
unfolding process_ended
process_ended-IsConsistent m p code v = elim (Bool-cases (not (is_process m.process p))) [
  | inl other ↦ rw other v
  | inr mine ↦ elim (Bool-cases (is_running m.lifecycle.state)) [
    | inr idle ↦ rw (mine, idle) v
    | inl on ↦
        rw (mine, on, quiet_move m.lifecycle exited (may_exit m.lifecycle.state on) refl)
          (record { held = refl; published = tt })
  ]
]

pub delete-IsConsistent :
    (m : Managed) (stored : Bool) → IsConsistent m → IsConsistent (delete m stored).0
unfolding delete
delete-IsConsistent m stored v = elim (Bool-cases (is_exited_or_closed m.lifecycle.state)) [
  | inr busy ↦ rw busy v
  | inl idle ↦ elim (Bool-cases stored) [
    | inr refused ↦ rw (idle, refused) v
    | inl taken ↦
        let (n, l) = idle_process m v (at_rest m.lifecycle.state idle) in
        rw (idle, taken, quiet_move m.lifecycle deleted (may_delete m.lifecycle.state idle) refl)
          (idle-IsConsistent
            (record m {
              lifecycle = record { state = deleted; generation = m.lifecycle.generation };
            })
            n l refl)
  ]
]

-- The calls of a session, with what the launcher, the store and the process answer.
pub data Op : Type 0 where
  restarts : Bool → Option ℕ → Bool → Op
  closes : Bool → ℕ → Termination → Bool → Op
  finishes_closing : ℕ → Option ℕ → Op
  ends : ℕ → ℕ → Op
  deletes : Bool → Op

abbrev pub step : Managed → Op → Managed
step m (restarts stored launched again) = (restart m stored launched again).0
step m (closes stored code outcome again) = (close m stored code outcome again).0
step m (finishes_closing p outcome) = finish_closing m p outcome
step m (ends p code) = process_ended m p code
step m (deletes stored) = (delete m stored).0

abbrev pub run : Managed → List Op → Managed
run m [] = m
run m (op ∷ ops) = run (step m op) ops

pub step-IsConsistent : (m : Managed) (op : Op) → IsConsistent m → IsConsistent (step m op)
step-IsConsistent m (restarts stored launched again) v =
    restart-IsConsistent m stored launched again v
step-IsConsistent m (closes stored code outcome again) v =
    close-IsConsistent m stored code outcome again v
step-IsConsistent m (finishes_closing p outcome) v = finish_closing-IsConsistent m p outcome v
step-IsConsistent m (ends p code) v = process_ended-IsConsistent m p code v
step-IsConsistent m (deletes stored) v = delete-IsConsistent m stored v

pub run-IsConsistent : (m : Managed) (ops : List Op) → IsConsistent m → IsConsistent (run m ops)
run-IsConsistent m [] v = v
run-IsConsistent m (op ∷ ops) v = run-IsConsistent (step m op) ops (step-IsConsistent m op v)
