-- ===== src/Connector/Racing/Outcomes.antt =====
-- How a race ends, in any order of what happens.
use paperboat_helper.Base.{
  ◌≡◌, refl, subst, inl, inr, Bool, true, false, Option, none, some, arith, Option-cases,
}
use paperboat_helper.Connector.Racing.{
  Transport, Slot, leading, trailing, Candidate, Outcome, opened, Race, begin, is_running, Step,
  timed, opens, fails, stops, closes, interrupts, Reached, here, further,
}
use paperboat_helper.Connector.Racing.Condition.{stopped, holds, kept, won, fine}
use paperboat_helper.Connector.Racing.Condition.{
  begin-fine, start_second-fine, on_success-fine, on_failure-fine, on_done-fine,
}
use paperboat_helper.Connector.Racing.Closing.{interrupt-fine, close-fine, fine_ended}

running_none : (o : Option Outcome) → is_running o ≡ true → o ≡ none
running_none none h = refl
running_none (some x) h = absurd (ground (arith, h))

step-fine : {r s : Race} → Step r s → fine r ≡ true → fine s ≡ true
step-fine (timed r h) f = start_second-fine r (running_none r.outcome h) f
step-fine (opens i r h p) f = on_success-fine i r (running_none r.outcome h) p f
step-fine (fails i r h p) f = on_failure-fine i r (running_none r.outcome h) p f
step-fine (stops r h k) f = on_done-fine r (running_none r.outcome h) k f
step-fine (closes r) f = close-fine r f
step-fine (interrupts r) f = interrupt-fine r f

reached-fine :
    (preference : Option Transport) {r : Race} → Reached (begin preference) r → fine r ≡ true
reached-fine preference here = begin-fine preference
reached-fine preference (further run step) = step-fine step (reached-fine preference run)

abbrev pub candidate : Slot → Race → Option Candidate
candidate leading r = some r.first
candidate trailing r = r.second

abbrev pub other_slot : Slot → Slot
other_slot leading = trailing
other_slot trailing = leading

abbrev pub IsStopped : Candidate → Type 0
IsStopped c = (c.canceled ≡ true) × (c.closed ≡ true)

holds_some :
    (p : Candidate → Bool) (o : Option Candidate) (c : Candidate)
    → holds p o ≡ true
    → o ≡ some c
    → p c ≡ true
holds_some p o c h e = subst (λ x. holds p x ≡ true) e h

-- What `won` says of the two candidates.
won_candidates :
    (r : Race) (i : Slot)
    → won r (some i) ≡ true
    → (holds stopped (candidate (other_slot i) r) ≡ true) × (holds (kept r) (candidate i r) ≡ true)
won_candidates r leading f = (ground (arith, f), ground (arith, f))
won_candidates r trailing f = (ground (arith, f), ground (arith, f))

stopped-IsStopped : (c : Candidate) → stopped c ≡ true → IsStopped c
stopped-IsStopped c h = (ground arith, ground arith)

kept_alone :
    (r : Race) (c : Candidate)
    → r.canceled ≡ false
    → kept r c ≡ true
    → (c.canceled ≡ false) × (c.closed ≡ false)
kept_alone r c k h = (ground arith, ground arith)

-- However the timer, the results of the candidates, `Close` and the context of the connector
-- interleave, a race that `Open` ends without an error has a winner; the other candidate, if it was
-- started, is cancelled and closed; and as long as the race is not cancelled, the winner is neither
-- cancelled nor closed.
pub race_wins :
    (preference : Option Transport) (r : Race)
    → Reached (begin preference) r
    → r.outcome ≡ some opened
    → (i : Slot) × (r.winner ≡ some i)
      × ((c : Candidate) → candidate (other_slot i) r ≡ some c → IsStopped c)
      × (r.canceled ≡ false
          → (c : Candidate) → candidate i r ≡ some c
          → (c.canceled ≡ false) × (c.closed ≡ false))
race_wins preference r run h =
    let f = fine_ended r (some opened) h (reached-fine preference run) in
    elim (Option-cases r.winner) [
      | inl nobody ↦ absurd (ground (arith, subst (λ x. won r x ≡ true) nobody f))
      | inr (i, w) ↦
          let (lost, alive) = won_candidates r i (subst (λ x. won r x ≡ true) w f) in
          (
            i,
            w,
            λ c e. stopped-IsStopped c (holds_some stopped (candidate (other_slot i) r) c lost e),
            λ k c e. kept_alone r c k (holds_some (kept r) (candidate i r) c alive e),
          )
    ]
