-- ===== src/Connector/Racing/Closing.antt =====
-- A race that is cancelled, from outside or by `Close`.
use paperboat_helper.Base.{
  ◌≡◌, refl, sym, subst, ◌∙◌, inl, inr, Bool, true, false, not, ◌&&◌, ◌||◌, Option, none, some,
  if◌then◌else◌, arith, Option-cases,
}
use paperboat_helper.Connector.Racing.{
  Slot, leading, trailing, Candidate, Outcome, opened, unavailable, exhausted, interrupted, Race,
  shut, change, change_all, cancel_race, shut_winner, close, interrupt,
}
use paperboat_helper.Connector.Racing.Condition.{won, unwon, fine_at, fine}

-- A cancellation, with what holds of the second candidate and the winner written out.
won_canceled : (r : Race) (i : Slot) → won r (some i) ≡ true → won (cancel_race r) (some i) ≡ true
unfolding cancel_race change_all
won_canceled r leading f = elim (Option-cases r.second) [
  | inl none_more ↦ rw none_more (ground arith)
  | inr (c, both) ↦ let g = rw both at f in rw both (ground arith)
]
won_canceled r trailing f = elim (Option-cases r.second) [
  | inl none_more ↦ rw none_more (ground arith)
  | inr (c, both) ↦ let g = rw both at f in rw both (ground arith)
]

winner_canceled : (r : Race) (w : Option Slot) → won r w ≡ true → won (cancel_race r) w ≡ true
winner_canceled r none f = absurd (ground (arith, f))
winner_canceled r (some i) f = won_canceled r i f

-- What has ended stays as it is when the race is cancelled.
ended_canceled :
    (r : Race) (o : Outcome) → fine_at r (some o) ≡ true → fine_at (cancel_race r) (some o) ≡ true
unfolding cancel_race change_all
ended_canceled r opened f = winner_canceled r r.winner f
ended_canceled r exhausted f = elim (Option-cases r.second) [
  | inl none_more ↦ let g = rw none_more at f in rw none_more (ground arith)
  | inr (c, both) ↦ let g = rw both at f in rw both (ground arith)
]
ended_canceled r interrupted f = elim (Option-cases r.second) [
  | inl none_more ↦ let g = rw none_more at f in rw none_more (ground arith)
  | inr (c, both) ↦ let g = rw both at f in rw both (ground arith)
]
ended_canceled r unavailable f = elim (Option-cases r.second) [
  | inl none_more ↦ let g = rw none_more at f in rw none_more (ground arith)
  | inr (c, both) ↦ let g = rw both at f in rw both (ground arith)
]

won_context :
    (r : Race) (i : Slot)
    → won r (some i) ≡ true
    → won (record r { interrupted_context = true }) (some i) ≡ true
won_context r leading f = f
won_context r trailing f = f

ended_context :
    (r : Race) (o : Outcome)
    → fine_at r (some o) ≡ true
    → fine_at (record r { interrupted_context = true }) (some o) ≡ true
ended_context r opened f = elim (Option-cases r.winner) [
  | inl nobody ↦ let g = rw nobody at f in absurd (ground (arith, g))
  | inr (i, w) ↦ let g = rw w at f in rw w (won_context r i g)
]
ended_context r exhausted f = f
ended_context r interrupted f = ground arith
ended_context r unavailable f = f

and_true : (a b : Bool) → a ≡ true → b ≡ true → (a && b) ≡ true
and_true a b h k = ground arith

ended_fine :
    (r : Race) (o : Option Outcome)
    → r.outcome ≡ o
    → (not r.closed || r.canceled) ≡ true
    → fine_at r o ≡ true
    → fine r ≡ true
ended_fine r o h k f =
    and_true (not r.closed || r.canceled) (fine_at r r.outcome) k
      (subst (λ x. fine_at r x ≡ true) (sym h) f)

pub fine_ended :
    (r : Race) (o : Option Outcome) → r.outcome ≡ o → fine r ≡ true → fine_at r o ≡ true
fine_ended r o h f = subst (λ x. fine_at r x ≡ true) h (ground (arith, f))

pub interrupt-fine : (r : Race) → fine r ≡ true → fine (interrupt r) ≡ true
unfolding interrupt cancel_race change_all
interrupt-fine r f = elim (Option-cases r.outcome) [
  | inl h ↦ elim (Option-cases r.second) [
    | inl none_more ↦ let g = rw (none_more, h) at f in rw (none_more, h) (ground arith)
    | inr (c, both) ↦ let g = rw (both, h) at f in rw (both, h) (ground arith)
  ]
  | inr (o, h) ↦
      ended_fine (interrupt r) (some o) h (ground arith)
        (ended_context (cancel_race r) o (ended_canceled r o (fine_ended r (some o) h f)))
]

-- Once the race is cancelled, the winner may be closed too.
shut_canceled :
    (r : Race) (i j : Slot)
    → r.canceled ≡ true
    → won r (some j) ≡ true
    → won (change i shut r) (some j) ≡ true
unfolding change
shut_canceled r leading leading k f = elim (Option-cases r.second) [
  | inl none_more ↦ let g = rw none_more at f in rw none_more (ground arith)
  | inr (c, both) ↦ let g = rw both at f in rw both (ground arith)
]
shut_canceled r leading trailing k f = elim (Option-cases r.second) [
  | inl none_more ↦ let g = rw none_more at f in rw none_more (ground arith)
  | inr (c, both) ↦ let g = rw both at f in rw both (ground arith)
]
shut_canceled r trailing leading k f = elim (Option-cases r.second) [
  | inl none_more ↦ let g = rw none_more at f in rw none_more (ground arith)
  | inr (c, both) ↦ let g = rw both at f in rw both (ground arith)
]
shut_canceled r trailing trailing k f = elim (Option-cases r.second) [
  | inl none_more ↦ let g = rw none_more at f in rw none_more (ground arith)
  | inr (c, both) ↦ let g = rw both at f in rw both (ground arith)
]

won_closed :
    (r : Race) (i : Slot) → won r (some i) ≡ true → won (record r { closed = true }) (some i) ≡ true
won_closed r leading f = f
won_closed r trailing f = f

-- `Close`, with the winner that it finds.
unfoldable closed_by : Option Slot → Race → Race
unfolding cancel_race
closed_by w r = shut_winner w (record (cancel_race r) { closed = true })

idle_closed : (r : Race) → r.outcome ≡ none → fine_at r none ≡ true → fine (closed_by none r) ≡ true
unfolding closed_by cancel_race change_all
idle_closed r h f = elim (Option-cases r.second) [
  | inl none_more ↦ let g = rw none_more at f in rw (none_more, h) (ground arith)
  | inr (c, both) ↦ let g = rw both at f in rw (both, h) (ground arith)
]

change_same :
    (i : Slot) (f : Candidate → Candidate) (r : Race)
    → ((change i f r).outcome ≡ r.outcome)
      × ((change i f r).winner ≡ r.winner)
      × ((change i f r).canceled ≡ r.canceled)
unfolding change
change_same leading f r = (refl, refl, refl)
change_same trailing f r = (refl, refl, refl)

or_true : (a b : Bool) → b ≡ true → (a || b) ≡ true
or_true a b h = ground arith

-- A race without a winner.
unwon_closed :
    (r : Race) (o : Outcome)
    → r.outcome ≡ some o
    → fine_at (record (cancel_race r) { closed = true }) (some o) ≡ true
    → unwon r.winner ≡ true
    → fine (closed_by r.winner r) ≡ true
unfolding closed_by cancel_race change_all
unwon_closed r o h f n = elim (Option-cases r.winner) [
  | inr (i, w) ↦ absurd (ground (arith, subst (λ x. unwon x ≡ true) w n))
  | inl nobody ↦
      subst (λ x. fine (closed_by x r) ≡ true) (sym nobody)
        (ended_fine (record (cancel_race r) { closed = true }) (some o) h (ground arith) f)
]

winner_closed :
    (r : Race) (i : Slot)
    → r.outcome ≡ some opened
    → r.winner ≡ some i
    → won r (some i) ≡ true
    → fine (closed_by (some i) r) ≡ true
unfolding closed_by cancel_race change change_all
winner_closed r i h w f =
    let s : Race = record (cancel_race r) { closed = true } in
    let s' = change i shut s in
    let (o, same, c) = change_same i shut s in
    let g = shut_canceled s i i refl (won_closed (cancel_race r) i (won_canceled r i f)) in
    ended_fine s' (some opened) (o ∙ h) (or_true (not s'.closed) s'.canceled c)
      (subst (λ x. won s' x ≡ true) (sym (same ∙ w)) g)

running_closed :
    (r : Race) → r.outcome ≡ none → fine_at r none ≡ true → fine (closed_by r.winner r) ≡ true
running_closed r h f = elim (Option-cases r.winner) [
  | inl nobody ↦ subst (λ x. fine (closed_by x r) ≡ true) (sym nobody) (idle_closed r h f)
  | inr (i, w) ↦ absurd (ground (arith, subst (λ x. unwon x ≡ true) w (ground (arith, f))))
]

ended_closed :
    (r : Race) (o : Outcome)
    → r.outcome ≡ some o
    → fine r ≡ true
    → fine (closed_by r.winner r) ≡ true
unfolding closed_by cancel_race change_all
ended_closed r opened h f = elim (Option-cases r.winner) [
  | inl nobody ↦
      let g = fine_ended r (some opened) h f in
      absurd (ground (arith, subst (λ x. won r x ≡ true) nobody g))
  | inr (i, w) ↦
      subst (λ x. fine (closed_by x r) ≡ true) (sym w)
        (winner_closed r i h w (subst (λ x. won r x ≡ true) w (fine_ended r (some opened) h f)))
]
ended_closed r exhausted h f =
    let g = ended_canceled r exhausted (fine_ended r (some exhausted) h f) in
    unwon_closed r exhausted h g (ground (arith, g))
ended_closed r interrupted h f =
    let g = ended_canceled r interrupted (fine_ended r (some interrupted) h f) in
    unwon_closed r interrupted h g (ground (arith, g))
ended_closed r unavailable h f =
    let g = ended_canceled r unavailable (fine_ended r (some unavailable) h f) in
    unwon_closed r unavailable h (ground (arith, g)) (ground (arith, g))

if-fine :
    (b : Bool) (r s : Race)
    → (b ≡ true → fine r ≡ true)
    → (b ≡ false → fine s ≡ true)
    → fine (if b then r else s) ≡ true
if-fine true r s f g = f refl
if-fine false r s f g = g refl

pub close-fine : (r : Race) → fine r ≡ true → fine (close r) ≡ true
unfolding close closed_by
close-fine r f =
    if-fine r.closed _ _ (λ shut_already. f)
      (λ alive. elim (Option-cases r.outcome) [
        | inl h ↦ running_closed r h (fine_ended r none h f)
        | inr (o, h) ↦ ended_closed r o h f
      ])
