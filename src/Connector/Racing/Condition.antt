-- ===== src/Connector/Racing/Condition.antt =====
-- What holds of a race at any time, and of the steps of `Open`.
use paperboat_helper.Base.{
  ℕ, ◌+◌, ◌≡◌, refl, inl, inr, Bool, true, false, not, ◌&&◌, ◌||◌, Option, none, some, ◌==◌,
  if◌then◌else◌, arith, Bool-cases, Option-cases,
}
use paperboat_helper.Connector.Racing.{
  Transport, Slot, leading, trailing, Candidate, Outcome, opened, unavailable, exhausted,
  interrupted, Race, begin, change, change_other, change_all, cancel_race, start_second, on_success,
  on_failure, on_done, pending,
}

abbrev pub stopped : Candidate → Bool
stopped c = c.canceled && c.closed

-- A candidate of a race that runs: it is stopped once its result is taken, and left alone before,
-- unless the race is cancelled.
abbrev pub fresh : Bool → Candidate → Bool
fresh race_canceled c =
    if c.reported
    then stopped c
    else if race_canceled
    then c.canceled
    else not c.canceled && not c.closed

abbrev pub count : Candidate → ℕ
count c = if c.reported then 1 else 0

abbrev pub second_fresh : Race → Option Candidate → Bool
second_fresh r none = not r.first.reported && r.completed == 0
second_fresh r (some c) =
    fresh r.canceled c
    && r.completed == count r.first + count c
    && not (r.first.reported && c.reported)

abbrev pub holds {ℓ} : {A : Type ℓ} → (A → Bool) → Option A → Bool
holds p none = true
holds p (some c) = p c

abbrev pub kept : Race → Candidate → Bool
kept r c = r.canceled || not c.canceled && not c.closed

-- The candidate that has won is left alone, unless the race is cancelled, and the other is stopped.
abbrev pub won : Race → Option Slot → Bool
won r none = false
won r (some leading) = kept r r.first && holds stopped r.second
won r (some trailing) = stopped r.first && holds (kept r) r.second

abbrev pub all_stopped : Race → Bool
all_stopped r = stopped r.first && holds stopped r.second

abbrev pub both_reported : Race → Bool
both_reported r =
    r.first.reported && holds (λ c. c.reported) r.second && not (holds (λ c. false) r.second)

abbrev pub unwon : Option Slot → Bool
unwon none = true
unwon (some i) = false

abbrev pub fine_at : Race → Option Outcome → Bool
fine_at r none =
    fresh r.canceled r.first
    && second_fresh r r.second
    && (not r.canceled || r.closed || r.interrupted_context)
    && unwon r.winner
fine_at r (some opened) = won r r.winner
fine_at r (some exhausted) = both_reported r && all_stopped r && r.canceled && unwon r.winner
fine_at r (some interrupted) =
    all_stopped r && r.canceled && r.interrupted_context && unwon r.winner
fine_at r (some unavailable) =
    r.first.canceled && holds (λ c. c.canceled) r.second && r.closed && unwon r.winner

abbrev pub fine : Race → Bool
fine r = (not r.closed || r.canceled) && fine_at r r.outcome

pub begin-fine : (preference : Option Transport) → fine (begin preference) ≡ true
unfolding begin
begin-fine preference = refl

pub start_second-fine : (r : Race) → r.outcome ≡ none → fine r ≡ true → fine (start_second r) ≡ true
unfolding start_second
start_second-fine r h f = elim (Option-cases r.second) [
  | inl first_only ↦ let g = rw (first_only, h) at f in rw (first_only, h) (ground arith)
  | inr (c, both) ↦ let g = rw (both, h) at f in rw (both, h) (ground arith)
]

pub on_success-fine :
    (i : Slot) (r : Race)
    → r.outcome ≡ none
    → pending i r ≡ true
    → fine r ≡ true
    → fine (on_success i r) ≡ true
unfolding on_success change change_other
on_success-fine leading r h p f = elim (Bool-cases r.closed) [
  | inl shut_already ↦ elim (Option-cases r.second) [
    | inl none_more ↦ let g = rw (none_more, h) at f in rw (shut_already, none_more) (ground arith)
    | inr (c, both) ↦ let g = rw (both, h) at f in rw (shut_already, both) (ground arith)
  ]
  | inr alive ↦ elim (Option-cases r.second) [
    | inl none_more ↦ let g = rw (none_more, h) at f in rw (alive, none_more) (ground arith)
    | inr (c, both) ↦ let g = rw (both, h) at f in rw (alive, both) (ground arith)
  ]
]
on_success-fine trailing r h p f = elim (Option-cases r.second) [
  | inl none_more ↦ let q = rw none_more at p in absurd (ground (arith, q))
  | inr (c, both) ↦
      let g = rw (both, h) at f in
      let q = rw both at p in
      elim (Bool-cases r.closed) [
        | inl shut_already ↦ rw (shut_already, both) (ground arith)
        | inr alive ↦ rw (alive, both) (ground arith)
      ]
]

alone_failure :
    (r : Race)
    → r.second ≡ none
    → r.outcome ≡ none
    → pending leading r ≡ true
    → fine r ≡ true
    → fine (on_failure leading r) ≡ true
unfolding on_failure change start_second cancel_race change_all
alone_failure r both h p f =
    let g = rw (both, h) at f in
    elim (Bool-cases (r.completed + 1 == 2)) [
      | inl all_failed ↦ rw (both, all_failed) (ground arith)
      | inr one_left ↦ rw (both, one_left, h) (ground arith)
    ]

leading_failure :
    (r : Race) (c : Candidate)
    → r.second ≡ some c
    → r.outcome ≡ none
    → pending leading r ≡ true
    → fine r ≡ true
    → fine (on_failure leading r) ≡ true
unfolding on_failure change start_second cancel_race change_all
leading_failure r c both h p f =
    let g = rw (both, h) at f in
    elim (Bool-cases (r.completed + 1 == 2)) [
      | inl all_failed ↦ rw (both, all_failed) (ground arith)
      | inr one_left ↦ rw (both, one_left, h) (ground arith)
    ]

trailing_failure :
    (r : Race) (c : Candidate)
    → r.second ≡ some c
    → r.outcome ≡ none
    → pending trailing r ≡ true
    → fine r ≡ true
    → fine (on_failure trailing r) ≡ true
unfolding on_failure change start_second cancel_race change_all
trailing_failure r c both h p f =
    let g = rw (both, h) at f in
    let q = rw both at p in
    elim (Bool-cases (r.completed + 1 == 2)) [
      | inl all_failed ↦ rw (both, all_failed) (ground arith)
      | inr one_left ↦ rw (both, one_left, h) (ground arith)
    ]

pub on_failure-fine :
    (i : Slot) (r : Race)
    → r.outcome ≡ none
    → pending i r ≡ true
    → fine r ≡ true
    → fine (on_failure i r) ≡ true
on_failure-fine leading r h p f = elim (Option-cases r.second) [
  | inl none_more ↦ alone_failure r none_more h p f
  | inr (c, both) ↦ leading_failure r c both h p f
]
on_failure-fine trailing r h p f = elim (Option-cases r.second) [
  | inl none_more ↦ let q = rw none_more at p in absurd (ground (arith, q))
  | inr (c, both) ↦ trailing_failure r c both h p f
]

pub on_done-fine :
    (r : Race) → r.outcome ≡ none → r.canceled ≡ true → fine r ≡ true → fine (on_done r) ≡ true
unfolding on_done change_all cancel_race
on_done-fine r h k f =
    let g = rw h at f in
    elim (Bool-cases r.interrupted_context) [
      | inl x ↦ elim (Option-cases r.second) [
        | inl none_more ↦ rw (x, none_more) (ground arith)
        | inr (c, both) ↦ rw (x, both) (ground arith)
      ]
      | inr x ↦ elim (Option-cases r.second) [
        | inl none_more ↦ rw (x, none_more) (ground arith)
        | inr (c, both) ↦ rw (x, both) (ground arith)
      ]
    ]
