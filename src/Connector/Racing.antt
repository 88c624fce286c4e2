-- ===== src/Connector/Racing.antt =====
-- internal/connector/racing.go: `Open` races two transports to the edge.
--
-- A race is one call of `Open` behind its first checks, with what `Close` and the context of the
-- connector do meanwhile. Of the two candidates the first is started at once; `Option` says whether
-- the second is. That a candidate opens or fails is a step that it takes once.
pub mod Condition
pub mod Closing
pub mod Outcomes
use paperboat_helper.Base.{
  ℕ, ◌+◌, ◌≡◌, Bool, true, false, not, ◌&&◌, Option, none, some, ◌==◌, if◌then◌else◌,
}

pub data Transport : Type 0 where
  quic tcp_mux : Transport

pub data Slot : Type 0 where
  leading trailing : Slot

-- `reported` says that the result has been taken out of the channel.
pub record Candidate : Type 0 where
  pub transport : Transport
  pub canceled : Bool
  pub closed : Bool
  pub reported : Bool

-- How `Open` returns: without an error, with `ErrUnavailable`, with that and the errors of both
-- candidates, or with the error of the context.
pub data Outcome : Type 0 where
  opened unavailable exhausted interrupted : Outcome

pub record Race : Type 0 where
  pub first : Candidate
  pub second : Option Candidate
  pub other : Transport
  pub completed : ℕ
  pub winner : Option Slot
  pub canceled : Bool
  pub interrupted_context : Bool
  pub closed : Bool
  pub outcome : Option Outcome

-- `start`: the context of a candidate is made of the race's.
abbrev pub start : Transport → Bool → Candidate
start t stopped = record { transport = t; canceled = stopped; closed = false; reported = false }

-- The order: QUIC first, unless the preference that was stored is the other.
abbrev pub first_transport : Option Transport → Transport
first_transport none = quic
first_transport (some t) = t

abbrev pub other_transport : Transport → Transport
other_transport quic = tcp_mux
other_transport tcp_mux = quic

unfoldable pub begin : Option Transport → Race
begin preference = record {
  first = start (first_transport preference) false;
  second = none;
  other = other_transport (first_transport preference);
  completed = 0;
  winner = none;
  canceled = false;
  interrupted_context = false;
  closed = false;
  outcome = none;
}

-- `cancel` of a candidate, `Close` of its connector, and both.
abbrev pub cancel : Candidate → Candidate
cancel c = record c { canceled = true }

abbrev pub shut : Candidate → Candidate
shut c = record c { closed = true }

abbrev pub stop : Candidate → Candidate
stop c = record c { canceled = true; closed = true }

abbrev pub report : Candidate → Candidate
report c = record c { reported = true }

abbrev pub on_second : (Candidate → Candidate) → Option Candidate → Option Candidate
on_second f none = none
on_second f (some c) = some (f c)

-- A change of one candidate, and of the other one.
unfoldable pub change : Slot → (Candidate → Candidate) → Race → Race
change leading f r = record r { first = f r.first }
change trailing f r = record r { second = on_second f r.second }

unfoldable pub change_other : Slot → (Candidate → Candidate) → Race → Race
change_other leading f r = record r { second = on_second f r.second }
change_other trailing f r = record r { first = f r.first }

unfoldable pub change_all : (Candidate → Candidate) → Race → Race
change_all f r = record r { first = f r.first; second = on_second f r.second }

-- `raceCancel`, from which the contexts of the candidates are made.
unfoldable pub cancel_race : Race → Race
unfolding change_all
cancel_race r = record (change_all cancel r) { canceled = true }

abbrev pub started : Transport → Bool → Option Candidate → Option Candidate
started t stopped none = some (start t stopped)
started t stopped (some c) = some c

-- The start of the second candidate, by the timer or behind a failure of the first.
unfoldable pub start_second : Race → Race
start_second r = record r { second = started r.other r.canceled r.second }

-- A candidate has opened.
unfoldable pub on_success : Slot → Race → Race
unfolding change change_other
on_success i r =
    let taken = record (change i report r) { completed = r.completed + 1 } in
    if r.closed
    then record (change i stop taken) { outcome = some unavailable }
    else record (change_other i stop taken) { winner = some i; outcome = some opened }

-- A candidate has failed.
unfoldable pub on_failure : Slot → Race → Race
unfolding change start_second cancel_race
on_failure i r =
    let taken = record (change i report r) { completed = r.completed + 1 } in
    let next = start_second (change i stop taken) in
    if next.completed == 2 then record (cancel_race next) { outcome = some exhausted } else next

-- The context of the race is done.
unfoldable pub on_done : Race → Race
unfolding change_all cancel_race
on_done r = record (change_all stop (cancel_race r)) {
  outcome = some (if r.interrupted_context then interrupted else unavailable);
}

abbrev pub shut_winner : Option Slot → Race → Race
shut_winner none r = r
shut_winner (some i) r = change i shut r

-- `Close`.
unfoldable pub close : Race → Race
unfolding change cancel_race
close r = if r.closed then r else shut_winner r.winner (record (cancel_race r) { closed = true })

-- The context of the connector is cancelled.
unfoldable pub interrupt : Race → Race
unfolding cancel_race
interrupt r = record (cancel_race r) { interrupted_context = true }

abbrev pub is_running : Option Outcome → Bool
is_running none = true
is_running (some o) = false

abbrev pub is_waiting : Option Candidate → Bool
is_waiting none = false
is_waiting (some c) = not c.reported

abbrev pub pending : Slot → Race → Bool
pending leading r = not r.first.reported
pending trailing r = is_waiting r.second

-- What can happen while `Open` runs, and to the connector at any time.
pub data Step : Race → Race → Type 0 where
  timed : (r : Race) → is_running r.outcome ≡ true → Step r (start_second r)
  opens :
      (i : Slot) (r : Race)
      → is_running r.outcome ≡ true
      → pending i r ≡ true
      → Step r (on_success i r)
  fails :
      (i : Slot) (r : Race)
      → is_running r.outcome ≡ true
      → pending i r ≡ true
      → Step r (on_failure i r)
  stops : (r : Race) → is_running r.outcome ≡ true → r.canceled ≡ true → Step r (on_done r)
  closes : (r : Race) → Step r (close r)
  interrupts : (r : Race) → Step r (interrupt r)

pub data Reached (r : Race) : Race → Type 0 where
  here : Reached r r
  further : {s t : Race} → Reached r s → Step s t → Reached r t
