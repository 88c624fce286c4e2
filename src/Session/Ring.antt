-- ===== src/Session/Ring.antt =====
-- internal/session/fanout.go: the ring of output events, `insertEventLocked`, `eventAtLocked` and the
-- cut of `compactLocked`.
pub mod Pieces
pub mod Insert
pub mod Growth
pub mod Lookup
use paperboat_helper.Base.{
  ℕ, zero, suc, ◌-◌, Bool, true, false, not, ◌&&◌, Option, none, some, List, [], ◌∷◌, ◌++◌, is_yes,
  length, ltb, leb, ◌==◌, if◌then◌else◌, sub64, Bytes_discrete,
}
use paperboat_helper.History.{Event, slice}

unfoldable pub valid_output_event : Event → Bool
valid_output_event e =
    leb e.start_sequence e.end_sequence
    && sub64 e.end_sequence e.start_sequence == length e.bytes
    && not (length e.bytes == 0)

-- `outer` carries the bytes of `inner` at its place: the tests of `insertEventLocked`.
unfoldable pub covers : Event → Event → Bool
covers outer inner =
    leb outer.start_sequence inner.start_sequence
    && leb inner.end_sequence outer.end_sequence
    && outer.channel == inner.channel
    && is_yes (
        Bytes_discrete
          (slice (inner.start_sequence - outer.start_sequence)
            (inner.end_sequence - outer.start_sequence) outer.bytes)
          inner.bytes)

-- What the loop of `insertEventLocked` finds first: an event that covers the new one, or one that
-- the new one covers, with the ring without it.
pub data Scan : Type 0 where
  covered fresh : Scan
  absorbs : List Event → Scan

abbrev pub put_back : Event → Scan → Scan
put_back x (absorbs ring) = absorbs (x ∷ ring)
put_back x covered = covered
put_back x fresh = fresh

unfoldable pub scan : Event → List Event → Scan
scan e [] = fresh
scan e (x ∷ ring) =
    if covers x e then covered else if covers e x then absorbs ring else put_back x (scan e ring)

-- The order of `sort.Slice`.
abbrev pub before : Event → Event → Bool
before a b =
    if a.start_sequence == b.start_sequence
    then ltb b.end_sequence a.end_sequence
    else ltb a.start_sequence b.start_sequence

unfoldable pub insert_sorted : Event → List Event → List Event
insert_sorted e [] = e ∷ []
insert_sorted e (x ∷ ring) = if before e x then e ∷ x ∷ ring else x ∷ insert_sorted e ring

unfoldable pub sort : List Event → List Event
unfolding insert_sorted
sort [] = []
sort (x ∷ ring) = insert_sorted x (sort ring)

-- `insertEventLocked`, whose calls of itself are bounded by fuel: each takes an event out of the ring.
unfoldable pub insert_event_fuel : ℕ → Event → List Event → Option (List Event)
unfolding scan sort
insert_event_fuel zero e ring = none
insert_event_fuel (suc fuel) e ring = elim (scan e ring) [
  | covered ↦ some ring
  | absorbs rest ↦ insert_event_fuel fuel e rest
  | fresh ↦ some (sort (ring ++ e ∷ []))
]

abbrev pub or_ring : List Event → Option (List Event) → List Event
or_ring ring none = ring
or_ring ring (some r) = r

unfoldable pub insert_event : Event → List Event → List Event
unfolding insert_event_fuel
insert_event e ring = or_ring ring (insert_event_fuel (suc (length ring)) e ring)

-- The leading events that end at or before `minimum` go.
unfoldable pub drop_passed : ℕ → List Event → List Event
drop_passed minimum [] = []
drop_passed minimum (e ∷ ring) =
    let rest = drop_passed minimum ring in if leb e.end_sequence minimum then rest else e ∷ ring

unfoldable pub compact_ring : Option ℕ → List Event → List Event
unfolding drop_passed
compact_ring none ring = []
compact_ring (some minimum) ring = drop_passed minimum ring

-- `sort.Search` for the first event that ends after `sequence`. On a ring whose ends rise, which
-- `sort.Search` needs, it is the first such event of the list.
unfoldable pub first_after : ℕ → List Event → Option Event
first_after sequence [] = none
first_after sequence (e ∷ ring) =
    if ltb sequence e.end_sequence then some e else first_after sequence ring

unfoldable pub event_at : ℕ → List Event → Option Event
unfolding first_after
event_at sequence ring = elim (first_after sequence ring) [
  | none ↦ none
  | some e ↦ if ltb sequence e.start_sequence then none else some e
]
