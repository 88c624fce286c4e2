-- ===== src/Session/Ring/Lookup.antt =====
-- Reads of the ring, and the cut behind the slowest cursor.
use paperboat_helper.Base.{
  ℕ, ◌≤◌, ◌<◌, ◌≡◌, inl, inr, false, some, List, [], ◌∷◌, arith, ltb, leb, Bool-cases, All, dec_lt,
  dec_le,
}
use paperboat_helper.History.{Event}
use paperboat_helper.Session.Ring.{drop_passed, first_after, event_at}
use paperboat_helper.Session.Ring.Pieces.{Output, Fits}
use paperboat_helper.Session.Ring.Insert.{Precedes, Stair, Covered, Within}

not-Covered_after :
    (n : ℕ) (x : Event) (ring : List Event)
    → n < x.start_sequence
    → All (Precedes x) ring
    → ¬ Covered n ring
not-Covered_after n x [] lt a c = c
not-Covered_after n x (y ∷ ring) lt a c = elim c [
  | inl w ↦ omega arith
  | inr further ↦ not-Covered_after n x ring lt a.1 further
]

first_after-lt :
    (n : ℕ) (ring : List Event) {e : Event} → first_after n ring ≡ some e → n < e.end_sequence
unfolding first_after
first_after-lt n [] h = absurd (cc h)
first_after-lt n (x ∷ ring) {e} h = ground (arith, first_after-lt n ring {e = e})

-- What is read ends behind the position.
pub event_at-lt :
    (n : ℕ) (ring : List Event) {e : Event} → event_at n ring ≡ some e → n < e.end_sequence
unfolding event_at
event_at-lt n ring {e} h = first_after-lt n ring {e = e} (ground arith)

-- A position that the ring covers is found, in an event of the stream.
pub event_at-Covered :
    (s : Output) (n : ℕ) (ring : List Event)
    → All (Fits s) ring
    → Stair ring
    → Covered n ring
    → (e : Event) × (event_at n ring ≡ some e) × Fits s e × Within n e
unfolding event_at
event_at-Covered s n [] f h c = absurd c
event_at-Covered s n (x ∷ ring) f h c = elim (dec_lt n x.end_sequence) [
  | yes ends_after ↦ elim (dec_le x.start_sequence n) [
    | yes starts ↦ (x, ground arith, f.0, (starts, ends_after))
    | no later ↦ absurd (elim c [
      | inl w ↦ later w.0
      | inr further ↦ not-Covered_after n x ring (omega arith) h.0 further
    ])
  ]
  | no passed ↦ elim c [
    | inl w ↦ absurd (passed w.1)
    | inr further ↦
        let (e, found, fits, within) = event_at-Covered s n ring f.1 h.1 further in
        (
          e,
          rw (let past : ltb n x.end_sequence ≡ false = ground arith in past, event_at) found,
          fits,
          within,
        )
  ]
]

pub drop_passed-All {κ} :
    (P : Event → Type κ) (m : ℕ) (ring : List Event) → All P ring → All P (drop_passed m ring)
unfolding drop_passed
drop_passed-All P m [] a = tt
drop_passed-All P m (x ∷ ring) a = elim (Bool-cases (leb x.end_sequence m)) [
  | inl passed ↦ rw passed (drop_passed-All P m ring a.1)
  | inr kept ↦ rw kept a
]

pub drop_passed-Stair : (m : ℕ) (ring : List Event) → Stair ring → Stair (drop_passed m ring)
unfolding drop_passed
drop_passed-Stair m [] a = tt
drop_passed-Stair m (x ∷ ring) a = elim (Bool-cases (leb x.end_sequence m)) [
  | inl passed ↦ rw passed (drop_passed-Stair m ring a.1)
  | inr kept ↦ rw kept a
]

pub drop_passed-Covered :
    (m n : ℕ) (ring : List Event) → m ≤ n → Covered n ring → Covered n (drop_passed m ring)
unfolding drop_passed
drop_passed-Covered m n [] le c = c
drop_passed-Covered m n (x ∷ ring) le c = elim (Bool-cases (leb x.end_sequence m)) [
  | inl passed ↦ rw passed (elim c [
    | inl w ↦ absurd (ground arith)
    | inr further ↦ drop_passed-Covered m n ring le further
  ])
  | inr kept ↦ rw kept c
]
