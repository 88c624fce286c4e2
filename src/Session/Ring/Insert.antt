-- ===== src/Session/Ring/Insert.antt =====
-- The ring under insertion: it stays a staircase of events of one stream, and what it covers grows.
use paperboat_helper.Base.{
  ℕ, ◌≤◌, ◌<◌, ◌≡◌, ◌⊎◌, inl, inr, true, false, List, [], ◌∷◌, ◌++◌, arith, Bool-cases, All,
  All-append,
}
use paperboat_helper.History.{Event}
use paperboat_helper.Session.Ring.{before, insert_sorted, sort}

-- One event starts and ends before the other.
abbrev pub Precedes : Event → Event → Type 0
Precedes x y = (x.start_sequence < y.start_sequence) × (x.end_sequence < y.end_sequence)

-- Starts and ends both rise along the ring.
abbrev pub Stair : List Event → Type 0
Stair [] = Unit {0}
Stair (x ∷ ring) = All (Precedes x) ring × Stair ring

-- The position lies in an event of the ring.
abbrev pub Covered : ℕ → List Event → Type 0
Covered n [] = ⊥
Covered n (x ∷ ring) = ((x.start_sequence ≤ n) × (n < x.end_sequence)) ⊎ Covered n ring

-- Either may come first, but one does.
abbrev pub Apart : Event → Event → Type 0
Apart x y = Precedes x y ⊎ Precedes y x

pub All-map {ℓ κ μ} :
    {A : Type ℓ} (P : A → Type κ) (Q : A → Type μ) (xs : List A)
    → ((a : A) → P a → Q a)
    → All P xs
    → All Q xs
All-map P Q [] f h = tt
All-map P Q (x ∷ xs) f h = (f x h.0, All-map P Q xs f h.1)

module _ {κ} (P : Event → Type κ) where
  insert_sorted-All :
      (e : Event) (ring : List Event) → P e → All P ring → All P (insert_sorted e ring)
  unfolding insert_sorted
  insert_sorted-All e [] p h = (p, tt)
  insert_sorted-All e (x ∷ ring) p h = elim (Bool-cases (before e x)) [
    | inl first ↦ rw first (p, h)
    | inr later ↦ rw later (h.0, insert_sorted-All e ring p h.1)
  ]

  pub sort-All : (ring : List Event) → All P ring → All P (sort ring)
  unfolding sort
  sort-All [] h = tt
  sort-All (x ∷ ring) h = insert_sorted-All x (sort ring) h.0 (sort-All ring h.1)

Apart-first : (e x : Event) → Apart e x → before e x ≡ true → Precedes e x
Apart-first e x a h = ground arith

Apart-later : (e x : Event) → Apart e x → before e x ≡ false → Precedes x e
Apart-later e x a h = ground arith

insert_sorted-Stair :
    (e : Event) (ring : List Event) → All (Apart e) ring → Stair ring → Stair (insert_sorted e ring)
unfolding insert_sorted
insert_sorted-Stair e [] a h = (tt, tt)
insert_sorted-Stair e (x ∷ ring) a h = elim (Bool-cases (before e x)) [
  | inl first ↦ rw first (
      let p : Precedes e x = Apart-first e x a.0 first in
      ((p, All-map (Precedes x) (Precedes e) ring (λ y q. (omega arith, omega arith)) h.0), h))
  | inr later ↦ rw later (
    insert_sorted-All (Precedes x) e ring (Apart-later e x a.0 later) h.0,
    insert_sorted-Stair e ring a.1 h.1,
  )
]

-- Any two are apart.
abbrev pub PairApart : List Event → Type 0
PairApart [] = Unit {0}
PairApart (x ∷ ring) = All (Apart x) ring × PairApart ring

pub sort-Stair : (ring : List Event) → PairApart ring → Stair (sort ring)
unfolding sort
sort-Stair [] h = tt
sort-Stair (x ∷ ring) h =
    insert_sorted-Stair x (sort ring) (sort-All (Apart x) ring h.0) (sort-Stair ring h.1)

pub PairApart-append :
    (ring : List Event) (e : Event)
    → Stair ring
    → All (λ x. Apart x e) ring
    → PairApart (ring ++ e ∷ [])
PairApart-append [] e h a = (tt, tt)
PairApart-append (x ∷ ring) e h a = (
  All-append (Apart x) ring (e ∷ []) (All-map (Precedes x) (Apart x) ring (λ y q. inl q) h.0)
      (a.0, tt),
  PairApart-append ring e h.1 a.1,
)

abbrev pub Within : ℕ → Event → Type 0
Within n e = (e.start_sequence ≤ n) × (n < e.end_sequence)

Covered-insert_sorted :
    (n : ℕ) (e : Event) (ring : List Event)
    → Within n e ⊎ Covered n ring
    → Covered n (insert_sorted e ring)
unfolding insert_sorted
Covered-insert_sorted n e [] h = h
Covered-insert_sorted n e (x ∷ ring) h = elim (Bool-cases (before e x)) [
  | inl first ↦ rw first h
  | inr later ↦ rw later (elim h [
    | inl here ↦ inr (Covered-insert_sorted n e ring (inl here))
    | inr rest ↦ elim rest [
      | inl at_x ↦ inl at_x
      | inr further ↦ inr (Covered-insert_sorted n e ring (inr further))
    ]
  ])
]

pub Covered-sort : (n : ℕ) (ring : List Event) → Covered n ring → Covered n (sort ring)
unfolding sort
Covered-sort n [] h = h
Covered-sort n (x ∷ ring) h =
    Covered-insert_sorted n x (sort ring)
      (elim h [ inl here ↦ inl here | inr rest ↦ inr (Covered-sort n ring rest) ])

pub Covered-append :
    (n : ℕ) (ring : List Event) (e : Event)
    → Within n e ⊎ Covered n ring
    → Covered n (ring ++ e ∷ [])
Covered-append n [] e h = h
Covered-append n (x ∷ ring) e h = elim h [
  | inl here ↦ inr (Covered-append n ring e (inl here))
  | inr rest ↦ elim rest [
    | inl at_x ↦ inl at_x
    | inr further ↦ inr (Covered-append n ring e (inr further))
  ]
]
