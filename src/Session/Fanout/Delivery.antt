-- ===== src/Session/Fanout/Delivery.antt =====
-- The ring holds what the attachments have still to read; compaction keeps it.
use paperboat_helper.Base.{
  ℕ, ◌≤◌, ◌<◌, ◌≡◌, refl, inl, inr, Bool, true, false, not, if◌then◌else◌, ◌||◌, Option, none, some,
  List, [], ◌∷◌, String, arith, ltb, Bool-cases, All, string_key, Values,
}
use paperboat_helper.History.{Event}
use paperboat_helper.Session.Ring.{compact_ring}
use paperboat_helper.Session.Ring.Pieces.{Output, Fits}
use paperboat_helper.Session.Ring.Insert.{Stair, Covered}
use paperboat_helper.Session.Ring.Lookup.{drop_passed-All, drop_passed-Stair, drop_passed-Covered}
use paperboat_helper.Session.Fanout.{
  Cursor, Fanout, is_attached_state, new_fanout, compact, minimum_cursor, lower,
}

-- What the cursor has still to read is in the ring.
abbrev pub Reads : List Event → Cursor → Type 0
Reads ring c =
    is_attached_state c.state ≡ true
    → c.has_cursor ≡ true
    → (n : ℕ) → c.cursor ≤ n
    → n < c.enqueued_end
    → Covered n ring

-- The ring is made of pieces of the stream `s`, in order, and holds what any cursor has to read.
pub record Serves (s : Output) (f : Fanout) : Type 0 where
  pub stair : Stair f.ring
  pub fits : All (Fits s) f.ring
  pub reads : Values (Reads f.ring) f.attachments

pub new_fanout-Serves : (s : Output) → Serves s new_fanout
unfolding new_fanout
new_fanout-Serves s = record { stair = tt; fits = tt; reads = tt }

-- The minimum is at or below the cursor of each attached reader.
abbrev AtLeast : Option ℕ → Cursor → Type 0
AtLeast minimum c =
    is_attached_state c.state ≡ true
    → c.has_cursor ≡ true
    → (m : ℕ) × (minimum ≡ some m) × (m ≤ c.cursor)

lower_lem :
    (c : Cursor) (minimum : Option ℕ) → (m : ℕ) × (lower c minimum ≡ some m) × (m ≤ c.cursor)
lower_lem c none = (c.cursor, refl, omega arith)
lower_lem c (some m) = elim (Bool-cases (ltb c.cursor m)) [
  | inl lt ↦ rw lt (c.cursor, refl, omega arith)
  | inr ge ↦ rw ge (m, refl, ground arith)
]

lower_falls : (c : Cursor) (m : ℕ) → (m' : ℕ) × (lower c (some m) ≡ some m') × (m' ≤ m)
lower_falls c m = elim (Bool-cases (ltb c.cursor m)) [
  | inl lt ↦ rw lt (c.cursor, refl, ground arith)
  | inr ge ↦ rw ge (m, refl, omega arith)
]

-- A cursor that takes no part in the minimum.
abbrev passive : Cursor → Bool
passive c = not (is_attached_state c.state) || not c.has_cursor

minimum_falls :
    (cs : List (String × Cursor)) (m : ℕ)
    → (m' : ℕ) × (minimum_cursor cs (some m) ≡ some m') × (m' ≤ m)
unfolding minimum_cursor
minimum_falls [] m = (m, refl, omega arith)
minimum_falls ((_, c) ∷ cs) m = elim (Bool-cases (passive c)) [
  | inl out ↦ rw out (minimum_falls cs m)
  | inr taken ↦
      let (m1, eq, le) = lower_falls c m in
      let (m2, eq2, le2) = minimum_falls cs m1 in (m2, rw (taken, eq) eq2, omega arith)
]

minimum_cursor-AtLeast :
    (cs : List (String × Cursor)) (minimum : Option ℕ)
    → Values (AtLeast (minimum_cursor cs minimum)) cs
unfolding minimum_cursor
minimum_cursor-AtLeast [] minimum = tt
minimum_cursor-AtLeast ((_, c) ∷ cs) minimum = (
  λ attached reading.
      let (m1, eq, le) = lower_lem c minimum in
      let (m2, eq2, le2) = minimum_falls cs m1 in
      let taken : passive c ≡ false = ground arith in (m2, rw (taken, eq) eq2, omega arith),
  minimum_cursor-AtLeast cs (if passive c then minimum else lower c minimum),
)

-- The cut keeps what the readers need.
cut-Reads :
    (ring : List Event) (minimum : Option ℕ) (c : Cursor)
    → Reads ring c
    → AtLeast minimum c
    → Reads (compact_ring minimum ring) c
unfolding compact_ring
cut-Reads ring none c r least =
    λ attached reading n lo hi. let (m', eq, le) = least attached reading in absurd (cc eq)
cut-Reads ring (some m) c r least = λ attached reading n lo hi.
    let (m', eq, le) = least attached reading in
    drop_passed-Covered m n ring (let same : m ≡ m' = ground (arith, eq) in omega (arith, same, le))
      (r attached reading n lo hi)

cut_all :
    (ring : List Event) (minimum : Option ℕ) (cs : List (String × Cursor))
    → Values (Reads ring) cs
    → Values (AtLeast minimum) cs
    → Values (Reads (compact_ring minimum ring)) cs
cut_all ring minimum [] r l = tt
cut_all ring minimum ((_, c) ∷ cs) r l =
    (cut-Reads ring minimum c r.0 l.0, cut_all ring minimum cs r.1 l.1)

compact_ring_lem :
    (s : Output) (minimum : Option ℕ) (ring : List Event)
    → Stair ring
    → All (Fits s) ring
    → Stair (compact_ring minimum ring) × All (Fits s) (compact_ring minimum ring)
unfolding compact_ring
compact_ring_lem s none ring h f = (tt, tt)
compact_ring_lem s (some m) ring h f =
    (drop_passed-Stair m ring h, drop_passed-All (Fits s) m ring f)

pub compact-Serves : (s : Output) (f : Fanout) → Serves s f → Serves s (compact f)
unfolding compact
compact-Serves s f v =
    let minimum = minimum_cursor f.attachments none in
    let (stair, fits) = compact_ring_lem s minimum f.ring v.stair v.fits in
    record {
      stair = stair;
      fits = fits;
      reads =
          cut_all f.ring minimum f.attachments v.reads (minimum_cursor-AtLeast f.attachments none);
    }
