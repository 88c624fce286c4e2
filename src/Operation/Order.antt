-- ===== src/Operation/Order.antt =====
-- The order in which operations are forgotten.
use paperboat_helper.Base.{
  ℕ, ◌≡◌, refl, inl, inr, Bool, true, false, not, ◌&&◌, ◌||◌, Bool-cases, Option, none, some, List,
  [], ◌∷◌, ◌++◌, Bytes, bytes_key, has, lookup, insert, erase, lookup-insert, lookup-erase, length,
  leb, arith, is_yes,
}
use paperboat_helper.Operation.{Entry, Journal, Stored, load, evict, completed, pending, no_outcome}

-- The operation has ended, with an outcome that is sure.
abbrev pub is_settled : Option Entry → Bool
is_settled none = false
is_settled (some e) = e.complete && not e.uncertain

-- The order holds settled operations only, each once.
abbrev pub Ordered : List (Bytes × Entry) → List Bytes → Type 0
Ordered m [] = Unit {0}
Ordered m (o ∷ os) = (is_settled (lookup o m) ≡ true) × (has o os ≡ false) × Ordered m os

pub unsettled_absent :
    (k : Bytes) (m : List (Bytes × Entry)) (os : List Bytes)
    → Ordered m os
    → is_settled (lookup k m) ≡ false
    → has k os ≡ false
unsettled_absent k m [] h e = refl
unsettled_absent k m (o ∷ os) h e = ground (arith, h.0, unsettled_absent k m os h.2 e)

pub erase-Ordered :
    (k : Bytes) (m : List (Bytes × Entry)) (os : List Bytes)
    → has k os ≡ false
    → Ordered m os
    → Ordered (erase k m) os
erase-Ordered k m [] absent h = tt
erase-Ordered k m (o ∷ os) absent h = (
  (let e : is_settled (lookup o (erase k m)) ≡ true = ground (arith, lookup-erase k o m, h.0) in e),
  h.1,
  erase-Ordered k m os (ground arith) h.2,
)

pub insert-Ordered :
    (k : Bytes) (v : Entry) (m : List (Bytes × Entry)) (os : List Bytes)
    → has k os ≡ false
    → Ordered m os
    → Ordered (insert k v m) os
insert-Ordered k v m [] absent h = tt
insert-Ordered k v m (o ∷ os) absent h = (
  (let e : is_settled (lookup o (insert k v m)) ≡ true =
        ground (arith, lookup-insert k o v m, h.0) in
      e),
  h.1,
  insert-Ordered k v m os (ground arith) h.2,
)

has-append :
    (o k : Bytes) (os : List Bytes)
    → has o (os ++ k ∷ []) ≡ (has o os || is_yes (bytes_key.dec k o))
has-append o k [] = ground arith
has-append o k (x ∷ os) = ground (arith, has-append o k os)

pub append-Ordered :
    (k : Bytes) (m : List (Bytes × Entry)) (os : List Bytes)
    → is_settled (lookup k m) ≡ true
    → has k os ≡ false
    → Ordered m os
    → Ordered m (os ++ k ∷ [])
append-Ordered k m [] settled absent h = (settled, refl, tt)
append-Ordered k m (o ∷ os) settled absent h = (
  h.0,
  (let e : has o (os ++ k ∷ []) ≡ false = ground (arith, has-append o k os, h.1) in e),
  append-Ordered k m os settled (ground arith) h.2,
)

pub evict-Ordered :
    (max : ℕ) (m : List (Bytes × Entry)) (os : List Bytes)
    → Ordered m os
    → Ordered (evict max m os).0 (evict max m os).1
unfolding evict
evict-Ordered max m [] h = tt
evict-Ordered max m (o ∷ os) h = elim (Bool-cases (leb max (length m))) [
  | inl full ↦ rw full (evict-Ordered max (erase o m) os (erase-Ordered o m os h.1 h.2))
  | inr room ↦ rw room h
]

-- Making room forgets settled operations only.
pub evict-keeps :
    (max : ℕ) (k : Bytes) (m : List (Bytes × Entry)) (os : List Bytes)
    → is_settled (lookup k m) ≡ false
    → Ordered m os
    → lookup k (evict max m os).0 ≡ lookup k m
unfolding evict
evict-keeps max k m [] e h = refl
evict-keeps max k m (o ∷ os) e h =
    let same : lookup k (erase o m) ≡ lookup k m = ground (arith, lookup-erase o k m, h.0) in
    ground
      (arith, same, evict-keeps max k (erase o m) os (ground arith) (erase-Ordered o m os h.1 h.2))

abbrev pub IsOrdered : Journal → Type 0
IsOrdered j = Ordered j.entries j.order

-- Identities that no two records share.
abbrev pub Loads : List Stored → Journal → Type 0
Loads [] j = Unit {0}
Loads (completed id hash outcome ∷ rest) j =
    (lookup id j.entries ≡ none) × Loads rest (load (completed id hash outcome ∷ []) j)
Loads (pending id hash ∷ rest) j =
    (lookup id j.entries ≡ none) × Loads rest (load (pending id hash ∷ []) j)

pub load-IsOrdered :
    (records : List Stored) (j : Journal)
    → Loads records j
    → IsOrdered j
    → IsOrdered (load records j)
unfolding load
load-IsOrdered [] j l h = h
load-IsOrdered (completed id hash outcome ∷ rest) j l h =
    let e : Entry = record { hash = hash; outcome = outcome; complete = true; uncertain = false } in
    let m = insert id e j.entries in
    let absent = unsettled_absent id j.entries j.order h (ground (arith, l.0)) in
    let here : is_settled (lookup id m) ≡ true = ground (arith, lookup-insert id id e j.entries) in
    load-IsOrdered rest (record j { entries = m; order = j.order ++ id ∷ [] }) l.1
      (append-Ordered id m j.order here absent (insert-Ordered id e j.entries j.order absent h))
load-IsOrdered (pending id hash ∷ rest) j l h =
    let e : Entry = record {
      hash = hash;
      outcome = no_outcome;
      complete = true;
      uncertain = true;
    } in
    let absent = unsettled_absent id j.entries j.order h (ground (arith, l.0)) in
    load-IsOrdered rest (record j { entries = insert id e j.entries }) l.1
      (insert-Ordered id e j.entries j.order absent h)

pub evict-none :
    (max : ℕ) (k : Bytes) (m : List (Bytes × Entry)) (os : List Bytes)
    → lookup k m ≡ none
    → lookup k (evict max m os).0 ≡ none
unfolding evict
evict-none max k m [] missing = missing
evict-none max k m (o ∷ os) missing =
    let gone : lookup k (erase o m) ≡ none = ground (arith, lookup-erase o k m) in
    ground (arith, evict-none max k (erase o m) os gone)
