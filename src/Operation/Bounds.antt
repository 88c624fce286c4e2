-- ===== src/Operation/Bounds.antt =====
-- The bound of the journal.
use paperboat_helper.Base.{
  ℕ, ◌≡◌, ◌≤◌, Option, none, some, List, [], ◌∷◌, Bytes, bytes_key, erase, length-insert_new,
  length-insert_known, length-erase-le, length, arith,
}
use paperboat_helper.Operation.{Entry, Journal, fresh, evict, reserve, begin_new, begin, finish}
use paperboat_helper.Operation.Order.{evict-none}
use paperboat_helper.Operation.Effects.{
  Op, step, run, left, ended, Effect, step-Effect, unchanged, evicted, started, finished, begins,
  finishes, ends,
}

length-evict :
    (max : ℕ) (m : List (Bytes × Entry)) (os : List Bytes) → length (evict max m os).0 ≤ length m
unfolding evict
length-evict max m [] = omega arith
length-evict max m (o ∷ os) = ground (arith, length-evict max (erase o m) os, length-erase-le o m)

step_bounded :
    (k : Option Bytes) (j j' : Journal)
    → Effect k j j'
    → length j.entries ≤ j.max
    → length j'.entries ≤ j.max
step_bounded k j j' (unchanged es os) h = ground arith
step_bounded k j j' (evicted es os) h = ground (arith, length-evict j.max j.entries j.order)
step_bounded k j j' (started id hash missing room es os) h = ground (
  arith,
  length-insert_new id (fresh hash) (left j).0 (evict-none j.max id j.entries j.order missing),
)
step_bounded k j j' (finished id e outcome persisted k_ends found running es os) h =
    ground (arith, length-insert_known id (ended e outcome persisted) j.entries {w = e} found)

step-max : (j : Journal) (op : Op) → (step j op).max ≡ j.max
unfolding begin begin_new reserve finish
step-max j (begins id hash none) = ground arith
step-max j (begins id hash (some r)) = ground arith
step-max j (finishes id outcome persisted) = ground arith

abbrev pub IsBounded : Journal → Type 0
IsBounded j = length j.entries ≤ j.max

-- Whatever calls a journal sees, it holds no more entries than its bound, if it does at the start.
pub journal-IsBounded : (j : Journal) (ops : List Op) → IsBounded j → IsBounded (run j ops)
journal-IsBounded j [] h = h
journal-IsBounded j (op ∷ ops) h = journal-IsBounded (step j op) ops (
    let bound = step_bounded (ends op) j (step j op) (step-Effect j op) h in
    ground (arith, bound, step-max j op))
