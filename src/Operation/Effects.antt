-- ===== src/Operation/Effects.antt =====
-- What one call of the journal can do.
use paperboat_helper.Base.{
  ◌≡◌, refl, ap, sym, subst, ◌⊎◌, inl, inr, Bool, true, false, not, Option-cases, if◌then◌else◌,
  Option, none, some, List, [], ◌∷◌, ◌++◌, Bytes, bytes_key, lookup, insert, lookup-insert, length,
  leb, arith,
}
use paperboat_helper.Operation.{
  Outcome, Entry, Journal, Reserved, fresh, evict, reserve, begin_new, begin, finish,
}
use paperboat_helper.Operation.Order.{
  is_settled, Ordered, IsOrdered, unsettled_absent, insert-Ordered, append-Ordered, evict-Ordered,
  evict-none,
}

-- The calls that change a journal.
pub data Op : Type 0 where
  begins : Bytes → Bytes → Option Reserved → Op
  finishes : Bytes → Outcome → Bool → Op

abbrev pub step : Journal → Op → Journal
step j (begins id hash stored) = (begin j id hash stored).0
step j (finishes id outcome persisted) = finish j id outcome persisted

abbrev pub run : Journal → List Op → Journal
run j [] = j
run j (op ∷ ops) = run (step j op) ops

abbrev pub left : Journal → List (Bytes × Entry) × List Bytes
left j = evict j.max j.entries j.order

abbrev pub ended : Entry → Outcome → Bool → Entry
ended e outcome persisted = record e {
  outcome = outcome;
  complete = true;
  uncertain = not persisted;
}

-- What a call does: nothing, make room, begin an operation that is not known, or end one that runs.
pub data Effect (ends : Option Bytes) (j j' : Journal) : Type 0 where
  unchanged : j'.entries ≡ j.entries → j'.order ≡ j.order → Effect ends j j'
  evicted : j'.entries ≡ (left j).0 → j'.order ≡ (left j).1 → Effect ends j j'
  started :
      (id hash : Bytes)
      → lookup id j.entries ≡ none
      → leb j.max (length (left j).0) ≡ false
      → j'.entries ≡ insert id (fresh hash) (left j).0
      → j'.order ≡ (left j).1
      → Effect ends j j'
  finished :
      (id : Bytes) (e : Entry) (outcome : Outcome) (persisted : Bool)
      → ends ≡ some id
      → lookup id j.entries ≡ some e
      → e.complete ≡ false
      → j'.entries ≡ insert id (ended e outcome persisted) j.entries
      → j'.order ≡ (if persisted then j.order ++ id ∷ [] else j.order)
      → Effect ends j j'

begin_new-cases :
    (j : Journal) (id hash : Bytes) (stored : Option Reserved)
    → let j' = (begin_new j id hash stored).0 in
      ((j'.entries ≡ (left j).0) × (j'.order ≡ (left j).1))
      ⊎ ((leb j.max (length (left j).0) ≡ false)
          × (j'.entries ≡ insert id (fresh hash) (left j).0)
          × (j'.order ≡ (left j).1))
unfolding begin_new reserve
begin_new-cases j id hash stored = ground arith

begin-cases :
    (j : Journal) (id hash : Bytes) (stored : Option Reserved)
    → ((begin j id hash stored).0 ≡ j)
      ⊎ ((lookup id j.entries ≡ none)
          × ((begin j id hash stored).0 ≡ (begin_new j id hash stored).0))
unfolding begin
begin-cases j id hash stored = ground arith

finish-cases :
    (j : Journal) (id : Bytes) (outcome : Outcome) (persisted : Bool) (e : Entry)
    → lookup id j.entries ≡ some e
    → (finish j id outcome persisted ≡ j)
      ⊎ ((e.complete ≡ false)
          × ((finish j id outcome persisted).entries
              ≡ insert id (ended e outcome persisted) j.entries)
          × ((finish j id outcome persisted).order
              ≡ (if persisted then j.order ++ id ∷ [] else j.order)))
unfolding finish
finish-cases j id outcome persisted e found = ground arith

finish_unknown :
    (j : Journal) (id : Bytes) (outcome : Outcome) (persisted : Bool)
    → lookup id j.entries ≡ none
    → finish j id outcome persisted ≡ j
unfolding finish
finish_unknown j id outcome persisted missing = ground arith

same : (ends : Option Bytes) (j j' : Journal) → j' ≡ j → Effect ends j j'
same ends j j' e = unchanged (ap (λ (x : Journal). x.entries) e) (ap (λ (x : Journal). x.order) e)

-- The operation that a call ends.
abbrev pub ends : Op → Option Bytes
ends (begins id hash stored) = none
ends (finishes id outcome persisted) = some id

pub step-Effect : (j : Journal) (op : Op) → Effect (ends op) j (step j op)
step-Effect j (begins id hash stored) = elim (begin-cases j id hash stored) [
  | inl e ↦ same _ j _ e
  | inr (missing, e) ↦ subst (Effect none j) (sym e) (elim (begin_new-cases j id hash stored) [
    | inl (es, os) ↦ evicted es os
    | inr (room, es, os) ↦ started id hash missing room es os
  ])
]
step-Effect j (finishes id outcome persisted) = elim (Option-cases (lookup id j.entries)) [
  | inl missing ↦ same _ j _ (finish_unknown j id outcome persisted missing)
  | inr (e, found) ↦ elim (finish-cases j id outcome persisted e found) [
    | inl kept ↦ same _ j _ kept
    | inr (running, es, os) ↦ finished id e outcome persisted refl found running es os
  ]
]

transported :
    (j' : Journal) (m : List (Bytes × Entry)) (os : List Bytes)
    → j'.entries ≡ m
    → j'.order ≡ os
    → Ordered m os
    → IsOrdered j'
transported j' m os em eo h =
    subst (λ x. Ordered x j'.order) (sym em) (subst (λ x. Ordered m x) (sym eo) h)

pub Effect-IsOrdered :
    (k : Option Bytes) (j j' : Journal) → Effect k j j' → IsOrdered j → IsOrdered j'
Effect-IsOrdered k j j' (unchanged es os) h = transported j' j.entries j.order es os h
Effect-IsOrdered k j j' (evicted es os) h =
    transported j' _ _ es os (evict-Ordered j.max j.entries j.order h)
Effect-IsOrdered k j j' (started id hash missing room es os) h =
    let ordered = evict-Ordered j.max j.entries j.order h in
    let gone = evict-none j.max id j.entries j.order missing in
    let absent = unsettled_absent id (left j).0 (left j).1 ordered (ground (arith, gone)) in
    transported j' _ _ es os (insert-Ordered id (fresh hash) (left j).0 (left j).1 absent ordered)
Effect-IsOrdered k j j' (finished id e outcome true k_ends found running es os) h =
    let absent = unsettled_absent id j.entries j.order h (ground (arith, found, running)) in
    let m = insert id (ended e outcome true) j.entries in
    let here : is_settled (lookup id m) ≡ true =
      ground (arith, lookup-insert id id (ended e outcome true) j.entries) in
    transported j' m (j.order ++ id ∷ []) es os (
      append-Ordered id m j.order here absent
        (insert-Ordered id (ended e outcome true) j.entries j.order absent h))
Effect-IsOrdered k j j' (finished id e outcome false k_ends found running es os) h =
    let absent = unsettled_absent id j.entries j.order h (ground (arith, found, running)) in
    transported j' _ _ es os (insert-Ordered id (ended e outcome false) j.entries j.order absent h)
