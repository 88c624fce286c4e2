-- ===== src/Operation.antt =====
-- internal/operation/journal.go: the journal that runs every operation of a client once.
--
-- `Execute` is two steps, since it runs the operation with the lock released: `begin` up to the call
-- of `run`, and `finish` from its end on. A caller that finds an entry whose operation still runs
-- waits for the channel `done`, which is closed when the entry is complete: `waits` is that answer.
-- `CanonicalHash` is code of the JSON and SHA-256 libraries; its hash is an argument. What the
-- durable store answers is an argument, `none` where there is no store, and the results fit it.
pub mod Order
pub mod Effects
pub mod Pinned
pub mod Bounds
pub mod Tests
use paperboat_helper.Base.{
  ℕ, suc, ◌-◌, Bool, true, false, not, ◌&&◌, ◌||◌, Option, none, some, List, [], ◌∷◌, ◌++◌, String,
  bytes_key, Bytes, Bytes_discrete, length, ltb, leb, if◌then◌else◌, is_yes, Result, ok, err,
  lookup, insert, erase,
}

pub data Error : Type 0 where
  invalid_operation_id operation_conflict journal_full operation_uncertain store_failed : Error

pub record Outcome : Type 0 where
  pub result : Bytes
  pub error_code : String

-- `complete` is also that `done` is closed; `uncertain` is an error in `err`.
pub record Entry : Type 0 where
  pub hash : Bytes
  pub outcome : Outcome
  pub complete : Bool
  pub uncertain : Bool

pub record Journal : Type 0 where
  pub max : ℕ
  pub entries : List (Bytes × Entry)
  pub order : List Bytes

abbrev pub no_outcome : Outcome
no_outcome = record { result = []; error_code = "" }

unfoldable pub new : ℕ → Result Error Journal
new max_entries =
    if ltb max_entries 1
    then err journal_full
    else ok (record { max = max_entries; entries = []; order = [] })

-- A record of the durable store: an operation that was completed, or one that was interrupted.
pub data Stored : Type 0 where
  completed : Bytes → Bytes → Outcome → Stored
  pending : Bytes → Bytes → Stored

-- The loop of `NewPersistentJournal`; the hash of every record has the right length.
unfoldable pub load : List Stored → Journal → Journal
load [] j = j
load (completed id hash outcome ∷ rest) j = load rest (record j {
  entries =
      insert id (record { hash = hash; outcome = outcome; complete = true; uncertain = false })
        j.entries;
  order = j.order ++ id ∷ [];
})
load (pending id hash ∷ rest) j = load rest (record j {
  entries =
      insert id (record { hash = hash; outcome = no_outcome; complete = true; uncertain = true })
        j.entries;
})

-- What `ReserveOperation` answers, or the failure of the cleanup before it.
pub data Reserved : Type 0 where
  inserted : Reserved
  known_pending : Reserved
  known : Outcome → Reserved
  conflicts : Reserved
  fails : Reserved

-- What `Execute` does before it runs the operation.
pub data Begun : Type 0 where
  refused : Error → Begun
  waits : Begun
  answers : Outcome → Begun
  uncertain_before : Outcome → Begun
  starts : Begun

-- The loop that makes room.
unfoldable pub evict : ℕ → List (Bytes × Entry) → List Bytes → List (Bytes × Entry) × List Bytes
evict max entries [] = (entries, [])
evict max entries (oldest ∷ order) =
    let rest = evict max (erase oldest entries) order in
    if leb max (length entries) then rest else (entries, oldest ∷ order)

-- The answer at an entry that is there.
abbrev pub answer : Entry → Bytes → Begun
answer e hash =
    if not (is_yes (Bytes_discrete e.hash hash))
    then refused operation_conflict
    else if not e.complete
    then waits
    else if e.uncertain
    then uncertain_before e.outcome
    else answers e.outcome

abbrev pub fresh : Bytes → Entry
fresh hash = record { hash = hash; outcome = no_outcome; complete = false; uncertain = false }

abbrev pub start : Journal → Bytes → Bytes → Journal × Begun
start j id hash = (record j { entries = insert id (fresh hash) j.entries }, starts)

-- The reservation in the store, once there is room.
unfoldable pub reserve : Journal → Bytes → Bytes → Option Reserved → Journal × Begun
reserve j id hash none = start j id hash
reserve j id hash (some inserted) = start j id hash
reserve j id hash (some known_pending) = (j, uncertain_before no_outcome)
reserve j id hash (some (known outcome)) = (j, answers outcome)
reserve j id hash (some conflicts) = (j, refused operation_conflict)
reserve j id hash (some fails) = (j, refused store_failed)

-- `Execute` at an identity that has no entry.
unfoldable pub begin_new : Journal → Bytes → Bytes → Option Reserved → Journal × Begun
unfolding evict reserve
begin_new j id hash stored =
    let (entries, order) = evict j.max j.entries j.order in
    let roomy = record j { entries = entries; order = order } in
    if leb j.max (length entries)
    then (roomy, refused journal_full)
    else reserve roomy id hash stored

-- What `Execute` takes for an identity.
abbrev pub valid_id : Bytes → Bool
valid_id id = not (ltb (length id) 8) && not (ltb 128 (length id))

-- `Execute` up to the call of `run`, which is there.
unfoldable pub begin : Journal → Bytes → Bytes → Option Reserved → Journal × Begun
unfolding begin_new
begin j id hash stored =
    if not (valid_id id) then (j, refused invalid_operation_id) else elim (lookup id j.entries) [
      | some existing ↦ (j, answer existing hash)
      | none ↦ begin_new j id hash stored
    ]

-- The end of `Execute`, where the entry that it began is there; `persisted` is that the store has
-- taken the outcome, or that there is none. The entry is written through a pointer: `Pinned` shows
-- that the journal still has it, so that it is the one under its identity.
unfoldable pub finish : Journal → Bytes → Outcome → Bool → Journal
finish j id outcome persisted = elim (lookup id j.entries) [
  | none ↦ j
  | some current ↦ if current.complete then j else record j {
    entries =
        insert id (record current { outcome = outcome; complete = true; uncertain = not persisted })
          j.entries;
    order = if persisted then j.order ++ id ∷ [] else j.order;
  }
]
