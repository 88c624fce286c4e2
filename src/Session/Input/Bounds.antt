-- ===== src/Session/Input/Bounds.antt =====
-- The journal stays within its bound, and stale input is not written.
use paperboat_helper.Base.{
  ℕ, ◌≤◌, ◌≡◌, ◌≢◌, refl, Option, none, some, List, [], ◌∷◌, String, length, arith, ok, err, lookup,
  length-insert_new,
}
use paperboat_helper.Session.Input.{
  InputStatus, InputKey, input_key, InputDecision, InputJournal, Error, Writer, decide, write_at,
  write_with, write, restore, restored, set_generation, admit,
}
use paperboat_helper.Session.Input.Once.{Op, writes, restores, sets_generation, step, run}

abbrev pub IsBounded : InputJournal → Type 0
IsBounded j = length j.decisions ≤ j.max

write_at-IsBounded :
    (hash : List ℕ) (j : InputJournal) (key : InputKey) (bytes : List ℕ) (writer : Writer)
    (found : Option InputDecision)
    → lookup key j.decisions ≡ found
    → IsBounded j
    → IsBounded (write_at hash j key bytes writer found).0
unfolding write_at
write_at-IsBounded hash j key bytes writer (some p) e v = ground arith
write_at-IsBounded hash j key bytes writer none e v =
    ground (arith, length-insert_new key (decide hash bytes (writer bytes)) j.decisions)

write_with-IsBounded :
    (hash : List ℕ) (j : InputJournal) (key : InputKey) (bytes : List ℕ) (writer : Option Writer)
    → IsBounded j
    → IsBounded (write_with hash j key bytes writer).0
unfolding write_with
write_with-IsBounded hash j key bytes none v = v
write_with-IsBounded hash j key bytes (some writer) v =
    ground (arith, write_at-IsBounded hash j key bytes writer (lookup key j.decisions) refl v)

restore-IsBounded :
    (j : InputJournal) (key : InputKey) (hash : List ℕ) (status : InputStatus) (n : ℕ)
    (code : String)
    → IsBounded j
    → IsBounded (restore j key hash status n code).0
unfolding restore
restore-IsBounded j key hash status n code v =
    ground (arith, length-insert_new key (restored hash status n code) j.decisions)

-- Whatever calls a journal sees, it holds no more decisions than its bound, if it does at the
-- start.
pub run-IsBounded :
    (sum256 : List ℕ → List ℕ) (j : InputJournal) (ops : List Op)
    → IsBounded j
    → IsBounded (run sum256 j ops).0
unfolding write set_generation
run-IsBounded sum256 j [] v = v
run-IsBounded sum256 j (writes key bytes writer ∷ ops) v =
    run-IsBounded sum256 (step sum256 j (writes key bytes writer)).0 ops
      (write_with-IsBounded (sum256 bytes) j key bytes writer v)
run-IsBounded sum256 j (restores key hash status n code ∷ ops) v =
    run-IsBounded sum256 (step sum256 j (restores key hash status n code)).0 ops
      (restore-IsBounded j key hash status n code v)
run-IsBounded sum256 j (sets_generation g ∷ ops) v =
    run-IsBounded sum256 (step sum256 j (sets_generation g)).0 ops v

-- What `Admit` lets in, `Write` does not refuse for want of room.
pub write_admitted :
    (sum256 : List ℕ → List ℕ) (j : InputJournal) (key : InputKey) (bytes : List ℕ)
    (writer : Option Writer)
    → admit j key ≡ ok tt
    → (write sum256 j key bytes writer).1 ≢ err Error.input_journal_full
unfolding write admit
write_admitted sum256 j key bytes none a = λ e. ground arith
write_admitted sum256 j key bytes (some writer) a = λ e. ground arith

-- Input whose generation is not the current one is never written to the terminal.
pub write_stale :
    (sum256 : List ℕ → List ℕ) (j : InputJournal) (key : InputKey) (bytes : List ℕ)
    (writer : Option Writer)
    → key.generation ≢ j.current
    → (write sum256 j key bytes writer).2 ≡ []
unfolding write
write_stale sum256 j key bytes none stale = ground arith
write_stale sum256 j key bytes (some writer) stale = ground arith
