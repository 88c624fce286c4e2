-- ===== src/Session/Input/Once.antt =====
-- An input is written to the terminal once at most, and its decision stands.
use paperboat_helper.Base.{
  ℕ, suc, ◌+◌, ◌≤◌, ◌≡◌, refl, ap, ◌∙◌, ◌≢◌, inl, inr, ite, false, Option, none, some, List, [],
  ◌∷◌, ◌++◌, String, length, arith, ok, err, lookup, insert, lookup-insert, Bool-cases,
  Option-cases, leb, ◌==◌,
}
use paperboat_helper.Session.Input.{
  InputStatus, input_accepted, input_duplicate, zero_hash, InputKey, InputKey-discrete, input_key,
  InputDecision, InputJournal, Writer, replayed, restored, write_at, write_with, write, restore,
  set_generation, bad_key, decide, input_conflict,
}

-- The calls that change a journal.
pub data Op : Type 0 where
  writes : InputKey → List ℕ → Option Writer → Op
  restores : InputKey → List ℕ → InputStatus → ℕ → String → Op
  sets_generation : ℕ → Op

module _ (sum256 : List ℕ → List ℕ) where
  -- The journal after a call, and the keys for which the call used its writer.
  abbrev pub step : InputJournal → Op → InputJournal × List InputKey
  step j (writes key bytes writer) =
      ((write sum256 j key bytes writer).0, (write sum256 j key bytes writer).2)
  step j (restores key hash status n code) = ((restore j key hash status n code).0, [])
  step j (sets_generation generation) = (set_generation j generation, [])

  abbrev pub run : InputJournal → List Op → InputJournal × List InputKey
  run j [] = (j, [])
  run j (op ∷ ops) = ((run (step j op).0 ops).0, (step j op).1 ++ (run (step j op).0 ops).1)

-- How often a key stands in a list.
abbrev pub count : InputKey → List InputKey → ℕ
count k [] = 0
count k (x ∷ xs) = ite (InputKey-discrete x k) (suc (count k xs)) (count k xs)

count-append : (k : InputKey) (xs ys : List InputKey) → count k (xs ++ ys) ≡ count k xs + count k ys
count-append k [] ys = omega arith
count-append k (x ∷ xs) ys = ground (arith, count-append k xs ys)

-- 1 if the key is decided.
abbrev pub known : InputKey → InputJournal → ℕ
known k j = elim (lookup k j.decisions) [ none ↦ 0 | some _ ↦ 1 ]

-- What is decided stays decided in the same way.
abbrev Keeps : InputKey → InputJournal → InputJournal → Type 0
Keeps k j j' = (d : InputDecision) → lookup k j.decisions ≡ some d → lookup k j'.decisions ≡ some d

module _ (k : InputKey) (j : InputJournal) (key : InputKey) where
  -- A key with no decision may be given one.
  insert_effect :
      (d : InputDecision)
      → lookup key j.decisions ≡ none
      → (count k (key ∷ []) + known k j
          ≤ known k (record j { decisions = insert key d j.decisions }))
        × Keeps k j (record j { decisions = insert key d j.decisions })
  insert_effect d fresh = (
    ground (arith, lookup-insert key k d j.decisions),
    λ e h. ground (arith, lookup-insert key k d j.decisions),
  )

  write_at_effect :
      (hash bytes : List ℕ) (writer : Writer) (found : Option InputDecision)
      → lookup key j.decisions ≡ found
      → let w = write_at hash j key bytes writer found in
        (count k w.2 + known k j ≤ known k w.0) × Keeps k j w.0
  unfolding write_at
  write_at_effect hash bytes writer (some previous) h = (ground arith, λ e q. ground arith)
  write_at_effect hash bytes writer none h =
      let (once, kept) = insert_effect (decide hash bytes (writer bytes)) h in
      elim (Bool-cases (leb j.max (length j.decisions))) [
        | inl full ↦ rw full (omega arith, λ e q. q)
        | inr room ↦ elim (Bool-cases (key.generation == j.current)) [
          | inl current ↦ rw (room, current) (once, kept)
          | inr stale ↦ rw (room, stale) (omega arith, λ e q. q)
        ]
      ]

  write_effect :
      (hash bytes : List ℕ) (writer : Option Writer)
      → let w = write_with hash j key bytes writer in
        (count k w.2 + known k j ≤ known k w.0) × Keeps k j w.0
  unfolding write_with
  write_effect hash bytes none = (omega arith, λ d q. q)
  write_effect hash bytes (some writer) = elim (Bool-cases (bad_key key)) [
    | inl bad ↦ rw bad (omega arith, λ d q. q)
    | inr good ↦ rw good (write_at_effect hash bytes writer (lookup key j.decisions) refl)
  ]

  restore_effect :
      (hash : List ℕ) (status : InputStatus) (n : ℕ) (code : String)
      → let j' = (restore j key hash status n code).0 in (known k j ≤ known k j') × Keeps k j j'
  unfolding restore
  restore_effect hash status n code = (
    ground (arith, lookup-insert key k (restored hash status n code) j.decisions),
    λ d q. ground (arith, lookup-insert key k (restored hash status n code) j.decisions),
  )

module _ (sum256 : List ℕ → List ℕ) (k : InputKey) where
  step_effect :
      (j : InputJournal) (op : Op)
      → (count k (step sum256 j op).1 + known k j ≤ known k (step sum256 j op).0)
        × Keeps k j (step sum256 j op).0
  unfolding write set_generation
  step_effect j (writes key bytes writer) = write_effect k j key (sum256 bytes) bytes writer
  step_effect j (restores key hash status n code) =
      let (once, kept) = restore_effect k j key hash status n code in (omega arith, kept)
  step_effect j (sets_generation generation) = (omega arith, λ d q. q)

  run_effect :
      (j : InputJournal) (ops : List Op)
      → (count k (run sum256 j ops).1 + known k j ≤ known k (run sum256 j ops).0)
        × Keeps k j (run sum256 j ops).0
  run_effect j [] = (omega arith, λ d q. q)
  run_effect j (op ∷ ops) =
      let first = step_effect j op in
      let rest = run_effect (step sum256 j op).0 ops in
      (
        omega (
          arith,
          first.0,
          rest.0,
          count-append k (step sum256 j op).1 (run sum256 (step sum256 j op).0 ops).1,
        ),
        λ d q. rest.1 d (first.1 d q),
      )

  known-le : (j : InputJournal) → known k j ≤ 1
  known-le j = ground arith

  -- Whatever writes, restores and generations a journal sees, the terminal is written to once at
  -- most for each key, and not at all for a key that is decided at the start.
  pub run_once : (j : InputJournal) (ops : List Op) → count k (run sum256 j ops).1 + known k j ≤ 1
  run_once j ops =
      let (once, _) = run_effect j ops in
      let most = known-le (run sum256 j ops).0 in omega (arith, once, most)

-- A second `Write` that finds the decision.
write_found :
    (hash bytes : List ℕ) (j : InputJournal) (key : InputKey) (writer : Writer) (p : InputDecision)
    → bad_key key ≡ false
    → lookup key j.decisions ≡ some p
    → p.hash ≡ hash
    → write_with hash j key bytes (some writer) ≡ (j, ok (replayed p), [])
unfolding write_with
write_found hash bytes j key writer p good found same = rw (good, found) (ground arith)

write_at_done :
    (hash bytes : List ℕ) (j : InputJournal) (key : InputKey) (writer : Writer)
    (found : Option InputDecision) {d : InputDecision}
    → lookup key j.decisions ≡ found
    → (write_at hash j key bytes writer found).1 ≡ ok d
    → (p : InputDecision) × (lookup key (write_at hash j key bytes writer found).0.decisions
        ≡ some p)
      × (p.hash ≡ hash)
      × (replayed p ≡ replayed d)
unfolding write_at replayed
write_at_done hash bytes j key writer (some previous) {d} found h =
    (previous, ground arith, ground arith, ground arith)
write_at_done hash bytes j key writer none {d} found h =
    let p = decide hash bytes (writer bytes) in
    (p, ground (arith, lookup-insert key key p j.decisions), unfold decide in refl, ground arith)

-- What a successful `Write` leaves in the journal.
write_done :
    (hash bytes : List ℕ) (j : InputJournal) (key : InputKey) (writer : Option Writer)
    {d : InputDecision}
    → (write_with hash j key bytes writer).1 ≡ ok d
    → (bad_key key ≡ false)
      × (p : InputDecision) × (lookup key (write_with hash j key bytes writer).0.decisions ≡ some p)
      × (p.hash ≡ hash)
      × (replayed p ≡ replayed d)
unfolding write_with
write_done hash bytes j key none {d} h = absurd (ground arith)
write_done hash bytes j key (some writer) {d} h = elim (Bool-cases (bad_key key)) [
  | inl bad ↦ absurd (ground arith)
  | inr good ↦
      let (p, stored, same, again) =
        write_at_done hash bytes j key writer (lookup key j.decisions) refl (ground arith) in
      rw good (refl, p, stored, same, again)
]

-- The status of an answer that is given again.
abbrev pub as_duplicate : InputStatus → InputStatus
as_duplicate input_accepted = input_duplicate
as_duplicate status = status

replayed_public :
    (d : InputDecision)
    → d.hash ≡ zero_hash
    → replayed d ≡ record d { status = as_duplicate d.status }
unfolding replayed
replayed_public d public = ground arith

-- An answer does not tell the hash.
write_public :
    (hash bytes : List ℕ) (j : InputJournal) (key : InputKey) (writer : Option Writer)
    {d : InputDecision}
    → (write_with hash j key bytes writer).1 ≡ ok d
    → d.hash ≡ zero_hash
unfolding write_with write_at replayed
write_public hash bytes j key none h = absurd (ground arith)
write_public hash bytes j key (some writer) h = elim (Option-cases (lookup key j.decisions)) [
  | inl missing ↦ ground arith
  | inr (p, found) ↦ ground arith
]

-- Once a write has been answered, then whatever calls follow, a write of the same bytes under the
-- same key gives the same answer, with `accepted` read as `duplicate`, changes nothing, and leaves
-- its writer alone.
pub write_again :
    (sum256 : List ℕ → List ℕ) (j : InputJournal) (key : InputKey) (bytes : List ℕ)
    (writer : Option Writer) (ops : List Op) (later : Writer) {d : InputDecision}
    → (write sum256 j key bytes writer).1 ≡ ok d
    → let j' = (run sum256 (write sum256 j key bytes writer).0 ops).0 in
      write sum256 j' key bytes (some later)
      ≡ (j', ok (record d { status = as_duplicate d.status }), [])
unfolding write
write_again sum256 j key bytes writer ops later h =
    let (good, p, stored, same, again) = write_done (sum256 bytes) bytes j key writer h in
    let j1 = (write_with (sum256 bytes) j key bytes writer).0 in
    let kept = (run_effect sum256 key j1 ops).1 p stored in
    write_found (sum256 bytes) bytes (run sum256 j1 ops).0 key later p good kept same
    ∙ ap (λ x. ((run sum256 j1 ops).0, ok x, []))
        (again ∙ replayed_public _ (write_public (sum256 bytes) bytes j key writer h))

-- Bytes with another hash under a key that is decided are refused, and not written.
pub write_conflict :
    (sum256 : List ℕ → List ℕ) (j : InputJournal) (key : InputKey) (bytes : List ℕ)
    (writer : Writer) {p : InputDecision}
    → bad_key key ≡ false
    → lookup key j.decisions ≡ some p
    → p.hash ≢ sum256 bytes
    → write sum256 j key bytes (some writer) ≡ (j, err input_conflict, [])
unfolding write
write_conflict sum256 j key bytes writer good found other = rw (good, found) (ground arith)
