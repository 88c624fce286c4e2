-- ===== src/Operation/Pinned.antt =====
-- Operations that are running or uncertain are never forgotten, so that no operation runs twice.
use paperboat_helper.Base.{
  ◌≡◌, ◌≢◌, refl, ap, ◌∙◌, ◌⊎◌, inl, inr, Bool, true, false, if◌then◌else◌, Option, none, some,
  List, [], ◌∷◌, Bytes, bytes_key, Bytes_discrete, lookup, lookup-insert, arith, is_yes,
}
use paperboat_helper.Operation.{
  Outcome, Entry, Journal, Reserved, valid_id, starts, waits, answers, uncertain_before, refused,
  operation_conflict, answer, fresh, reserve, begin_new, begin, finish,
}
use paperboat_helper.Operation.Order.{is_settled, IsOrdered, evict-keeps}
use paperboat_helper.Operation.Effects.{
  Op, step, run, left, ended, ends, Effect, step-Effect, Effect-IsOrdered, unchanged, evicted,
  started, finished, begins, finishes,
}

-- No call of the list ends the operation.
abbrev pub Leaves : Bytes → List Op → Type 0
Leaves k [] = Unit {0}
Leaves k (op ∷ ops) = (ends op ≢ some k) × Leaves k ops

-- An entry that is not settled stays, but for the end of its operation while it runs.
Effect-keeps :
    (k : Bytes) (e : Entry) (ended_now : Option Bytes) (j j' : Journal)
    → is_settled (some e) ≡ false
    → (e.complete ≡ true) ⊎ (ended_now ≢ some k)
    → IsOrdered j
    → lookup k j.entries ≡ some e
    → Effect ended_now j j'
    → lookup k j'.entries ≡ some e
Effect-keeps k e n j j' opened safe h found (unchanged es os) = ground arith
Effect-keeps k e n j j' opened safe h found (evicted es os) =
    ground (arith, evict-keeps j.max k j.entries j.order (ground arith) h)
Effect-keeps k e n j j' opened safe h found (started id hash missing room es os) = ground (
  arith,
  evict-keeps j.max k j.entries j.order (ground arith) h,
  lookup-insert id k (fresh hash) (left j).0,
)
Effect-keeps k e n j j' opened safe h found
      (finished id x outcome persisted k_ends at running es os) =
    elim (bytes_key.dec id k) [
      | yes p ↦ elim safe [
        | inl done ↦ absurd (ground arith)
        | inr other ↦ absurd (other (k_ends ∙ ap some p))
      ]
      | no p ↦ ground (arith, lookup-insert id k (ended x outcome persisted) j.entries)
    ]

run-keeps :
    (k : Bytes) (e : Entry) (j : Journal) (ops : List Op)
    → is_settled (some e) ≡ false
    → (e.complete ≡ true) ⊎ Leaves k ops
    → IsOrdered j
    → lookup k j.entries ≡ some e
    → lookup k (run j ops).entries ≡ some e
run-keeps k e j [] opened safe h found = found
run-keeps k e j (op ∷ ops) opened (inl done) h found =
    run-keeps k e (step j op) ops opened (inl done)
      (Effect-IsOrdered (ends op) j (step j op) (step-Effect j op) h)
      (Effect-keeps k e (ends op) j (step j op) opened (inl done) h found (step-Effect j op))
run-keeps k e j (op ∷ ops) opened (inr l) h found =
    run-keeps k e (step j op) ops opened (inr l.1)
      (Effect-IsOrdered (ends op) j (step j op) (step-Effect j op) h)
      (Effect-keeps k e (ends op) j (step j op) opened (inr l.0) h found (step-Effect j op))

pub run-IsOrdered : (j : Journal) (ops : List Op) → IsOrdered j → IsOrdered (run j ops)
run-IsOrdered j [] h = h
run-IsOrdered j (op ∷ ops) h =
    run-IsOrdered (step j op) ops (Effect-IsOrdered (ends op) j (step j op) (step-Effect j op) h)

begun :
    (j : Journal) (id hash : Bytes) (stored : Option Reserved)
    → (begin j id hash stored).1 ≡ starts
    → (lookup id (begin j id hash stored).0.entries ≡ some (fresh hash)) × (valid_id id ≡ true)
unfolding begin begin_new reserve
begun j id hash none h = ground (arith, lookup-insert id id (fresh hash) (left j).0)
begun j id hash (some r) h = ground (arith, lookup-insert id id (fresh hash) (left j).0)

begin_known :
    (j : Journal) (id hash : Bytes) (stored : Option Reserved) (e : Entry)
    → valid_id id ≡ true
    → lookup id j.entries ≡ some e
    → begin j id hash stored ≡ (j, answer e hash)
unfolding begin
begin_known j id hash stored e valid found = ground arith

-- Once `Execute` has begun an operation, then whatever calls follow, of this and of others, as long
-- as the operation has not ended, another call with its identity does not begin it again: with the
-- same request it waits, with another it is refused, and nothing changes.
pub begin_once :
    (j : Journal) (id hash again : Bytes) (stored later : Option Reserved) (ops : List Op)
    → IsOrdered j
    → (begin j id hash stored).1 ≡ starts
    → Leaves id ops
    → let j' = run (begin j id hash stored).0 ops in
      begin j' id again later
      ≡ (j', if is_yes (Bytes_discrete hash again) then waits else refused operation_conflict)
begin_once j id hash again stored later ops h started_now leaves =
    let (found, valid) = begun j id hash stored started_now in
    let ordered = Effect-IsOrdered none j _ (step-Effect j (begins id hash stored)) h in
    let kept =
      run-keeps id (fresh hash) (begin j id hash stored).0 ops refl (inr leaves) ordered found in
    begin_known (run (begin j id hash stored).0 ops) id again later (fresh hash) valid kept
    ∙ ground arith

-- The journal when an operation that it began ends.
finish-found :
    (j : Journal) (id : Bytes) (outcome : Outcome) (persisted : Bool) (e : Entry)
    → lookup id j.entries ≡ some e
    → e.complete ≡ false
    → lookup id (finish j id outcome persisted).entries ≡ some (ended e outcome persisted)
unfolding finish
finish-found j id outcome persisted e found running =
    ground (arith, lookup-insert id id (ended e outcome persisted) j.entries)

-- What the operation leaves, at its end.
ran :
    (j : Journal) (id hash : Bytes) (stored : Option Reserved) (ops : List Op) (outcome : Outcome)
    (persisted : Bool)
    → IsOrdered j
    → (begin j id hash stored).1 ≡ starts
    → Leaves id ops
    → let j' = finish (run (begin j id hash stored).0 ops) id outcome persisted in
      IsOrdered j'
      × (lookup id j'.entries ≡ some (ended (fresh hash) outcome persisted))
      × (valid_id id ≡ true)
ran j id hash stored ops outcome persisted h started_now leaves =
    let (found, valid) = begun j id hash stored started_now in
    let ordered = Effect-IsOrdered none j _ (step-Effect j (begins id hash stored)) h in
    let j1 = run (begin j id hash stored).0 ops in
    let kept =
      run-keeps id (fresh hash) (begin j id hash stored).0 ops refl (inr leaves) ordered found in
    (
      Effect-IsOrdered (some id) j1 _ (step-Effect j1 (finishes id outcome persisted))
          (run-IsOrdered (begin j id hash stored).0 ops ordered),
      finish-found j1 id outcome persisted (fresh hash) kept refl,
      valid,
    )

-- Once an operation has ended and its outcome is kept, a call with its identity and request is
-- given that outcome, one with another request is refused, and nothing changes.
pub finish_answers :
    (j : Journal) (id hash again : Bytes) (stored later : Option Reserved) (ops : List Op)
    (outcome : Outcome)
    → IsOrdered j
    → (begin j id hash stored).1 ≡ starts
    → Leaves id ops
    → let j' = finish (run (begin j id hash stored).0 ops) id outcome true in
      begin j' id again later ≡ (
        j',
        if is_yes (Bytes_discrete hash again) then answers outcome else refused operation_conflict,
      )
finish_answers j id hash again stored later ops outcome h started_now leaves =
    let (_, found, valid) = ran j id hash stored ops outcome true h started_now leaves in
    begin_known (finish (run (begin j id hash stored).0 ops) id outcome true) id again later
      (ended (fresh hash) outcome true) valid found
    ∙ ground arith

-- An operation that has run but whose outcome the store did not take is never run again: whatever
-- calls follow its end, a call with its identity and request is told that its outcome is uncertain,
-- and nothing changes.
pub finish_uncertain :
    (j : Journal) (id hash again : Bytes) (stored later : Option Reserved) (ops rest : List Op)
    (outcome : Outcome)
    → IsOrdered j
    → (begin j id hash stored).1 ≡ starts
    → Leaves id ops
    → let j' = run (finish (run (begin j id hash stored).0 ops) id outcome false) rest in
      begin j' id again later ≡ (
        j',
        if is_yes (Bytes_discrete hash again)
            then uncertain_before outcome
            else refused operation_conflict,
      )
finish_uncertain j id hash again stored later ops rest outcome h started_now leaves =
    let (ordered, found, valid) = ran j id hash stored ops outcome false h started_now leaves in
    let j1 = finish (run (begin j id hash stored).0 ops) id outcome false in
    let e = ended (fresh hash) outcome false in
    let kept = run-keeps id e j1 rest refl (inl refl) ordered found in
    begin_known (run j1 rest) id again later e valid kept ∙ ground arith
