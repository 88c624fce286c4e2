-- ===== src/Transfer/Run/Quota.antt =====
-- What is in transit fits into the spool, after any calls.
use paperboat_helper.Base.{
  ℕ, ◌+◌, ◌≤◌, ◌≡◌, refl, sym, subst, inl, inr, ◌⊎◌, Bool, true, false, ◌&&◌, ◌||◌, Option, none,
  some, List, [], ◌∷◌, ◌++◌, Bytes, bytes_eq, length, All, arith, Bool-cases, Option-cases, ltb,
  leb, ◌==◌, ◌-◌, err, if◌then◌else◌,
}
use paperboat_helper.Transfer.{
  TransferState, is_open, is_canceled, is_done, is_active, commits, commit, batch, every, any,
  Entry, Error, conflict, invalid_path, batch_limit, resource_limit, find, each, cancel_row,
  takes_receipt,
}
use paperboat_helper.Transfer.Service.{
  Step, append, append_at, append_to, append_found, copied, truncate, publish, move_file, Verdict,
  refused, mismatched, complete_files, complete_verified, complete_batch, verify, cancel,
  cancel_batch, complete_transfer, receipt, receive, expire, cleanup_expired, remove_files, at,
  in_batch, write,
}
use paperboat_helper.Transfer.Creation.{
  Policy, CreateRequest, create, create_entries, checked, check_files, with_files, new_entries,
  insertable, used, total_size, active_batches, lifetime, valid_policy,
}
use paperboat_helper.Transfer.Run.Serving.{Sound, step-Sound}
use paperboat_helper.Transfer.Service.Entries.{find-id, find_only}
use paperboat_helper.Transfer.Run.{
  Op, creates, appends, completes, cancels, receives, cleans, step, run,
}

-- A change that makes nothing active, and keeps the size of what is.
abbrev Settles : (Entry → Entry) → Type 0
Settles f =
    (e : Entry)
    → (is_active (f e).state ≡ false) ⊎ ((is_active e.state ≡ true) × ((f e).size ≡ e.size))

used-each : (f : Entry → Entry) (es : List Entry) → Settles f → used (each f es) ≤ used es
unfolding used each
used-each f [] s = omega arith
used-each f (e ∷ es) s = ground (arith, used-each f es s, s e)

used-append : (es new : List Entry) → used (es ++ new) ≡ used es + used new
unfolding used
used-append [] new = omega arith
used-append (e ∷ es) new = omega (arith, used-append es new)

used-le : (new : List Entry) → used new ≤ total_size new
unfolding used total_size
used-le [] = omega arith
used-le (e ∷ new) = ground (arith, used-le new)

same-Settles :
    (e f : Entry)
    → f.state ≡ e.state
    → f.size ≡ e.size
    → (is_active f.state ≡ false) ⊎ ((is_active e.state ≡ true) × (f.size ≡ e.size))
same-Settles e f s z = elim (Bool-cases (is_active f.state)) [
  | inr idle ↦ inl idle
  | inl active ↦ inr (subst (λ t. is_active t ≡ true) s active, z)
]

at-Settles : (id : Bytes) (f : Entry → Entry) → Settles f → Settles (at id f)
at-Settles id f s e = elim (Bool-cases (bytes_eq e.id id)) [
  | inl mine ↦ rw mine (s e)
  | inr other ↦ rw other (same-Settles e e refl refl)
]

in_batch-Settles : (id : Bytes) (f : Entry → Entry) → Settles f → Settles (in_batch id f)
in_batch-Settles id f s e = elim (Bool-cases (bytes_eq e.batch_id id)) [
  | inl mine ↦ rw mine (s e)
  | inr other ↦ rw other (same-Settles e e refl refl)
]

cancel_row-Settles : Settles cancel_row
cancel_row-Settles e = ground arith

publish-Settles : Settles (λ e. publish (move_file e))
publish-Settles e = ground arith

receive-Settles : (client_id code path : Bytes) → Settles (receive client_id code path)
receive-Settles client_id code path e = ground arith

expire-Settles : (now : ℕ) (chosen : Entry → Bool) → Settles (expire now chosen)
expire-Settles now chosen e = ground arith

-- A change of the one entry of an identity that is active.
used-at :
    (id : Bytes) (f : Entry → Entry) (es : List Entry) (e : Entry)
    → All (λ x. bytes_eq x.id id ≡ true → x ≡ e) es
    → is_active e.state ≡ true
    → (f e).size ≡ e.size
    → used (each (at id f) es) ≤ used es
unfolding used each
used-at id f [] e only active same = omega arith
used-at id f (x ∷ es) e only active same = elim (Bool-cases (bytes_eq x.id id)) [
  | inr other ↦ rw other (omega (arith, used-at id f es e only.1 active same))
  | inl mine ↦ rw (mine, only.0 mine, active) (ground (arith, used-at id f es e only.1 active same))
]

write-Settles : (xs : Bytes) → Settles (write xs)
write-Settles xs e = same-Settles e (write xs e) refl refl

open_active : (state : TransferState) → is_open state ≡ true → is_active state ≡ true
open_active state h = ground arith

append_at-used :
    (es : List Entry) (e : Entry) (file body : Bytes) (complete_copy : Bool)
    → All (λ x. bytes_eq x.id e.id ≡ true → x ≡ e) es
    → used (append_at es e file body complete_copy).0 ≤ used es
unfolding append_at
append_at-used es e file body complete_copy only =
    let kept = truncate e.committed_offset file in
    let got = copied e body in
    let next = e.committed_offset + length got in
    let change = λ (xs : Bytes).
      used-each (at e.id (write xs)) es (at-Settles e.id (write xs) (write-Settles xs)) in
    elim (Bool-cases complete_copy) [
      | inr failed_copy ↦ rw failed_copy (change (kept ++ got))
      | inl whole_copy ↦ elim (Bool-cases (ltb (e.size - e.committed_offset) (length got))) [
        | inl long ↦ rw (whole_copy, long) (change kept)
        | inr short ↦ elim (Bool-cases (commits e.committed_offset next e)) [
          | inr untaken ↦ rw (whole_copy, short, untaken) (change (kept ++ got))
          | inl taken ↦
              rw (whole_copy, short, taken)
                (used-at e.id (λ x. commit next (write (kept ++ got) x)) es e only
                  (open_active e.state (ground arith)) refl)
        ]
      ]
    ]

append_to-used :
    (es : List Entry) (e : Entry) (file : Option Bytes) (body : Bytes) (complete_copy : Bool)
    → All (λ x. bytes_eq x.id e.id ≡ true → x ≡ e) es
    → used (append_to es e file body complete_copy).0 ≤ used es
unfolding append_to
append_to-used es e none body complete_copy only = omega arith
append_to-used es e (some file) body complete_copy only =
    append_at-used es e file body complete_copy only

append_found-used :
    (es : List Entry) (found : Option Entry) (offset : ℕ) (body : Bytes) (complete_copy : Bool)
    → ((e : Entry) → found ≡ some e → All (λ x. bytes_eq x.id e.id ≡ true → x ≡ e) es)
    → used (append_found es found offset body complete_copy).0 ≤ used es
unfolding append_found
append_found-used es none offset body complete_copy only = omega arith
append_found-used es (some e) offset body complete_copy only =
    elim (Bool-cases (is_canceled e.state)) [
      | inl gone ↦ rw gone (omega arith)
      | inr there ↦ elim (Bool-cases (offset == e.committed_offset)) [
        | inr other ↦ rw (there, other) (omega arith)
        | inl same ↦
            rw (there, same) (append_to-used es e e.partial body complete_copy (only e refl))
      ]
    ]

cancel_batch-used : (id : Bytes) (es : List Entry) → used (cancel_batch id es).0 ≤ used es
unfolding cancel_batch
cancel_batch-used id es =
    used-each (in_batch id (λ e. remove_files (cancel_row e))) es
      (in_batch-Settles id (λ e. remove_files (cancel_row e)) (λ e. cancel_row-Settles e))

complete_verified-used :
    (digest : Bytes → Bytes) (es : List Entry) (id : Bytes) (verdict : Verdict)
    (renamed synced : Bool)
    → used (complete_verified digest es id verdict renamed synced).0 ≤ used es
unfolding complete_verified
complete_verified-used digest es id (refused e) renamed synced = omega arith
complete_verified-used digest es id mismatched renamed synced = cancel_batch-used id es
complete_verified-used digest es id complete_files false synced = omega arith
complete_verified-used digest es id complete_files true false =
    used-each (in_batch id move_file) es
      (in_batch-Settles id move_file (λ e. same-Settles e (move_file e) refl refl))
complete_verified-used digest es id complete_files true true =
    used-each (in_batch id (λ e. publish (move_file e))) es
      (in_batch-Settles id (λ e. publish (move_file e)) publish-Settles)

complete_transfer-used :
    (digest : Bytes → Bytes) (es : List Entry) (id : Bytes) (renamed synced : Bool)
    → used (complete_transfer digest es id renamed synced).0 ≤ used es
unfolding complete_transfer complete_batch
complete_transfer-used digest es id renamed synced = elim (Option-cases (find id es)) [
  | inl missing ↦ rw (missing, complete_transfer) (omega arith)
  | inr (e, found) ↦ elim (Bool-cases (every (λ x. is_done x.state) (batch e.batch_id es))) [
    | inl done ↦ rw (found, complete_transfer, done) (omega arith)
    | inr left ↦
        rw (found, complete_transfer, left)
          (complete_verified-used digest es e.batch_id (verify digest (batch e.batch_id es)) renamed
            synced)
  ]
]

-- A guard.
guard-used :
    (refused : Bool) (es : List Entry) (e : Error) (n : ℕ) (rest : Step)
    → used es ≤ n
    → (refused ≡ false → used rest.0 ≤ n)
    → used (if refused then (es, err e) else rest).0 ≤ n
guard-used true es e n rest v next = v
guard-used false es e n rest v next = next refl

checked-used :
    (es : List Entry) (bad : Option Error) (n : ℕ) (rest : Step)
    → used es ≤ n
    → used rest.0 ≤ n
    → used (checked es bad rest).0 ≤ n
checked-used es (some e) n rest v w = v
checked-used es none n rest v w = w

with_files-used :
    (es : List Entry) (batch_id : Bytes) (new : List Entry) (opened : Bool)
    → used (with_files batch_id new opened es).0 ≤ used es + total_size new
unfolding with_files
with_files-used es batch_id new true = omega (
  arith,
  used-append es (each (write []) new),
  used-each (write []) new (write-Settles []),
  used-le new,
)
with_files-used es batch_id new false =
    let gone = λ (e : Entry). remove_files (cancel_row e) in
    omega (
      arith,
      used-append (each (in_batch batch_id cancel_row) es) (each gone new),
      used-each (in_batch batch_id cancel_row) es
          (in_batch-Settles batch_id cancel_row cancel_row-Settles),
      used-each gone new (λ e. cancel_row-Settles e),
      used-le new,
    )

spool_fits : (n k : ℕ) → ltb 0 n ≡ true → (ltb 0 n && ltb n k) ≡ false → k ≤ n
spool_fits n k positive room = ground arith

module _ (valid_basename : Bytes → Bool) (digest : Bytes → Bytes) (policy : Policy)
    (positive : ltb 0 policy.max_pending_spool_bytes ≡ true) where
  create_entries-used :
      (es : List Entry) (batch_id : Bytes) (new : List Entry) (opened : Bool)
      → let n = policy.max_pending_spool_bytes in
        used es ≤ n → used (create_entries es policy batch_id new opened).0 ≤ n
  unfolding create_entries
  create_entries-used es batch_id new opened v =
      let n = policy.max_pending_spool_bytes in
      guard-used (ltb (length new) 1 || ltb 10 (length new)) es resource_limit n _ v (λ many.
        guard-used
          (ltb 0 policy.max_concurrent_transfers
            && leb policy.max_concurrent_transfers (active_batches es))
          es resource_limit n _ v
          (λ slots.
            guard-used (ltb 0 n && ltb n (used es + total_size new)) es resource_limit n _ v
              (λ room. elim (Bool-cases (insertable es new)) [
                | inl free ↦ rw free (
                    let fits : used es + total_size new ≤ n =
                      spool_fits n (used es + total_size new) positive room in
                    omega (arith, with_files-used es batch_id new opened))
                | inr taken ↦ rw taken v
              ])))

  create-used :
      (es : List Entry) (r : CreateRequest) (now : ℕ) (ids : List Bytes) (opened : Bool)
      → let n = policy.max_pending_spool_bytes in
        used es ≤ n → used (create valid_basename es policy r now ids opened).0 ≤ n
  unfolding create
  create-used es r now ids opened v =
      let n = policy.max_pending_spool_bytes in
      let new = new_entries r (now + lifetime policy r.direction) ids r.files in
      guard-used (bytes_eq r.batch_id [] || bytes_eq r.session_id [] || bytes_eq r.client_id []) es
        invalid_path n _ v
        (λ named.
          guard-used (ltb (length r.files) 1 || ltb policy.max_batch_files (length r.files)) es
            batch_limit n _ v
            (λ sized.
              checked-used es (check_files valid_basename policy 0 r.files) n _ v
                (create_entries-used es r.batch_id new opened v)))

  receipt-used :
      (es : List Entry) (id client_id code path : Bytes)
      → used (receipt es id client_id code path).0 ≤ used es
  unfolding receipt
  receipt-used es id client_id code path =
      guard-used (bytes_eq code []) es conflict (used es) _ (omega arith) (λ given.
        elim (Bool-cases (any (λ e. bytes_eq e.id id && takes_receipt client_id code path e) es)) [
          | inr nothing ↦ rw nothing (omega arith)
          | inl there ↦ rw there (
              used-each (at id (receive client_id code path)) es
                (at-Settles id (receive client_id code path) (receive-Settles client_id code path)))
        ])

  cancel-used : (es : List Entry) (id : Bytes) → used (cancel es id).0 ≤ used es
  unfolding cancel
  cancel-used es id = elim (Option-cases (find id es)) [
    | inl missing ↦ rw (missing, cancel) (omega arith)
    | inr (e, found) ↦ rw (found, cancel) (cancel_batch-used e.batch_id es)
  ]

  step-used :
      (es : List Entry) (op : Op)
      → let n = policy.max_pending_spool_bytes in
        Sound digest es → used es ≤ n → used (step valid_basename digest policy es op) ≤ n
  unfolding append cleanup_expired
  step-used es (creates r now ids opened) s v = create-used es r now ids opened v
  step-used es (appends id offset body complete_copy) s v = omega (
    arith,
    append_found-used es (find id es) offset body complete_copy (λ e found.
        subst (λ i. All (λ x. bytes_eq x.id i ≡ true → x ≡ e) es) (sym (find-id id es found))
          (find_only id es s.unique found)),
  )
  step-used es (completes id renamed synced) s v =
      omega (arith, complete_transfer-used digest es id renamed synced)
  step-used es (cancels id) s v = omega (arith, cancel-used es id)
  step-used es (receives id client_id code path) s v =
      omega (arith, receipt-used es id client_id code path)
  step-used es (cleans now chosen) s v =
      omega (arith, used-each (expire now chosen) es (expire-Settles now chosen))

  run-used :
      (es : List Entry) (ops : List Op)
      → let n = policy.max_pending_spool_bytes in
        Sound digest es → used es ≤ n → used (run valid_basename digest policy es ops) ≤ n
  run-used es [] s v = v
  run-used es (op ∷ ops) s v =
      run-used (step valid_basename digest policy es op) ops
        (step-Sound digest valid_basename policy es op s) (step-used es op s v)

spool-positive : (p : Policy) → valid_policy p ≡ true → ltb 0 p.max_pending_spool_bytes ≡ true
unfolding valid_policy
spool-positive p valid = ground (arith, valid)

-- After any calls of a service without transfers, under one valid policy, the sizes of the
-- transfers that are created, uploading or pending add up to at most the spool of the policy.
pub run_quota :
    (valid_basename : Bytes → Bool) (digest : Bytes → Bytes) (policy : Policy) (ops : List Op)
    → valid_policy policy ≡ true
    → used (run valid_basename digest policy [] ops) ≤ policy.max_pending_spool_bytes
unfolding used
run_quota valid_basename digest policy ops valid =
    run-used valid_basename digest policy (spool-positive policy valid) [] ops
      (record { unique = tt; sound = tt }) (omega arith)
