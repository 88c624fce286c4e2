-- ===== src/Transfer/Run/Serving.antt =====
-- What is served has the size and the digest that were declared, after any calls.
use paperboat_helper.Base.{
  ℕ, ◌+◌, ◌≡◌, refl, subst, ap, inl, inr, Bool, true, false, ◌&&◌, ◌||◌, Option, none, some, List,
  [], ◌∷◌, ◌++◌, Bytes, bytes_eq, bytes_eq_sound, length, arith, Bool-cases, Option-cases, All,
  All-append, ltb, leb, ◌==◌, ◌-◌, ok, err, if◌then◌else◌,
}
use paperboat_helper.Transfer.{
  is_canceled, commits, commit, batch, every, Entry, Error, conflict, invalid_path, batch_limit,
  resource_limit, find, each, is_done, cancel_row, takes_receipt, any,
}
use paperboat_helper.Transfer.Service.{
  Step, append_at, append_to, append_found, copied, truncate, publish, move_file, Verdict, refused,
  mismatched, complete_files, complete_verified, complete_batch, verify, append, cancel,
  cancel_batch, complete_transfer, receipt, receive, expire, cleanup_expired, open_content,
  remove_files, at, in_batch, write,
}
use paperboat_helper.Transfer.Service.Entries.{each-All, each-Unique, find-All, Unique}
use paperboat_helper.Transfer.Service.Contents.{
  IsSound, append-IsSound, cancel_batch-IsSound, receive-IsSound, expire-IsSound, in_batch-IsSound,
  at-IsSound, cancel_row-IsSound,
}
use paperboat_helper.Transfer.Service.Completion.{complete_transfer-IsSound}
use paperboat_helper.Transfer.Creation.{
  Policy, CreateRequest, create, create_entries, checked, check_files, with_files, new_entries,
  insertable, used, total_size, active_batches, lifetime,
}
use paperboat_helper.Transfer.Run.{
  Op, creates, appends, completes, cancels, receives, cleans, step, run,
}
use paperboat_helper.Transfer.Run.Inserting.{insertable-Unique, new_entries-IsSound, mapped-Unique}

at-id :
    (id : Bytes) (f : Entry → Entry)
    → ((e : Entry) → (f e).id ≡ e.id)
    → (e : Entry) → (at id f e).id ≡ e.id
at-id id f k e = elim (Bool-cases (bytes_eq e.id id)) [
  | inl here ↦ rw here (k e)
  | inr other ↦ rw other
]

in_batch-id :
    (id : Bytes) (f : Entry → Entry)
    → ((e : Entry) → (f e).id ≡ e.id)
    → (e : Entry) → (in_batch id f e).id ≡ e.id
in_batch-id id f k e = elim (Bool-cases (bytes_eq e.batch_id id)) [
  | inl here ↦ rw here (k e)
  | inr other ↦ rw other
]

append_at-Unique :
    (es : List Entry) (e : Entry) (file body : Bytes) (complete_copy : Bool)
    → Unique es
    → Unique (append_at es e file body complete_copy).0
unfolding append_at
append_at-Unique es e file body complete_copy u =
    let kept = truncate e.committed_offset file in
    let got = copied e body in
    let next = e.committed_offset + length got in
    let change = λ (f : Entry → Entry) (k : (x : Entry) → (f x).id ≡ x.id).
      each-Unique (at e.id f) es (at-id e.id f k) u in
    elim (Bool-cases complete_copy) [
      | inr failed_copy ↦ rw failed_copy (change (write (kept ++ got)) (λ x. refl))
      | inl whole_copy ↦ elim (Bool-cases (ltb (e.size - e.committed_offset) (length got))) [
        | inl long ↦ rw (whole_copy, long) (change (write kept) (λ x. refl))
        | inr short ↦ elim (Bool-cases (commits e.committed_offset next e)) [
          | inr untaken ↦ rw (whole_copy, short, untaken) (change (write (kept ++ got)) (λ x. refl))
          | inl taken ↦
              rw (whole_copy, short, taken)
                (change (λ x. commit next (write (kept ++ got) x)) (λ x. refl))
        ]
      ]
    ]

append_to-Unique :
    (es : List Entry) (e : Entry) (file : Option Bytes) (body : Bytes) (complete_copy : Bool)
    → Unique es
    → Unique (append_to es e file body complete_copy).0
unfolding append_to
append_to-Unique es e none body complete_copy u = u
append_to-Unique es e (some file) body complete_copy u =
    append_at-Unique es e file body complete_copy u

append_found-Unique :
    (es : List Entry) (found : Option Entry) (offset : ℕ) (body : Bytes) (complete_copy : Bool)
    → Unique es
    → Unique (append_found es found offset body complete_copy).0
unfolding append_found
append_found-Unique es none offset body complete_copy u = u
append_found-Unique es (some e) offset body complete_copy u =
    elim (Bool-cases (is_canceled e.state)) [
      | inl gone ↦ rw gone u
      | inr there ↦ elim (Bool-cases (offset == e.committed_offset)) [
        | inr other ↦ rw (there, other) u
        | inl same ↦ rw (there, same) (append_to-Unique es e e.partial body complete_copy u)
      ]
    ]

cancel_row-id : (e : Entry) → (cancel_row e).id ≡ e.id
cancel_row-id e = ground arith

cancel_batch-Unique : (id : Bytes) (es : List Entry) → Unique es → Unique (cancel_batch id es).0
unfolding cancel_batch
cancel_batch-Unique id es u =
    each-Unique (in_batch id (λ e. remove_files (cancel_row e))) es
      (in_batch-id id (λ e. remove_files (cancel_row e)) (λ e. cancel_row-id e)) u

publish-id : (e : Entry) → (publish e).id ≡ e.id
publish-id e = ground arith

complete_verified-Unique :
    (digest : Bytes → Bytes) (es : List Entry) (id : Bytes) (verdict : Verdict)
    (renamed synced : Bool)
    → Unique es
    → Unique (complete_verified digest es id verdict renamed synced).0
unfolding complete_verified
complete_verified-Unique digest es id (refused e) renamed synced u = u
complete_verified-Unique digest es id mismatched renamed synced u = cancel_batch-Unique id es u
complete_verified-Unique digest es id complete_files false synced u = u
complete_verified-Unique digest es id complete_files true false u =
    each-Unique (in_batch id move_file) es (in_batch-id id move_file (λ e. refl)) u
complete_verified-Unique digest es id complete_files true true u =
    each-Unique (in_batch id (λ e. publish (move_file e))) es
      (in_batch-id id (λ e. publish (move_file e)) (λ e. publish-id (move_file e))) u

complete_transfer-Unique :
    (digest : Bytes → Bytes) (es : List Entry) (id : Bytes) (renamed synced : Bool)
    → Unique es
    → Unique (complete_transfer digest es id renamed synced).0
unfolding complete_transfer complete_batch
complete_transfer-Unique digest es id renamed synced u = elim (Option-cases (find id es)) [
  | inl missing ↦ rw (missing, complete_transfer) u
  | inr (e, found) ↦ elim (Bool-cases (every (λ x. is_done x.state) (batch e.batch_id es))) [
    | inl done ↦ rw (found, complete_transfer, done) u
    | inr left ↦
        rw (found, complete_transfer, left)
          (complete_verified-Unique digest es e.batch_id (verify digest (batch e.batch_id es))
            renamed synced u)
  ]
]

each-id : (es : List Entry) → each (λ e. e) es ≡ es
unfolding each
each-id [] = refl
each-id (e ∷ es) = ap (◌∷◌ e) (each-id es)

module _ (digest : Bytes → Bytes) where
  pub record Sound (es : List Entry) : Type 0 where
    pub unique : Unique es
    pub sound : All (IsSound digest) es

  guard-Sound :
      (refused : Bool) (es : List Entry) (e : Error) (rest : Step)
      → Sound es
      → (refused ≡ false → Sound rest.0)
      → Sound (if refused then (es, err e) else rest).0
  guard-Sound true es e rest v next = v
  guard-Sound false es e rest v next = next refl

  each-Sound :
      (f : Entry → Entry) (es : List Entry)
      → ((e : Entry) → (f e).id ≡ e.id)
      → ((e : Entry) → IsSound digest e → IsSound digest (f e))
      → Sound es
      → Sound (each f es)
  each-Sound f es k keep v = record {
    unique = each-Unique f es k v.unique;
    sound = each-All (IsSound digest) (IsSound digest) f es keep v.sound;
  }

  with_files-Sound :
      (es : List Entry) (batch_id : Bytes) (r : CreateRequest) (expires_at : ℕ) (ids : List Bytes)
      (opened : Bool)
      → insertable es (new_entries r expires_at ids r.files) ≡ true
      → Sound es
      → Sound (with_files batch_id (new_entries r expires_at ids r.files) opened es).0
  unfolding with_files
  with_files-Sound es batch_id r expires_at ids true free v =
      let new = new_entries r expires_at ids r.files in
      record {
        unique =
            subst (λ l. Unique l) (ap (λ (xs : List Entry). xs ++ each (write []) new) (each-id es))
              (mapped-Unique (λ e. e) (write []) es new (λ e. refl) (λ e. refl)
                (insertable-Unique es new v.unique free));
        sound =
            All-append (IsSound digest) es (each (write []) new) v.sound
              (new_entries-IsSound digest r expires_at ids r.files).0;
      }
  with_files-Sound es batch_id r expires_at ids false free v =
      let new = new_entries r expires_at ids r.files in
      let gone = λ (e : Entry). remove_files (cancel_row e) in
      record {
        unique =
            mapped-Unique (in_batch batch_id cancel_row) gone es new
              (in_batch-id batch_id cancel_row cancel_row-id) (λ e. cancel_row-id e)
              (insertable-Unique es new v.unique free);
        sound =
            All-append (IsSound digest) (each (in_batch batch_id cancel_row) es) (each gone new)
              (each-All (IsSound digest) (IsSound digest) (in_batch batch_id cancel_row) es
                (λ e w.
                  in_batch-IsSound digest batch_id cancel_row e w
                    (λ _. cancel_row-IsSound digest e w))
                v.sound)
              (new_entries-IsSound digest r expires_at ids r.files).1;
      }

  checked-Sound :
      (es : List Entry) (bad : Option Error) (rest : Step)
      → Sound es
      → Sound rest.0
      → Sound (checked es bad rest).0
  checked-Sound es (some e) rest v w = v
  checked-Sound es none rest v w = w

  create_entries-Sound :
      (es : List Entry) (policy : Policy) (r : CreateRequest) (expires_at : ℕ) (ids : List Bytes)
      (opened : Bool)
      → Sound es
      → Sound (create_entries es policy r.batch_id (new_entries r expires_at ids r.files) opened).0
  unfolding create_entries
  create_entries-Sound es policy r expires_at ids opened v =
      let new = new_entries r expires_at ids r.files in
      guard-Sound (ltb (length new) 1 || ltb 10 (length new)) es resource_limit _ v (λ many.
        guard-Sound
          (ltb 0 policy.max_concurrent_transfers
            && leb policy.max_concurrent_transfers (active_batches es))
          es resource_limit _ v
          (λ slots.
            guard-Sound
              (ltb 0 policy.max_pending_spool_bytes
                && ltb policy.max_pending_spool_bytes (used es + total_size new))
              es resource_limit _ v
              (λ room. elim (Bool-cases (insertable es new)) [
                | inl free ↦ rw free (with_files-Sound es r.batch_id r expires_at ids opened free v)
                | inr taken ↦ rw taken v
              ])))

  create-Sound :
      (valid_basename : Bytes → Bool) (es : List Entry) (policy : Policy) (r : CreateRequest)
      (now : ℕ) (ids : List Bytes) (opened : Bool)
      → Sound es
      → Sound (create valid_basename es policy r now ids opened).0
  unfolding create
  create-Sound valid_basename es policy r now ids opened v =
      let expires_at = now + lifetime policy r.direction in
      let new = new_entries r expires_at ids r.files in
      guard-Sound (bytes_eq r.batch_id [] || bytes_eq r.session_id [] || bytes_eq r.client_id []) es
        invalid_path _ v
        (λ named.
          guard-Sound (ltb (length r.files) 1 || ltb policy.max_batch_files (length r.files)) es
            batch_limit _ v
            (λ sized.
              checked-Sound es (check_files valid_basename policy 0 r.files) _ v
                (create_entries-Sound es policy r expires_at ids opened v)))

  receipt-Sound :
      (es : List Entry) (id client_id code path : Bytes)
      → Sound es
      → Sound (receipt es id client_id code path).0
  unfolding receipt
  receipt-Sound es id client_id code path v =
      guard-Sound (bytes_eq code []) es conflict _ v (λ given.
        elim (Bool-cases (any (λ e. bytes_eq e.id id && takes_receipt client_id code path e) es)) [
          | inr nothing ↦ rw nothing v
          | inl there ↦ rw there (
              each-Sound (at id (receive client_id code path)) es
                (at-id id (receive client_id code path) (λ e. ground arith))
                (λ e w.
                  at-IsSound digest id (receive client_id code path) e w
                    (receive-IsSound digest client_id code path e w))
                v)
        ])

  cancel-Sound : (es : List Entry) (id : Bytes) → Sound es → Sound (cancel es id).0
  unfolding cancel
  cancel-Sound es id v = elim (Option-cases (find id es)) [
    | inl missing ↦ rw (missing, cancel) v
    | inr (e, found) ↦
        rw (found, cancel)
          (record {
            unique = cancel_batch-Unique e.batch_id es v.unique;
            sound = cancel_batch-IsSound digest e.batch_id es v.sound;
          })
  ]

  pub step-Sound :
      (valid_basename : Bytes → Bool) (policy : Policy) (es : List Entry) (op : Op)
      → Sound es
      → Sound (step valid_basename digest policy es op)
  unfolding append cleanup_expired
  step-Sound vb policy es (creates r now ids opened) v =
      create-Sound vb es policy r now ids opened v
  step-Sound vb policy es (appends id offset body complete_copy) v = record {
    unique = append_found-Unique es (find id es) offset body complete_copy v.unique;
    sound = append-IsSound digest es id offset body complete_copy v.unique v.sound;
  }
  step-Sound vb policy es (completes id renamed synced) v = record {
    unique = complete_transfer-Unique digest es id renamed synced v.unique;
    sound = complete_transfer-IsSound digest es id renamed synced v.sound;
  }
  step-Sound vb policy es (cancels id) v = cancel-Sound es id v
  step-Sound vb policy es (receives id client_id code path) v =
      receipt-Sound es id client_id code path v
  step-Sound vb policy es (cleans now chosen) v =
      each-Sound (expire now chosen) es (λ e. ground arith)
        (λ e w. expire-IsSound digest now chosen e w) v

  pub run-Sound :
      (valid_basename : Bytes → Bool) (policy : Policy) (es : List Entry) (ops : List Op)
      → Sound es
      → Sound (run valid_basename digest policy es ops)
  run-Sound vb policy es [] v = v
  run-Sound vb policy es (op ∷ ops) v =
      run-Sound vb policy (step vb digest policy es op) ops (step-Sound vb policy es op v)

open_content_found :
    (es : List Entry) (id c : Bytes)
    → open_content es id ≡ ok c
    → (e : Entry) × (find id es ≡ some e) × (is_done e.state ≡ true) × (e.content ≡ some c)
unfolding open_content
open_content_found es id c h = elim (Option-cases (find id es)) [
  | inl missing ↦ absurd (ground (arith, missing))
  | inr (e, found) ↦ (e, found, ground (arith, found), ground (arith, found))
]

-- After any calls of a service without transfers, what `OpenContent` gives belongs to a transfer
-- that is published, pending or delivered and is committed to its end, and has the size and the
-- digest that were declared for it.
pub run_serves :
    (valid_basename : Bytes → Bool) (digest : Bytes → Bytes) (policy : Policy) (ops : List Op)
    (id c : Bytes)
    → let es = run valid_basename digest policy [] ops in
      open_content es id ≡ ok c
      → (e : Entry) × (find id es ≡ some e)
        × (is_done e.state ≡ true)
        × (e.committed_offset ≡ e.size)
        × (length c ≡ e.size)
        × (digest c ≡ e.sha256)
run_serves vb digest policy ops id c served =
    let es = run vb digest policy [] ops in
    let v : Sound digest es =
      run-Sound digest vb policy [] ops (record { unique = tt; sound = tt }) in
    let (e, found, done, there) = open_content_found es id c served in
    let sound = find-All (IsSound digest) id es v.sound found in
    let good = sound.content_matches c there in
    (
      e,
      found,
      done,
      sound.whole done,
      ground (arith, good),
      bytes_eq_sound (digest c) e.sha256 (ground (arith, good)),
    )
