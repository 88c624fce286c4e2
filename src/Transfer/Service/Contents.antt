-- ===== src/Transfer/Service/Contents.antt =====
-- A content file has the size and the digest that were declared for it.
use paperboat_helper.Base.{
  ℕ, ◌+◌, ◌-◌, ◌≤◌, ◌≡◌, refl, sym, subst, ap, ◌⊎◌, inl, inr, Bool, true, false, Option, none, some,
  List, ◌++◌, Bytes, bytes_eq, bytes_eq_sound, length, arith, Bool-cases, All, ltb, ◌==◌,
  if◌then◌else◌,
}
use paperboat_helper.Transfer.{
  delivered, failed, is_failed, code_stored, Entry, is_active, is_done, is_canceled, find, each,
  commits, commit, cancel_row, takes_receipt,
}
use paperboat_helper.Transfer.Service.{
  at, in_batch, write, copied, truncate, append, append_at, append_found, append_to, cancel_batch,
  remove_files, matches, receive, expires, expire,
}
use paperboat_helper.Transfer.Service.Entries.{
  each-All, All-zip, find-All, find-id, find_only, Unique,
}

-- The entry has a receipt already, or has content to be received.
receipt_was :
    (client_id code path : Bytes) (e : Entry)
    → takes_receipt client_id code path e ≡ true
    → (is_done e.state ≡ true) ⊎ ((is_failed e.state ≡ true) × (bytes_eq e.result_code code ≡ true))
receipt_was client_id code path e h = ground arith

delivered_stored :
    (code : Bytes)
    → is_done (if bytes_eq code code_stored then delivered else failed) ≡ true
    → bytes_eq code code_stored ≡ true
delivered_stored code h = elim (Bool-cases (bytes_eq code code_stored)) [
  | inl yes_stored ↦ yes_stored
  | inr other ↦ let no_way : is_done failed ≡ true = rw other at h in absurd (cc no_way)
]

failed_other :
    (code : Bytes)
    → is_failed (if bytes_eq code code_stored then delivered else failed) ≡ true
    → bytes_eq code code_stored ≡ false
failed_other code h = elim (Bool-cases (bytes_eq code code_stored)) [
  | inr other ↦ other
  | inl yes_stored ↦
      let no_way : is_failed delivered ≡ true = rw yes_stored at h in absurd (cc no_way)
]

-- What is true of every entry.
module _ (digest : Bytes → Bytes) where
  pub record IsSound (e : Entry) : Type 0 where
    pub offset_le : e.committed_offset ≤ e.size
    pub whole : is_done e.state ≡ true → e.committed_offset ≡ e.size
    pub failed_code : is_failed e.state ≡ true → bytes_eq e.result_code code_stored ≡ false
    pub moved : e.content ≡ none ⊎ e.partial ≡ none
    pub content_matches : (c : Bytes) → e.content ≡ some c → matches digest e c ≡ true

  cancel-IsSound : (e : Entry) → IsSound e → IsSound (remove_files (cancel_row e))
  cancel-IsSound e v = elim (Bool-cases (is_active e.state)) [
    | inl active ↦ rw active (record {
      offset_le = v.offset_le;
      whole = λ h. cc h;
      failed_code = λ h. cc h;
      moved = inl refl;
      content_matches = λ c h. cc h;
    })
    | inr other ↦ rw other (record {
      offset_le = v.offset_le;
      whole = v.whole;
      failed_code = v.failed_code;
      moved = inl refl;
      content_matches = λ c h. cc h;
    })
  ]

  pub in_batch-IsSound :
      (id : Bytes) (f : Entry → Entry) (e : Entry)
      → IsSound e
      → (bytes_eq e.batch_id id ≡ true → IsSound (f e))
      → IsSound (in_batch id f e)
  in_batch-IsSound id f e v h = elim (Bool-cases (bytes_eq e.batch_id id)) [
    | inl mine ↦ rw mine (h mine)
    | inr other ↦ rw other v
  ]

  pub at-IsSound :
      (id : Bytes) (f : Entry → Entry) (e : Entry) → IsSound e → IsSound (f e) → IsSound (at id f e)
  at-IsSound id f e v w = elim (Bool-cases (bytes_eq e.id id)) [
    | inl mine ↦ rw mine w
    | inr other ↦ rw other v
  ]

  pub cancel_row-IsSound : (e : Entry) → IsSound e → IsSound (cancel_row e)
  cancel_row-IsSound e v = elim (Bool-cases (is_active e.state)) [
    | inr other ↦ rw other v
    | inl active ↦ rw active (record {
      offset_le = v.offset_le;
      whole = λ h. cc h;
      failed_code = λ h. cc h;
      moved = v.moved;
      content_matches = v.content_matches;
    })
  ]

  pub cancel_batch-IsSound :
      (id : Bytes) (es : List Entry) → All IsSound es → All IsSound (cancel_batch id es).0
  unfolding cancel_batch
  cancel_batch-IsSound id es v =
      each-All IsSound IsSound (in_batch id (λ e. remove_files (cancel_row e))) es
        (λ e w.
          in_batch-IsSound id (λ x. remove_files (cancel_row x)) e w (λ _. cancel-IsSound e w))
        v

  received_done :
      (e : Entry)
      → IsSound e
      → (code : Bytes) → bytes_eq code code_stored ≡ true
      → (is_done e.state ≡ true)
        ⊎ ((is_failed e.state ≡ true) × (bytes_eq e.result_code code ≡ true))
      → is_done e.state ≡ true
  received_done e v code stored (inl done) = done
  received_done e v code stored (inr (gone, same)) =
      let eq : e.result_code ≡ code = bytes_eq_sound e.result_code code same in
      absurd (cc (ap (λ c. bytes_eq c code_stored) eq, v.failed_code gone, stored))

  pub receive-IsSound :
      (client_id code path : Bytes) (e : Entry)
      → IsSound e
      → IsSound (receive client_id code path e)
  receive-IsSound client_id code path e v =
      elim (Bool-cases (takes_receipt client_id code path e)) [
        | inr other ↦ rw other v
        | inl mine ↦
            let stays : bytes_eq code code_stored ≡ true → is_done e.state ≡ true =
              λ stored. received_done e v code stored (receipt_was client_id code path e mine) in
            rw mine (record {
              offset_le = v.offset_le;
              whole = λ h. v.whole (stays (delivered_stored code h));
              failed_code = λ h. failed_other code h;
              moved = inl refl;
              content_matches = λ c h. cc h;
            })
      ]

  pub expire-IsSound :
      (now : ℕ) (chosen : Entry → Bool) (e : Entry) → IsSound e → IsSound (expire now chosen e)
  expire-IsSound now chosen e v = elim (Bool-cases (expires now chosen e)) [
    | inr other ↦ rw other v
    | inl gone ↦ rw gone (record {
      offset_le = ground (arith, v.offset_le);
      whole = λ h. ground arith;
      failed_code = λ h. ground arith;
      moved = inl refl;
      content_matches = λ c h. cc h;
    })
  ]

  -- Writing the partial file of an entry that has one.
  write-IsSound :
      (e : Entry) (xs file : Bytes) → e.partial ≡ some file → IsSound e → IsSound (write xs e)
  write-IsSound e xs file there v = record {
    offset_le = v.offset_le;
    whole = v.whole;
    failed_code = v.failed_code;
    moved = inl (elim v.moved [ inl gone ↦ gone | inr gone ↦ absurd (cc (there, gone)) ]);
    content_matches = v.content_matches;
  }

  commit-IsSound : (e : Entry) (next : ℕ) → next ≤ e.size → IsSound e → IsSound (commit next e)
  commit-IsSound e next le v = record {
    offset_le = le;
    whole = λ h. cc h;
    failed_code = λ h. cc h;
    moved = v.moved;
    content_matches = v.content_matches;
  }

  -- A change of the one entry of an identity.
  pub at-All :
      (id : Bytes) (f : Entry → Entry) (es : List Entry) (e : Entry)
      → e.id ≡ id
      → All (λ x. bytes_eq x.id id ≡ true → x ≡ e) es
      → IsSound (f e)
      → All IsSound es
      → All IsSound (each (at id f) es)
  at-All id f es e same only new v =
      each-All IsSound (λ x. IsSound x × (bytes_eq x.id id ≡ true → x ≡ e)) (at id f) es
        (λ x w. elim (Bool-cases (bytes_eq x.id id)) [
          | inl here ↦ rw here (subst (λ y. IsSound (f y)) (sym (w.1 here)) new)
          | inr other ↦ rw other w.0
        ])
        (All-zip IsSound (λ x. bytes_eq x.id id ≡ true → x ≡ e) es v only)

  append_at-IsSound :
      (es : List Entry) (e : Entry) (file body : Bytes) (complete_copy : Bool)
      → e.partial ≡ some file
      → All (λ x. bytes_eq x.id e.id ≡ true → x ≡ e) es
      → IsSound e
      → All IsSound es
      → All IsSound (append_at es e file body complete_copy).0
  unfolding append_at
  append_at-IsSound es e file body complete_copy there only w v =
      let kept = truncate e.committed_offset file in
      let got = copied e body in
      let next = e.committed_offset + length got in
      let change =
        λ (f : Entry → Entry) (new : IsSound (f e)). at-All e.id f es e refl only new v in
      elim (Bool-cases complete_copy) [
        | inr failed_copy ↦
            rw failed_copy
              (change (write (kept ++ got)) (write-IsSound e (kept ++ got) file there w))
        | inl whole_copy ↦ elim (Bool-cases (ltb (e.size - e.committed_offset) (length got))) [
          | inl long ↦
              rw (whole_copy, long) (change (write kept) (write-IsSound e kept file there w))
          | inr short ↦ elim (Bool-cases (commits e.committed_offset next e)) [
            | inr refused_row ↦
                rw (whole_copy, short, refused_row)
                  (change (write (kept ++ got)) (write-IsSound e (kept ++ got) file there w))
            | inl taken ↦
                rw (whole_copy, short, taken)
                  (change (λ x. commit next (write (kept ++ got) x))
                    (commit-IsSound (write (kept ++ got) e) next (ground arith)
                      (write-IsSound e (kept ++ got) file there w)))
          ]
        ]
      ]

  append_to-IsSound :
      (es : List Entry) (e : Entry) (file : Option Bytes) (body : Bytes) (complete_copy : Bool)
      → e.partial ≡ file
      → All (λ x. bytes_eq x.id e.id ≡ true → x ≡ e) es
      → IsSound e
      → All IsSound es
      → All IsSound (append_to es e file body complete_copy).0
  unfolding append_to
  append_to-IsSound es e none body complete_copy there only w v = v
  append_to-IsSound es e (some file) body complete_copy there only w v =
      append_at-IsSound es e file body complete_copy there only w v

  append_found-IsSound :
      (es : List Entry) (found : Option Entry) (offset : ℕ) (body : Bytes) (complete_copy : Bool)
      → ((e : Entry) → found ≡ some e → All (λ x. bytes_eq x.id e.id ≡ true → x ≡ e) es × IsSound e)
      → All IsSound es
      → All IsSound (append_found es found offset body complete_copy).0
  unfolding append_found
  append_found-IsSound es none offset body complete_copy only v = v
  append_found-IsSound es (some e) offset body complete_copy only v =
      elim (Bool-cases (is_canceled e.state)) [
        | inl gone ↦ rw gone v
        | inr there ↦ elim (Bool-cases (offset == e.committed_offset)) [
          | inr other ↦ rw (there, other) v
          | inl same ↦
              rw (there, same)
                (append_to-IsSound es e e.partial body complete_copy refl (only e refl).0
                  (only e refl).1 v)
        ]
      ]

  pub append-IsSound :
      (es : List Entry) (id : Bytes) (offset : ℕ) (body : Bytes) (complete_copy : Bool)
      → Unique es
      → All IsSound es
      → All IsSound (append es id offset body complete_copy).0
  unfolding append
  append-IsSound es id offset body complete_copy u v =
      append_found-IsSound es (find id es) offset body complete_copy
        (λ e found. (
          subst (λ i. All (λ x. bytes_eq x.id i ≡ true → x ≡ e) es) (sym (find-id id es found))
              (find_only id es u found),
          find-All IsSound id es v found,
        ))
        v
