-- ===== src/Transfer/Service/Completion.antt =====
-- `Complete` publishes a batch as a whole, and only with files that match.
use paperboat_helper.Base.{
  ◌≡◌, refl, subst, ◌⊎◌, inl, inr, Bool, true, false, Option, none, some, List, [], ◌∷◌, Bytes,
  bytes_eq, arith, Bool-cases, Option-cases, All,
}
use paperboat_helper.Transfer.{
  Entry, Error, is_done, find, each, batch, every, is_ready, is_outgoing,
}
use paperboat_helper.Transfer.Service.{
  in_batch, readable, move_file, moved_content, moved_partial, publish, matches, verify, verdict_of,
  Verdict, complete_files, refused, mismatched, complete_verified, complete_batch,
  complete_transfer,
}
use paperboat_helper.Transfer.Service.Entries.{each-All, All-zip}
use paperboat_helper.Transfer.Service.Contents.{IsSound, cancel_batch-IsSound, in_batch-IsSound}

-- The renaming of a file that matches.
moved_files :
    (good : Bytes → Bool) (content partial : Option Bytes) (file : Bytes)
    → (content ≡ none) ⊎ (partial ≡ none)
    → readable partial content ≡ some file
    → good file ≡ true
    → ((c : Bytes) → content ≡ some c → good c ≡ true)
    → ((moved_content content partial ≡ none) ⊎ (moved_partial content partial ≡ none))
      × ((c : Bytes) → moved_content content partial ≡ some c → good c ≡ true)
moved_files good none none file moved read matched contents = absurd (cc read)
moved_files good none (some p) file moved read matched contents =
    (inr refl, λ c h. subst (λ x. good x ≡ true) (cc (read, h)) matched)
moved_files good (some old) partial file moved read matched contents =
    (elim moved [ inl no_content ↦ absurd (cc no_content) | inr gone ↦ inr gone ], contents)

module _ (digest : Bytes → Bytes) where
  -- The entry is ready, and the file that `Complete` reads matches.
  pub record Verified (e : Entry) : Type 0 where
    pub ready : is_ready e ≡ true
    pub file : Bytes
    pub read : readable e.partial e.content ≡ some file
    pub matched : matches digest e file ≡ true

  verdict_of-cases :
      (e : Entry) (found : Option Bytes) (later : Verdict)
      → verdict_of digest e found later ≡ complete_files
      → (file : Bytes) × (found ≡ some file)
        × (matches digest e file ≡ true)
        × (later ≡ complete_files)
  verdict_of-cases e none later h = absurd (cc h)
  verdict_of-cases e (some file) later h = elim (Bool-cases (matches digest e file)) [
    | inl good ↦ (file, refl, good, rw good at h)
    | inr bad ↦ let no_way : mismatched ≡ complete_files = rw bad at h in absurd (cc no_way)
  ]

  pub verify-Verified : (es : List Entry) → verify digest es ≡ complete_files → All Verified es
  unfolding verify
  verify-Verified [] h = tt
  verify-Verified (e ∷ es) h = elim (Bool-cases (is_ready e)) [
    | inr other ↦
        let no_way : refused Error.invalid_size ≡ complete_files = rw other at h in
        absurd (cc no_way)
    | inl good ↦
        let (file, found, matched, later) =
          verdict_of-cases e (readable e.partial e.content) (verify digest es) (rw good at h) in
        (
          record { ready = good; file = file; read = found; matched = matched },
          verify-Verified es later,
        )
  ]

  -- Those of the batch, among all.
  batch-All :
      (P : Entry → Type 0) (id : Bytes) (es : List Entry)
      → All P (batch id es)
      → All (λ e. bytes_eq e.batch_id id ≡ true → P e) es
  unfolding batch
  batch-All P id [] h = tt
  batch-All P id (e ∷ es) h = elim (Bool-cases (bytes_eq e.batch_id id)) [
    | inl mine ↦
        let both : All P (e ∷ batch id es) = rw mine at h in (λ _. both.0, batch-All P id es both.1)
    | inr other ↦ (λ mine. absurd (cc (mine, other)), batch-All P id es (rw other at h))
  ]

  move_file-IsSound : (e : Entry) → Verified e → IsSound digest e → IsSound digest (move_file e)
  move_file-IsSound e w v =
      let (moved, contents) =
        moved_files (matches digest e) e.content e.partial w.file v.moved w.read w.matched
          v.content_matches in
      record {
        offset_le = v.offset_le;
        whole = v.whole;
        failed_code = v.failed_code;
        moved = moved;
        content_matches = contents;
      }

  publish-IsSound : (e : Entry) → is_ready e ≡ true → IsSound digest e → IsSound digest (publish e)
  publish-IsSound e ready v = elim (Bool-cases (is_outgoing e.direction)) [
    | inl out ↦
        rw (ready, out)
          (record {
            offset_le = v.offset_le;
            whole = λ h. ground arith;
            failed_code = λ h. cc h;
            moved = v.moved;
            content_matches = v.content_matches;
          })
    | inr inward ↦
        rw (ready, inward)
          (record {
            offset_le = v.offset_le;
            whole = λ h. ground arith;
            failed_code = λ h. cc h;
            moved = v.moved;
            content_matches = v.content_matches;
          })
  ]

  -- A change of the verified entries of a batch.
  in_batch-All :
      (id : Bytes) (f : Entry → Entry) (es : List Entry)
      → ((e : Entry) → Verified e → IsSound digest e → IsSound digest (f e))
      → All Verified (batch id es)
      → All (IsSound digest) es
      → All (IsSound digest) (each (in_batch id f) es)
  in_batch-All id f es keep w v =
      each-All (IsSound digest)
        (λ e. IsSound digest e × (bytes_eq e.batch_id id ≡ true → Verified e)) (in_batch id f) es
        (λ e h. in_batch-IsSound digest id f e h.0 (λ mine. keep e (h.1 mine) h.0))
        (All-zip (IsSound digest) (λ e. bytes_eq e.batch_id id ≡ true → Verified e) es v
          (batch-All Verified id es w))

  complete_verified-IsSound :
      (es : List Entry) (id : Bytes) (verdict : Verdict) (renamed synced : Bool)
      → (verdict ≡ complete_files → All Verified (batch id es))
      → All (IsSound digest) es
      → All (IsSound digest) (complete_verified digest es id verdict renamed synced).0
  unfolding complete_verified
  complete_verified-IsSound es id (refused e) renamed synced w v = v
  complete_verified-IsSound es id mismatched renamed synced w v =
      cancel_batch-IsSound digest id es v
  complete_verified-IsSound es id complete_files false synced w v = v
  complete_verified-IsSound es id complete_files true false w v =
      in_batch-All id move_file es move_file-IsSound (w refl) v
  complete_verified-IsSound es id complete_files true true w v =
      in_batch-All id (λ e. publish (move_file e)) es
        (λ e x y. publish-IsSound (move_file e) x.ready (move_file-IsSound e x y)) (w refl) v

  complete_batch-IsSound :
      (es : List Entry) (id : Bytes) (renamed synced : Bool)
      → All (IsSound digest) es
      → All (IsSound digest) (complete_batch digest es id renamed synced).0
  unfolding complete_batch
  complete_batch-IsSound es id renamed synced v =
      elim (Bool-cases (every (λ e. is_done e.state) (batch id es))) [
        | inl done ↦ rw done v
        | inr left ↦ rw left (
            complete_verified-IsSound es id (verify digest (batch id es)) renamed synced
              (verify-Verified (batch id es)) v)
      ]

  pub complete_transfer-IsSound :
      (es : List Entry) (id : Bytes) (renamed synced : Bool)
      → All (IsSound digest) es
      → All (IsSound digest) (complete_transfer digest es id renamed synced).0
  unfolding complete_transfer
  complete_transfer-IsSound es id renamed synced v = elim (Option-cases (find id es)) [
    | inl missing ↦ rw (missing, complete_transfer) v
    | inr (e, found) ↦
        rw (found, complete_transfer) (complete_batch-IsSound es e.batch_id renamed synced v)
  ]
