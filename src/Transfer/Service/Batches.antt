-- ===== src/Transfer/Service/Batches.antt =====
-- What becomes of a whole batch.
use paperboat_helper.Base.{
  ◌≡◌, refl, sym, subst, ap, ◌∙◌, inl, inr, Bool, true, false, none, some, List, [], ◌∷◌, Bytes,
  bytes_eq, bytes_eq_refl, arith, Bool-cases, All, ok, err,
}
use paperboat_helper.Transfer.{
  is_done, is_active, is_canceled, Entry, conflict, storage_unavailable, find, each, batch, every,
  any, cancel_row, is_ready,
}
use paperboat_helper.Transfer.Service.{
  in_batch, cancel, cancel_batch, remove_files, move_file, publish, Verdict, complete_files,
  refused, mismatched, verify, complete_verified, complete_batch, complete_transfer, open_content,
}
use paperboat_helper.Transfer.Service.Completion.{Verified, verify-Verified}

publish-done : (e : Entry) → is_ready e ≡ true → is_done (publish (move_file e)).state ≡ true
publish-done e h = ground arith

publish-batch_id : (e : Entry) → (publish (move_file e)).batch_id ≡ e.batch_id
publish-batch_id e = ground arith

module _ (digest : Bytes → Bytes) where
  published_batch :
      (id : Bytes) (es : List Entry)
      → All (Verified digest) (batch id es)
      → every (λ e. is_done e.state) (batch id (each (in_batch id (λ e. publish (move_file e))) es))
        ≡ true
  unfolding batch each every
  published_batch id [] w = refl
  published_batch id (e ∷ es) w = elim (Bool-cases (bytes_eq e.batch_id id)) [
    | inr other ↦ rw (other, other) (published_batch id es (rw other at w))
    | inl mine ↦
        let both : All (Verified digest) (e ∷ batch id es) = rw mine at w in
        rw (mine, publish-batch_id e, mine, publish-done e both.0.ready)
          (published_batch id es both.1)
  ]

  complete_verified-done :
      (es : List Entry) (id : Bytes) (verdict : Verdict) (renamed synced : Bool)
      → (verdict ≡ complete_files → All (Verified digest) (batch id es))
      → (complete_verified digest es id verdict renamed synced).1 ≡ ok tt
      → every
          (λ e. is_done e.state)
          (batch id (complete_verified digest es id verdict renamed synced).0)
        ≡ true
  unfolding complete_verified
  complete_verified-done es id (refused e) renamed synced w h = absurd (cc h)
  complete_verified-done es id mismatched renamed synced w h = absurd (cc h)
  complete_verified-done es id complete_files false synced w h = absurd (cc h)
  complete_verified-done es id complete_files true false w h = absurd (cc h)
  complete_verified-done es id complete_files true true w h = published_batch id es (w refl)

  complete_batch-done :
      (es : List Entry) (id : Bytes) (renamed synced : Bool)
      → (complete_batch digest es id renamed synced).1 ≡ ok tt
      → every (λ e. is_done e.state) (batch id (complete_batch digest es id renamed synced).0)
        ≡ true
  unfolding complete_batch
  complete_batch-done es id renamed synced h =
      elim (Bool-cases (every (λ e. is_done e.state) (batch id es))) [
        | inl done ↦ rw done done
        | inr left ↦ rw left (
            complete_verified-done es id (verify digest (batch id es)) renamed synced
              (verify-Verified digest (batch id es)) (rw left at h))
      ]

  -- When `Complete` of a transfer that is there succeeds, every transfer of its batch is published,
  -- pending or delivered.
  pub complete_transfer_whole :
      (es : List Entry) (id : Bytes) (renamed synced : Bool) {e : Entry}
      → find id es ≡ some e
      → (complete_transfer digest es id renamed synced).1 ≡ ok tt
      → every
          (λ x. is_done x.state)
          (batch e.batch_id (complete_transfer digest es id renamed synced).0)
        ≡ true
  unfolding complete_transfer
  complete_transfer_whole es id renamed synced {e} found h =
      rw (found, complete_transfer)
        (complete_batch-done es e.batch_id renamed synced (rw (found, complete_transfer) at h))

each_found :
    (f : Entry → Entry) (id : Bytes) (es : List Entry) {e : Entry}
    → ((x : Entry) → (f x).id ≡ x.id)
    → find id es ≡ some e
    → find id (each f es) ≡ some (f e)
unfolding find each
each_found f id [] k h = absurd (cc h)
each_found f id (x ∷ es) {e} k h = elim (Bool-cases (bytes_eq x.id id)) [
  | inl here ↦
      let same : some x ≡ some e = rw here at h in
      let eq : x ≡ e = cc same in
      let still : bytes_eq (f x).id id ≡ true = ap (λ i. bytes_eq i id) (k x) ∙ here in
      rw still (ap (λ y. some (f y)) eq)
  | inr other ↦
      let still : bytes_eq (f x).id id ≡ false = ap (λ i. bytes_eq i id) (k x) ∙ other in
      rw still (each_found f id es k (rw other at h))
]

settled_active :
    (id : Bytes) (es : List Entry) (key : Bytes) {e : Entry}
    → any (λ x. is_active x.state) (batch id es) ≡ false
    → find key es ≡ some e
    → bytes_eq e.batch_id id ≡ true
    → is_active e.state ≡ false
unfolding any batch find
settled_active id [] key none_active h b = absurd (cc h)
settled_active id (x ∷ es) key {e} none_active h b = elim (Bool-cases (bytes_eq x.id key)) [
  | inl here ↦
      let same : some x ≡ some e = rw here at h in
      let eq : x ≡ e = cc same in
      let mine : bytes_eq x.batch_id id ≡ true =
        subst (λ y. bytes_eq y.batch_id id ≡ true) (sym eq) b in
      subst (λ y. is_active y.state ≡ false) eq (ground (arith, mine))
  | inr other ↦ settled_active id es key (ground (arith, none_active)) (rw other at h) b
]

-- The change that a cancellation makes to an entry of its batch.
cancelled :
    (e : Entry)
    → is_active e.state ≡ false
    → in_batch e.batch_id (λ x. remove_files (cancel_row x)) e ≡ remove_files e
cancelled e idle = rw (bytes_eq_refl e.batch_id, idle)

open_content_gone :
    (es : List Entry) (id : Bytes) {e : Entry}
    → find id es ≡ some e
    → is_done e.state ≡ true
    → e.content ≡ none
    → open_content es id ≡ err storage_unavailable
unfolding open_content
open_content_gone es id found done gone = ground (arith, found)

cancel_found :
    (es : List Entry) (id : Bytes) {e : Entry}
    → find id es ≡ some e
    → cancel es id ≡ cancel_batch e.batch_id es
unfolding cancel
cancel_found es id found = rw (found, cancel)

-- Where a transfer is published, pending or delivered, no transfer of its batch is created,
-- uploading or pending, and not all are canceled, `Cancel` answers with a conflict and leaves the
-- row as it is, but its files are gone, so that `OpenContent` fails.
pub cancel_done_loses :
    (es : List Entry) (id : Bytes) (e : Entry)
    → find id es ≡ some e
    → is_done e.state ≡ true
    → any (λ x. is_active x.state) (batch e.batch_id es) ≡ false
    → every (λ x. is_canceled x.state) (batch e.batch_id es) ≡ false
    → ((cancel es id).1 ≡ err conflict)
      × (find id (cancel es id).0 ≡ some (remove_files e))
      × (open_content (cancel es id).0 id ≡ err storage_unavailable)
unfolding cancel_batch
cancel_done_loses es id e found done none_active not_canceled =
    let idle = settled_active e.batch_id es id none_active found (bytes_eq_refl e.batch_id) in
    let change = in_batch e.batch_id (λ x. remove_files (cancel_row x)) in
    let after : find id (each change es) ≡ some (remove_files e) =
      each_found change id es (λ x. ground arith) found ∙ ap some (cancelled e idle) in
    rw (cancel_found es id found)
      (rw (none_active, not_canceled), after, open_content_gone (each change es) id after done refl)
