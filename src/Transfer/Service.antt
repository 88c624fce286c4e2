-- ===== src/Transfer/Service.antt =====
-- internal/filetransfer/service.go: the methods of the service, over the entries.
pub mod Entries
pub mod Contents
pub mod Completion
pub mod Batches
use paperboat_helper.Base.{
  ℕ, zero, suc, ◌+◌, ◌-◌, ◌%◌, Bool, true, false, not, ◌&&◌, ◌||◌, Option, none, some, List, [],
  ◌∷◌, ◌++◌, Bytes, bytes_eq, length, take, ltb, leb, ◌==◌, if◌then◌else◌, Result, ok, err, u64_mod,
}
use paperboat_helper.Transfer.{
  Direction, pb_to_pbh, pbh_to_pb, TransferState, created, Error, invalid_path, invalid_size,
  batch_limit, offset_conflict, digest_mismatch, storage_unavailable, resource_limit,
  transfer_canceled, conflict, Entry, is_active, is_done, is_unsettled, is_canceled, is_outgoing,
  find, each, batch, every, any, commits, commit, is_ready, complete, cancel_row, expire_row,
  takes_receipt, receipt_row,
}

abbrev pub Step : Type 0
Step = List Entry × Result Error (Unit {0})

-- `UPDATE … WHERE id=?`.
abbrev pub at : Bytes → (Entry → Entry) → Entry → Entry
at id f e = if bytes_eq e.id id then f e else e

abbrev pub in_batch : Bytes → (Entry → Entry) → Entry → Entry
in_batch id f e = if bytes_eq e.batch_id id then f e else e

pub zeros : ℕ → Bytes
zeros zero = []
zeros (suc n) = 0 ∷ zeros n

-- `file.Truncate(n)`.
unfoldable pub truncate : ℕ → Bytes → Bytes
unfolding zeros
truncate n xs = take n xs ++ zeros (n - length xs)

-- What `io.Copy` of at most `remaining + 1` bytes reads.
abbrev pub copied : Entry → Bytes → Bytes
copied e body = take (e.size - e.committed_offset + 1) body

abbrev pub write : Bytes → Entry → Entry
write xs e = record e { partial = some xs }

-- The end of `Append`, at an entry with the content of its partial file, behind its checks.
-- `complete_copy` says that `io.Copy` has read all of `body` without an error.
unfoldable pub append_at : List Entry → Entry → Bytes → Bytes → Bool → Step
unfolding truncate
append_at es e file body complete_copy =
    let kept = truncate e.committed_offset file in
    let got = copied e body in
    let next = e.committed_offset + length got in
    if not complete_copy
    then (each (at e.id (write (kept ++ got))) es, err storage_unavailable)
    else if ltb (e.size - e.committed_offset) (length got)
    then (each (at e.id (write kept)) es, err invalid_size)
    else if commits e.committed_offset next e
    then (each (at e.id (λ x. commit next (write (kept ++ got) x))) es, ok tt)
    else (each (at e.id (write (kept ++ got))) es, err offset_conflict)

-- `Append` with the file that it opens.
unfoldable pub append_to : List Entry → Entry → Option Bytes → Bytes → Bool → Step
unfolding append_at
append_to es e none body complete_copy = (es, err storage_unavailable)
append_to es e (some file) body complete_copy = append_at es e file body complete_copy

-- `Append` with the row that it finds.
unfoldable pub append_found : List Entry → Option Entry → ℕ → Bytes → Bool → Step
unfolding append_to
append_found es none offset body complete_copy = (es, err invalid_path)
append_found es (some e) offset body complete_copy =
    if is_canceled e.state
    then (es, err transfer_canceled)
    else if not (offset == e.committed_offset)
    then (es, err offset_conflict)
    else append_to es e e.partial body complete_copy

unfoldable pub append : List Entry → Bytes → ℕ → Bytes → Bool → Step
unfolding append_found
append es id offset body complete_copy = append_found es (find id es) offset body complete_copy

-- `os.Remove` of the files of a transfer.
abbrev pub remove_files : Entry → Entry
remove_files e = record e { partial = none; content = none }

-- The answer of `CancelFileTransferBatch`.
abbrev pub cancel_result : Bytes → List Entry → Result Error (Unit {0})
cancel_result id es =
    if any (λ e. is_active e.state) (batch id es) || every (λ e. is_canceled e.state) (batch id es)
    then ok tt
    else err conflict

-- `cancelBatchLocked`: the rows first, and then the files of the whole batch, whatever the rows
-- have answered.
unfoldable pub cancel_batch : Bytes → List Entry → Step
cancel_batch id es = (each (in_batch id (λ e. remove_files (cancel_row e))) es, cancel_result id es)

unfoldable pub cancel : List Entry → Bytes → Step
unfolding cancel_batch
cancel es id = elim (find id es) [ none ↦ (es, err conflict) | some e ↦ cancel_batch e.batch_id es ]

-- What the loop of `Complete` finds out.
pub data Verdict : Type 0 where
  complete_files : Verdict
  refused : Error → Verdict
  mismatched : Verdict

-- `contentPath` of `Complete`: the partial file, or else the content.
abbrev pub readable : Option Bytes → Option Bytes → Option Bytes
readable (some file) content = some file
readable none content = content

-- `os.Rename` of the partial file to the content, which is left out where there is content.
abbrev pub moved_partial : Option Bytes → Option Bytes → Option Bytes
moved_partial none partial = none
moved_partial (some old) partial = partial

abbrev pub moved_content : Option Bytes → Option Bytes → Option Bytes
moved_content none partial = partial
moved_content (some old) partial = some old

abbrev pub move_file : Entry → Entry
move_file e = record e {
  partial = moved_partial e.content e.partial;
  content = moved_content e.content e.partial;
}

-- The row and the files of an entry at the end of `Complete`.
abbrev pub publish : Entry → Entry
publish e = if is_ready e then complete e else e

-- `Complete`, over a digest and the answers of the disk: `renamed` says that all renames succeed,
-- and else those that did are undone; `synced` that the directory is then synced.
module _ (digest : Bytes → Bytes) where
  abbrev pub matches : Entry → Bytes → Bool
  matches e file = length file == e.size && bytes_eq (digest file) e.sha256

  abbrev pub verdict_of : Entry → Option Bytes → Verdict → Verdict
  verdict_of e none later = refused storage_unavailable
  verdict_of e (some file) later = if matches e file then later else mismatched

  unfoldable pub verify : List Entry → Verdict
  verify [] = complete_files
  verify (e ∷ es) =
      let later = verify es in
      if not (is_ready e)
      then refused invalid_size
      else verdict_of e (readable e.partial e.content) later

  unfoldable pub complete_verified : List Entry → Bytes → Verdict → Bool → Bool → Step
  unfolding cancel_batch
  complete_verified es id (refused e) renamed synced = (es, err e)
  complete_verified es id mismatched renamed synced = ((cancel_batch id es).0, err digest_mismatch)
  complete_verified es id complete_files renamed synced =
      if not renamed
      then (es, err storage_unavailable)
      else if not synced
      then (each (in_batch id move_file) es, err storage_unavailable)
      else (each (in_batch id (λ e. publish (move_file e))) es, ok tt)

  unfoldable pub complete_batch : List Entry → Bytes → Bool → Bool → Step
  unfolding verify complete_verified
  complete_batch es id renamed synced =
      if every (λ e. is_done e.state) (batch id es)
      then (es, ok tt)
      else complete_verified es id (verify (batch id es)) renamed synced

  unfoldable pub complete_transfer : List Entry → Bytes → Bool → Bool → Step
  unfolding complete_batch
  complete_transfer es id renamed synced = elim (find id es) [
    | none ↦ (es, err invalid_path)
    | some e ↦ complete_batch es e.batch_id renamed synced
  ]

-- `Receipt`: the row, and then the content file.
abbrev pub receive : Bytes → Bytes → Bytes → Entry → Entry
receive client_id code path e =
    if takes_receipt client_id code path e
    then record (receipt_row code path e) { content = none }
    else e

unfoldable pub receipt : List Entry → Bytes → Bytes → Bytes → Bytes → Step
receipt es id client_id code path =
    if bytes_eq code []
    then (es, err conflict)
    else if any (λ e. bytes_eq e.id id && takes_receipt client_id code path e) es
    then (each (at id (receive client_id code path)) es, ok tt)
    else (es, err conflict)

-- `CleanupExpired` of the entries that the query returns: `chosen` are those within its limit.
abbrev pub expires : ℕ → (Entry → Bool) → Entry → Bool
expires now chosen e = leb e.expires_at now && is_unsettled e.state && chosen e

abbrev pub expire : ℕ → (Entry → Bool) → Entry → Entry
expire now chosen e = if expires now chosen e then remove_files (expire_row e) else e

unfoldable pub cleanup_expired : List Entry → ℕ → (Entry → Bool) → List Entry
cleanup_expired es now chosen = each (expire now chosen) es

-- `OpenContent`.
unfoldable pub open_content : List Entry → Bytes → Result Error Bytes
open_content es id = elim (find id es) [
  | none ↦ err invalid_path
  | some e ↦
      if not (is_done e.state)
      then err invalid_path
      else elim e.content [ none ↦ err storage_unavailable | some file ↦ ok file ]
]
