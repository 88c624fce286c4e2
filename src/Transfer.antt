-- ===== src/Transfer.antt =====
-- internal/filetransfer/service.go and the file transfers of internal/store/store.go.
--
-- An entry is a row of the table `file_transfers` with the partial and the content file that belong
-- to it, since their paths are made of its identity; `created_at` only orders the rows, as the list
-- does. A method is one step here. In the source the lock of a transfer and the lock of its batch
-- are two, so that an append may overlap a completion of its batch, which is not modelled. What the
-- disk answers is an argument; the database answers. SHA-256, `filepath.Base` and the check of UTF-8
-- are parameters. Get, Pending and PublishedPath change no entry and are left out, as is the link
-- that PublishedPath makes.
pub mod Service
pub mod Creation
pub mod Run
pub mod Tests
use paperboat_helper.Base.{
  ℕ, zero, suc, ◌+◌, ◌-◌, Bool, true, false, not, ◌&&◌, ◌||◌, Option, none, some, List, [], ◌∷◌,
  ◌++◌, Bytes, bytes_eq, length, ltb, leb, ◌==◌, if◌then◌else◌, Result, ok, err,
}

pub data Direction : Type 0 where
  pb_to_pbh pbh_to_pb : Direction

pub data TransferState : Type 0 where
  created uploading published pending delivered failed canceled : TransferState

-- `filetransfer.Code`, and `store.ErrConflict`.
pub data Error : Type 0 where
  invalid_path invalid_size batch_limit offset_conflict digest_mismatch : Error
  storage_unavailable resource_limit transfer_canceled conflict : Error

-- `store.FileTransfer`, with the content of the files `<id>.part` and `<id>.content`, if they exist.
pub record Entry : Type 0 where
  pub id : Bytes
  pub batch_id : Bytes
  pub direction : Direction
  pub session_id : Bytes
  pub client_id : Bytes
  pub basename : Bytes
  pub size : ℕ
  pub sha256 : Bytes
  pub committed_offset : ℕ
  pub state : TransferState
  pub result_code : Bytes
  pub receipt_path : Bytes
  pub expires_at : ℕ
  pub partial : Option Bytes
  pub content : Option Bytes

-- `state IN ('created','uploading')`.
abbrev pub is_open : TransferState → Bool
is_open created = true
is_open uploading = true
is_open _ = false

-- `state IN ('created','uploading','pending')`.
abbrev pub is_active : TransferState → Bool
is_active created = true
is_active uploading = true
is_active pending = true
is_active _ = false

-- `state IN ('published','pending','delivered')`.
abbrev pub is_done : TransferState → Bool
is_done published = true
is_done pending = true
is_done delivered = true
is_done _ = false

-- `state IN ('created','uploading','published','pending')`.
abbrev pub is_unsettled : TransferState → Bool
is_unsettled created = true
is_unsettled uploading = true
is_unsettled published = true
is_unsettled pending = true
is_unsettled _ = false

abbrev pub is_canceled : TransferState → Bool
is_canceled canceled = true
is_canceled _ = false

abbrev pub is_pending : TransferState → Bool
is_pending pending = true
is_pending _ = false

abbrev pub is_failed : TransferState → Bool
is_failed failed = true
is_failed _ = false

-- `state IN ('delivered','failed')`.
abbrev pub is_receipted : TransferState → Bool
is_receipted delivered = true
is_receipted failed = true
is_receipted _ = false

abbrev pub is_outgoing : Direction → Bool
is_outgoing pbh_to_pb = true
is_outgoing pb_to_pbh = false

-- `WHERE id=?`.
unfoldable pub find : Bytes → List Entry → Option Entry
find id [] = none
find id (e ∷ es) = if bytes_eq e.id id then some e else find id es

-- `UPDATE … WHERE`: the change of each entry.
unfoldable pub each : (Entry → Entry) → List Entry → List Entry
each f [] = []
each f (e ∷ es) = f e ∷ each f es

-- `WHERE batch_id=?`.
unfoldable pub batch : Bytes → List Entry → List Entry
batch id [] = []
batch id (e ∷ es) = if bytes_eq e.batch_id id then e ∷ batch id es else batch id es

unfoldable pub every : (Entry → Bool) → List Entry → Bool
every p [] = true
every p (e ∷ es) = p e && every p es

unfoldable pub any : (Entry → Bool) → List Entry → Bool
any p [] = false
any p (e ∷ es) = p e || any p es

-- The result codes.
abbrev pub code_stored : Bytes
code_stored = b's' ∷ b't' ∷ b'o' ∷ b'r' ∷ b'e' ∷ b'd' ∷ []

abbrev pub code_canceled : Bytes
code_canceled = b'c' ∷ b'a' ∷ b'n' ∷ b'c' ∷ b'e' ∷ b'l' ∷ b'e' ∷ b'd' ∷ []

abbrev pub code_published : Bytes
code_published = b'p' ∷ b'u' ∷ b'b' ∷ b'l' ∷ b'i' ∷ b's' ∷ b'h' ∷ b'e' ∷ b'd' ∷ []

abbrev pub code_pending : Bytes
code_pending = b'p' ∷ b'e' ∷ b'n' ∷ b'd' ∷ b'i' ∷ b'n' ∷ b'g' ∷ []

abbrev pub code_timeout : Bytes
code_timeout =
    b'd' ∷ b'e' ∷ b'l' ∷ b'i' ∷ b'v' ∷ b'e' ∷ b'r' ∷ b'y' ∷ b'_' ∷ b't' ∷ b'i' ∷ b'm' ∷ b'e' ∷ b'o'
    ∷ b'u' ∷ b't' ∷ []

-- `CommitFileTransferOffset`: the entry that its UPDATE matches.
abbrev pub commits : ℕ → ℕ → Entry → Bool
commits expected next e = e.committed_offset == expected && is_open e.state && leb next e.size

abbrev pub commit : ℕ → Entry → Entry
commit next e = record e { committed_offset = next; state = uploading }

-- `CompleteFileTransferBatch`: the entries that are ready, and what they become.
abbrev pub is_ready : Entry → Bool
is_ready e = e.committed_offset == e.size && is_open e.state

abbrev pub complete : Entry → Entry
complete e =
    if is_outgoing e.direction
    then record e { state = pending; result_code = code_pending }
    else record e { state = published; result_code = code_published }

-- `CancelFileTransferBatch`.
abbrev pub cancel_row : Entry → Entry
cancel_row e =
    if is_active e.state then record e { state = canceled; result_code = code_canceled } else e

-- `ExpireFileTransfers`.
abbrev pub expire_row : Entry → Entry
expire_row e =
    if is_outgoing e.direction
    then record e { state = failed; result_code = code_timeout }
    else record e { state = canceled; result_code = code_canceled }

-- `ReceiptFileTransfer`: the entries that its UPDATE matches, and what they become.
abbrev pub takes_receipt : Bytes → Bytes → Bytes → Entry → Bool
takes_receipt client_id code path e =
    bytes_eq e.client_id client_id
    && is_outgoing e.direction
    && (is_pending e.state
        || is_receipted e.state && bytes_eq e.result_code code && bytes_eq e.receipt_path path)

abbrev pub receipt_row : Bytes → Bytes → Entry → Entry
receipt_row code path e = record e {
  state = if bytes_eq code code_stored then delivered else failed;
  result_code = code;
  receipt_path = path;
}
