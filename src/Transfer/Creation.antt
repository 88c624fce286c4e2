-- ===== src/Transfer/Creation.antt =====
-- internal/filetransfer/service.go, `Create`, with the policy, and `CreateFileTransfersWithinLimits`
-- of internal/store/store.go.
use paperboat_helper.Base.{
  ℕ, ◌+◌, Bool, true, false, not, ◌&&◌, ◌||◌, Option, none, some, List, [], ◌∷◌, ◌++◌, Bytes,
  bytes_eq, length, ltb, leb, ◌==◌, if◌then◌else◌, ok, err,
}
use paperboat_helper.Transfer.{
  Direction, created, Error, invalid_path, invalid_size, batch_limit, digest_mismatch,
  storage_unavailable, resource_limit, Entry, is_active, is_outgoing, find, each, any, cancel_row,
}
use paperboat_helper.Transfer.Service.{Step, remove_files, write, in_batch}

pub record Policy : Type 0 where
  pub revision : Bytes
  pub max_file_bytes : ℕ
  pub max_batch_files : ℕ
  pub max_batch_bytes : ℕ
  pub max_concurrent_transfers : ℕ
  pub retention_seconds : ℕ
  pub delivery_timeout_seconds : ℕ
  pub max_pending_spool_bytes : ℕ

-- `MaxFileBytes` and `MaxBatchBytes`: 50 << 20 and 500 << 20.
abbrev pub max_file_bytes_limit : ℕ
max_file_bytes_limit = 52428800

abbrev pub max_batch_bytes_limit : ℕ
max_batch_bytes_limit = 524288000

-- `Policy.Valid`.
unfoldable pub valid_policy : Policy → Bool
valid_policy p =
    not (bytes_eq p.revision [])
    && ltb 0 p.max_file_bytes
    && leb p.max_file_bytes max_file_bytes_limit
    && ltb 0 p.max_batch_files
    && leb p.max_batch_files 10
    && leb p.max_file_bytes p.max_batch_bytes
    && leb p.max_batch_bytes max_batch_bytes_limit
    && ltb 0 p.max_concurrent_transfers
    && leb p.max_concurrent_transfers 2
    && ltb 0 p.retention_seconds
    && ltb 0 p.delivery_timeout_seconds
    && leb p.max_batch_bytes p.max_pending_spool_bytes

pub record File : Type 0 where
  pub basename : Bytes
  pub size : ℕ
  pub sha256 : Bytes

pub record CreateRequest : Type 0 where
  pub batch_id : Bytes
  pub direction : Direction
  pub session_id : Bytes
  pub client_id : Bytes
  pub files : List File

abbrev pub is_lower_hex : ℕ → Bool
is_lower_hex c = leb b'0' c && leb c b'9' || leb b'a' c && leb c b'f'

unfoldable pub all_lower_hex : Bytes → Bool
all_lower_hex [] = true
all_lower_hex (c ∷ cs) = is_lower_hex c && all_lower_hex cs

-- `validDigest`.
unfoldable pub valid_digest : Bytes → Bool
unfolding all_lower_hex
valid_digest value = length value == 64 && all_lower_hex value

-- The checks of the loop of `Create`, with the size of the files so far. `valid_basename` is the
-- function of that name.
unfoldable pub check_files : (Bytes → Bool) → Policy → ℕ → List File → Option Error
check_files valid_basename policy total [] = none
check_files valid_basename policy total (f ∷ fs) =
    let next = check_files valid_basename policy (total + f.size) fs in
    if not (valid_basename f.basename)
    then some invalid_path
    else if ltb policy.max_file_bytes f.size
    then some invalid_size
    else if not (valid_digest f.sha256)
    then some digest_mismatch
    else if ltb policy.max_batch_bytes (total + f.size)
    then some batch_limit
    else next

-- The time at which the entries expire, from `now` on.
abbrev pub lifetime : Policy → Direction → ℕ
lifetime policy direction =
    if is_outgoing direction then policy.delivery_timeout_seconds else policy.retention_seconds

abbrev pub new_entry : CreateRequest → ℕ → Bytes → File → Entry
new_entry r expires_at id f = record {
  id = id;
  batch_id = r.batch_id;
  direction = r.direction;
  session_id = r.session_id;
  client_id = r.client_id;
  basename = f.basename;
  size = f.size;
  sha256 = f.sha256;
  committed_offset = 0;
  state = created;
  result_code = [];
  receipt_path = [];
  expires_at = expires_at;
  partial = none;
  content = none;
}

-- A random identity for each file.
unfoldable pub new_entries : CreateRequest → ℕ → List Bytes → List File → List Entry
new_entries r expires_at [] fs = []
new_entries r expires_at ids [] = []
new_entries r expires_at (id ∷ ids) (f ∷ fs) =
    new_entry r expires_at id f ∷ new_entries r expires_at ids fs

-- `SELECT COALESCE(SUM(size),0)` of the active entries.
unfoldable pub used : List Entry → ℕ
used [] = 0
used (e ∷ es) = (if is_active e.state then e.size else 0) + used es

unfoldable pub total_size : List Entry → ℕ
total_size [] = 0
total_size (e ∷ es) = e.size + total_size es

-- `SELECT COUNT(DISTINCT batch_id)` of the active entries.
unfoldable pub active_batches : List Entry → ℕ
unfolding any
active_batches [] = 0
active_batches (e ∷ es) =
    (if is_active e.state && not (any (λ x. is_active x.state && bytes_eq x.batch_id e.batch_id) es)
      then 1
      else 0)
    + active_batches es

abbrev pub is_known {ℓ} : {A : Type ℓ} → Option A → Bool
is_known none = false
is_known (some x) = true

-- The loop of INSERTs succeeds: no identity is there already, and the CHECKs of the table hold.
unfoldable pub insertable : List Entry → List Entry → Bool
insertable es [] = true
insertable es (e ∷ new) =
    insertable (es ++ e ∷ []) new
    && not (is_known (find e.id es))
    && leb e.size max_file_bytes_limit
    && length e.sha256 == 64
    && not (bytes_eq e.id [])

-- The rows, and then the files: those of the new transfers are made, or else the batch is cancelled
-- and they are removed.
unfoldable pub with_files : Bytes → List Entry → Bool → List Entry → Step
with_files batch_id new opened es = if opened then (es ++ each (write []) new, ok tt) else (
  each (in_batch batch_id cancel_row) es ++ each (λ e. remove_files (cancel_row e)) new,
  err storage_unavailable,
)

-- `CreateFileTransfersWithinLimits`, and the files.
unfoldable pub create_entries : List Entry → Policy → Bytes → List Entry → Bool → Step
unfolding insertable active_batches used total_size with_files
create_entries es policy batch_id new opened =
    if ltb (length new) 1 || ltb 10 (length new)
    then (es, err resource_limit)
    else if ltb 0 policy.max_concurrent_transfers
        && leb policy.max_concurrent_transfers (active_batches es)
    then (es, err resource_limit)
    else if ltb 0 policy.max_pending_spool_bytes
        && ltb policy.max_pending_spool_bytes (used es + total_size new)
    then (es, err resource_limit)
    else if insertable es new
    then with_files batch_id new opened es
    else (es, err storage_unavailable)

abbrev pub checked : List Entry → Option Error → Step → Step
checked es (some e) next = (es, err e)
checked es none next = next

-- `Create`; `opened` says that all files are made and the directory is synced.
unfoldable pub create :
    (Bytes → Bool) → List Entry → Policy → CreateRequest → ℕ → List Bytes → Bool → Step
unfolding check_files create_entries new_entries
create valid_basename es policy r now ids opened =
    let new = new_entries r (now + lifetime policy r.direction) ids r.files in
    if bytes_eq r.batch_id [] || bytes_eq r.session_id [] || bytes_eq r.client_id []
    then (es, err invalid_path)
    else if ltb (length r.files) 1 || ltb policy.max_batch_files (length r.files)
    then (es, err batch_limit)
    else checked es (check_files valid_basename policy 0 r.files)
        (create_entries es policy r.batch_id new opened)
