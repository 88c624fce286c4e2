-- ===== src/Transfer/Tests.antt =====
-- Runs of the transfers: a digest that is the length, as 64 bytes.
use paperboat_helper.Base.{
  ℕ, zero, suc, ◌≤◌, ◌≡◌, refl, false, true, none, some, List, [], ◌∷◌, Bytes, ok, err, Bool,
}
use paperboat_helper.Transfer.{
  Entry, Direction, pb_to_pbh, pbh_to_pb, published, uploading, is_done, is_active, is_canceled,
  conflict, storage_unavailable, find, batch, every, any, code_published,
}
use paperboat_helper.Transfer.Service.{cancel, complete_transfer, open_content, remove_files, zeros}
use paperboat_helper.Transfer
use paperboat_helper.Transfer.Creation
use paperboat_helper.Transfer.Service as Service
use paperboat_helper.Transfer.Service.Batches.{complete_transfer_whole, cancel_done_loses}
use paperboat_helper.Transfer.Creation.{Policy, CreateRequest, File, used, create, valid_policy}
use paperboat_helper.Transfer.Run.{Op, creates, appends, completes, run}
use paperboat_helper.Transfer.Run.Serving.{run_serves}
use paperboat_helper.Transfer.Run.Quota.{run_quota}

abbrev any_name : Bytes → Bool
any_name name = true

abbrev digits : ℕ → Bytes
digits zero = []
digits (suc n) = b'0' ∷ digits n

-- A digest of 64 characters, whose first says whether there are bytes.
abbrev digest : Bytes → Bytes
digest [] = b'a' ∷ digits 63
digest (x ∷ xs) = b'b' ∷ digits 63

abbrev policy : Policy
policy = record {
  revision = b'1' ∷ [];
  max_file_bytes = 100;
  max_batch_files = 10;
  max_batch_bytes = 200;
  max_concurrent_transfers = 2;
  retention_seconds = 60;
  delivery_timeout_seconds = 60;
  max_pending_spool_bytes = 300;
}

abbrev key : Bytes
key = b'k' ∷ []

abbrev request : CreateRequest
request = record {
  batch_id = b'b' ∷ [];
  direction = pb_to_pbh;
  session_id = b's' ∷ [];
  client_id = b'c' ∷ [];
  files = record { basename = b'f' ∷ []; size = 3; sha256 = b'b' ∷ digits 63 } ∷ [];
}

abbrev uploads : List Op
uploads =
    creates request 0 (key ∷ []) true
    ∷ appends key 0 (1 ∷ 2 ∷ []) true
    ∷ appends key 2 (3 ∷ []) true
    ∷ []

abbrev ops : List Op
ops =
    creates request 0 (key ∷ []) true
    ∷ appends key 0 (1 ∷ 2 ∷ []) true
    ∷ appends key 2 (3 ∷ []) true
    ∷ completes key true true
    ∷ []

served : open_content (run any_name digest policy [] ops) key ≡ ok (1 ∷ 2 ∷ 3 ∷ [])
unfolding open_content create Service.append Service.complete_transfer find batch every any
    Service.complete_batch Service.truncate used Creation.valid_digest Transfer.each
served = refl

run_serves_example :
    let es = run any_name digest policy [] ops in
    (e : Entry) × (find key es ≡ some e)
    × (is_done e.state ≡ true)
    × (e.committed_offset ≡ e.size)
    × (◌≡◌ {A = ℕ} 3 e.size)
    × (digest (1 ∷ 2 ∷ 3 ∷ []) ≡ e.sha256)
run_serves_example = run_serves any_name digest policy ops key (1 ∷ 2 ∷ 3 ∷ []) served

policy_valid : valid_policy policy ≡ true
unfolding valid_policy
policy_valid = refl

run_quota_example : used (run any_name digest policy [] ops) ≤ 300
run_quota_example = run_quota any_name digest policy ops policy_valid

-- An upload that is whole.
abbrev upload : Entry
upload = record {
  id = key;
  batch_id = b'b' ∷ [];
  direction = pb_to_pbh;
  session_id = b's' ∷ [];
  client_id = b'c' ∷ [];
  basename = b'f' ∷ [];
  size = 3;
  sha256 = b'b' ∷ digits 63;
  committed_offset = 3;
  state = uploading;
  result_code = [];
  receipt_path = [];
  expires_at = 60;
  partial = some (1 ∷ 2 ∷ 3 ∷ []);
  content = none;
}

upload_found : find key (upload ∷ []) ≡ some upload
unfolding find
upload_found = refl

upload_completes : (complete_transfer digest (upload ∷ []) key true true).1 ≡ ok tt
unfolding complete_transfer find batch every
upload_completes = refl

complete_transfer_whole_example :
    every
      (λ x. is_done x.state)
      (batch (b'b' ∷ []) (complete_transfer digest (upload ∷ []) key true true).0)
    ≡ true
complete_transfer_whole_example =
    complete_transfer_whole digest (upload ∷ []) key true true upload_found upload_completes

abbrev download : Entry
download = record upload {
  state = published;
  result_code = code_published;
  partial = none;
  content = some (1 ∷ 2 ∷ 3 ∷ []);
}

download_found : find key (download ∷ []) ≡ some download
unfolding find
download_found = refl

none_active :
    (any (λ x. is_active x.state) (batch (b'b' ∷ []) (download ∷ [])) ≡ false)
    × (every (λ x. is_canceled x.state) (batch (b'b' ∷ []) (download ∷ [])) ≡ false)
unfolding any every batch
none_active = (refl, refl)

cancel_done_loses_example :
    ((cancel (download ∷ []) key).1 ≡ err conflict)
    × (find key (cancel (download ∷ []) key).0 ≡ some (remove_files download))
    × (open_content (cancel (download ∷ []) key).0 key ≡ err storage_unavailable)
cancel_done_loses_example =
    cancel_done_loses (download ∷ []) key download download_found refl none_active.0 none_active.1
