-- ===== src/Transfer/Run.antt =====
-- The transfers over any history of calls.
pub mod Inserting
pub mod Serving
pub mod Quota
use paperboat_helper.Base.{ℕ, Bool, List, [], ◌∷◌, Bytes}
use paperboat_helper.Transfer.{Entry}
use paperboat_helper.Transfer.Service.{append, cancel, complete_transfer, receipt, cleanup_expired}
use paperboat_helper.Transfer.Creation.{Policy, CreateRequest, create}

pub data Op : Type 0 where
  creates : CreateRequest → ℕ → List Bytes → Bool → Op
  appends : Bytes → ℕ → Bytes → Bool → Op
  completes : Bytes → Bool → Bool → Op
  cancels : Bytes → Op
  receives : Bytes → Bytes → Bytes → Bytes → Op
  cleans : ℕ → (Entry → Bool) → Op

module _ (valid_basename : Bytes → Bool) (digest : Bytes → Bytes) (policy : Policy) where
  abbrev pub step : List Entry → Op → List Entry
  step es (creates r now ids opened) = (create valid_basename es policy r now ids opened).0
  step es (appends id offset body complete_copy) = (append es id offset body complete_copy).0
  step es (completes id renamed synced) = (complete_transfer digest es id renamed synced).0
  step es (cancels id) = (cancel es id).0
  step es (receives id client_id code path) = (receipt es id client_id code path).0
  step es (cleans now chosen) = cleanup_expired es now chosen

  abbrev pub run : List Entry → List Op → List Entry
  run es [] = es
  run es (op ∷ ops) = run (step es op) ops
