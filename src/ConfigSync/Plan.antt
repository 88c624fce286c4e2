-- ===== src/ConfigSync/Plan.antt =====
-- internal/configsync/reconcile.go: the three-way comparison of the files of the last baseline, the
-- workspace and the repository, and the baseline that is accepted after it.
--
-- A path is its bytes, which `sort.Strings` compares. The set of all paths and its sort are one
-- sorted insertion. The size of a file is not negative. A map that Go iterates to write another map
-- is iterated in the order of its list, which does not show, since each path is written once.
pub mod Paths
pub mod Convergence
pub mod Baseline
use paperboat_helper.Base.{
  bytes_lt, ℕ, ◌≡◌, Bool, true, false, not, ◌&&◌, ◌||◌, Option, none, some, List, [], ◌∷◌, String,
  String_discrete, ℕ_discrete, ltb, ◌==◌, if◌then◌else◌, is_yes, lookup, insert, erase, Bytes,
  bytes_key,
}

pub data AssignmentMode : Type 0 where
  pull_only push_only bidirectional : AssignmentMode

abbrev pub is_pull_only : AssignmentMode → Bool
is_pull_only pull_only = true
is_pull_only _ = false

abbrev pub is_push_only : AssignmentMode → Bool
is_push_only push_only = true
is_push_only _ = false

pub record FileState : Type 0 where
  pub hash : String
  pub bytes : ℕ
  pub mode : ℕ
  pub target : String

unfoldable pub FileState-discrete : Discrete FileState
FileState-discrete = hlevel (String_discrete, ℕ_discrete)

pub record PathSummary : Type 0 where
  pub path : Bytes
  pub bytes : ℕ
  pub reason : String

pub record ReconcilePlan : Type 0 where
  pub publish_updates : List Bytes
  pub publish_deletes : List Bytes
  pub apply_remote : List Bytes
  pub delete_local : List Bytes
  pub conflicts : List PathSummary

abbrev pub Files : Type 0
Files = List (Bytes × FileState)

-- What Go reads at a key that is missing.
abbrev pub zero_state : FileState
zero_state = record { hash = ""; bytes = 0; mode = 0; target = "" }

abbrev pub state_of : Option FileState → FileState
state_of none = zero_state
state_of (some s) = s

abbrev pub present : Option FileState → Bool
present none = false
present (some s) = true

-- `aOK != bOK || a != b`.
unfoldable pub differ : Option FileState → Option FileState → Bool
differ a b =
    (if present a then not (present b) else present b)
    || not (is_yes (FileState-discrete (state_of a) (state_of b)))

unfoldable pub add_path : Bytes → List Bytes → List Bytes
add_path p [] = p ∷ []
add_path p (q ∷ qs) =
    if is_yes (bytes_key.dec q p)
    then q ∷ qs
    else if bytes_lt p q
    then p ∷ q ∷ qs
    else q ∷ add_path p qs

unfoldable pub add_paths : Files → List Bytes → List Bytes
unfolding add_path
add_paths [] qs = qs
add_paths ((p, s) ∷ files) qs = add_path p (add_paths files qs)

-- What the `switch` does with one path.
pub data Action : Type 0 where
  keep publish_update publish_delete apply_update apply_delete : Action
  conflict : ℕ → String → Action

abbrev pub bytes_of : Option FileState → ℕ
bytes_of none = 0
bytes_of (some s) = s.bytes

unfoldable pub action :
    AssignmentMode → Option FileState → Option FileState → Option FileState → Action
action mode base localState remoteState =
    let localChanged = differ base localState in
    let remoteChanged = differ base remoteState in
    if not (differ localState remoteState)
    then keep
    else if is_push_only mode && remoteChanged
    then conflict (bytes_of remoteState) "remote_update"
    else if localChanged && remoteChanged
    then conflict (bytes_of remoteState) "concurrent_update"
    else if localChanged && not (is_pull_only mode)
    then (if present localState then publish_update else publish_delete)
    else if remoteChanged && not (is_push_only mode)
    then (if present remoteState then apply_update else apply_delete)
    else keep

-- The appends of the loop, from the front.
abbrev pub put : Bytes → Action → ReconcilePlan → ReconcilePlan
put p keep plan = plan
put p publish_update plan = record plan { publish_updates = p ∷ plan.publish_updates }
put p publish_delete plan = record plan { publish_deletes = p ∷ plan.publish_deletes }
put p apply_update plan = record plan { apply_remote = p ∷ plan.apply_remote }
put p apply_delete plan = record plan { delete_local = p ∷ plan.delete_local }
put p (conflict bytes reason) plan = record plan {
  conflicts = record { path = p; bytes = bytes; reason = reason } ∷ plan.conflicts;
}

unfoldable pub plan_paths : AssignmentMode → Files → Files → Files → List Bytes → ReconcilePlan
unfolding action
plan_paths mode baseline local remote [] = record {
  publish_updates = [];
  publish_deletes = [];
  apply_remote = [];
  delete_local = [];
  conflicts = [];
}
plan_paths mode baseline local remote (p ∷ ps) =
    put p (action mode (lookup p baseline) (lookup p local) (lookup p remote))
      (plan_paths mode baseline local remote ps)

unfoldable pub all_paths : Files → Files → Files → List Bytes
unfolding add_paths
all_paths baseline local remote = add_paths baseline (add_paths local (add_paths remote []))

unfoldable pub plan : AssignmentMode → Files → Files → Files → ReconcilePlan
unfolding plan_paths all_paths
plan mode baseline local remote =
    plan_paths mode baseline local remote (all_paths baseline local remote)

-- `AcceptedBaseline` at one path.
unfoldable pub accept : Option FileState → Option FileState → Option FileState → Option FileState
accept previous localState remoteState =
    if (if present localState then present remoteState else not (present remoteState))
      && (not (present localState)
          || is_yes (FileState-discrete (state_of localState) (state_of remoteState)))
    then localState
    else previous

abbrev pub put_state : Bytes → Option FileState → Files → Files
put_state p none files = files
put_state p (some s) files = insert p s files

unfoldable pub accept_paths : Files → Files → Files → List Bytes → Files
unfolding accept
accept_paths previous local remote [] = []
accept_paths previous local remote (p ∷ ps) =
    put_state p (accept (lookup p previous) (lookup p local) (lookup p remote))
      (accept_paths previous local remote ps)

unfoldable pub accepted_baseline : Files → Files → Files → AssignmentMode → Bool → Files
unfolding accept_paths all_paths
accepted_baseline previous local remote mode writes_enabled =
    if not (is_pull_only mode) && writes_enabled
    then local
    else accept_paths previous local remote (all_paths previous local remote)

abbrev pub freeze : Bytes → Option FileState → Files → Files
freeze p (some s) accepted = insert p s accepted
freeze p none accepted = erase p accepted

unfoldable pub freeze_conflict_baseline : Files → Files → List PathSummary → Files
freeze_conflict_baseline accepted previous [] = accepted
freeze_conflict_baseline accepted previous (c ∷ cs) =
    freeze_conflict_baseline (freeze c.path (lookup c.path previous) accepted) previous cs
