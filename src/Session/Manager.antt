-- ===== src/Session/Manager.antt =====
-- internal/session/manager.go: the sessions of a manager, by identity and by name.
--
-- The manager's lock makes each method one step; contexts are not cancelled. The answers of the
-- random source, the store and the launcher are arguments.
pub mod Names
pub mod Run
pub mod Streams
pub mod Tests
use paperboat_helper.Base.{
  ℕ, zero, suc, ◌≤◌, Bool, true, false, not, ◌&&◌, ◌||◌, Option, none, some, List, [], ◌∷◌, Bytes,
  bytes_key, length, ltb, leb, ◌==◌, if◌then◌else◌, Result, ok, err, lookup, insert, erase,
}
use paperboat_helper.Session.State.{Lifecycle, transition, running, new}
use paperboat_helper.Session.Process.{Managed, moved}
use paperboat_helper.Session.Process as Process
use paperboat_helper.Session.Process.Consistency.{Op, deletes, step}

pub data Error : Type 0 where
  session_exists session_unknown invalid_session manager_stopped resource_limit external : Error
  of_session : Process.Error → Error

pub record Manager : Type 0 where
  pub max_sessions : ℕ
  pub stopping : Bool
  pub sessions : List (Bytes × Managed)
  pub names : List (Bytes × Bytes)

abbrev pub is_name_char : ℕ → Bool
is_name_char c = leb b'a' c && leb c b'z' || leb b'0' c && leb c b'9' || c == b'-' || c == b'_'

unfoldable pub all_name_chars : Bytes → Bool
all_name_chars [] = true
all_name_chars (c ∷ cs) = is_name_char c && all_name_chars cs

abbrev pub has_dash : Bytes → Bool
has_dash [] = false
has_dash (c ∷ cs) = c == b'-'

unfoldable pub valid_session_name : Bytes → Bool
unfolding all_name_chars
valid_session_name name =
    not (ltb (length name) 1 || ltb 64 (length name)) && all_name_chars name && not (has_dash name)

abbrev pub is_known {ℓ} : {A : Type ℓ} → Option A → Bool
is_known none = false
is_known (some x) = true

-- The loop of `Create` over random identities, with `n` attempts left; `none` is a failure of the
-- random source.
unfoldable pub choose : ℕ → List (Option Bytes) → List (Bytes × Managed) → Result Error Bytes
choose zero randoms sessions = err session_exists
choose (suc n) [] sessions = err external
choose (suc n) (none ∷ randoms) sessions = err external
choose (suc n) (some candidate ∷ randoms) sessions =
    let next = choose n randoms sessions in
    if is_known (lookup candidate sessions) then next else ok candidate

abbrev pub identity : Bytes → List (Option Bytes) → List (Bytes × Managed) → Result Error Bytes
identity [] randoms sessions = choose 8 randoms sessions
identity id randoms sessions = if is_known (lookup id sessions) then err session_exists else ok id

-- A session as `Create` leaves it.
abbrev pub created : Bytes → ℕ → Managed
created name p = record {
  name = name;
  lifecycle = moved new running;
  process = some p;
  live_process = some (p, (moved new running).generation);
  exit = none;
}

-- The end of `Create`: `stored` and `stored_again` are the answers of the store.
unfoldable pub create_as :
    Manager → Bytes → Bytes → Bool → Option ℕ → Bool → Manager × Result Error (Unit {0})
create_as m id name stored none stored_again = (m, err external)
create_as m id name stored (some p) stored_again =
    if not (stored && stored_again) then (m, err external) else (
      record m { sessions = insert id (created name p) m.sessions; names = insert name id m.names },
      ok tt,
    )

-- `Create` with the identity that it has found.
unfoldable pub create_with :
    Manager
    → Bytes
    → Result Error Bytes
    → Bool
    → Option ℕ
    → Bool
    → Manager × Result Error (Unit {0})
unfolding create_as
create_with m name (err e) stored launched stored_again = (m, err e)
create_with m name (ok id) stored launched stored_again =
    create_as m id name stored launched stored_again

unfoldable pub create :
    Manager
    → Bytes
    → Bytes
    → List (Option Bytes)
    → Bool
    → Option ℕ
    → Bool
    → Manager × Result Error (Unit {0})
unfolding create_with valid_session_name choose
create m id name randoms stored launched stored_again =
    if not (valid_session_name name)
    then (m, err invalid_session)
    else if m.stopping
    then (m, err manager_stopped)
    else if leb m.max_sessions (length m.sessions)
    then (m, err resource_limit)
    else if is_known (lookup name m.names)
    then (m, err session_exists)
    else create_with m name (identity id randoms m.sessions) stored launched stored_again

-- `Delete` of a session that there is, with what `Delete` does to it.
unfoldable pub forget :
    Manager → Bytes → Managed × Result Process.Error (Unit {0}) → Manager × Result Error (Unit {0})
forget m id (s, err e) = (m, err (of_session e))
forget m id (s, ok _) =
    (record m { sessions = erase id m.sessions; names = erase s.name m.names }, ok tt)

unfoldable pub delete : Manager → Bytes → Bool → Manager × Result Error (Unit {0})
unfolding forget Process.delete
delete m id stored = elim (lookup id m.sessions) [
  | none ↦ (m, err session_unknown)
  | some s ↦ forget m id (Process.delete s stored)
]

-- A method of a session that stays.
unfoldable pub change : Manager → Bytes → Op → Manager
change m id op = elim (lookup id m.sessions) [
  | none ↦ m
  | some s ↦ record m { sessions = insert id (step s op) m.sessions }
]

-- Any method of a session.
unfoldable pub call : Manager → Bytes → Op → Manager
unfolding change delete
call m id (deletes stored) = (delete m id stored).0
call m id op = change m id op

-- `Shutdown`; the sessions are then closed one by one.
unfoldable pub shutdown : Manager → Manager
shutdown m = record m { stopping = true }
