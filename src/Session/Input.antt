-- ===== src/Session/Input.antt =====
-- internal/session/input.go: the journal that makes terminal input idempotent.
--
-- SHA-256 is the parameter `sum256`. A writer answers how many bytes it has written and whether
-- it failed; `Write` also returns the keys of the calls that it makes of the writer. The mutex
-- makes every method one step.
pub mod Once
pub mod Bounds
use paperboat_helper.Base.{
  ℕ, Bool, true, false, ◌&&◌, ◌||◌, not, Option, none, some, List, [], ◌∷◌, String, length, ltb,
  leb, ◌==◌, if◌then◌else◌, is_yes, Result, ok, err, Key, lookup, insert, String_discrete,
  ℕ_discrete, Bytes_discrete,
}

pub data InputStatus : Type 0 where
  input_accepted input_duplicate input_rejected input_uncertain : InputStatus

pub data Error : Type 0 where
  invalid_input input_conflict input_unknown input_journal_full : Error
  -- the current generation
  stale_generation : ℕ → Error

pub record InputKey : Type 0 where
  pub client_id : String
  pub attachment_id : String
  pub generation : ℕ
  pub input_id : String

unfoldable pub InputKey-discrete : Discrete InputKey
InputKey-discrete = hlevel (String_discrete, ℕ_discrete)

instance abbrev pub input_key : Key InputKey
input_key = record { dec = InputKey-discrete }

pub record InputDecision : Type 0 where
  pub status : InputStatus
  pub bytes_written : ℕ
  pub write_error : String
  pub hash : List ℕ

pub record InputJournal : Type 0 where
  pub current : ℕ
  pub max : ℕ
  pub decisions : List (InputKey × InputDecision)

-- `[sha256.Size]byte{}`.
abbrev pub zero_hash : List ℕ
zero_hash =
    0 ∷ 0 ∷ 0 ∷ 0 ∷ 0 ∷ 0 ∷ 0 ∷ 0 ∷ 0 ∷ 0 ∷ 0 ∷ 0 ∷ 0 ∷ 0 ∷ 0 ∷ 0 ∷ 0 ∷ 0 ∷ 0 ∷ 0 ∷ 0 ∷ 0 ∷ 0 ∷ 0
    ∷ 0 ∷ 0 ∷ 0 ∷ 0 ∷ 0 ∷ 0 ∷ 0 ∷ 0 ∷ []

abbrev pub public_decision : InputDecision → InputDecision
public_decision d = record d { hash = zero_hash }

unfoldable pub new_bounded : ℕ → ℕ → InputJournal
new_bounded generation max = record { current = generation; max = max; decisions = [] }

unfoldable pub set_generation : InputJournal → ℕ → InputJournal
set_generation j generation = record j { current = generation }

-- The identity that `Write` and `Restore` refuse.
abbrev pub bad_key : InputKey → Bool
bad_key key =
    is_yes (String_discrete key.client_id "")
    || is_yes (String_discrete key.attachment_id "")
    || is_yes (String_discrete key.input_id "")
    || key.generation == 0

-- What `Write` answers on a key that was decided before.
unfoldable pub replayed : InputDecision → InputDecision
replayed d = elim d.status [
  | input_accepted ↦ public_decision (record d { status = input_duplicate })
  | _ ↦ public_decision d
]

-- The `switch` of `Write` and the test of the error behind it.
unfoldable pub judge : ℕ → ℕ → Bool → InputStatus
judge n len failed =
    if failed && ltb 0 n && ltb n len
    then input_uncertain
    else if n == len
    then input_accepted
    else if n == 0
    then input_rejected
    else input_uncertain

unfoldable pub decide : List ℕ → List ℕ → ℕ × Bool → InputDecision
decide hash bytes (n, failed) = record {
  status = judge n (length bytes) failed;
  bytes_written = n;
  write_error = if failed then "pty_write_failed" else "";
  hash = hash;
}

abbrev pub Writer : Type 0
Writer = List ℕ → ℕ × Bool

-- The journal, the answer, and the keys for which the writer was called.
abbrev pub Written : Type 0
Written = InputJournal × Result Error InputDecision × List InputKey

-- `Write` from the look at its key on.
unfoldable pub write_at :
    List ℕ → InputJournal → InputKey → List ℕ → Writer → Option InputDecision → Written
write_at hash j key bytes writer (some previous) =
    if not (is_yes (Bytes_discrete previous.hash hash))
    then (j, err input_conflict, [])
    else (j, ok (replayed previous), [])
write_at hash j key bytes writer none =
    let decision = decide hash bytes (writer bytes) in
    if leb j.max (length j.decisions)
    then (j, err input_journal_full, [])
    else if not (key.generation == j.current)
    then (j, err (stale_generation j.current), [])
    else (
      record j { decisions = insert key decision j.decisions },
      ok (public_decision decision),
      key ∷ [],
    )

unfoldable pub write_with : List ℕ → InputJournal → InputKey → List ℕ → Option Writer → Written
unfolding write_at
write_with hash j key bytes none = (j, err invalid_input, [])
write_with hash j key bytes (some writer) =
    if bad_key key
    then (j, err invalid_input, [])
    else write_at hash j key bytes writer (lookup key j.decisions)

unfoldable pub write :
    (List ℕ → List ℕ) → InputJournal → InputKey → List ℕ → Option Writer → Written
unfolding write_with
write sum256 j key bytes writer = write_with (sum256 bytes) j key bytes writer

unfoldable pub query : InputJournal → InputKey → Result Error InputDecision
query j key = elim (lookup key j.decisions) [
  | none ↦ err input_unknown
  | some decision ↦ ok (public_decision decision)
]

unfoldable pub admit : InputJournal → InputKey → Result Error (Unit {0})
admit j key = elim (lookup key j.decisions) [
  | some _ ↦ ok tt
  | none ↦ if leb j.max (length j.decisions) then err input_journal_full else ok tt
]

-- The statuses that `Restore` takes.
abbrev pub restorable : InputStatus → Bool
restorable input_duplicate = false
restorable _ = true

abbrev pub restored : List ℕ → InputStatus → ℕ → String → InputDecision
restored hash status bytes_written error_code = record {
  status = status;
  bytes_written = bytes_written;
  write_error = error_code;
  hash = hash;
}

unfoldable pub restore :
    InputJournal
    → InputKey
    → List ℕ
    → InputStatus
    → ℕ
    → String
    → InputJournal × Result Error (Unit {0})
restore j key hash status bytes_written error_code =
    if not (length hash == 32) || bad_key key
    then (j, err invalid_input)
    else if not (restorable status)
    then (j, err invalid_input)
    else elim (lookup key j.decisions) [
      | some _ ↦ (j, err input_conflict)
      | none ↦ if leb j.max (length j.decisions) then (j, err input_journal_full) else (
        record j {
          decisions = insert key (restored hash status bytes_written error_code) j.decisions;
        },
        ok tt,
      )
    ]
