-- ===== src/Preview/Record.antt =====
-- internal/preview/registry.go: the record of a preview, its states and what is valid in it.
use paperboat_helper.Base.{
  ℕ, Bool, true, false, ◌&&◌, ◌||◌, [], ◌∷◌, ◌++◌, String, is_yes, length, ltb, leb, ◌==◌,
  ℕ_discrete, Bytes, Bytes_discrete, bytes_key,
}

pub data State : Type 0 where
  registering ready degraded offline expired removed : State

pub data Error : Type 0 where
  invalid_target identity_conflict not_found invalid_transition resource_limit cancelled : Error

unfoldable pub State-discrete : Discrete State
State-discrete = hlevel

-- The table `transitions`.
abbrev pub allowed : State → State → Bool
allowed registering ready = true
allowed registering degraded = true
allowed registering offline = true
allowed registering removed = true
allowed ready degraded = true
allowed ready offline = true
allowed ready expired = true
allowed ready removed = true
allowed degraded ready = true
allowed degraded offline = true
allowed degraded expired = true
allowed degraded removed = true
allowed offline registering = true
allowed offline ready = true
allowed offline expired = true
allowed offline removed = true
allowed expired registering = true
allowed expired removed = true
allowed _ _ = false

abbrev pub is_removed : State → Bool
is_removed removed = true
is_removed _ = false

abbrev pub is_expired : State → Bool
is_expired expired = true
is_expired _ = false

abbrev pub is_offline : State → Bool
is_offline offline = true
is_offline _ = false

pub record Target : Type 0 where
  pub host : Bytes
  pub port : ℕ

unfoldable pub Target-discrete : Discrete Target
Target-discrete = hlevel (Bytes_discrete, ℕ_discrete)

pub record Record : Type 0 where
  pub identity : Bytes
  pub environment_id : Bytes
  pub logical_name : Bytes
  pub target : Target
  pub state : State
  pub reason : String
  pub updated_at : ℕ
  pub revision : ℕ
  pub public_url : Bytes

-- "127.0.0.1" and "::1".
abbrev pub loopback_v4 : Bytes
loopback_v4 = 49 ∷ 50 ∷ 55 ∷ 46 ∷ 48 ∷ 46 ∷ 48 ∷ 46 ∷ 49 ∷ []

abbrev pub loopback_v6 : Bytes
loopback_v6 = 58 ∷ 58 ∷ 49 ∷ []

unfoldable pub valid_target : Target → Bool
valid_target t =
    (is_yes (Bytes_discrete t.host loopback_v4) || is_yes (Bytes_discrete t.host loopback_v6))
    && ltb 0 t.port

unfoldable pub valid_id : Bytes → Bool
valid_id value = leb 1 (length value) && leb (length value) 128

-- A byte of a name: a-z, 0-9, - or _. A byte above 127 belongs to a rune that is none of these.
abbrev pub name_byte : ℕ → Bool
name_byte c = leb 97 c && leb c 122 || leb 48 c && leb c 57 || c == 45 || c == 95

unfoldable pub name_bytes : Bytes → Bool
name_bytes [] = true
name_bytes (c ∷ cs) = name_byte c && name_bytes cs

unfoldable pub valid_name : Bytes → Bool
unfolding valid_id name_bytes
valid_name value = valid_id value && name_bytes value

-- `environmentID + "\x00" + logicalName`.
unfoldable pub name_key : Bytes → Bytes → Bytes
name_key environment_id logical_name = environment_id ++ 0 ∷ logical_name
