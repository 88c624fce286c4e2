-- ===== src/Config.antt =====
-- internal/config/config.go: the configuration of the runtime, and the bounds that it must keep.
--
-- The two bounds on bytes that are uint64 are numbers; an `int` and a `Duration`, in nanoseconds,
-- may be below 0. The file paths are those of Unix, where an absolute one begins with a slash. What
-- is read from the environment is left out.
pub mod Resources
pub mod Tests
use paperboat_helper.Base.{
  ℕ, zero, suc, Bool, true, false, not, ◌&&◌, ◌||◌, Option, none, some, List, [], ◌∷◌, String,
  Bytes, length, ltb, leb, ◌==◌, if◌then◌else◌, Result, ok, err, ℤ, pos, negsuc,
}

pub data Profile : Type 0 where
  hosted byod : Profile
  unknown : String → Profile

pub data Error : Type 0 where
  invalid : Error

pub record Limits : Type 0 where
  pub structured_frame_bytes : ℕ
  pub terminal_frame_bytes : ℕ
  pub pending_output_bytes : ℕ
  pub heartbeat_interval : ℤ
  pub peer_timeout : ℤ
  pub mutation_deadline : ℤ

abbrev pub default_limits : Limits
default_limits = record {
  structured_frame_bytes = 65536;
  terminal_frame_bytes = 262144;
  pending_output_bytes = 1048576;
  heartbeat_interval = pos 15000000000;
  peer_timeout = pos 45000000000;
  mutation_deadline = pos 300000000000;
}

pub record ResourceLimits : Type 0 where
  pub max_sessions : ℤ
  pub max_attachments : ℤ
  pub max_input_decisions : ℤ
  pub history_bytes : ℕ
  pub max_concurrent_transfers : ℤ
  pub max_preview_targets : ℤ
  pub max_concurrent_probes : ℤ
  pub max_concurrent_ops : ℤ

abbrev pub default_resources : ResourceLimits
default_resources = record {
  max_sessions = pos 64;
  max_attachments = pos 16;
  max_input_decisions = pos 10000;
  history_bytes = 65536;
  max_concurrent_transfers = pos 2;
  max_preview_targets = pos 20;
  max_concurrent_probes = pos 8;
  max_concurrent_ops = pos 32;
}

pub record Config : Type 0 where
  pub profile : Profile
  pub state_root : Bytes
  pub version : Bytes
  pub limits : Limits
  pub resources : ResourceLimits

abbrev pub is_unknown : Profile → Bool
is_unknown (unknown _) = true
is_unknown _ = false

-- `filepath.IsAbs`.
abbrev pub is_abs : Bytes → Bool
is_abs [] = false
is_abs (c ∷ cs) = c == 47

-- `1 <= x && x <= high`.
abbrev pub between : ℕ → ℤ → Bool
between high (pos n) = leb 1 n && leb n high
between high (negsuc n) = false

-- `1 <= n && n <= high`.
abbrev pub within : ℕ → ℕ → Bool
within high n = leb 1 n && leb n high

-- `heartbeat > 0 && timeout >= heartbeat`.
abbrev pub patient : ℤ → ℤ → Bool
patient (pos heartbeat) (pos timeout) = leb 1 heartbeat && leb heartbeat timeout
patient _ _ = false

unfoldable pub valid_limits : Limits → Bool
valid_limits l =
    within 65536 l.structured_frame_bytes
    && within 262144 l.terminal_frame_bytes
    && within 1048576 l.pending_output_bytes
    && patient l.heartbeat_interval l.peer_timeout
    && between 300000000000 l.mutation_deadline

abbrev pub is_zero : ℤ → Bool
is_zero (pos zero) = true
is_zero _ = false

-- `resources == (ResourceLimits{})`.
abbrev pub is_unset : ResourceLimits → Bool
is_unset r =
    is_zero r.max_sessions
    && is_zero r.max_attachments
    && is_zero r.max_input_decisions
    && r.history_bytes == 0
    && is_zero r.max_concurrent_transfers
    && is_zero r.max_preview_targets
    && is_zero r.max_concurrent_probes
    && is_zero r.max_concurrent_ops

unfoldable pub valid_resources : ResourceLimits → Bool
valid_resources r =
    between 256 r.max_sessions
    && between 64 r.max_attachments
    && between 100000 r.max_input_decisions
    && within 67108864 r.history_bytes
    && between 16 r.max_concurrent_transfers
    && between 20 r.max_preview_targets
    && between 64 r.max_concurrent_probes
    && between 256 r.max_concurrent_ops

unfoldable pub validate : Config → Result Error (Unit {0})
unfolding valid_limits valid_resources
validate c =
    if is_unknown c.profile
    then err invalid
    else if length c.state_root == 0 || not (is_abs c.state_root)
    then err invalid
    else if length c.version == 0
    then err invalid
    else if not (valid_limits c.limits)
    then err invalid
    else if not (valid_resources (if is_unset c.resources then default_resources else c.resources))
    then err invalid
    else ok tt
