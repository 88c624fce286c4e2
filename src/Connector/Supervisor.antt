-- ===== src/Connector/Supervisor.antt =====
-- internal/connector/supervisor.go: the loop that connects again, with its backoff.
--
-- A duration is the 64-bit word of an int64, in nanoseconds. What an admission, a connection and the
-- waiter answer is a round of the loop; the jitter and the test of its bounds are parameters, since
-- they are floating-point code.
pub mod Backoff
use paperboat_helper.Base.{
  ℕ, ◌+◌, ◌*◌, ◌%◌, ◌^◌, Bool, true, false, not, ◌&&◌, ◌||◌, Option, none, some, List, [], ◌∷◌, ltb,
  leb, ◌==◌, if◌then◌else◌,
}

pub record SupervisorConfig : Type 0 where
  pub has_manager : Bool
  pub has_admissions : Bool
  pub initial_backoff : ℕ
  pub max_backoff : ℕ

-- The defaults: a second and a minute.
abbrev pub initial_default : ℕ
initial_default = 1000000000

abbrev pub max_default : ℕ
max_default = 60000000000

abbrev pub defaulted : ℕ → ℕ → ℕ
defaulted d n = if n == 0 then d else n

abbrev pub with_defaults : SupervisorConfig → SupervisorConfig
with_defaults c = record c {
  initial_backoff = defaulted initial_default c.initial_backoff;
  max_backoff = defaulted max_default c.max_backoff;
}

-- `a < b` and `a <= 0` of two int64.
abbrev pub is_negative : ℕ → Bool
is_negative w = leb (2 ^ 63) w

abbrev pub less : ℕ → ℕ → Bool
less a b = ltb ((a + 2 ^ 63) % 2 ^ 64) ((b + 2 ^ 63) % 2 ^ 64)

-- `NewSupervisor`.
unfoldable pub new_supervisor : Bool → SupervisorConfig → Option SupervisorConfig
new_supervisor valid_jitter given =
    let c = with_defaults given in
    if not c.has_manager
      || not c.has_admissions
      || is_negative c.initial_backoff
      || c.initial_backoff == 0
      || less c.max_backoff c.initial_backoff
      || not valid_jitter
    then none
    else some c

-- What a round of `loop` comes to: no admission, or one that is not accepted; or a connection that
-- is given up for new routes, that ends, or that is lost.
pub data Round : Type 0 where
  failed replaced ended lost : Round

-- The backoff behind a failure.
abbrev pub clamp : ℕ → ℕ → ℕ
clamp max_backoff doubled = if less max_backoff doubled then max_backoff else doubled

-- The wait of a round, before its jitter, and the backoff of the next round.
unfoldable pub round : SupervisorConfig → ℕ → Round → Option ℕ × ℕ
round c backoff failed = (some backoff, clamp c.max_backoff (backoff * 2 % 2 ^ 64))
round c backoff replaced = (none, c.initial_backoff)
round c backoff ended = (none, c.initial_backoff)
round c backoff lost = (some c.initial_backoff, c.initial_backoff)

abbrev pub with_wait : Option ℕ → List ℕ → List ℕ
with_wait none ws = ws
with_wait (some w) ws = w ∷ ws

-- The waits of `loop`, with the backoff that it has.
unfoldable pub waits : SupervisorConfig → ℕ → List Round → List ℕ
unfolding round
waits c backoff [] = []
waits c backoff (r ∷ rs) = with_wait (round c backoff r).0 (waits c (round c backoff r).1 rs)
