-- ===== src/Protocol/Negotiation.antt =====
-- internal/protocol/negotiation.go: the choice of the version and of the capabilities.
--
-- A version is its bytes. A map from capabilities to true is the list of its keys. The selected
-- capabilities are in the order of the offer, since their order says nothing; Go sorts them. The
-- pattern that a capability must match is that of a regular expression of the library: a parameter.
pub mod Selection
use paperboat_helper.Base.{
  ℕ, zero, suc, ◌+◌, ◌-◌, ◌*◌, Bool, true, false, not, ◌&&◌, ◌||◌, Option, none, some, List, [],
  ◌∷◌, ◌++◌, String, String_discrete, string_key, has, is_yes, Bytes, length, ltb, leb, ◌==◌,
  if◌then◌else◌, Result, ok, err,
}
use paperboat_helper.Config.{Profile, hosted, byod, unknown}

pub data Error : Type 0 where
  invalid_capabilities protocol_incompatible capability_required : Error

-- The loops of `AvailableCapabilities`; `matches` is `capabilityPattern.MatchString`.
unfoldable pub add_capabilities :
    (String → Bool) → List String → List String → Result Error (List String)
add_capabilities matches available [] = ok available
add_capabilities matches available (c ∷ cs) =
    let next = add_capabilities matches (c ∷ available) cs in
    if not (matches c) || has c available then err invalid_capabilities else next

-- The provider `none` is nil.
unfoldable pub add_providers :
    (String → Bool) → List (Option (List String)) → List String → Result Error (List String)
unfolding add_capabilities
add_providers matches [] available = ok available
add_providers matches (none ∷ ps) available = err invalid_capabilities
add_providers matches (some cs ∷ ps) available = elim (add_capabilities matches available cs) [
  | err e ↦ err e
  | ok more ↦ add_providers matches ps more
]

unfoldable pub available_capabilities :
    (String → Bool) → List (Option (List String)) → Result Error (List String)
unfolding add_providers
available_capabilities matches providers = elim (add_providers matches providers []) [
  | err e ↦ err e
  | ok available ↦
      if not (has "terminal.v1" available) || not (has "health.v1" available)
      then err invalid_capabilities
      else ok available
]

-- `allowedCapabilities`.
abbrev pub allowed_capabilities : Profile → Option (List String)
allowed_capabilities hosted = some (
    "terminal.v1" ∷ "health.v1" ∷ "preview.public.v1" ∷ "config.apply.v1" ∷ "hosted.lifecycle.v1"
    ∷ "update.signed.v1" ∷ [])
allowed_capabilities byod = some (
    "terminal.v1" ∷ "health.v1" ∷ "preview.public.v1" ∷ "config.apply.v1" ∷ "update.signed.v1" ∷ [])
allowed_capabilities (unknown _) = none

pub record Negotiator : Type 0 where
  pub profile : Profile
  pub available : List String
  pub config_apply_proof : Bool

abbrev pub is_byod : Profile → Bool
is_byod byod = true
is_byod _ = false

-- The numeral of `strconv.Atoi`, from its first digit on, below 2 ^ 63.
unfoldable pub digits : ℕ → Bytes → Option ℕ
digits acc [] = if ltb acc 9223372036854775808 then some acc else none
digits acc (c ∷ cs) =
    let rest = digits (acc * 10 + (c - 48)) cs in if leb 48 c && leb c 57 then rest else none

unfoldable pub numeral : Bytes → Option ℕ
unfolding digits
numeral [] = none
numeral (c ∷ cs) = digits 0 (c ∷ cs)

-- A number below 0 is refused by `parseVersion`.
abbrev pub not_negative : Option ℕ → Option ℕ
not_negative (some zero) = some zero
not_negative _ = none

-- `strconv.Atoi` of a number that is at least 0.
unfoldable pub atoi : Bytes → Option ℕ
unfolding numeral
atoi [] = none
atoi (c ∷ cs) =
    if c == 43 then numeral cs else if c == 45 then not_negative (numeral cs) else numeral (c ∷ cs)

-- `strings.Cut` at the first dot.
unfoldable pub cut : Bytes → Option (Bytes × Bytes)
cut [] = none
cut (c ∷ cs) =
    if c == 46
    then some ([], cs)
    else elim (cut cs) [ none ↦ none | some (before, after) ↦ some (c ∷ before, after) ]

unfoldable pub has_dot : Bytes → Bool
has_dot [] = false
has_dot (c ∷ cs) = c == 46 || has_dot cs

abbrev pub pair : Option ℕ → Option ℕ → Option (ℕ × ℕ)
pair (some major) (some minor) = some (major, minor)
pair _ _ = none

unfoldable pub parse_version : Bytes → Option (ℕ × ℕ)
unfolding atoi cut has_dot
parse_version version = elim (cut version) [
  | none ↦ none
  | some (major, minor) ↦
      if length major == 0 || length minor == 0 || has_dot minor
      then none
      else pair (atoi major) (atoi minor)
]

-- The test of the versions in `Negotiate`.
abbrev pub compatible : Option (ℕ × ℕ) → Option (ℕ × ℕ) → Bool
compatible (some (min_major, min_minor)) (some (max_major, max_minor)) =
    min_major == 1 && max_major == 1 && leb min_minor 0 && leb min_minor max_minor
compatible _ _ = false

-- A capability that is offered is selected.
unfoldable pub selects : Negotiator → List String → String → Bool
selects n allowed c =
    has c allowed
    && has c n.available
    && not (
        is_yes (String_discrete c "config.apply.v1")
        && is_byod n.profile
        && not n.config_apply_proof)

-- The loop over the set of the offer, whose elements are each taken once.
unfoldable pub select : Negotiator → List String → List String → List String
unfolding selects
select n allowed [] = []
select n allowed (c ∷ cs) =
    let rest = select n allowed cs in
    if selects n allowed c && not (has c rest) then c ∷ rest else rest

-- The loop over `requiredCapabilities`.
abbrev pub has_required : Negotiator → List String → Bool
has_required n offered =
    (has "terminal.v1" offered && has "terminal.v1" n.available)
    && (has "health.v1" offered && has "health.v1" n.available)

-- The capabilities of the `Welcome`, whose version is always 1.0.
unfoldable pub negotiate : Negotiator → Bytes → Bytes → List String → Result Error (List String)
unfolding parse_version select
negotiate n min_version max_version offered =
    if not (compatible (parse_version min_version) (parse_version max_version))
    then err protocol_incompatible
    else elim (allowed_capabilities n.profile) [
      | none ↦ err protocol_incompatible
      | some allowed ↦
          if not (has_required n offered)
          then err capability_required
          else ok (select n allowed offered)
    ]
