-- ===== src/Protocol/Negotiation/Selection.antt =====
-- Which capabilities a negotiation selects.
use paperboat_helper.Base.{
  ◌≡◌, refl, ap, Bool, true, not, ◌&&◌, ◌||◌, Option-cases, inl, inr, if◌then◌else◌, some, List, [],
  ◌∷◌, String, String_discrete, string_key, has, is_yes, arith, ok, Bytes,
}
use paperboat_helper.Config.{Profile, hosted, byod, unknown}
use paperboat_helper.Protocol.Negotiation.{
  Negotiator, allowed_capabilities, selects, select, has_required, negotiate, is_byod,
}

-- One round of the loop.
has-round :
    (c x : String) (s t h : Bool) (rest : List String)
    → has c rest ≡ (t && h)
    → (x ≡ c → s ≡ t)
    → has c (if s && not (has x rest) then x ∷ rest else rest)
      ≡ (t && (is_yes (string_key.dec x c) || h))
has-round c x s t h rest ih same = elim (string_key.dec x c) [
  | yes e ↦ ground (arith, ih, same e, ap (λ z. has z rest) e)
  | no e ↦ ground (arith, ih)
]

has-select :
    (n : Negotiator) (allowed offered : List String) (c : String)
    → has c (select n allowed offered) ≡ (selects n allowed c && has c offered)
unfolding select
has-select n allowed [] c = ground arith
has-select n allowed (x ∷ xs) c =
    has-round c x (selects n allowed x) (selects n allowed c) (has c xs) (select n allowed xs)
      (has-select n allowed xs c) (λ e. ap (selects n allowed) e)

negotiated :
    (n : Negotiator) (min max : Bytes) (offered selected : List String)
    → negotiate n min max offered ≡ ok selected
    → (allowed : List String) × (allowed_capabilities n.profile ≡ some allowed)
      × (has_required n offered ≡ true)
      × (selected ≡ select n allowed offered)
unfolding negotiate
negotiated n min max offered selected h = elim (Option-cases (allowed_capabilities n.profile)) [
  | inl missing ↦ absurd (ground arith)
  | inr (allowed, found) ↦ (allowed, found, ground arith, ground arith)
]

required_allowed :
    (p : Profile) (allowed : List String)
    → allowed_capabilities p ≡ some allowed
    → (has "terminal.v1" allowed ≡ true) × (has "health.v1" allowed ≡ true)
unfolding String_discrete
required_allowed hosted allowed h = ground arith
required_allowed byod allowed h = ground arith
required_allowed (unknown s) allowed h = absurd (ground arith)

selects_lem :
    (n : Negotiator) (allowed : List String) (c : String)
    → selects n allowed c ≡ (
        has c allowed
        && has c n.available
        && not (
            is_yes (String_discrete c "config.apply.v1")
            && is_byod n.profile
            && not n.config_apply_proof))
unfolding selects
selects_lem n allowed c = refl

required_selects :
    (n : Negotiator) (allowed : List String)
    → (selects n allowed "terminal.v1"
        ≡ (has "terminal.v1" allowed && has "terminal.v1" n.available))
      × (selects n allowed "health.v1" ≡ (has "health.v1" allowed && has "health.v1" n.available))
unfolding selects String_discrete
required_selects n allowed = (ground arith, ground arith)

-- A negotiation that succeeds is one of a known profile, and selects a capability exactly if it is
-- offered, allowed to the profile and available, but for `config.apply.v1` of the profile byod
-- without its proof; `terminal.v1` and `health.v1` are always selected.
pub negotiate-has :
    (n : Negotiator) (min max : Bytes) (offered selected : List String) (c : String)
    → negotiate n min max offered ≡ ok selected
    → (allowed : List String) × (allowed_capabilities n.profile ≡ some allowed)
      × (has c selected ≡ (
          has c offered
          && has c allowed
          && has c n.available
          && not (
              is_yes (String_discrete c "config.apply.v1")
              && is_byod n.profile
              && not n.config_apply_proof)))
      × (has "terminal.v1" selected ≡ true)
      × (has "health.v1" selected ≡ true)
negotiate-has n min max offered selected c h =
    let (allowed, found, required, same) = negotiated n min max offered selected h in
    let (terminal, health) = required_allowed n.profile allowed found in
    let (terminal_selects, health_selects) = required_selects n allowed in
    (
      allowed,
      found,
      ground (arith, ap (has c) same, has-select n allowed offered c, selects_lem n allowed c),
      ground (
        arith,
        ap (has "terminal.v1") same,
        has-select n allowed offered "terminal.v1",
        terminal,
        terminal_selects,
        required,
      ),
      ground (
        arith,
        ap (has "health.v1") same,
        has-select n allowed offered "health.v1",
        health,
        health_selects,
        required,
      ),
    )
