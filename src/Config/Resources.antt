-- ===== src/Config/Resources.antt =====
-- The components that take their bounds from a valid configuration are made.
use paperboat_helper.Base.{
  ℕ, zero, suc, ◌≡◌, ◌≤◌, refl, ◌⊎◌, inl, inr, true, some, [], ok, ℤ, pos, negsuc, arith,
}
use paperboat_helper.Config.{
  Config, ResourceLimits, validate, valid_resources, is_unset, is_zero, between,
}
use paperboat_helper.Preview.Registry.{Registry}
use paperboat_helper.Preview.Registry

-- The settings of the registry of previews.
abbrev pub preview_config : ResourceLimits → Registry.Config
preview_config r = record {
  has_prober = true;
  probe_timeout = pos 0;
  max_targets = r.max_preview_targets;
  max_concurrent_probes = r.max_concurrent_probes;
}

setting_valid :
    (default high : ℕ) (x : ℤ)
    → between high x ≡ true
    → (n : ℕ) × (Registry.setting default x ≡ some n) × (n ≤ high)
setting_valid default high (pos zero) h = absurd (ground arith)
setting_valid default high (pos (suc n)) h = (suc n, refl, ground arith)
setting_valid default high (negsuc n) h = absurd (ground arith)

setting_unset :
    (x : ℤ) (default : ℕ) → is_zero x ≡ true → Registry.setting (suc default) x ≡ some (suc default)
setting_unset (pos zero) default h = ground arith
setting_unset (pos (suc n)) default h = absurd (cc h)
setting_unset (negsuc n) default h = absurd (cc h)

-- A registry of previews with two settings.
made :
    (r : ResourceLimits) (targets probes : ℕ)
    → Registry.setting 20 r.max_preview_targets ≡ some targets
    → Registry.setting 8 r.max_concurrent_probes ≡ some probes
    → targets ≤ 20
    → probes ≤ 64
    → (x : Registry) × (Registry.new 20 8 (preview_config r) ≡ ok x)
      × (x.max_targets ≤ 20)
      × (x.max_probes ≤ 64)
unfolding Registry.new
made r targets probes t p le_t le_p = (
  record { max_targets = targets; max_probes = probes; slots = 0; records = []; logical = [] },
  ground (arith, t, p),
  le_t,
  le_p,
)

valid_tests :
    (c : Config)
    → validate c ≡ ok tt
    → (is_unset c.resources ≡ true) ⊎ (valid_resources c.resources ≡ true)
unfolding validate
valid_tests c h = ground arith

valid_previews :
    (r : ResourceLimits)
    → valid_resources r ≡ true
    → (between 20 r.max_preview_targets ≡ true) × (between 64 r.max_concurrent_probes ≡ true)
unfolding valid_resources
valid_previews r h = ground arith

-- With the resources of a configuration that `Validate` accepts, and the defaults 20 and 8 of the
-- configuration, the registry of previews is made, and is bounded by at most 20 previews and 64
-- probes.
pub validate-previews :
    (c : Config)
    → validate c ≡ ok tt
    → (x : Registry) × (Registry.new 20 8 (preview_config c.resources) ≡ ok x)
      × (x.max_targets ≤ 20)
      × (x.max_probes ≤ 64)
validate-previews c h = elim (valid_tests c h) [
  | inl unset ↦
      made c.resources 20 8 (setting_unset c.resources.max_preview_targets 19 (ground arith))
        (setting_unset c.resources.max_concurrent_probes 7 (ground arith)) (omega arith)
        (omega arith)
  | inr valid ↦
      let (t, p) = valid_previews c.resources valid in
      let (targets, set_t, le_t) = setting_valid 20 20 c.resources.max_preview_targets t in
      let (probes, set_p, le_p) = setting_valid 8 64 c.resources.max_concurrent_probes p in
      made c.resources targets probes set_t set_p le_t le_p
]
