-- ===== src/Config/Tests.antt =====
-- A concrete configuration.
use paperboat_helper.Base.{◌≡◌, refl, [], ◌∷◌, ok, pos}
use paperboat_helper.Config.{Config, byod, default_limits, default_resources, validate}

-- The state lies in "/s", and two previews are allowed.
abbrev settings : Config
settings = record {
  profile = byod;
  state_root = 47 ∷ 115 ∷ [];
  version = 49 ∷ [];
  limits = default_limits;
  resources = record default_resources { max_preview_targets = pos 2 };
}

settings_valid : validate settings ≡ ok tt
unfolding validate
settings_valid = refl
