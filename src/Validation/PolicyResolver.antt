-- ===== src/Validation/PolicyResolver.antt =====
-- src/lib/core/validation/PolicyResolver.cpp. `join dir name` is `u8path(dir) / name` as a UTF-8
-- string; it depends on the platform's separator, so it is a parameter.
pub mod Laws
use tamga.Prelude.{Bool, true, false, not, String, is_empty, if◌then◌else◌, ◌||◌}
use tamga.Validation.Types.{
  ValidationProfile, strict, compatibility, ukraine_legal, offline, unlisted, ValidationLevel,
  basic, standard, extended, unlisted_below, unlisted_above, TrustAnchorPolicy, ValidationContext,
  ValidationPolicy, ValidationPlan, ResolvedValidationPolicy, default_policy, default_plan,
}

unfoldable pub is_known_profile : ValidationProfile → Bool
is_known_profile unlisted = false
is_known_profile _ = true

unfoldable pub is_known_level : ValidationLevel → Bool
is_known_level unlisted_below = false
is_known_level unlisted_above = false
is_known_level _ = true

unfoldable pub is_standard_or_higher : ValidationLevel → Bool
is_standard_or_higher standard = true
is_standard_or_higher extended = true
is_standard_or_higher ValidationLevel.forensic = true
is_standard_or_higher _ = false

unfoldable pub is_extended_or_higher : ValidationLevel → Bool
is_extended_or_higher extended = true
is_extended_or_higher ValidationLevel.forensic = true
is_extended_or_higher _ = false

module _ (join : String → String → String) where
  unfoldable pub resolve_work_dir_paths : String → ValidationPlan → ValidationPlan
  resolve_work_dir_paths work_dir plan = if is_empty work_dir then plan else record plan {
    trust_store_path = join work_dir "trust-store";
    historical_trust_store_path = join work_dir "historical-trust-store";
  }

-- The `switch` on the profile, with `network_allowed` already set to `!offline`.
unfoldable pub apply_profile :
    ValidationProfile → ValidationLevel → ValidationPlan → ResolvedValidationPolicy
unfolding is_standard_or_higher is_extended_or_higher
apply_profile strict level plan = record {
  policy = record default_policy {
    trust_anchor_policy = TrustAnchorPolicy.current_tl_only;
    revocation_hard_fail = is_standard_or_higher level;
  };
  plan = plan;
}
apply_profile compatibility level plan = record {
  policy = record default_policy {
    trust_anchor_policy = TrustAnchorPolicy.explicit_legacy_anchor_bundle;
    allow_historical_trust = true;
    revocation_hard_fail = is_extended_or_higher level;
  };
  plan = plan;
}
apply_profile ukraine_legal level plan = record {
  policy = record default_policy {
    trust_anchor_policy = TrustAnchorPolicy.historical_at_signing_time;
    allow_historical_trust = true;
    revocation_hard_fail = is_standard_or_higher level;
    require_trusted_signing_time = is_extended_or_higher level;
    require_service_level_trust = is_extended_or_higher level;
  };
  plan = plan;
}
apply_profile offline level plan = record {
  policy = record default_policy {
    trust_anchor_policy = TrustAnchorPolicy.custom_trust_store;
    revocation_hard_fail = is_standard_or_higher level;
  };
  plan = record plan { network_allowed = false };
}
apply_profile ValidationProfile.forensic level plan = record {
  policy = record default_policy {
    trust_anchor_policy = TrustAnchorPolicy.forensic_all_possible;
    revocation_hard_fail = is_standard_or_higher level;
    forensic_diagnostics = true;
  };
  plan = plan;
}
apply_profile unlisted level plan = record { policy = default_policy; plan = plan }

module _ (join : String → String → String) where
  unfoldable pub resolve : ValidationContext → ResolvedValidationPolicy
  unfolding is_known_profile is_known_level resolve_work_dir_paths apply_profile
  resolve context =
      let plan = resolve_work_dir_paths join context.work_dir default_plan in
      if not (is_known_profile context.profile) || not (is_known_level context.level)
      then record {
        policy = record default_policy { revocation_hard_fail = true };
        plan = record plan { network_allowed = false };
      }
      else apply_profile context.profile context.level
          (record plan { network_allowed = not context.offline })
