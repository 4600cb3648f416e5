-- ===== src/Validation/PolicyResolver/Laws.antt =====
-- What a resolved policy promises, for every profile and level.
use tamga.Prelude.{true, false, String, ◌≡◌, ◌↔◌, ◌⊎◌, ◌≢◌, arith}
use tamga.Validation.Types.{ValidationProfile, TrustAnchorPolicy, ValidationContext}
use tamga.Validation.PolicyResolver.{resolve, is_known_profile, is_known_level}

module _ (join : String → String → String) where
  -- The network is allowed exactly when the caller is online, profile and level are listed
  -- enumerators and the profile is not `Offline`.
  pub resolve-network_allowed :
      (c : ValidationContext)
      → ((resolve join c).plan.network_allowed ≡ true) ↔ (
          (c.offline ≡ false)
          × (is_known_profile c.profile ≡ true)
          × (is_known_level c.level ≡ true)
          × (c.profile ≢ ValidationProfile.offline))
  unfolding resolve
  resolve-network_allowed c = ground arith

  -- Historical trust is allowed exactly under the profiles `Compatibility` and `UkraineLegal` at a
  -- listed level, and then the anchor policy is one of the two that consult historical anchors.
  pub resolve-allow_historical_trust :
      (c : ValidationContext)
      → ((resolve join c).policy.allow_historical_trust ≡ true) ↔ (
          (is_known_level c.level ≡ true)
          × (((c.profile ≡ ValidationProfile.compatibility)
                × ((resolve join c).policy.trust_anchor_policy
                    ≡ TrustAnchorPolicy.explicit_legacy_anchor_bundle))
              ⊎ ((c.profile ≡ ValidationProfile.ukraine_legal)
                  × ((resolve join c).policy.trust_anchor_policy
                      ≡ TrustAnchorPolicy.historical_at_signing_time))))
  unfolding resolve
  resolve-allow_historical_trust c = ground arith
