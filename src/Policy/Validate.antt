-- ===== src/Policy/Validate.antt =====
-- internal/policy/config.go: the validation of a configuration that has been read.
use ribat.Base.{
  ℕ, suc, Bool, false, not, ◌&&◌, ◌||◌, List, [], ◌∷◌, Option, none, some, ◌==◌, if◌then◌else◌, any,
  ℤ, pos, Text, codes, text_eq, is_empty, Result, ok, err, ◌>>◌, guard,
}
use ribat.Policy.{
  action_allow, action_deny, action_quarantine, Config, CosignPolicy, RuleCosignPolicy, Rule,
  EffectivePolicy,
}

-- The setting that an error names, by its path in the file; rules are counted from 0.
pub data Setting : Type 0 where
  default_mutable_action default_pinned_action default_registry_action : Setting
  default_signature_action default_cosign : Setting
  rule_mutable_action rule_cosign : ℕ → Setting

pub data ConfigError : Type 0 where
  bad_version : ℤ → ConfigError
  min_age_required : ConfigError
  match_required : ℕ → ConfigError
  action_required : Setting → ConfigError
  unsupported_action : Setting → Text → ConfigError
  unsupported_mode : Setting → Text → ConfigError
  key_required : Setting → ConfigError
  identity_required : Setting → ConfigError
  identity_exclusive : Setting → ConfigError

unfoldable pub validate_action : Setting → Text → List Text → Result ConfigError (Unit {0})
validate_action path got allowed =
    if is_empty got
    then err (action_required path)
    else guard (any (text_eq got) allowed) (unsupported_action path got)

abbrev pub key_mode : Text
key_mode = codes "key"

abbrev pub keyless_mode : Text
keyless_mode = codes "keyless"

-- `mode == "" && p.Key != ""` makes the mode "key".
unfoldable pub effective_mode : CosignPolicy → Text
effective_mode p = if is_empty p.mode && not (is_empty p.key) then key_mode else p.mode

-- The identity of keyless verification: one of the two and not both.
pub validate_keyless : Setting → CosignPolicy → Result ConfigError (Unit {0})
validate_keyless path p = do
  guard (not (is_empty p.identity && is_empty p.identity_regex)) (identity_required path)
  guard (not (not (is_empty p.identity) && not (is_empty p.identity_regex)))
      (identity_exclusive path)

unfoldable pub validate_cosign_policy : Setting → CosignPolicy → Result ConfigError (Unit {0})
unfolding effective_mode validate_keyless
validate_cosign_policy path p = do
  guard (is_empty p.mode || text_eq p.mode keyless_mode || text_eq p.mode key_mode)
      (unsupported_mode path p.mode)
  let mode = effective_mode p
  if not p.required then ok tt else do
    guard (not (text_eq mode key_mode && is_empty p.key)) (key_required path)
    if text_eq mode keyless_mode || is_empty mode then validate_keyless path p else ok tt

abbrev pub or_base {ℓ} : {A : Type ℓ} → Option A → A → A
or_base none base = base
or_base (some a) base = a

-- The method `effective` of `RuleCosignPolicy`.
unfoldable pub effective : RuleCosignPolicy → CosignPolicy → CosignPolicy
effective p base = record {
  required = or_base p.required base.required;
  mode = or_base p.mode base.mode;
  key = or_base p.key base.key;
  issuer = or_base p.issuer base.issuer;
  identity = or_base p.identity base.identity;
  identity_regex = or_base p.identity_regex base.identity_regex;
}

abbrev pub mutable_actions : List Text
mutable_actions = action_quarantine ∷ action_allow ∷ action_deny ∷ []

abbrev pub pinned_actions : List Text
pinned_actions = action_allow ∷ action_deny ∷ []

pub validate_rule_action : ℕ → Option Text → Result ConfigError (Unit {0})
validate_rule_action i none = ok tt
validate_rule_action i (some action) =
    validate_action (rule_mutable_action i) action mutable_actions

-- One round of the loop over the rules.
unfoldable pub validate_rule : CosignPolicy → ℕ → Rule → Result ConfigError (Unit {0})
unfolding validate_rule_action
validate_rule base i rule = do
  guard (not (is_empty rule.match)) (match_required i)
  validate_rule_action i rule.mutable_tags.action
  validate_cosign_policy (rule_cosign i) (effective rule.signatures.cosign base)

unfoldable pub validate_rules : CosignPolicy → ℕ → List Rule → Result ConfigError (Unit {0})
validate_rules base i [] = ok tt
validate_rules base i (rule ∷ rules) =
    let rest = validate_rules base (suc i) rules in do validate_rule base i rule; rest

unfoldable pub is_version_one : ℤ → Bool
is_version_one (pos n) = n == 1
is_version_one (ℤ.negsuc n) = false

unfoldable pub is_zero : ℤ → Bool
is_zero (pos n) = n == 0
is_zero (ℤ.negsuc n) = false

unfoldable pub validate_defaults : EffectivePolicy → Result ConfigError (Unit {0})
validate_defaults p = do
  validate_action default_mutable_action p.mutable_tags.action mutable_actions
  guard
      (not
        (is_zero p.mutable_tags.min_digest_age && text_eq p.mutable_tags.action action_quarantine))
      min_age_required
  validate_action default_pinned_action p.digest_pinned_images.action pinned_actions
  validate_action default_registry_action p.failed_registry_resolution.action pinned_actions
  validate_action default_signature_action p.failed_signature_check.action pinned_actions

unfoldable pub validate : Config → Result ConfigError (Unit {0})
unfolding is_version_one validate_defaults validate_rules
validate c = do
  guard (is_version_one c.version) (bad_version c.version)
  validate_defaults c.default_policy
  validate_rules c.default_policy.signatures.cosign 0 c.rules
  validate_cosign_policy default_cosign c.default_policy.signatures.cosign
