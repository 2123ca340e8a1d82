-- ===== src/Tests/Files.antt =====
-- A policy file that requires a key for every image.
use ribat.Base.{
  ℤ, pos, true, false, List, [], ◌∷◌, Option, none, Text, codes, text_eq, is_empty, some,
  has_prefix, trim_space, cut, ok, err, ◌≡◌, ◌≢◌, refl, keep, drop,
}
use ribat.Policy.{Config, zero_rule}
use ribat.Policy.Duration.{atoi, split_last}
use ribat.Policy.Validate.{
  validate, validate_action, validate_cosign_policy, effective_mode, is_version_one, is_zero,
  validate_defaults, validate_rules,
}
use ribat.Policy.Matcher.{effective_policy_for, first_match}
use ribat.Policy.Reader.{
  LoadError, strip_comment, leading_spaces, parse_scalar, parse_bool, split_yaml_key_value,
}
use ribat.Policy.Reader.Parser.Sections.{in_rule_of}
use ribat.Policy.Reader.Parser.{Parser, load, path_at, path_above}
use ribat.Policy.Reader.Parser.Indexes.{load_never_panics}
use ribat.Policy.Reader.Values.{set_mutable_tag_value, set_cosign_value}
use ribat.Cosign.{cosign_verify_args}
use ribat.Cosign.Loaded.{load-cosign_verify_args}
use ribat.Tests.{day_policy, day_config, nginx}

abbrev sample_lines : List Text
sample_lines =
    codes "version: 1 # the only one"
    ∷ codes "default_policy:"
    ∷ codes "  mutable_tags:"
    ∷ codes "    action: deny"
    ∷ codes "  digest_pinned_images:"
    ∷ codes "    action: allow"
    ∷ codes "  failed_registry_resolution:"
    ∷ codes "    action: deny"
    ∷ codes "  failed_signature_check:"
    ∷ codes "    action: deny"
    ∷ codes "  signatures:"
    ∷ codes "    cosign:"
    ∷ codes "      required: true"
    ∷ codes "      key: \"cosign.pub\""
    ∷ []

abbrev no_units : Text → Option ℤ
no_units s = none

abbrev loaded_config : Config
loaded_config = record day_config {
  default_policy = record day_policy {
    mutable_tags = record {
      action = codes "deny";
      min_digest_age = pos 0;
      allow_first_seen_pull = false;
    };
    signatures = record {
      cosign = record {
        required = true;
        mode = [];
        key = codes "cosign.pub";
        issuer = [];
        identity = [];
        identity_regex = [];
      };
    };
  };
}

sample_loads : load no_units sample_lines none ≡ ok loaded_config
unfolding load trim_space strip_comment codes has_prefix split_yaml_key_value cut leading_spaces
    text_eq atoi parse_scalar keep set_mutable_tag_value set_cosign_value parse_bool validate
    validate_action validate_cosign_policy effective_mode drop is_version_one is_zero
    validate_defaults validate_rules path_at path_above split_last
sample_loads = refl

sample_requires :
    (effective_policy_for loaded_config nginx).policy.signatures.cosign.required ≡ true
unfolding effective_policy_for first_match
sample_requires = refl

digest_present : is_empty (codes "sha256:ab") ≡ false
unfolding codes
digest_present = refl

load-cosign_verify_args_example :
    (args : List Text) × (cosign_verify_args nginx
        (codes "sha256:ab")
        (effective_policy_for loaded_config nginx).policy.signatures.cosign
      ≡ ok args)
load-cosign_verify_args_example =
    load-cosign_verify_args no_units sample_lines none loaded_config nginx (codes "sha256:ab")
      sample_loads sample_requires digest_present

load_never_panics_example : load no_units sample_lines none ≢ err LoadError.index_panic
load_never_panics_example = load_never_panics no_units sample_lines none

-- A section for the default policy that stands behind a rule.
abbrev late_action : Parser
late_action =
    in_rule_of no_units 9 (record loaded_config { rules = zero_rule ∷ [] })
      ((2, codes "mutable_tags") ∷ (0, codes "default_policy") ∷ []) 0

abbrev late_parser : Parser
late_parser = record late_action {
  config = record loaded_config {
    rules =
        record zero_rule {
          mutable_tags = record zero_rule.mutable_tags { action = some (codes "allow") };
        }
        ∷ [];
  };
}
