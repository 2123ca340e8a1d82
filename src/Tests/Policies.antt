-- ===== src/Tests/Policies.antt =====
-- The policy theorems at concrete inputs.
use ribat.Base.{
  is_empty, List, Text, ◌*◌, ℤ, pos, true, false, [], ◌∷◌, ◌++◌, none, some, codes, ok, ◌≡◌, ◌↔◌,
  ◌≤◌, ◌<ℤ◌, refl, arith, text_eq,
}
use ribat.Policy.{Rule, zero_rule, Config}
use ribat.Policy.Duration.{atoi, parse_duration, day}
use ribat.Policy.Duration.Bounds.{parse_duration_exact_iff, parse_duration_wraps}
use ribat.Policy.Matcher.{wildcard_match, first_match, effective_policy_for}
use ribat.Policy.Validate.{
  validate, validate_action, validate_cosign_policy, effective_mode, is_version_one, is_zero,
  validate_defaults, validate_rules,
}
use ribat.Cosign.{cosign_verify_args}
use ribat.Cosign.Validated.{validate-cosign_verify_args}
use ribat.Policy.Matcher.Wildcard.{Wildcard, wildcard_match_iff}
use ribat.Tests.{hour, day_config, day_policy, nginx}

wildcard_match_iff_example :
    (wildcard_match (codes "docker.io/*:latest") (codes "docker.io/library/nginx:latest") ≡ true)
    ↔ Wildcard (codes "docker.io/*:latest") (codes "docker.io/library/nginx:latest")
wildcard_match_iff_example =
    wildcard_match_iff (codes "docker.io/*:latest") (codes "docker.io/library/nginx:latest")

reads_thirty : atoi (codes "30") ≡ some (pos 30)
unfolding atoi codes
reads_thirty = refl

reads_many : atoi (codes "106752") ≡ some (pos 106752)
unfolding atoi codes
reads_many = refl

parse_duration_exact_iff_example :
    (parse_duration (λ s. none) (codes "30" ++ b'd' ∷ []) ≡ ok (pos (30 * day))) ↔ (30 ≤ 106751)
parse_duration_exact_iff_example = parse_duration_exact_iff (λ s. none) (codes "30") 30 reads_thirty

parse_duration_wraps_example :
    (d : ℤ) × (parse_duration (λ s. none) (codes "106752" ++ b'd' ∷ []) ≡ ok d) × (d <ℤ pos 0)
parse_duration_wraps_example =
    parse_duration_wraps (λ s. none) (codes "106752") 106752 reads_many (omega arith) (omega arith)

abbrev alpine_rule : Rule
alpine_rule = record zero_rule { match = codes "docker.io/library/alpine:*" }

abbrev nginx_rule : Rule
nginx_rule = record zero_rule {
  match = codes "docker.io/library/nginx:*";
  mutable_tags = record zero_rule.mutable_tags { min_digest_age = some (pos (48 * hour)) };
}

abbrev two_rules : Config
two_rules = record day_config { rules = alpine_rule ∷ nginx_rule ∷ [] }

abbrev keyed_config : Config
keyed_config = record day_config {
  default_policy = record day_policy {
    signatures = record {
      cosign = record {
        required = true;
        mode = [];
        key = codes "cosign.pub";
        issuer = [];
        identity = [];
        identity_regex = [];
      };
    };
  };
}

keyed_validates : validate keyed_config ≡ ok tt
unfolding validate validate_action validate_cosign_policy effective_mode codes text_eq
    is_version_one is_zero validate_defaults validate_rules
keyed_validates = refl

keyed_requires : (effective_policy_for keyed_config nginx).policy.signatures.cosign.required ≡ true
unfolding effective_policy_for first_match
keyed_requires = refl

digest_present : is_empty (codes "sha256:ab") ≡ false
unfolding codes
digest_present = refl

validate-cosign_verify_args_example :
    (args : List Text) × (cosign_verify_args nginx
        (codes "sha256:ab")
        (effective_policy_for keyed_config nginx).policy.signatures.cosign
      ≡ ok args)
validate-cosign_verify_args_example =
    validate-cosign_verify_args keyed_config nginx (codes "sha256:ab") keyed_validates
      keyed_requires digest_present
