-- ===== src/Policy/Matcher.antt =====
-- internal/policy/matcher.go: the first rule that matches a reference overrides the default policy.
pub mod Wildcard
pub mod Rules
use ribat.Base.{
  ℕ, Bool, true, false, not, ◌&&◌, ◌||◌, List, [], ◌∷◌, ◌++◌, Option, none, some, ◌==◌,
  if◌then◌else◌, Text, codes, text_eq, is_empty, contains, cut,
}
use ribat.Regex.{Regex, eps, set, seq, star, char, match_string}
use ribat.Image.{Reference}
use ribat.Policy.{
  EffectivePolicy, MutableTagPolicy, CosignPolicy, RuleMutableTagPolicy, RuleCosignPolicy, Rule,
  Config,
}
use ribat.Policy.Validate.{or_base}

pub record MatchResult : Type 0 where
  pub policy : EffectivePolicy
  pub matched_rule : Text

-- `.`, which matches every character but a newline.
abbrev pub dot : Regex
dot = set ((0, 9) ∷ (11, 0x10ffff) ∷ [])

-- The text that `wildcardMatch` builds, as the expression that `regexp.Compile` reads in it: each
-- character but `*` is quoted, so the compilation cannot fail.
unfoldable pub wildcard_regex : Text → Regex
wildcard_regex [] = eps
wildcard_regex (c ∷ pattern) = seq (if c == b'*' then star dot else char c) (wildcard_regex pattern)

unfoldable pub wildcard_match : Text → Text → Bool
wildcard_match pattern value = match_string (wildcard_regex pattern) value

-- What `strings.Cut` leaves behind the first colon, or nothing.
pub after_colon : Text → Text
after_colon pattern = elim (cut b':' pattern) [ none ↦ [] | some (before, after) ↦ after ]

unfoldable pub match_pattern : Text → Reference → Bool
unfolding after_colon
match_pattern pattern ref =
    let target =
      if ref.is_digest_pinned && is_empty ref.tag
      then ref.registry ++ (b'/' ∷ ref.repository)
      else ref.canonical_ref in
    if text_eq pattern (codes "*")
    then true
    else if not (contains pattern (codes "/")) && contains pattern (codes ":")
    then wildcard_match (after_colon pattern) ref.tag
    else wildcard_match pattern target

apply_mutable : MutableTagPolicy → RuleMutableTagPolicy → MutableTagPolicy
apply_mutable p r = record {
  action = or_base r.action p.action;
  min_digest_age = or_base r.min_digest_age p.min_digest_age;
  allow_first_seen_pull = or_base r.allow_first_seen_pull p.allow_first_seen_pull;
}

apply_cosign : CosignPolicy → RuleCosignPolicy → CosignPolicy
apply_cosign p r = record {
  required = or_base r.required p.required;
  mode = or_base r.mode p.mode;
  key = or_base r.key p.key;
  issuer = or_base r.issuer p.issuer;
  identity = or_base r.identity p.identity;
  identity_regex = or_base r.identity_regex p.identity_regex;
}

unfoldable pub apply_rule : EffectivePolicy → Rule → EffectivePolicy
unfolding apply_mutable apply_cosign
apply_rule p rule = record p {
  mutable_tags = apply_mutable p.mutable_tags rule.mutable_tags;
  signatures = record { cosign = apply_cosign p.signatures.cosign rule.signatures.cosign };
}

-- The loop over the rules, which stops at the first that matches.
unfoldable pub first_match : EffectivePolicy → List Rule → Reference → MatchResult
first_match p [] ref = record { policy = p; matched_rule = codes "default_policy" }
first_match p (rule ∷ rules) ref =
    if match_pattern rule.match ref
    then record { policy = apply_rule p rule; matched_rule = rule.match }
    else first_match p rules ref

unfoldable pub effective_policy_for : Config → Reference → MatchResult
unfolding first_match
effective_policy_for c ref = first_match c.default_policy c.rules ref
