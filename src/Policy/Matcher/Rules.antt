-- ===== src/Policy/Matcher/Rules.antt =====
-- Which policy applies to a reference.
use ribat.Base.{
  true, false, not, ◌&&◌, List, [], ◌∷◌, ◌++◌, Option, none, some, if◌then◌else◌, ◌≡◌, refl, Text,
  codes, is_empty, contains,
}
use ribat.Image.{Reference}
use ribat.Policy.{EffectivePolicy, Rule}
use ribat.Policy.Validate.{effective}
use ribat.Policy.Matcher.{MatchResult, after_colon, apply_rule}
use ribat.Policy.Matcher.Wildcard.{Wildcard}

-- A rule can change neither what is done with digest-pinned images nor with failed resolutions, and
-- the cosign policy that it gives is the one that the validation has checked.
pub apply_rule_lem :
    (p : EffectivePolicy) (rule : Rule)
    → ((apply_rule p rule).signatures.cosign ≡ effective rule.signatures.cosign p.signatures.cosign)
      × ((apply_rule p rule).digest_pinned_images ≡ p.digest_pinned_images)
      × ((apply_rule p rule).failed_registry_resolution ≡ p.failed_registry_resolution)
      × ((apply_rule p rule).failed_signature_check ≡ p.failed_signature_check)
unfolding apply_rule effective
apply_rule_lem p rule = (refl, refl, refl, refl)

-- The value of a field: that of the rule, or the one below where the rule has none.
pub data Overridden {A : Type 0} (base : A) : Option A → A → Type 0 where
  inherited : Overridden base none base
  given : (x : A) → Overridden base (some x) x

-- A policy with the overrides of a rule, field by field.
pub record Applied (base : EffectivePolicy) (rule : Rule) (p : EffectivePolicy) : Type 0 where
  pub action : Overridden base.mutable_tags.action rule.mutable_tags.action p.mutable_tags.action
  pub min_digest_age :
      Overridden base.mutable_tags.min_digest_age rule.mutable_tags.min_digest_age
        p.mutable_tags.min_digest_age
  pub allow_first_seen_pull :
      Overridden base.mutable_tags.allow_first_seen_pull rule.mutable_tags.allow_first_seen_pull
        p.mutable_tags.allow_first_seen_pull
  pub required :
      Overridden base.signatures.cosign.required rule.signatures.cosign.required
        p.signatures.cosign.required
  pub mode :
      Overridden base.signatures.cosign.mode rule.signatures.cosign.mode p.signatures.cosign.mode
  pub key : Overridden base.signatures.cosign.key rule.signatures.cosign.key p.signatures.cosign.key
  pub issuer :
      Overridden base.signatures.cosign.issuer rule.signatures.cosign.issuer
        p.signatures.cosign.issuer
  pub identity :
      Overridden base.signatures.cosign.identity rule.signatures.cosign.identity
        p.signatures.cosign.identity
  pub identity_regex :
      Overridden base.signatures.cosign.identity_regex rule.signatures.cosign.identity_regex
        p.signatures.cosign.identity_regex
  pub digest_pinned_images : p.digest_pinned_images ≡ base.digest_pinned_images
  pub failed_registry_resolution : p.failed_registry_resolution ≡ base.failed_registry_resolution
  pub failed_signature_check : p.failed_signature_check ≡ base.failed_signature_check

-- What a pattern is compared with when it names more than a tag.
pub place : Reference → Text
place ref =
    if ref.is_digest_pinned && is_empty ref.tag
    then ref.registry ++ (b'/' ∷ ref.repository)
    else ref.canonical_ref

-- The references that a pattern names: all, those with some tag, or those at some place.
pub data Matches (ref : Reference) (pattern : Text) : Type 0 where
  everything : pattern ≡ codes "*" → Matches ref pattern
  by_tag :
      contains pattern (codes "/") ≡ false
      → contains pattern (codes ":") ≡ true
      → Wildcard (after_colon pattern) ref.tag
      → Matches ref pattern
  by_place :
      (not (contains pattern (codes "/")) && contains pattern (codes ":")) ≡ false
      → Wildcard pattern (place ref)
      → Matches ref pattern

-- The result for a list of rules: the first that names the reference counts, and no other.
pub data Selects (base : EffectivePolicy) (ref : Reference) : List Rule → MatchResult → Type 0 where
  no_rule : Selects base ref [] (record { policy = base; matched_rule = codes "default_policy" })
  this_rule :
      {rule : Rule} {rules : List Rule} {p : EffectivePolicy}
      → Matches ref rule.match
      → Applied base rule p
      → Selects base ref (rule ∷ rules) (record { policy = p; matched_rule = rule.match })
  later_rule :
      {rule : Rule} {rules : List Rule} {r : MatchResult}
      → ¬ Matches ref rule.match
      → Selects base ref rules r
      → Selects base ref (rule ∷ rules) r
