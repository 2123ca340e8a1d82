-- ===== src/Cosign/Validated.antt =====
-- From the validation of a configuration to the arguments of the cosign command.
use ribat.Base.{
  ℕ, suc, Bool, true, false, not, List, [], ◌∷◌, ◌++◌, Text, codes, text_eq, is_empty, Result, ok,
  err, ◌>>=◌, ◌>>◌, guard, ◌≡◌, refl, Bool-cases, inl, inr, subst, sym,
}
use ribat.Image.{Reference}
use ribat.Policy.{Config, CosignPolicy, EffectivePolicy, Rule}
use ribat.Policy.Validate.{
  Setting, match_required, bad_version, validate_rule_action, validate_defaults, is_version_one,
  default_cosign, rule_cosign, validate_cosign_policy, effective_mode, key_mode, keyless_mode,
  validate_rule, validate_rules, validate, effective,
}
use ribat.Policy.Matcher.{first_match, effective_policy_for, match_pattern}
use ribat.Policy.Matcher.Rules.{apply_rule_lem}
use ribat.Cosign.{
  CosignError, digest_required, digest_reference, verify_mode, mode_args, cosign_verify_args,
}

err_not_ok : {E A : Type 0} {e : E} {a : A} → err e ≡ ok a → ⊥
err_not_ok h = cc

module _ (path : Setting) (issuer identity identity_regex : Text) where
  abbrev required_policy : Text → Text → CosignPolicy
  required_policy mode key = record {
    required = true;
    mode = mode;
    key = key;
    issuer = issuer;
    identity = identity;
    identity_regex = identity_regex;
  }

  set_mode_args :
      (m : ℕ) (ms key : Text) (is_key : Bool) (is_keyless : Bool)
      → text_eq (m ∷ ms) key_mode ≡ is_key
      → text_eq (m ∷ ms) keyless_mode ≡ is_keyless
      → validate_cosign_policy path (required_policy (m ∷ ms) key) ≡ ok tt
      → (args : List Text) × (mode_args (m ∷ ms) (required_policy (m ∷ ms) key) ≡ ok args)
  unfolding validate_cosign_policy effective_mode mode_args
  set_mode_args m ms [] true true k l h = absurd (err_not_ok (rw (k, l) at h))
  set_mode_args m ms [] true false k l h = absurd (err_not_ok (rw (k, l) at h))
  set_mode_args m ms (c ∷ key) true is_keyless k l h = rw k (_, refl)
  set_mode_args m ms key false true k l h = rw (k, l) (_, refl)
  set_mode_args m ms key false false k l h = absurd (err_not_ok (rw (k, l) at h))

  required_args :
      (mode key : Text)
      → validate_cosign_policy path (required_policy mode key) ≡ ok tt
      → (args : List Text) × (mode_args
            (verify_mode (required_policy mode key))
            (required_policy mode key)
          ≡ ok args)
  unfolding verify_mode effective_mode mode_args codes text_eq
  required_args [] [] h = (_, refl)
  required_args [] (c ∷ key) h = (_, refl)
  required_args (m ∷ ms) key h = set_mode_args m ms key _ _ refl refl h

built_args :
    (ref : Reference) (digest : Text) (m : Result CosignError (List Text)) (args : List Text)
    → is_empty digest ≡ false
    → m ≡ ok args
    → (x : List Text) × ((guard (not (is_empty digest)) digest_required
          >> (m >>= λ added. ok (codes "verify" ∷ (added ++ digest_reference ref digest ∷ []))))
        ≡ ok x)
built_args ref digest m args present e =
    (codes "verify" ∷ (args ++ digest_reference ref digest ∷ []), rw (present, e) refl)

-- Arguments for a policy that requires verification and is valid.
valid_args :
    (path : Setting) (ref : Reference) (digest : Text) (p : CosignPolicy)
    → validate_cosign_policy path p ≡ ok tt
    → p.required ≡ true
    → is_empty digest ≡ false
    → (args : List Text) × (cosign_verify_args ref digest p ≡ ok args)
unfolding cosign_verify_args mode_args verify_mode
valid_args path ref digest p valid required present =
    let same : validate_cosign_policy path (record p { required = true }) ≡ ok tt =
      subst (λ (b : Bool). validate_cosign_policy path (record p { required = b }) ≡ ok tt) required
        valid in
    let (args, e) = required_args path p.issuer p.identity p.identity_regex p.mode p.key same in
    built_args ref digest (mode_args (verify_mode p) p) args present e

both_ok : {E : Type 0} (m k : Result E (Unit {0})) → (m >> k) ≡ ok tt → (m ≡ ok tt) × (k ≡ ok tt)
both_ok (ok u) k h = (refl, h)
both_ok (err e) k h = absurd (err_not_ok h)

IsValid : CosignPolicy → Type 0
IsValid p = (path : Setting) × (validate_cosign_policy path p ≡ ok tt)

-- The policy of the first rule that matches has been validated, as each of them has.
first_match-IsValid :
    (ref : Reference) (p : EffectivePolicy) (i : ℕ) (rules : List Rule)
    → IsValid p.signatures.cosign
    → validate_rules p.signatures.cosign i rules ≡ ok tt
    → IsValid (first_match p rules ref).policy.signatures.cosign
unfolding first_match validate_rules validate_rule IsValid
first_match-IsValid ref p i [] base h = base
first_match-IsValid ref p i (r ∷ rules) base h =
    let base_policy = p.signatures.cosign in
    let cosign =
      validate_cosign_policy (rule_cosign i) (effective r.signatures.cosign base_policy) in
    let action = validate_rule_action i r.mutable_tags.action in
    let (here, later) =
      both_ok (validate_rule base_policy i r) (validate_rules base_policy (suc i) rules) h in
    let parts =
      both_ok (guard (not (is_empty r.match)) (match_required i)) (action >> cosign) here in
    let valid = (both_ok action cosign parts.1).1 in
    elim (Bool-cases (match_pattern r.match ref)) [
      | inl hit ↦ rw hit (
        rule_cosign i,
        subst (λ q. validate_cosign_policy (rule_cosign i) q ≡ ok tt) (sym (apply_rule_lem p r).0)
            valid,
      )
      | inr miss ↦ rw miss (first_match-IsValid ref p (suc i) rules base later)
    ]

validate-IsValid :
    (c : Config) (ref : Reference)
    → validate c ≡ ok tt
    → IsValid (effective_policy_for c ref).policy.signatures.cosign
unfolding validate effective_policy_for IsValid
validate-IsValid c ref h =
    let base_policy = c.default_policy.signatures.cosign in
    let on_rules = validate_rules base_policy 0 c.rules in
    let on_base = validate_cosign_policy default_cosign base_policy in
    let on_defaults = validate_defaults c.default_policy in
    let rest =
      both_ok (guard (is_version_one c.version) (bad_version c.version))
        (on_defaults >> (on_rules >> on_base)) h in
    let (rules, base) =
      both_ok on_rules on_base (both_ok on_defaults (on_rules >> on_base) rest.1).1 in
    first_match-IsValid ref c.default_policy 0 c.rules (default_cosign, base) rules

-- If a configuration passes validation and the policy that applies to a reference requires cosign,
-- then for every digest that is not empty CosignVerifyArgs gives arguments and no error, whichever
-- rule the policy comes from.
pub validate-cosign_verify_args :
    (c : Config) (ref : Reference) (digest : Text)
    → validate c ≡ ok tt
    → (effective_policy_for c ref).policy.signatures.cosign.required ≡ true
    → is_empty digest ≡ false
    → (args : List Text) × (cosign_verify_args ref digest
          (effective_policy_for c ref).policy.signatures.cosign
        ≡ ok args)
unfolding IsValid
validate-cosign_verify_args c ref digest h required present =
    let (path, valid) = validate-IsValid c ref h in
    valid_args path ref digest (effective_policy_for c ref).policy.signatures.cosign valid required
      present
