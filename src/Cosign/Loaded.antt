-- ===== src/Cosign/Loaded.antt =====
-- From the lines of a policy file to the arguments of the cosign command.
use ribat.Base.{
  ℤ, true, false, List, Option, none, some, Text, is_empty, Result, ok, err, >>=-eq-ok, ◌≡◌, refl,
  ap, sym, ◌∙◌,
}
use ribat.Image.{Reference}
use ribat.Policy.{Config}
use ribat.Policy.Validate.{ConfigError, validate}
use ribat.Policy.Matcher.{effective_policy_for}
use ribat.Policy.Reader.Parser.{Parser, new_parser, parse_lines, validated, checked, load}
use ribat.Cosign.{cosign_verify_args}
use ribat.Cosign.Validated.{validate-cosign_verify_args}

module _ (std_parse : Text → Option ℤ) where
  validated_ok :
      (c d : Config) (r : Result ConfigError (Unit {0}))
      → validated std_parse c r ≡ ok d
      → (r ≡ ok tt) × (c ≡ d)
  unfolding validated
  validated_ok c d (ok x) h = (refl, cc h)
  validated_ok c d (err e) h = cc

  checked_ok :
      (broken : Option Text) (p : Parser) (d : Config)
      → checked std_parse broken p ≡ ok d
      → validate d ≡ ok tt
  unfolding checked
  checked_ok (some m) p d h = cc
  checked_ok none p d h =
      let (valid, same) = validated_ok p.config d (validate p.config) h in
      ap validate (sym same) ∙ valid

  load_valid :
      (lines : List Text) (broken : Option Text) (c : Config)
      → load std_parse lines broken ≡ ok c
      → validate c ≡ ok tt
  unfolding load
  load_valid lines broken c h =
      let (p, read, rest) =
        >>=-eq-ok (parse_lines std_parse 1 lines new_parser) (checked std_parse broken) h in
      checked_ok broken p c rest

  -- If Load gives a configuration for the lines of a file and the policy that applies to a
  -- reference requires cosign, then for every digest that is not empty CosignVerifyArgs gives
  -- arguments and no error, whichever rule the policy comes from.
  pub load-cosign_verify_args :
      (lines : List Text) (broken : Option Text) (c : Config) (ref : Reference) (digest : Text)
      → load std_parse lines broken ≡ ok c
      → (effective_policy_for c ref).policy.signatures.cosign.required ≡ true
      → is_empty digest ≡ false
      → (args : List Text) × (cosign_verify_args ref digest
            (effective_policy_for c ref).policy.signatures.cosign
          ≡ ok args)
  load-cosign_verify_args lines broken c ref digest h required present =
      validate-cosign_verify_args c ref digest (load_valid lines broken c h) required present
