-- ===== src/Policy/Reader/Values.antt =====
-- The four functions that set a value by its key.
pub mod Quiet
use ribat.Base.{
  ℕ, ℤ, Bool, true, false, List, [], ◌∷◌, if◌then◌else◌, Option, none, some, Text, codes, text_eq,
  Result, ok, err,
}
use ribat.Policy.{MutableTagPolicy, CosignPolicy, RuleMutableTagPolicy, RuleCosignPolicy}
use ribat.Policy.Duration.{DurationError, parse_duration}
use ribat.Policy.Reader.{Place, in_default, in_rule, LoadError, parse_bool}

module _ {A : Type 0} (n : ℕ) (place : Place) (key : Text) (set : Bool → A) where
  with_parsed : Option Bool → Result LoadError A
  with_parsed (some b) = ok (set b)
  with_parsed none = err (LoadError.bad_bool n place key)

  -- `parseBool`, and then the value in its place.
  unfoldable pub with_bool : Text → Result LoadError A
  unfolding with_parsed
  with_bool value = with_parsed (parse_bool value)

module _ {A : Type 0} (n : ℕ) (place : Place) (key : Text) (set : ℤ → A) where
  with_nanoseconds : Result DurationError ℤ → Result LoadError A
  with_nanoseconds (ok d) = ok (set d)
  with_nanoseconds (err e) = err (LoadError.bad_duration n place key e)

  -- `ParseDuration`, and then the value in its place.
  unfoldable pub with_duration : (Text → Option ℤ) → Text → Result LoadError A
  unfolding with_nanoseconds
  with_duration std_parse value = with_nanoseconds (parse_duration std_parse value)

module _ (std_parse : Text → Option ℤ) (n : ℕ) (key value : Text) where
  unfoldable pub set_mutable_tag_value : MutableTagPolicy → Result LoadError MutableTagPolicy
  unfolding with_duration with_bool
  set_mutable_tag_value t =
      if text_eq key (codes "action")
      then ok (record t { action = value })
      else if text_eq key (codes "min_digest_age")
      then with_duration n in_default key (λ d. record t { min_digest_age = d }) std_parse value
      else if text_eq key (codes "allow_first_seen_pull")
      then with_bool n in_default key (λ b. record t { allow_first_seen_pull = b }) value
      else ok t

  unfoldable pub set_rule_mutable_tag_value :
      RuleMutableTagPolicy → Result LoadError RuleMutableTagPolicy
  unfolding with_duration with_bool
  set_rule_mutable_tag_value t =
      if text_eq key (codes "action")
      then ok (record t { action = some value })
      else if text_eq key (codes "min_digest_age")
      then with_duration n in_rule key (λ d. record t { min_digest_age = some d }) std_parse value
      else if text_eq key (codes "allow_first_seen_pull")
      then with_bool n in_rule key (λ b. record t { allow_first_seen_pull = some b }) value
      else ok t

module _ (n : ℕ) (key value : Text) where
  unfoldable pub set_cosign_value : CosignPolicy → Result LoadError CosignPolicy
  unfolding with_bool
  set_cosign_value t =
      if text_eq key (codes "required")
      then with_bool n in_default key (λ b. record t { required = b }) value
      else if text_eq key (codes "mode")
      then ok (record t { mode = value })
      else if text_eq key (codes "key")
      then ok (record t { key = value })
      else if text_eq key (codes "issuer")
      then ok (record t { issuer = value })
      else if text_eq key (codes "identity")
      then ok (record t { identity = value })
      else if text_eq key (codes "identity_regex")
      then ok (record t { identity_regex = value })
      else ok t

  unfoldable pub set_rule_cosign_value : RuleCosignPolicy → Result LoadError RuleCosignPolicy
  unfolding with_bool
  set_rule_cosign_value t =
      if text_eq key (codes "required")
      then with_bool n in_rule key (λ b. record t { required = some b }) value
      else if text_eq key (codes "mode")
      then ok (record t { mode = some value })
      else if text_eq key (codes "key")
      then ok (record t { key = some value })
      else if text_eq key (codes "issuer")
      then ok (record t { issuer = some value })
      else if text_eq key (codes "identity")
      then ok (record t { identity = some value })
      else if text_eq key (codes "identity_regex")
      then ok (record t { identity_regex = some value })
      else ok t
