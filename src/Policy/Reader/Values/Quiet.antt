-- ===== src/Policy/Reader/Values/Quiet.antt =====
-- Setting a value by its key never panics.
use ribat.Base.{
  ℕ, ℤ, Bool, true, false, if◌then◌else◌, Option, none, some, Text, codes, text_eq, Result, ok, err,
  ◌>>=◌, ◌≢◌, String,
}
use ribat.Policy.{MutableTagPolicy, CosignPolicy, RuleMutableTagPolicy, RuleCosignPolicy}
use ribat.Policy.Duration.{DurationError, parse_duration}
use ribat.Policy.Reader.{Place, in_default, in_rule, LoadError, parse_bool}
use ribat.Policy.Reader.Values.{
  with_bool, with_duration, with_parsed, with_nanoseconds, set_mutable_tag_value,
  set_rule_mutable_tag_value, set_cosign_value, set_rule_cosign_value,
}

-- The result is no panic, and its value has the property.
abbrev pub SafelyAt : {A : Type 0} → (A → Type 0) → Result LoadError A → Type 0
SafelyAt Q (ok a) = Q a
SafelyAt Q (err e) = e ≢ LoadError.index_panic

pub record Safely {A : Type 0} (Q : A → Type 0) (r : Result LoadError A) : Type 0 where
  pub holds : SafelyAt Q r

pub safely : {A : Type 0} (Q : A → Type 0) (a : A) → Q a → Safely Q (ok a)
safely Q a h = record { holds = h }

pub fails :
    {A : Type 0} (Q : A → Type 0) (e : LoadError) → e ≢ LoadError.index_panic → Safely Q (err e)
fails Q e h = record { holds = h }

abbrev pub Quiet : {A : Type 0} → Result LoadError A → Type 0
Quiet r = Safely (λ a. Unit {0}) r

pub Safely-if :
    {A : Type 0} (Q : A → Type 0) (b : Bool) (x y : Result LoadError A)
    → Safely Q x
    → Safely Q y
    → Safely Q (if b then x else y)
Safely-if Q true x y h k = h
Safely-if Q false x y h k = k

pub Safely-bind :
    {A B : Type 0} (P : A → Type 0) (Q : B → Type 0) (r : Result LoadError A)
    (f : A → Result LoadError B)
    → Safely P r
    → ((a : A) → P a → Safely Q (f a))
    → Safely Q (r >>= f)
Safely-bind P Q (ok a) f h next = next a h.holds
Safely-bind P Q (err e) f h next = record { holds = h.holds }

module _ {A : Type 0} (n : ℕ) (place : Place) (key : Text) where
  with_bool-Quiet : (set : Bool → A) (value : Text) → Quiet (with_bool n place key set value)
  unfolding with_bool
  with_bool-Quiet set value = go (parse_bool value)
    where
      go : (b : Option Bool) → Quiet (with_parsed n place key set b)
      go (some b) = record { holds = tt }
      go none = record { holds = λ h. cc }

  with_duration-Quiet :
      (set : ℤ → A) (std_parse : Text → Option ℤ) (value : Text)
      → Quiet (with_duration n place key set std_parse value)
  unfolding with_duration
  with_duration-Quiet set std_parse value = go (parse_duration std_parse value)
    where
      go : (d : Result DurationError ℤ) → Quiet (with_nanoseconds n place key set d)
      go (ok d) = record { holds = tt }
      go (err e) = record { holds = λ h. cc }

module _ {A : Type 0} where
  -- A branch that sets a value, and those behind it.
  sets :
      (b : Bool) (a : A) (rest : Result LoadError A) → Quiet rest → Quiet (if b then ok a else rest)
  sets b a rest h = Safely-if _ b (ok a) rest (record { holds = tt }) h

module _ (n : ℕ) (key value : Text) where
  pub set_mutable_tag_value-Quiet :
      (std_parse : Text → Option ℤ) (t : MutableTagPolicy)
      → Quiet (set_mutable_tag_value std_parse n key value t)
  unfolding set_mutable_tag_value
  set_mutable_tag_value-Quiet std_parse t = sets _ _ _ (
      Safely-if _ _ _ _ (with_duration-Quiet n in_default key _ std_parse value)
        (Safely-if _ _ _ _ (with_bool-Quiet n in_default key _ value) (safely _ t tt)))

  pub set_rule_mutable_tag_value-Quiet :
      (std_parse : Text → Option ℤ) (t : RuleMutableTagPolicy)
      → Quiet (set_rule_mutable_tag_value std_parse n key value t)
  unfolding set_rule_mutable_tag_value
  set_rule_mutable_tag_value-Quiet std_parse t = sets _ _ _ (
      Safely-if _ _ _ _ (with_duration-Quiet n in_rule key _ std_parse value)
        (Safely-if _ _ _ _ (with_bool-Quiet n in_rule key _ value) (safely _ t tt)))

  abbrev is : String → Bool
  is name = text_eq key (codes name)

  pub set_cosign_value-Quiet : (t : CosignPolicy) → Quiet (set_cosign_value n key value t)
  unfolding set_cosign_value
  set_cosign_value-Quiet t =
      Safely-if _ (is "required") _ _ (with_bool-Quiet n in_default key _ value) (
        sets (is "mode") _ _ (
          sets (is "key") _ _ (
            sets (is "issuer") _ _
              (sets (is "identity") _ _ (sets (is "identity_regex") _ _ (safely _ t tt))))))

  pub set_rule_cosign_value-Quiet :
      (t : RuleCosignPolicy) → Quiet (set_rule_cosign_value n key value t)
  unfolding set_rule_cosign_value
  set_rule_cosign_value-Quiet t =
      Safely-if _ (is "required") _ _ (with_bool-Quiet n in_rule key _ value) (
        sets (is "mode") _ _ (
          sets (is "key") _ _ (
            sets (is "issuer") _ _
              (sets (is "identity") _ _ (sets (is "identity_regex") _ _ (safely _ t tt))))))
