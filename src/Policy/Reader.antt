-- ===== src/Policy/Reader.antt =====
-- internal/policy/config.go: the lines of a policy file, before they mean anything.
pub mod Values
pub mod Parser
use ribat.Base.{
  ℕ, suc, Bool, true, false, not, ◌&&◌, ◌||◌, List, [], ◌∷◌, ◌==◌, if◌then◌else◌, Option, none,
  some, Text, codes, text_eq, is_empty, cut, trim_space, Result, ok, err,
}
use ribat.Policy.Duration.{DurationError, split_last}
use ribat.Policy.Validate.{ConfigError}

-- Where a setting stands: in the default policy or in a rule.
pub data Place : Type 0 where
  in_default in_rule : Place

-- One constructor for each message, with the number of the line; `index_panic` is the panic of an
-- index out of range.
pub data LoadError : Type 0 where
  expected_key_value empty_key bad_version_number : ℕ → LoadError
  bad_duration : ℕ → Place → Text → DurationError → LoadError
  bad_bool : ℕ → Place → Text → LoadError
  read_failed : Text → LoadError
  index_panic : LoadError
  invalid : ConfigError → LoadError

-- The loop of `stripComment`, with its two variables.
strip_from : Bool → Bool → Text → Text
strip_from in_single in_double [] = []
strip_from in_single in_double (c ∷ s) =
    let single = if c == b'\'' && not in_double then not in_single else in_single in
    let double = if c == b'"' && not in_single then not in_double else in_double in
    let rest = strip_from single double s in
    if c == b'#' && (not in_single && not in_double) then [] else c ∷ rest

unfoldable pub strip_comment : Text → Text
unfolding strip_from
strip_comment = strip_from false false

unfoldable pub leading_spaces : Text → ℕ
leading_spaces [] = 0
leading_spaces (c ∷ s) = let count = suc (leading_spaces s) in if c == b' ' then count else 0

quoted : ℕ → ℕ → Bool
quoted first last = first == b'"' && last == b'"' || (first == b'\'' && last == b'\'')

unfoldable pub parse_scalar : Text → Text
unfolding quoted
parse_scalar [] = []
parse_scalar (c ∷ []) = c ∷ []
parse_scalar (c ∷ d ∷ s) =
    let (front, last) = split_last d s in if quoted c last then front else c ∷ d ∷ s

unfoldable pub parse_bool : Text → Option Bool
parse_bool value =
    if text_eq value (codes "true")
    then some true
    else if text_eq value (codes "false")
    then some false
    else none

key_value : ℕ → Option (Text × Text) → Result LoadError (Text × Text)
key_value n none = err (expected_key_value n)
key_value n (some (before, after)) =
    if is_empty (trim_space before)
    then err (empty_key n)
    else ok (trim_space before, trim_space after)

unfoldable pub split_yaml_key_value : ℕ → Text → Result LoadError (Text × Text)
unfolding key_value
split_yaml_key_value n line = key_value n (cut b':' line)
