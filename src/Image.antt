-- ===== src/Image.antt =====
-- internal/image/reference.go: parsing and normalising an image reference.
mod Samples
use ribat.Base.{
  ℕ, zero, suc, ◌+◌, Bool, true, false, not, List, [], ◌∷◌, ◌++◌, ◌&&◌, ◌||◌, Option, none, some,
  ◌==◌, if◌then◌else◌, Text, codes, text_eq, is_empty, has_prefix, has_suffix, contains,
  contains_any, split, join, trim_space, last_index_byte, index_le, take, drop, length, Result, ok,
  err, ◌>>=◌, ◌>>◌, guard,
}
use ribat.Regex.{Regex, set, seq, alt, star, at_most, char, plus, opt, match_string}

abbrev pub default_registry : Text
default_registry = codes "docker.io"

abbrev pub default_tag : Text
default_tag = codes "latest"

abbrev pub official_prefix : Text
official_prefix = codes "library/"

lower_digit : Regex
lower_digit = set ((b'a', b'z') ∷ (b'0', b'9') ∷ [])

letter : Regex
letter = set ((b'A', b'Z') ∷ (b'a', b'z') ∷ [])

letter_digit : Regex
letter_digit = set ((b'A', b'Z') ∷ (b'a', b'z') ∷ (b'0', b'9') ∷ [])

-- `^[a-z0-9](?:[a-z0-9.-]*[a-z0-9])?(?::[0-9]+)?$`
unfoldable pub registry_re : Regex
unfolding lower_digit
registry_re =
    let inner = set ((b'a', b'z') ∷ (b'0', b'9') ∷ (b'.', b'.') ∷ (b'-', b'-') ∷ []) in
    let port = seq (char b':') (plus (set ((b'0', b'9') ∷ []))) in
    seq lower_digit (seq (opt (seq (star inner) lower_digit)) (opt port))

-- `^[a-z0-9]+(?:(?:[._]|__|-+)[a-z0-9]+)*$`
unfoldable pub component_re : Regex
unfolding lower_digit
component_re =
    let dot_or_low = set ((b'.', b'.') ∷ (b'_', b'_') ∷ []) in
    let separator = alt dot_or_low (alt (seq (char b'_') (char b'_')) (plus (char b'-'))) in
    seq (plus lower_digit) (star (seq separator (plus lower_digit)))

-- `^[A-Za-z0-9_][A-Za-z0-9_.-]{0,127}$`
unfoldable pub tag_re : Regex
tag_re =
    let head = set ((b'A', b'Z') ∷ (b'a', b'z') ∷ (b'0', b'9') ∷ (b'_', b'_') ∷ []) in
    let inner = set (
      (b'A', b'Z')
      ∷ (b'a', b'z')
      ∷ (b'0', b'9')
      ∷ (b'_', b'_')
      ∷ (b'.', b'.')
      ∷ (b'-', b'-')
      ∷ []) in
    seq head (at_most 127 inner)

-- `^[A-Za-z][A-Za-z0-9]*(?:[+._-][A-Za-z][A-Za-z0-9]*)*:[A-Za-z0-9=_-]+$`
unfoldable pub digest_re : Regex
unfolding letter letter_digit
digest_re =
    let mark = set ((b'+', b'+') ∷ (b'.', b'.') ∷ (b'_', b'_') ∷ (b'-', b'-') ∷ []) in
    let hex = set (
      (b'A', b'Z')
      ∷ (b'a', b'z')
      ∷ (b'0', b'9')
      ∷ (b'=', b'=')
      ∷ (b'_', b'_')
      ∷ (b'-', b'-')
      ∷ []) in
    seq letter (
      seq (star letter_digit)
        (seq (star (seq mark (seq letter (star letter_digit)))) (seq (char b':') (plus hex))))

pub record Reference : Type 0 where
  pub registry : Text
  pub repository : Text
  pub tag : Text
  pub digest : Text
  pub is_mutable_tag : Bool
  pub is_digest_pinned : Bool
  pub canonical_ref : Text

-- `Reference{}`.
abbrev pub no_reference : Reference
no_reference = record {
  registry = [];
  repository = [];
  tag = [];
  digest = [];
  is_mutable_tag = false;
  is_digest_pinned = false;
  canonical_ref = [];
}

-- One constructor for each message of the file.
pub data ImageError : Type 0 where
  empty_reference has_whitespace has_scheme missing_name malformed_tag : ImageError
  malformed_digest empty_digest many_digests empty_tag empty_component : ImageError
  missing_path malformed_registry repository_has_port malformed_component : ImageError

-- The method `canonical`.
unfoldable pub canonical : Text → Text → Text → Text → Text
canonical registry repository tag digest =
    let base = registry ++ (b'/' ∷ repository) in
    let tagged = if is_empty tag then base else base ++ (b':' ∷ tag) in
    if is_empty digest then tagged else tagged ++ (b'@' ∷ digest)

unfoldable pub split_digest : Text → Result ImageError (Text × Text)
split_digest ref = elim (split b'@' ref) [
  | name ∷ [] ↦ ok (ref, [])
  | name ∷ digest ∷ [] ↦ if is_empty digest then err empty_digest else ok (name, digest)
  | _ ↦ err many_digests
]

-- The colon's place, when there is a colon behind the last slash.
unfoldable pub tag_colon : Text → Option ℕ
tag_colon name =
    let colon = last_index_byte b':' name in
    if index_le colon (last_index_byte b'/' name) then none else colon

unfoldable pub split_tag : Text → Result ImageError (Text × Text)
unfolding tag_colon
split_tag name = elim (tag_colon name) [
  | none ↦ ok (name, [])
  | some i ↦ if suc i == length name then err empty_tag else ok (take i name, drop (suc i) name)
]

unfoldable pub has_explicit_registry : Text → Bool
has_explicit_registry component =
    contains_any component (λ c. c == b'.' || c == b':') || text_eq component (codes "localhost")

-- The loop over the components of the repository.
unfoldable pub check_components : List Text → Result ImageError (Unit {0})
check_components [] = ok tt
check_components (component ∷ rest) =
    if is_empty component
    then err empty_component
    else if match_string component_re component
    then check_components rest
    else err malformed_component

-- The choice of registry and repository from the first component and the others.
unfoldable pub choose_registry : Text → Text → List Text → Result ImageError (Text × Text)
unfolding has_explicit_registry
choose_registry name first others =
    let repository = join (b'/' ∷ []) others in
    if has_explicit_registry first
    then (if is_empty repository then err missing_path else ok (first, repository))
    else elim others [
      | [] ↦ ok (default_registry, official_prefix ++ name)
      | _ ↦ ok (default_registry, name)
    ]

-- `strings.Split` returns one part at least, so the first clause is never reached.
first_part : Text → List Text → Result ImageError (Text × Text)
unfolding choose_registry
first_part name [] = err empty_component
first_part name (first ∷ others) = choose_registry name first others

-- The checks on the registry and the repository that were chosen.
unfoldable pub check_name : Text → Text → Result ImageError (Text × Text)
unfolding check_components
check_name registry repository = do
  guard (match_string registry_re registry) malformed_registry
  guard (not (contains repository (b':' ∷ []))) repository_has_port
  check_components (split b'/' repository)
  ok (registry, repository)

unfoldable pub normalize_name : Text → Result ImageError (Text × Text)
unfolding first_part check_name
normalize_name name = do
  let slash = b'/' ∷ []
  guard (not (has_prefix name slash || has_suffix name slash || contains name (codes "//")))
      empty_component
  (registry, repository) ← first_part name (split b'/' name)
  check_name registry repository

-- The record that `ParseReference` fills in from the parts.
unfoldable pub make_reference : Text → Text → Text → Text → Reference
make_reference registry repository tag digest = record {
  registry = registry;
  repository = repository;
  tag = tag;
  digest = digest;
  is_mutable_tag = is_empty digest;
  is_digest_pinned = not (is_empty digest);
  canonical_ref = canonical registry repository tag digest;
}

abbrev pub blank : ℕ → Bool
blank c = c == 32 || c == 9 || c == 13 || c == 10

-- The part of `ParseReference` after the digest has been split off.
unfoldable pub parse_name : Text → Text → Result ImageError Reference
unfolding split_tag normalize_name make_reference
parse_name name_part digest = do
  guard (not (is_empty name_part)) missing_name
  (name, tag) ← split_tag name_part
  let tag' = if is_empty digest && is_empty tag then default_tag else tag
  (registry, repository) ← normalize_name name
  guard (is_empty tag' || match_string tag_re tag') malformed_tag
  guard (is_empty digest || match_string digest_re digest) malformed_digest
  ok (make_reference registry repository tag' digest)

unfoldable pub parse_reference : Text → Result ImageError Reference
unfolding split_digest parse_name
parse_reference input = do
  let raw = trim_space input
  guard (not (is_empty raw)) empty_reference
  guard (not (not (text_eq raw input) || contains_any raw blank)) has_whitespace
  guard (not (contains raw (codes "://"))) has_scheme
  (name_part, digest) ← split_digest raw
  parse_name name_part digest
