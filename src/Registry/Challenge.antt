-- ===== src/Registry/Challenge.antt =====
-- `parseBearerChallenge`: what a registry asks a client to get a token for.
use ribat.Base.{
  ℕ, ◌+◌, Bool, true, false, not, ◌&&◌, List, [], ◌∷◌, ◌++◌, ◌==◌, if◌then◌else◌, leb, map, Option,
  none, some, Text, codes, is_empty, equal_fold, cut, trim, trim_space, Result, ok, err,
}
use ribat.Registry.{get_header}

pub record BearerChallenge : Type 0 where
  pub realm : Text
  pub service : Text
  pub scope : Text

pub data ChallengeError : Type 0 where
  missing_header missing_realm : ChallengeError
  unsupported_challenge : Text → ChallengeError

-- The three variables of the loop of `splitChallengeParams`.
pub record Scan : Type 0 where
  pub current : Text
  pub in_quote : Bool
  pub escaped : Bool

-- A comma outside quotes ends a part.
unfoldable pub ends_part : Scan → ℕ → Bool
ends_part s c = not s.escaped && (c == b',' && not s.in_quote)

-- The `switch` of the loop.
unfoldable pub scan_step : Scan → ℕ → Scan
scan_step s c =
    if s.escaped
    then record s { current = s.current ++ c ∷ []; escaped = false }
    else if c == b'\\' && s.in_quote
    then record s { escaped = true }
    else if c == b'"'
    then record s { current = s.current ++ c ∷ []; in_quote = not s.in_quote }
    else if c == b',' && not s.in_quote
    then record s { current = [] }
    else record s { current = s.current ++ c ∷ [] }

unfoldable pub split_from : Scan → Text → List Text
unfolding ends_part scan_step
split_from s [] = s.current ∷ []
split_from s (c ∷ text) =
    let parts = split_from (scan_step s c) text in
    if ends_part s c then s.current ∷ parts else parts

unfoldable pub split_challenge_params : Text → List Text
unfolding split_from
split_challenge_params = split_from (record { current = []; in_quote = false; escaped = false })

-- `strings.ToLower`, as far as a comparison with ASCII text can tell: the dotted capital I and the
-- Kelvin sign are the two characters that are not ASCII and have an ASCII one for it.
abbrev pub lower : ℕ → ℕ
lower c =
    if leb b'A' c && leb c b'Z'
    then c + 32
    else if c == 0x130
    then b'i'
    else if c == 0x212a
    then b'k'
    else c

-- One part; the pair set last stands in front.
with_part : Option (Text × Text) → List (Text × Text) → List (Text × Text)
with_part none values = values
with_part (some (key, value)) values =
    (map lower key, trim (λ c. c == b'"') (trim_space value)) ∷ values

unfoldable pub challenge_values : List Text → List (Text × Text) → List (Text × Text)
unfolding with_part
challenge_values [] values = values
challenge_values (part ∷ parts) values =
    challenge_values parts (with_part (cut b'=' (trim_space part)) values)

-- The challenge from the map of its values.
unfoldable pub challenge_of : List (Text × Text) → Result ChallengeError BearerChallenge
challenge_of values =
    if is_empty (get_header (codes "realm") values)
    then err missing_realm
    else ok (record {
      realm = get_header (codes "realm") values;
      service = get_header (codes "service") values;
      scope = get_header (codes "scope") values;
    })

by_scheme : Text → Option (Text × Text) → Result ChallengeError BearerChallenge
unfolding challenge_of
by_scheme header none = err (unsupported_challenge header)
by_scheme header (some (scheme, params)) =
    if equal_fold scheme (codes "Bearer")
    then challenge_of (challenge_values (split_challenge_params params) [])
    else err (unsupported_challenge header)

unfoldable pub parse_bearer_challenge : Text → Result ChallengeError BearerChallenge
unfolding by_scheme
parse_bearer_challenge header =
    if is_empty header then err missing_header else by_scheme header (cut b' ' header)
