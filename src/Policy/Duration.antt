-- ===== src/Policy/Duration.antt =====
-- internal/policy/duration.go, and the `strconv.Atoi` of Go that it and config.go call.
-- `time.ParseDuration` works with floating-point fractions and is an argument, `std_parse`.
pub mod Bounds
pub mod Prints
use ribat.Base.{
  ℕ, suc, ◌+◌, ◌-◌, ◌*◌, ◌≤◌, ◌<◌, ◌≡◌, refl, ◌⊎◌, inl, inr, Bool, true, false, ◌&&◌, List, [], ◌∷◌,
  ◌++◌, Option, none, some, arith, leb, ltb, ◌==◌, if◌then◌else◌, ℤ, pos, negsuc, ◌≤ℤ◌, ◌<ℤ◌, ltb_ℤ,
  wrap64, Text, ◌^◌, ◌%◌, Result, ok, err, append_assoc, Bool-cases, Option-cases,
}

pub data DurationError : Type 0 where
  empty_duration bad_days bad_units negative_duration : DurationError

-- The value of a run of decimal digits in front of which stands `n`.
pub digits : ℕ → Text → Option ℕ
digits n [] = some n
digits n (c ∷ s) = if leb b'0' c && leb c b'9' then digits (n * 10 + (c - b'0')) s else none

pub unsigned : Text → Option ℕ
unfolding digits
unsigned [] = none
unsigned (c ∷ s) = digits 0 (c ∷ s)

-- The value with its sign, where it fits 64 bits.
pub in_int64 : Bool → Option ℕ → Option ℤ
in_int64 negative none = none
in_int64 false (some n) = if ltb n (2 ^ 63) then some (pos n) else none
in_int64 true (some n) =
    if n == 0 then some (pos 0) else if leb n (2 ^ 63) then some (negsuc (n - 1)) else none

-- `strconv.Atoi`: a sign, or none, and decimal digits.
unfoldable pub atoi : Text → Option ℤ
unfolding in_int64 unsigned
atoi [] = none
atoi (c ∷ s) =
    if c == b'+'
    then in_int64 false (unsigned s)
    else if c == b'-'
    then in_int64 true (unsigned s)
    else in_int64 false (unsigned (c ∷ s))

-- The text without its last character, and that character.
unfoldable pub split_last : ℕ → Text → Text × ℕ
split_last c [] = ([], c)
split_last c (d ∷ s) = let (front, last) = split_last d s in (c ∷ front, last)

-- 24 * time.Hour
abbrev pub day : ℕ
day = 86_400_000_000_000

-- `time.Duration(days) * 24 * time.Hour`, in 64 bits.
pub days_duration : Option ℤ → Result DurationError ℤ
days_duration none = err bad_days
days_duration (some (pos n)) = ok (wrap64 (n * day))
days_duration (some (negsuc n)) = err bad_days

pub units_duration : Option ℤ → Result DurationError ℤ
units_duration none = err bad_units
units_duration (some d) = if ltb_ℤ d (pos 0) then err negative_duration else ok d

module _ (std_parse : Text → Option ℤ) where
  unfoldable pub parse_duration : Text → Result DurationError ℤ
  unfolding split_last days_duration units_duration
  parse_duration [] = err empty_duration
  parse_duration (c ∷ s) =
      let (front, unit) = split_last c s in
      if unit == b'd' then days_duration (atoi front) else units_duration (std_parse (c ∷ s))

split_last-append : (c : ℕ) (s : Text) (b : ℕ) → split_last c (s ++ b ∷ []) ≡ (c ∷ s, b)
unfolding split_last
split_last-append c [] b = refl
split_last-append c (d ∷ s) b = rw (split_last-append d s b)

module _ (std_parse : Text → Option ℤ) where
  -- A whole number of days behind which stands a d is read as its nanoseconds modulo 2^64.
  pub parse_duration_days :
      (s : Text) (n : ℕ)
      → atoi s ≡ some (pos n)
      → parse_duration std_parse (s ++ b'd' ∷ []) ≡ ok (wrap64 (n * day))
  unfolding parse_duration atoi
  parse_duration_days [] n h = cc
  parse_duration_days (c ∷ s) n h = rw split_last-append (unfold parse_duration in rw h)
