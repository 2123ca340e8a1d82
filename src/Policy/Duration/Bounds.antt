-- ===== src/Policy/Duration/Bounds.antt =====
-- When the 64-bit product of `ParseDuration` holds the days that were written.
use ribat.Base.{
  ℕ, ◌*◌, ◌≤◌, ◌≡◌, ◌∷◌, [], ◌++◌, ◌↔◌, Option, some, arith, ℤ, pos, ◌<ℤ◌, wrap64, Text, ok, ap,
}
use ribat.Policy.Duration.{parse_duration, parse_duration_days, atoi, day}

wrap64-eq_iff : (n : ℕ) → (wrap64 (n * day) ≡ pos (n * day)) ↔ (n ≤ 106751)
unfolding wrap64
wrap64-eq_iff n = (λ h. ground arith, λ h. ground arith)

wrap64-neg : (n : ℕ) → 106752 ≤ n → n ≤ 213503 → wrap64 (n * day) <ℤ pos 0
unfolding wrap64
wrap64-neg n h k = ground arith

module _ (std_parse : Text → Option ℤ) (s : Text) (n : ℕ) (read : atoi s ≡ some (pos n)) where
  -- A text that Atoi reads as n, with a d behind it, is parsed as n days exactly when n is at most
  -- 106751.
  pub parse_duration_exact_iff :
      (parse_duration std_parse (s ++ b'd' ∷ []) ≡ ok (pos (n * day))) ↔ (n ≤ 106751)
  parse_duration_exact_iff =
      rw (parse_duration_days std_parse s n read)
        (λ e. (wrap64-eq_iff n).0 (cc e), λ h. ap ok ((wrap64-eq_iff n).1 h))

  -- A text that Atoi reads as a number of days from 106752 to 213503, with a d behind it, is parsed
  -- without an error as a negative duration.
  pub parse_duration_wraps :
      106752 ≤ n
      → n ≤ 213503
      → (d : ℤ) × (parse_duration std_parse (s ++ b'd' ∷ []) ≡ ok d) × (d <ℤ pos 0)
  parse_duration_wraps h k =
      (wrap64 (n * day), parse_duration_days std_parse s n read, wrap64-neg n h k)
