-- ===== src/Policy/Duration/Prints.antt =====
-- `Duration.String`: whole days as days, anything else as `time.Duration` prints it.
use ribat.Base.{suc, ◌-◌, ◌/◌, ◌%◌, ◌==◌, if◌then◌else◌, ℤ, pos, negsuc, ◌∷◌, [], ◌++◌, Text}
use ribat.Policy.Duration.{day}

-- `show` prints a number, as `%d` does, and `std_string` is `time.Duration.String`.
module _ (show std_string : ℤ → Text) where
  unfoldable pub duration_string : ℤ → Text
  duration_string (pos n) =
      if n % day == 0 then show (pos (n / day)) ++ b'd' ∷ [] else std_string (pos n)
  duration_string (negsuc n) =
      if suc n % day == 0
      then show (negsuc (suc n / day - 1)) ++ b'd' ∷ []
      else std_string (negsuc n)
