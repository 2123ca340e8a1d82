-- ===== src/Regex.antt =====
-- The regular expressions that internal/image/reference.go and internal/policy/matcher.go hand to
-- Go's `regexp`, anchored at both ends: a matcher by derivatives. What it decides is in Regex/Lang.
pub mod Lang
use ribat.Base.{
  ℕ, zero, suc, Bool, true, false, List, [], ◌∷◌, ◌&&◌, ◌||◌, ◌≡◌, refl, leb, if◌then◌else◌, any,
  Text, String, codes,
}

pub data Regex : Type 0 where
  never : Regex
  eps : Regex
  set : List (ℕ × ℕ) → Regex
  seq : Regex → Regex → Regex
  alt : Regex → Regex → Regex
  star : Regex → Regex
  at_most : ℕ → Regex → Regex

unfoldable pub in_span : ℕ → ℕ × ℕ → Bool
in_span c (lo, hi) = leb lo c && leb c hi

-- A character class.
unfoldable pub in_set : List (ℕ × ℕ) → ℕ → Bool
unfolding in_span
in_set spans c = any (in_span c) spans

pub nullable : Regex → Bool
nullable never = false
nullable eps = true
nullable (set _) = false
nullable (seq r q) = nullable r && nullable q
nullable (alt r q) = nullable r || nullable q
nullable (star r) = true
nullable (at_most n r) = true

-- `seq` and `alt` without the parts that match nothing, which keeps derivatives small.
pub seq' : Regex → Regex → Regex
seq' never q = never
seq' eps q = q
seq' (set s) q = seq (set s) q
seq' (seq a b) q = seq (seq a b) q
seq' (alt a b) q = seq (alt a b) q
seq' (star a) q = seq (star a) q
seq' (at_most n a) q = seq (at_most n a) q

pub alt' : Regex → Regex → Regex
alt' never q = q
alt' eps q = alt eps q
alt' (set s) q = alt (set s) q
alt' (seq a b) q = alt (seq a b) q
alt' (alt a b) q = alt (alt a b) q
alt' (star a) q = alt (star a) q
alt' (at_most n a) q = alt (at_most n a) q

-- What may follow `c` in a match of `r`.
pub deriv : Regex → ℕ → Regex
unfolding in_set seq' alt' nullable
deriv never c = never
deriv eps c = never
deriv (set s) c = if in_set s c then eps else never
deriv (seq r q) c = if nullable r then alt' (seq' (deriv r c) q) (deriv q c) else seq' (deriv r c) q
deriv (alt r q) c = alt' (deriv r c) (deriv q c)
deriv (star r) c = seq' (deriv r c) (star r)
deriv (at_most zero r) c = never
deriv (at_most (suc n) r) c = seq' (deriv r c) (at_most n r)

-- `MatchString` of an expression that is anchored by `^` and `$`.
unfoldable pub match_string : Regex → Text → Bool
unfolding deriv nullable
match_string r [] = nullable r
match_string r (c ∷ s) = match_string (deriv r c) s

abbrev pub char : ℕ → Regex
char c = set ((c, c) ∷ [])

abbrev pub plus : Regex → Regex
plus r = seq r (star r)

abbrev pub opt : Regex → Regex
opt r = alt r eps
