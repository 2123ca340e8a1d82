-- ===== src/Base/Lists.antt =====
-- Lists measured by native numbers, Boolean tests of a whole list, and filters by a test.
use Prim.Native.Nat.{ℕ, zero, suc, ◌+◌}
use mathlib.Core.Path.{◌≡◌, refl}
use mathlib.Core.Bool.{Bool, true, false, ◌&&◌, ◌||◌}
use mathlib.Core.List.{List, [], ◌∷◌, ◌++◌}
use mathlib.Core.Option.{Option, none, some}
use native.Mathlib.Omega.{arith}
use mathlib.Core.Logic.{inl, inr}
use ribat.Base.Tests.{if◌then◌else◌, Bool-cases}

module _ {ℓ} {A : Type ℓ} where
  abbrev pub length : List A → ℕ
  length [] = 0
  length (x ∷ xs) = suc (length xs)

  -- Every element passes the test.
  abbrev pub all : (A → Bool) → List A → Bool
  all p [] = true
  all p (x ∷ xs) = p x && all p xs

  abbrev pub any : (A → Bool) → List A → Bool
  any p [] = false
  any p (x ∷ xs) = p x || any p xs

  -- The elements that pass the test, in order.
  unfoldable pub keep : (A → Bool) → List A → List A
  keep p [] = []
  keep p (x ∷ xs) = let rest = keep p xs in if p x then x ∷ rest else rest

  unfoldable pub first : List A → Option A
  first [] = none
  first (x ∷ _) = some x

  -- SQL's `ORDER BY`: before each element stand those that `before` puts in front of it.
  unfoldable pub insert_by : (A → A → Bool) → A → List A → List A
  insert_by before x [] = x ∷ []
  insert_by before x (y ∷ ys) =
      let later = insert_by before x ys in if before x y then x ∷ y ∷ ys else y ∷ later

  unfoldable pub sort_by : (A → A → Bool) → List A → List A
  unfolding insert_by
  sort_by before [] = []
  sort_by before (x ∷ xs) = insert_by before x (sort_by before xs)

  unfoldable pub take : ℕ → List A → List A
  take zero xs = []
  take (suc n) [] = []
  take (suc n) (x ∷ xs) = x ∷ take n xs

  unfoldable pub drop : ℕ → List A → List A
  drop zero xs = xs
  drop (suc n) [] = []
  drop (suc n) (x ∷ xs) = drop n xs

  pub length-append : (xs ys : List A) → length (xs ++ ys) ≡ length xs + length ys
  length-append [] ys = omega arith
  length-append (x ∷ xs) ys = omega (arith, length-append xs ys)

  pub all-append : (p : A → Bool) (xs ys : List A) → all p (xs ++ ys) ≡ (all p xs && all p ys)
  all-append p [] ys = refl
  all-append p (x ∷ xs) ys = ground (arith, all-append p xs ys)

  pub any-append : (p : A → Bool) (xs ys : List A) → any p (xs ++ ys) ≡ (any p xs || any p ys)
  any-append p [] ys = refl
  any-append p (x ∷ xs) ys = ground (arith, any-append p xs ys)

  -- A list that has an element with a property keeps a first one.
  pub keep_of_any :
      (p : A → Bool) (xs : List A)
      → any p xs ≡ true
      → (x : A) × (rest : List A) × (keep p xs ≡ x ∷ rest)
  unfolding keep
  keep_of_any p [] h = cc
  keep_of_any p (x ∷ xs) h = elim (Bool-cases (p x)) [
    | inl e ↦ (x, keep p xs, rw e)
    | inr e ↦ let (y, rest, kept) = keep_of_any p xs (ground arith) in (y, rest, rw e kept)
  ]

  pub any_of_keep :
      (p q : A → Bool) (xs : List A) (x : A) (rest : List A)
      → keep p xs ≡ x ∷ rest
      → q x ≡ true
      → any q xs ≡ true
  unfolding keep
  any_of_keep p q [] x rest h k = cc
  any_of_keep p q (y ∷ ys) x rest h k = ground (arith, any_of_keep p q ys x rest)
