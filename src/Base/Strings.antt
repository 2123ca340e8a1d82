-- ===== src/Base/Strings.antt =====
-- Texts as lists of code points, with what the program uses of Go's `strings`.
use Prim.Native.Nat.{ℕ, suc, ◌+◌}
use Prim.Native.Char.{code}
use Prim.Native.String.{String}
use mathlib.Core.Path.{◌≡◌, refl}
use mathlib.Core.Logic.{◌↔◌}
use mathlib.Core.Bool.{Bool, true, false, ◌&&◌, ◌||◌}
use mathlib.Core.List.{List, [], ◌∷◌, ◌++◌, map, reverse}
use mathlib.Core.Option.{Option, none, some}
use native.Mathlib.Omega.{arith}
use ribat.Base.Tests.{leb, ◌==◌, if◌then◌else◌}
use ribat.Base.Lists.{any, drop, length}

abbrev pub Text : Type 0
Text = List ℕ

-- The code points of a literal. It is shut by default, so that a proof reads a literal as a name.
unfoldable pub codes : String → Text
codes String.[] = []
codes (String.◌∷◌ c s) = code c ∷ codes s

unfoldable pub text_eq : Text → Text → Bool
text_eq [] [] = true
text_eq [] (_ ∷ _) = false
text_eq (_ ∷ _) [] = false
text_eq (a ∷ s) (b ∷ t) = a == b && text_eq s t

pub text_eq→eq : (s t : Text) → text_eq s t ≡ true → s ≡ t
unfolding text_eq
text_eq→eq [] [] h = refl
text_eq→eq [] (_ ∷ _) h = cc
text_eq→eq (_ ∷ _) [] h = cc
text_eq→eq (a ∷ s) (b ∷ t) h = ground (arith, text_eq→eq s t)

pub text_eq_refl : (s : Text) → text_eq s s ≡ true
unfolding text_eq
text_eq_refl [] = refl
text_eq_refl (a ∷ s) = ground (arith, text_eq_refl s)

pub text_eq_iff : (s t : Text) → (text_eq s t ≡ true) ↔ (s ≡ t)
text_eq_iff s t = (text_eq→eq s t, λ e. rw e (text_eq_refl t))

abbrev pub is_empty : Text → Bool
is_empty [] = true
is_empty (_ ∷ _) = false

-- `strings.HasPrefix`.
unfoldable pub has_prefix : Text → Text → Bool
has_prefix s [] = true
has_prefix [] (_ ∷ _) = false
has_prefix (c ∷ s) (p ∷ ps) = c == p && has_prefix s ps

-- `strings.HasSuffix`.
unfoldable pub has_suffix : Text → Text → Bool
unfolding has_prefix
has_suffix s t = has_prefix (reverse s) (reverse t)

-- `strings.Contains`.
unfoldable pub contains : Text → Text → Bool
unfolding has_prefix
contains [] t = is_empty t
contains (c ∷ s) t = has_prefix (c ∷ s) t || contains s t

-- `strings.ContainsAny` for a set of ASCII bytes.
abbrev pub contains_any : Text → (ℕ → Bool) → Bool
contains_any s p = any p s

-- `strings.Split` at one byte: never the empty list.
unfoldable pub split : ℕ → Text → List Text
split b [] = [] ∷ []
split b (c ∷ s) = elim (split b s) [
  | [] ↦ (c ∷ []) ∷ []
  | part ∷ parts ↦ if c == b then [] ∷ part ∷ parts else (c ∷ part) ∷ parts
]

-- `strings.Join`.
unfoldable pub join : Text → List Text → Text
join sep [] = []
join sep (s ∷ []) = s
join sep (s ∷ t ∷ parts) = s ++ (sep ++ join sep (t ∷ parts))

-- `strings.Cut` at one byte.
unfoldable pub cut : ℕ → Text → Option (Text × Text)
cut b [] = none
cut b (c ∷ s) =
    let later = cut b s in
    if c == b
    then some ([], s)
    else elim later [ none ↦ none | some (before, after) ↦ some (c ∷ before, after) ]

-- `strings.Cut` at a text.
unfoldable pub cut_at : Text → Text → Option (Text × Text)
unfolding has_prefix
cut_at sep [] = if is_empty sep then some ([], []) else none
cut_at sep (c ∷ s) =
    let later = cut_at sep s in
    if has_prefix (c ∷ s) sep
    then some ([], drop (length sep) (c ∷ s))
    else elim later [ none ↦ none | some (before, after) ↦ some (c ∷ before, after) ]

-- `strings.TrimPrefix`.
unfoldable pub trim_prefix : Text → Text → Text
unfolding has_prefix
trim_prefix s p = if has_prefix s p then drop (length p) s else s

-- The character that stands for those with the same simple case folding, as far as a comparison
-- with ASCII text can tell: the long s and the Kelvin sign are the two that are not ASCII.
abbrev pub fold_case : ℕ → ℕ
fold_case c =
    if leb b'A' c && leb c b'Z'
    then c + 32
    else if c == 0x17f
    then b's'
    else if c == 0x212a
    then b'k'
    else c

-- `strings.EqualFold` with an ASCII text.
unfoldable pub equal_fold : Text → Text → Bool
equal_fold s t = text_eq (map fold_case s) (map fold_case t)

-- `unicode.IsSpace`.
unfoldable pub is_space : ℕ → Bool
is_space c =
    (leb 9 c && leb c 13)
    || c == 32
    || c == 0x85
    || c == 0xa0
    || c == 0x1680
    || (leb 0x2000 c && leb c 0x200a)
    || c == 0x2028
    || c == 0x2029
    || c == 0x202f
    || c == 0x205f
    || c == 0x3000

unfoldable pub trim_left : (ℕ → Bool) → Text → Text
trim_left p [] = []
trim_left p (c ∷ s) = if p c then trim_left p s else c ∷ s

unfoldable pub trim : (ℕ → Bool) → Text → Text
unfolding trim_left
trim p s = reverse (trim_left p (reverse (trim_left p s)))

-- `strings.TrimRight`, for a set of characters.
unfoldable pub trim_right : (ℕ → Bool) → Text → Text
unfolding trim_left
trim_right p s = reverse (trim_left p (reverse s))

-- `strings.TrimSpace`.
unfoldable pub trim_space : Text → Text
unfolding trim is_space
trim_space = trim is_space

-- `strings.LastIndexByte`, with `none` for -1.
unfoldable pub last_index_byte : ℕ → Text → Option ℕ
last_index_byte b [] = none
last_index_byte b (c ∷ s) = elim (last_index_byte b s) [
  | some i ↦ some (suc i)
  | none ↦ if c == b then some 0 else none
]

-- The order of two such indexes as Go compares them.
unfoldable pub index_le : Option ℕ → Option ℕ → Bool
index_le none _ = true
index_le (some i) none = false
index_le (some i) (some j) = leb i j

pub text_eq_comm : (s t : Text) → text_eq s t ≡ text_eq t s
unfolding text_eq
text_eq_comm [] [] = refl
text_eq_comm [] (_ ∷ _) = refl
text_eq_comm (_ ∷ _) [] = refl
text_eq_comm (a ∷ s) (b ∷ t) = ground (arith, text_eq_comm s t)
