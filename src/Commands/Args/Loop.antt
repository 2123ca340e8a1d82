-- ===== src/Commands/Args/Loop.antt =====
-- What the loop over the arguments does with a flag in each of its two forms.
use ribat.Base.{
  Bool, true, false, List, [], ◌∷◌, ◌++◌, none, some, if◌then◌else◌, ◌==◌, any, length, drop, Text,
  codes, text_eq, text_eq→eq, text_eq_refl, has_prefix, trim_prefix, Result, ok, err, ◌>>=◌, ◌≡◌,
  refl, sym, ap, arith, Bool-cases, inl, inr, subst,
}
use ribat.Commands.{UsageError}
use ribat.Commands.Args.{
  Flag, config_flag, ttl_flag, reason_flag, by_flag, image_flag, since_flag, input_flag,
  listen_flag, socket_flag, flag_name, find_flag, find_inline, parse_from, next_arg, at_flag,
  at_inline, settle, await,
}

-- `--flag=value`.
abbrev pub inline : Flag → Text → Text
inline f value = flag_name f ++ b'=' ∷ value

abbrev has_equals : Text → Bool
has_equals = any (λ c. c == b'=')

flag_name-plain : (f : Flag) → has_equals (flag_name f) ≡ false
unfolding flag_name codes
flag_name-plain config_flag = refl
flag_name-plain ttl_flag = refl
flag_name-plain reason_flag = refl
flag_name-plain by_flag = refl
flag_name-plain image_flag = refl
flag_name-plain since_flag = refl
flag_name-plain input_flag = refl
flag_name-plain listen_flag = refl
flag_name-plain socket_flag = refl

abbrev all_flags : List Flag
all_flags =
    config_flag ∷ ttl_flag ∷ reason_flag ∷ by_flag ∷ image_flag ∷ since_flag ∷ input_flag
    ∷ listen_flag ∷ socket_flag ∷ []

find_all : (f : Flag) → find_flag all_flags (flag_name f) ≡ some f
unfolding find_flag flag_name codes text_eq
find_all config_flag = refl
find_all ttl_flag = refl
find_all reason_flag = refl
find_all by_flag = refl
find_all image_flag = refl
find_all since_flag = refl
find_all input_flag = refl
find_all listen_flag = refl
find_all socket_flag = refl

flag_name_injective : (f g : Flag) → text_eq (flag_name f) (flag_name g) ≡ true → f ≡ g
flag_name_injective f g h =
    let same : flag_name f ≡ flag_name g = text_eq→eq (flag_name f) (flag_name g) h in
    cc (find_all f, find_all g, ap (find_flag all_flags) same)

text_eq_inline : (s t v : Text) → has_equals t ≡ false → text_eq (s ++ b'=' ∷ v) t ≡ false
unfolding text_eq
text_eq_inline [] [] v h = refl
text_eq_inline [] (c ∷ t) v h = ground arith
text_eq_inline (a ∷ s) [] v h = refl
text_eq_inline (a ∷ s) (c ∷ t) v h = ground (arith, text_eq_inline s t v)

has_prefix_inline :
    (s t v : Text)
    → has_equals s ≡ false
    → has_equals t ≡ false
    → has_prefix (s ++ b'=' ∷ v) (t ++ b'=' ∷ []) ≡ text_eq s t
unfolding has_prefix text_eq
has_prefix_inline [] [] v h k = refl
has_prefix_inline [] (c ∷ t) v h k = ground arith
has_prefix_inline (a ∷ s) [] v h k = ground arith
has_prefix_inline (a ∷ s) (c ∷ t) v h k = ground (arith, has_prefix_inline s t v)

drop_inline : (s v : Text) → drop (length (s ++ b'=' ∷ [])) (s ++ b'=' ∷ v) ≡ v
unfolding drop
drop_inline [] v = refl
drop_inline (a ∷ s) v = drop_inline s v

trim_inline : (f : Flag) (v : Text) → trim_prefix (inline f v) (flag_name f ++ b'=' ∷ []) ≡ v
unfolding trim_prefix
trim_inline f v =
    rw
      (
        has_prefix_inline (flag_name f) (flag_name f) v (flag_name-plain f) (flag_name-plain f),
        text_eq_refl (flag_name f),
      )
      (drop_inline (flag_name f) v)

find_flag-inline : (flags : List Flag) (f : Flag) (v : Text) → find_flag flags (inline f v) ≡ none
unfolding find_flag
find_flag-inline [] f v = refl
find_flag-inline (g ∷ flags) f v =
    rw (text_eq_inline (flag_name f) (flag_name g) v (flag_name-plain g))
      (find_flag-inline flags f v)

find_inline-inline :
    (flags : List Flag) (f : Flag) (v : Text)
    → find_flag flags (flag_name f) ≡ some f
    → find_inline flags (inline f v) ≡ some (f, v)
unfolding find_inline find_flag
find_inline-inline [] f v h = cc
find_inline-inline (g ∷ flags) f v h =
    let prefix : has_prefix (inline f v) (flag_name g ++ b'=' ∷ [])
        ≡ text_eq (flag_name f) (flag_name g) =
      has_prefix_inline (flag_name f) (flag_name g) v (flag_name-plain f) (flag_name-plain g) in
    elim (Bool-cases (text_eq (flag_name f) (flag_name g))) [
      | inl e ↦
          let same : f ≡ g = flag_name_injective f g e in
          let tail : trim_prefix (inline f v) (flag_name g ++ b'=' ∷ []) ≡ v =
            subst (λ x. trim_prefix (inline f v) (flag_name x ++ b'=' ∷ []) ≡ v) same
              (trim_inline f v) in
          rw (prefix, e, tail) (ap (λ x. some (x, v)) (sym same))
      | inr e ↦
          rw (prefix, e)
            (find_inline-inline flags f v
              (subst (λ b. (if b then some g else find_flag flags (flag_name f)) ≡ some f) e h))
    ]

module _ {O : Type 0} (flags : List Flag) (set : Flag → Text → O → Result UsageError O)
    (other : Text → O → Result UsageError O) where
  -- A flag of the command and its value set an option.
  pub parse_from-flag :
      (f : Flag) (value : Text) (args : List Text) (o : O)
      → find_flag flags (flag_name f) ≡ some f
      → parse_from flags set other (flag_name f ∷ value ∷ args) (none, o)
        ≡ (set f value o >>= λ o'. parse_from flags set other args (none, o'))
  unfolding parse_from next_arg at_flag await settle
  parse_from-flag f value args o known = rw known (settled (set f value o))
    where
      settled :
          (r : Result UsageError O)
          → (settle flags set other r >>= parse_from flags set other args)
            ≡ (r >>= λ o'. parse_from flags set other args (none, o'))
      settled (ok x) = refl
      settled (err e) = refl

  -- For every flag of a command, --flag=value as one argument does the same as --flag and value as
  -- two.
  pub parse_from-inline :
      (f : Flag) (value : Text) (args : List Text) (o : O)
      → find_flag flags (flag_name f) ≡ some f
      → parse_from flags set other (inline f value ∷ args) (none, o)
        ≡ parse_from flags set other (flag_name f ∷ value ∷ args) (none, o)
  unfolding parse_from next_arg at_flag at_inline await settle
  parse_from-inline f value args o known =
      rw (find_flag-inline flags f value, find_inline-inline flags f value known, known) refl
