-- ===== src/Policy/Matcher/Wildcard.antt =====
-- What a pattern of a rule matches.
use ribat.Base.{
  ℕ, true, false, ◌≤◌, [], ◌∷◌, ◌++◌, ◌≡◌, ◌≢◌, ◌↔◌, refl, sym, ap, ◌∙◌, subst, arith, ◌==◌, ==_iff,
  if◌then◌else◌, Bool-cases, inl, inr, Text,
}
use ribat.Regex.{Regex, seq, star, in_set, in_span, char}
use ribat.Regex.Lang.{Lang, Many, done, more, match_string_iff}
use ribat.Policy.Matcher.{dot, wildcard_regex, wildcard_match}

-- A star stands for any characters but newlines, every other character for itself. `c ≤ 0x10ffff`
-- holds of every code point.
pub data Wildcard : Text → Text → Type 0 where
  stop : Wildcard [] []
  same : {c : ℕ} {p s : Text} → c ≢ b'*' → Wildcard p s → Wildcard (c ∷ p) (c ∷ s)
  leave : {c : ℕ} {p s : Text} → c ≡ b'*' → Wildcard p s → Wildcard (c ∷ p) s
  take :
      {c d : ℕ} {p s : Text}
      → c ≡ b'*'
      → d ≢ b'\n'
      → d ≤ 0x10ffff
      → Wildcard (c ∷ p) s
      → Wildcard (c ∷ p) (d ∷ s)

dot_iff :
    (c : ℕ) → (in_set ((0, 9) ∷ (11, 0x10ffff) ∷ []) c ≡ true) ↔ ((c ≢ b'\n') × (c ≤ 0x10ffff))
unfolding in_set in_span
dot_iff c = (λ h. (ground arith, ground arith), λ h. ground arith)

char_self : (c : ℕ) → in_set ((c, c) ∷ []) c ≡ true
unfolding in_set in_span
char_self c = ground arith

char_only : (c d : ℕ) → in_set ((c, c) ∷ []) d ≡ true → d ≡ c
unfolding in_set in_span
char_only c d h = ground arith

char_front : {c : ℕ} {u v w : Text} → w ≡ u ++ v → u ≡ c ∷ [] → w ≡ c ∷ v
char_front {v = v} e one = e ∙ ap (λ (z : Text). z ++ v) one

-- Behind a run of a star's characters, a match goes on.
Many→Wildcard :
    (p : Text) (v : Text) {u w : Text}
    → Many (Lang dot) u
    → w ≡ u ++ v
    → Wildcard p v
    → Wildcard (b'*' ∷ p) w
Many→Wildcard p v done e m = leave refl (subst (Wildcard p) (sym e) m)
Many→Wildcard p v (more {v = v'} (c, is, inside) rest split) e m =
    let (fine, small) = (dot_iff c).0 inside in
    subst (Wildcard (b'*' ∷ p)) (sym (e ∙ ap (λ (z : Text). z ++ v) (char_front split is)))
      (take refl fine small (Many→Wildcard p v rest refl m))

-- The expression for one character of a pattern.
abbrev piece : ℕ → Regex
piece c = if c == b'*' then star dot else char c

char-Wildcard :
    (c : ℕ) (p : Text) {u v w : Text}
    → (c == b'*') ≡ false
    → Lang (char c) u
    → w ≡ u ++ v
    → Wildcard p v
    → Wildcard (c ∷ p) w
char-Wildcard c p {u} {v} {w} other (d, one, inside) e m =
    let one' : u ≡ c ∷ [] = one ∙ ap (λ (z : ℕ). z ∷ []) (char_only c d inside) in
    subst (Wildcard (c ∷ p)) (sym (char_front e one')) (same (λ h. ground (arith, other, h)) m)

star-Wildcard :
    (c : ℕ) (p : Text) {u v w : Text}
    → (c == b'*') ≡ true
    → Many (Lang dot) u
    → w ≡ u ++ v
    → Wildcard p v
    → Wildcard (c ∷ p) w
star-Wildcard c p {v = v} {w} is run e m =
    subst (λ (a : ℕ). Wildcard (a ∷ p) w) (sym ((==_iff c b'*').0 is)) (Many→Wildcard p v run e m)

piece-Wildcard :
    (c : ℕ) (p u : Text) {v w : Text}
    → Lang (piece c) u
    → w ≡ u ++ v
    → Wildcard p v
    → Wildcard (c ∷ p) w
piece-Wildcard c p u one e m = elim (Bool-cases (c == b'*')) [
  | inl is ↦ star-Wildcard c p is (rw is at one) e m
  | inr other ↦ char-Wildcard c p other (rw other at one) e m
]

Lang→Wildcard : (p s : Text) → Lang (wildcard_regex p) s → Wildcard p s
unfolding wildcard_regex
Lang→Wildcard [] s h = subst (Wildcard []) (sym h) stop
Lang→Wildcard (c ∷ p) s (u, v, e, one, rest) = piece-Wildcard c p u one e (Lang→Wildcard p v rest)

star_piece : (c : ℕ) {s : Text} → c ≡ b'*' → Many (Lang dot) s → Lang (piece c) s
star_piece c is run = rw ((==_iff c b'*').1 is) run

char_piece : (c : ℕ) → c ≢ b'*' → Lang (piece c) (c ∷ [])
char_piece c other = elim (Bool-cases (c == b'*')) [
  | inl is ↦ absurd (other ((==_iff c b'*').0 is))
  | inr e ↦ rw e (c, refl, char_self c)
]

-- One more character at the front of a star's run.
more-star :
    (c d : ℕ) (p s : Text)
    → c ≡ b'*'
    → Lang dot (d ∷ [])
    → Lang (seq (piece c) (wildcard_regex p)) s
    → Lang (seq (piece c) (wildcard_regex p)) (d ∷ s)
more-star c d p s is one (u, v, e, run, rest) = (
  d ∷ u,
  v,
  ap (◌∷◌ d) e,
  star_piece c is (more one (rw ((==_iff c b'*').1 is) at run) refl),
  rest,
)

Wildcard→Lang : {p s : Text} → Wildcard p s → Lang (wildcard_regex p) s
unfolding wildcard_regex
Wildcard→Lang stop = refl
Wildcard→Lang (same {c} {p} {s} other m) = (c ∷ [], s, refl, char_piece c other, Wildcard→Lang m)
Wildcard→Lang (leave {c} {p} {s} is m) = ([], s, refl, star_piece c is done, Wildcard→Lang m)
Wildcard→Lang (take {c} {d} {p} {s} is fine small m) =
    more-star c d p s is (d, refl, (dot_iff d).1 (fine, small)) (Wildcard→Lang m)

-- The pattern of a rule matches a text exactly if each star can be given a run of characters that
-- are no newlines, and are at most 0x10ffff, so that the two agree character by character.
pub wildcard_match_iff : (p s : Text) → (wildcard_match p s ≡ true) ↔ Wildcard p s
unfolding wildcard_match
wildcard_match_iff p s = (
  λ h. Lang→Wildcard p s ((match_string_iff (wildcard_regex p) s).0 h),
  λ m. (match_string_iff (wildcard_regex p) s).1 (Wildcard→Lang m),
)
