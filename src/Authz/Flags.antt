-- ===== src/Authz/Flags.antt =====
-- Which values of a query parameter switch it on.
use ribat.Base.{
  ℕ, ◌+◌, ◌≤◌, ◌<◌, true, false, ◌&&◌, [], ◌∷◌, map, leb, if◌then◌else◌, Text, codes, text_eq,
  text_eq→eq, ◌≡◌, ◌↔◌, ◌⊎◌, refl, ap, subst, arith, Bool-cases, inl, inr,
}
use ribat.Authz.{query_bool}

-- The words that mean yes.
pub data Yes : Text → Type 0 where
  is_1 : Yes (codes "1")
  is_true : Yes (codes "true")
  is_t : Yes (codes "t")
  is_yes : Yes (codes "yes")
  is_y : Yes (codes "y")

-- The second text is the first in lower case.
pub data Lowered : Text → Text → Type 0 where
  end : Lowered [] []
  capital :
      {c : ℕ} {s t : Text} → b'A' ≤ c → c ≤ b'Z' → Lowered s t → Lowered (c ∷ s) ((c + 32) ∷ t)
  other : {c : ℕ} {s t : Text} → (c < b'A') ⊎ (b'Z' < c) → Lowered s t → Lowered (c ∷ s) (c ∷ t)

pub data AsksPull (value : Text) : Type 0 where
  says : {word : Text} → Yes word → Lowered value word → AsksPull value

abbrev lower : Text → Text
lower = map (λ c. if leb b'A' c && leb c b'Z' then c + 32 else c)

lower-Lowered : (s : Text) → Lowered s (lower s)
lower-Lowered [] = end
lower-Lowered (c ∷ s) = elim (Bool-cases (leb b'A' c && leb c b'Z')) [
  | inl e ↦ rw e (capital (ground (arith, e)) (ground (arith, e)) (lower-Lowered s))
  | inr e ↦ rw e (other (apart e) (lower-Lowered s))
]
  where
    apart : (leb b'A' c && leb c b'Z') ≡ false → (c < b'A') ⊎ (b'Z' < c)
    apart e = elim (Bool-cases (leb b'A' c)) [
      | inl low ↦ inr (ground (arith, e, low))
      | inr low ↦ inl (ground (arith, low))
    ]

Lowered-lower : {s t : Text} → Lowered s t → lower s ≡ t
Lowered-lower end = refl
Lowered-lower (capital {c = c} {t = t} low high l) =
    let e : (leb b'A' c && leb c b'Z') ≡ true = ground (arith, low, high) in
    rw e (ap (λ (x : Text). (c + 32) ∷ x) (Lowered-lower l))
Lowered-lower (other {c = c} {t = t} (inl out) l) =
    let e : (leb b'A' c && leb c b'Z') ≡ false = ground (arith, out) in
    rw e (ap (λ (x : Text). c ∷ x) (Lowered-lower l))
Lowered-lower (other {c = c} {t = t} (inr out) l) =
    let e : (leb b'A' c && leb c b'Z') ≡ false = ground (arith, out) in
    rw e (ap (λ (x : Text). c ∷ x) (Lowered-lower l))

module _ (value : Text) where
  said : {word : Text} → Yes word → text_eq (lower value) word ≡ true → AsksPull value
  said meant h =
      says meant (subst (Lowered value) (text_eq→eq (lower value) _ h) (lower-Lowered value))

  missed : {word : Text} → ¬ AsksPull value → Yes word → text_eq (lower value) word ≡ false
  missed {word} never meant = elim (Bool-cases (text_eq (lower value) word)) [
    | inl e ↦ absurd (never (said meant e))
    | inr e ↦ e
  ]

  Yes-query_bool : {word : Text} → Yes word → lower value ≡ word → query_bool value ≡ true
  unfolding query_bool text_eq codes
  Yes-query_bool {word} is_1 e = rw e refl
  Yes-query_bool {word} is_true e = rw e refl
  Yes-query_bool {word} is_t e = rw e refl
  Yes-query_bool {word} is_yes e = rw e refl
  Yes-query_bool {word} is_y e = rw e refl

  unasked : ¬ AsksPull value → query_bool value ≡ false
  unfolding query_bool
  unasked never =
      rw
        (
          missed never is_1,
          missed never is_true,
          missed never is_t,
          missed never is_yes,
          missed never is_y,
        )
        refl

  pub query_bool-AsksPull : (query_bool value ≡ false) ↔ ¬ AsksPull value
  query_bool-AsksPull = (
    λ h a. elim a [ says meant l ↦ absurd (cc (h, Yes-query_bool meant (Lowered-lower l))) ],
    unasked,
  )
