-- ===== src/Authz/Names.antt =====
-- The image that a pull names by `fromImage` and `tag`.
use ribat.Base.{
  ℕ, Bool, true, false, not, ◌&&◌, ◌||◌, [], ◌∷◌, ◌++◌, Option, none, some, is_some, any, ◌==◌,
  Text, codes, is_empty, contains, last_index_byte, index_le, ◌≡◌, ◌⊎◌, refl, sym, ◌∙◌, subst,
  arith, Bool-cases, inl, inr,
}
use ribat.Authz.{has_tag, combine_image_and_tag}

-- A colon with no slash behind it.
pub data HasTag : Text → Type 0 where
  here : {c : ℕ} {s : Text} → c ≡ b':' → any (λ d. d == b'/') s ≡ false → HasTag (c ∷ s)
  there : {c : ℕ} {s : Text} → HasTag s → HasTag (c ∷ s)

-- The tag goes behind an image that has neither a tag nor a digest.
pub data Named (from_image tag : Text) : Text → Type 0 where
  as_it_is :
      (is_empty tag ≡ true) ⊎ ((contains from_image (codes "@") ≡ true) ⊎ HasTag from_image)
      → Named from_image tag from_image
  tagged :
      is_empty tag ≡ false
      → contains from_image (codes "@") ≡ false
      → ¬ HasTag from_image
      → Named from_image tag (from_image ++ (b':' ∷ tag))

last_index_byte-any : (b : ℕ) (s : Text) → is_some (last_index_byte b s) ≡ any (λ d. d == b) s
unfolding last_index_byte
last_index_byte-any b [] = refl
last_index_byte-any b (c ∷ s) = step (last_index_byte b s) refl (last_index_byte-any b s)
  where
    step :
        (o : Option ℕ)
        → last_index_byte b s ≡ o
        → is_some (last_index_byte b s) ≡ any (λ d. d == b) s
        → is_some (last_index_byte b (c ∷ s)) ≡ any (λ d. d == b) (c ∷ s)
    step none e h =
        let clear : any (λ d. d == b) s ≡ false =
          subst (λ (o : Option ℕ). any (λ d. d == b) s ≡ is_some o) e (sym h) in
        rw (e, clear) (ground arith)
    step (some i) e h =
        let found : any (λ d. d == b) s ≡ true =
          subst (λ (o : Option ℕ). any (λ d. d == b) s ≡ is_some o) e (sym h) in
        rw (e, found) (ground arith)

abbrev slashed : Text → Bool
slashed = any (λ d. d == b'/')

-- One character more: the tag may begin with it, or there is one behind it.
has_tag_cons :
    (c : ℕ) (s : Text) → has_tag (c ∷ s) ≡ (has_tag s || ((c == b':') && not (slashed s)))
unfolding has_tag last_index_byte index_le
has_tag_cons c s =
    step (last_index_byte b':' s) (last_index_byte b'/' s) refl refl (last_index_byte-any b'/' s)
  where
    step :
        (colon slash : Option ℕ)
        → last_index_byte b':' s ≡ colon
        → last_index_byte b'/' s ≡ slash
        → is_some (last_index_byte b'/' s) ≡ slashed s
        → has_tag (c ∷ s) ≡ (has_tag s || ((c == b':') && not (slashed s)))
    step none none e f h =
        let clear : slashed s ≡ false = subst (λ (o : Option ℕ). slashed s ≡ is_some o) f (sym h) in
        rw (e, f, clear) (ground arith)
    step none (some j) e f h =
        let found : slashed s ≡ true = subst (λ (o : Option ℕ). slashed s ≡ is_some o) f (sym h) in
        rw (e, f, found) (ground arith)
    step (some i) none e f h =
        let clear : slashed s ≡ false = subst (λ (o : Option ℕ). slashed s ≡ is_some o) f (sym h) in
        rw (e, f) (ground (arith, clear))
    step (some i) (some j) e f h =
        let found : slashed s ≡ true = subst (λ (o : Option ℕ). slashed s ≡ is_some o) f (sym h) in
        rw (e, f, found) (ground arith)

has_tag-HasTag : (s : Text) → has_tag s ≡ true → HasTag s
unfolding has_tag last_index_byte index_le
has_tag-HasTag [] h = cc
has_tag-HasTag (c ∷ s) h = elim (Bool-cases (has_tag s)) [
  | inl e ↦ there (has_tag-HasTag s e)
  | inr e ↦
      let now : ((c == b':') && not (slashed s)) ≡ true =
        subst (λ (b : Bool). (b || ((c == b':') && not (slashed s))) ≡ true) e
          (sym (has_tag_cons c s) ∙ h) in
      here (ground (arith, now)) (ground (arith, now))
]

HasTag-has_tag : {s : Text} → HasTag s → has_tag s ≡ true
HasTag-has_tag (here {c = c} {s = s} colon clear) =
    has_tag_cons c s ∙ (rw clear (ground (arith, colon)))
HasTag-has_tag (there {c = c} {s = s} t) = has_tag_cons c s ∙ (rw (HasTag-has_tag t) refl)

module _ (from_image tag : Text) where
  pub combine_image_and_tag-Named : Named from_image tag (combine_image_and_tag from_image tag)
  unfolding combine_image_and_tag
  combine_image_and_tag-Named = elim (Bool-cases (is_empty tag)) [
    | inl e ↦ rw e (as_it_is (inl e))
    | inr e ↦ elim (Bool-cases (contains from_image (codes "@"))) [
      | inl at ↦ rw (e, at) (as_it_is (inr (inl at)))
      | inr at ↦ elim (Bool-cases (has_tag from_image)) [
        | inl t ↦ rw (e, at, t) (as_it_is (inr (inr (has_tag-HasTag from_image t))))
        | inr t ↦ rw (e, at, t) (tagged e at (λ x. absurd (cc (t, HasTag-has_tag x))))
      ]
    ]
  ]

  untagged : ¬ HasTag from_image → has_tag from_image ≡ false
  untagged never = elim (Bool-cases (has_tag from_image)) [
    | inl e ↦ absurd (never (has_tag-HasTag from_image e))
    | inr e ↦ e
  ]

  -- There is one such image.
  pub Named-combine_image_and_tag :
      {image : Text} → Named from_image tag image → combine_image_and_tag from_image tag ≡ image
  unfolding combine_image_and_tag
  Named-combine_image_and_tag (as_it_is (inl e)) = rw e refl
  Named-combine_image_and_tag (as_it_is (inr (inl at))) = ground (arith, at)
  Named-combine_image_and_tag (as_it_is (inr (inr t))) =
      let known : has_tag from_image ≡ true = HasTag-has_tag t in ground (arith, known)
  Named-combine_image_and_tag (tagged e at never) = rw (e, at, untagged never) refl
