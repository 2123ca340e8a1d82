-- ===== src/Regex/Lang.antt =====
-- The language of an expression, with no search in it, and the proof that the matcher decides it.
use ribat.Base.{
  ℕ, zero, suc, true, [], ◌∷◌, ◌++◌, ◌≡◌, refl, sym, ap, ◌∙◌, ◌⊎◌, inl, inr, ◌↔◌, subst, arith,
  Bool-cases, Text, subst,
}
use ribat.Regex.{
  Regex, never, eps, set, seq, alt, star, at_most, in_set, nullable, seq', alt', deriv,
  match_string,
}

-- Any number of texts of `P`, one after the other; at most `n` of them.
pub data Many (P : Text → Type 0) : Text → Type 0 where
  done : Many P []
  more : {u v w : Text} → P u → Many P v → w ≡ u ++ v → Many P w

pub data UpTo (P : Text → Type 0) : ℕ → Text → Type 0 where
  enough : {n : ℕ} → UpTo P n []
  another : {n : ℕ} {u v w : Text} → P u → UpTo P n v → w ≡ u ++ v → UpTo P (suc n) w

abbrev pub Lang : Regex → Text → Type 0
Lang never s = ⊥
Lang eps s = s ≡ []
Lang (set spans) s = (c : ℕ) × (s ≡ c ∷ []) × (in_set spans c ≡ true)
Lang (seq r q) s = (u : Text) × (v : Text) × (s ≡ u ++ v) × Lang r u × Lang q v
Lang (alt r q) s = Lang r s ⊎ Lang q s
Lang (star r) s = Many (Lang r) s
Lang (at_most n r) s = UpTo (Lang r) n s

-- The first text of a non-empty run that is itself not empty, and the rest of the run.
pub Many-cons :
    {P : Text → Type 0} (c : ℕ) (s : Text) {w : Text}
    → w ≡ c ∷ s
    → Many P w
    → (u : Text) × (v : Text) × (s ≡ u ++ v) × P (c ∷ u) × Many P v
Many-cons c s e done = cc
Many-cons c s e (more {u = []} {v} p m f) = Many-cons c s (sym f ∙ e) m
Many-cons {P} c s e (more {u = a ∷ u} {v} p m f) =
    (u, v, cc, subst (λ (x : ℕ). P (x ∷ u)) (cc) p, m)

UpTo-suc : {P : Text → Type 0} {n : ℕ} {w : Text} → UpTo P n w → UpTo P (suc n) w
UpTo-suc enough = enough
UpTo-suc (another p m f) = another p (UpTo-suc m) f

UpTo-cons :
    {P : Text → Type 0} {n : ℕ} (c : ℕ) (s : Text) {w : Text}
    → w ≡ c ∷ s
    → UpTo P n w
    → (k : ℕ) × (n ≡ suc k) × (u : Text) × (v : Text) × (s ≡ u ++ v) × P (c ∷ u) × UpTo P k v
UpTo-cons c s e enough = cc
UpTo-cons {P} c s e (another {n} {u = []} {v} p m f) =
    let (k, nk, u', v', split, pu, rest) = UpTo-cons c s (sym f ∙ e) m in
    (n, refl, u', v', split, pu, subst (λ j. UpTo P j v') (sym nk) (UpTo-suc rest))
UpTo-cons {P} c s e (another {n} {u = a ∷ u} {v} p m f) =
    (n, refl, u, v, cc, subst (λ (x : ℕ). P (x ∷ u)) (cc) p, m)

module _ (s : Text) where
  seq'_iff : (r q : Regex) → Lang (seq' r q) s ↔ Lang (seq r q) s
  unfolding seq'
  seq'_iff never q = (λ h. absurd h, λ h. h.3)
  seq'_iff eps q = (
    λ h. ([], s, refl, refl, h),
    λ h. subst (Lang q) (sym (h.2 ∙ ap (λ (u : Text). u ++ h.1) h.3)) h.4,
  )
  seq'_iff (set x) q = (λ h. h, λ h. h)
  seq'_iff (seq a b) q = (λ h. h, λ h. h)
  seq'_iff (alt a b) q = (λ h. h, λ h. h)
  seq'_iff (star a) q = (λ h. h, λ h. h)
  seq'_iff (at_most n a) q = (λ h. h, λ h. h)

  alt'_iff : (r q : Regex) → Lang (alt' r q) s ↔ Lang (alt r q) s
  unfolding alt'
  alt'_iff never q = (λ h. inr h, elim [ inl h ↦ absurd h | inr h ↦ h ])
  alt'_iff eps q = (λ h. h, λ h. h)
  alt'_iff (set x) q = (λ h. h, λ h. h)
  alt'_iff (seq a b) q = (λ h. h, λ h. h)
  alt'_iff (alt a b) q = (λ h. h, λ h. h)
  alt'_iff (star a) q = (λ h. h, λ h. h)
  alt'_iff (at_most n a) q = (λ h. h, λ h. h)

append-eq-nil : (u v : Text) → [] ≡ u ++ v → (u ≡ []) × (v ≡ [])
append-eq-nil [] v h = (refl, sym h)
append-eq-nil (x ∷ u) v h = cc

nullable_iff : (r : Regex) → (nullable r ≡ true) ↔ Lang r []
unfolding nullable
nullable_iff never = (λ h. cc, λ h. absurd h)
nullable_iff eps = (λ h. refl, λ h. refl)
nullable_iff (set x) = (λ h. cc, λ h. cc (h.1))
nullable_iff (seq r q) = (
  λ h. ([], [], refl, (nullable_iff r).0 (ground arith), (nullable_iff q).0 (ground arith)),
  λ (u, v, split, hu, hv).
      let (eu, ev) = append-eq-nil u v split in
      rw ((nullable_iff r).1 (subst (Lang r) eu hu), (nullable_iff q).1 (subst (Lang q) ev hv)),
)
nullable_iff (alt r q) = (
  λ h. elim (Bool-cases (nullable r)) [
    | inl e ↦ inl ((nullable_iff r).0 e)
    | inr e ↦ inr ((nullable_iff q).0 (ground arith))
  ],
  elim [ inl h ↦ rw ((nullable_iff r).1 h) | inr h ↦ ground (arith, (nullable_iff q).1 h) ],
)
nullable_iff (star r) = (λ h. done, λ h. refl)
nullable_iff (at_most n r) = (λ h. enough, λ h. refl)

-- A split of `c ∷ s` after its first letter, or before it.
seq-cons :
    (P Q : Text → Type 0) (c : ℕ) (s u v : Text)
    → c ∷ s ≡ u ++ v
    → P u
    → Q v
    → (P [] × Q (c ∷ s)) ⊎ ((u' : Text) × (s ≡ u' ++ v) × P (c ∷ u') × Q v)
seq-cons P Q c s [] v e p q = inl (p, subst Q (sym e) q)
seq-cons P Q c s (a ∷ u) v e p q = inr (u, cc, subst (λ (x : ℕ). P (x ∷ u)) (cc) p, q)

module _ (c : ℕ) where
  seq_front :
      (r q : Regex) (s : Text)
      → ((u : Text) → Lang (deriv r c) u → Lang r (c ∷ u))
      → Lang (seq' (deriv r c) q) s
      → Lang (seq r q) (c ∷ s)
  seq_front r q s step h =
      let (u, v, e, p, m) = (seq'_iff s (deriv r c) q).0 h in (c ∷ u, v, ap (◌∷◌ c) e, step u p, m)

  deriv→Lang : (r : Regex) (s : Text) → Lang (deriv r c) s → Lang r (c ∷ s)
  unfolding deriv
  deriv→Lang never s h = h
  deriv→Lang eps s h = absurd h
  deriv→Lang (set x) s h = elim (Bool-cases (in_set x c)) [
    | inl e ↦ (c, ap (◌∷◌ c) (rw e at h), e)
    | inr e ↦ absurd (rw e at h)
  ]
  deriv→Lang (seq r q) s h = elim (Bool-cases (nullable r)) [
    | inl e ↦ elim ((alt'_iff s (seq' (deriv r c) q) (deriv q c)).0 (rw e at h)) [
      | inl p ↦ seq_front r q s (deriv→Lang r) p
      | inr p ↦ ([], c ∷ s, refl, (nullable_iff r).0 e, deriv→Lang q s p)
    ]
    | inr e ↦ seq_front r q s (deriv→Lang r) (rw e at h)
  ]
  deriv→Lang (alt r q) s h = elim ((alt'_iff s (deriv r c) (deriv q c)).0 h) [
    | inl p ↦ inl (deriv→Lang r s p)
    | inr p ↦ inr (deriv→Lang q s p)
  ]
  deriv→Lang (star r) s h =
      let (u, v, e, p, m) = (seq'_iff s (deriv r c) (star r)).0 h in
      more (deriv→Lang r u p) m (ap (◌∷◌ c) e)
  deriv→Lang (at_most zero r) s h = absurd h
  deriv→Lang (at_most (suc n) r) s h =
      let (u, v, e, p, m) = (seq'_iff s (deriv r c) (at_most n r)).0 h in
      another (deriv→Lang r u p) m (ap (◌∷◌ c) e)

  Lang→deriv : (r : Regex) (s : Text) → Lang r (c ∷ s) → Lang (deriv r c) s
  unfolding deriv
  Lang→deriv never s h = h
  Lang→deriv eps s h = cc
  Lang→deriv (set x) s (d, e, m) =
      let here : in_set x c ≡ true = subst (λ (y : ℕ). in_set x y ≡ true) (cc) m in rw here (cc)
  Lang→deriv (seq r q) s (u, v, e, p, m) = elim (seq-cons (Lang r) (Lang q) c s u v e p m) [
    | inl (p, m) ↦
        rw ((nullable_iff r).1 p)
          ((alt'_iff s (seq' (deriv r c) q) (deriv q c)).1 (inr (Lang→deriv q s m)))
    | inr (u, f, p, m) ↦
        let front = (seq'_iff s (deriv r c) q).1 (u, v, f, Lang→deriv r u p, m) in
        elim (Bool-cases (nullable r)) [
          | inl e ↦ rw e ((alt'_iff s (seq' (deriv r c) q) (deriv q c)).1 (inl front))
          | inr e ↦ rw e front
        ]
  ]
  Lang→deriv (alt r q) s h =
      (alt'_iff s (deriv r c) (deriv q c)).1
        (elim h [ inl p ↦ inl (Lang→deriv r s p) | inr p ↦ inr (Lang→deriv q s p) ])
  Lang→deriv (star r) s h =
      let (u, v, e, p, m) = Many-cons c s refl h in
      (seq'_iff s (deriv r c) (star r)).1 (u, v, e, Lang→deriv r u p, m)
  Lang→deriv (at_most zero r) s h = let (k, nk, _, _, _, _, _) = UpTo-cons c s refl h in omega arith
  Lang→deriv (at_most (suc n) r) s h =
      let (k, nk, u, v, e, p, m) = UpTo-cons c s refl h in
      (seq'_iff s (deriv r c) (at_most n r)).1
        (u, v, e, Lang→deriv r u p, subst (λ j. UpTo (Lang r) j v) (cc) m)

-- The matcher decides the language.
pub match_string_iff : (r : Regex) (s : Text) → (match_string r s ≡ true) ↔ Lang r s
unfolding match_string
match_string_iff r [] = nullable_iff r
match_string_iff r (c ∷ s) = (
  λ h. deriv→Lang c r s ((match_string_iff (deriv r c) s).0 h),
  λ h. (match_string_iff (deriv r c) s).1 (Lang→deriv c r s h),
)
