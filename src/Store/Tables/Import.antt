-- ===== src/Store/Tables/Import.antt =====
-- Rows that are put into a table one after the other, in whatever order they come.
use ribat.Base.{
  Bool, true, ◌&&◌, List, [], ◌∷◌, ◌++◌, ◌≡◌, ◌≢◌, refl, sym, ◌∙◌, ap, arith, ltb, Bool-cases, inl,
  inr, all, insert_by, sort_by, append_assoc, append-nil, &&_split, subst, ap₂,
}
use ribat.Store.Tables.{Keys, compatible, by_id, replace_row, replace_rows}
use ribat.Store.Tables.Order.{all-insert_by, keep-all, Apart, Pairwise, Ascending, sort-Pairwise}

module _ {A : Type 0} where
  pub all-sort_by :
      (p : A → Bool) (before : A → A → Bool) (l : List A) → all p (sort_by before l) ≡ all p l
  unfolding sort_by
  all-sort_by p before [] = refl
  all-sort_by p before (x ∷ l) =
      ground (arith, all-sort_by p before l, all-insert_by p before x (sort_by before l))

module _ {A : Type 0} (k : Keys A) (symmetric : (r s : A) → k.clash r s ≡ k.clash s r) where
  -- Each row of the first list may stand with each of the second.
  abbrev Across : List A → List A → Type 0
  Across l t = all (λ x. all (compatible k x) t) l ≡ true

  apart_ids : (x y : A) → compatible k x y ≡ true → k.id x ≢ k.id y
  apart_ids x y h e = ground arith

  insert_comm :
      (x y : A) (l : List A)
      → k.id x ≢ k.id y
      → insert_by (by_id k) x (insert_by (by_id k) y l)
        ≡ insert_by (by_id k) y (insert_by (by_id k) x l)
  unfolding insert_by by_id
  insert_comm x y [] h = ground arith
  insert_comm x y (z ∷ l) h = ground (arith, insert_comm x y l)

  replace-insert : (x : A) (t : List A) → Apart k x t → replace_row k x t ≡ insert_by (by_id k) x t
  unfolding replace_row
  replace-insert x t h = rw (keep-all (compatible k x) t h)

  Across-insert :
      (x : A) (l t : List A) → Apart k x l → Across l t → Across l (insert_by (by_id k) x t)
  Across-insert x [] t h a = refl
  Across-insert x (y ∷ l) t h a =
      ground
        (arith, symmetric x y, all-insert_by (compatible k y) (by_id k) x t, Across-insert x l t)

  Across-replace :
      (x : A) (l t : List A) → Apart k x l → Across (x ∷ l) t → Across l (replace_row k x t)
  Across-replace x l t h a =
      let (front, back) = &&_split a in rw (replace-insert x t front) (Across-insert x l t h back)

  replace_comm :
      (x y : A) (t : List A)
      → compatible k x y ≡ true
      → Apart k x t
      → Apart k y t
      → replace_row k x (replace_row k y t) ≡ replace_row k y (replace_row k x t)
  replace_comm x y t c h g =
      let far : Apart k x (insert_by (by_id k) y t) = rw (all-insert_by, c, h) in
      let near : Apart k y (insert_by (by_id k) x t) =
        rw all-insert_by (ground (arith, symmetric x y)) in
      rw
        (
          replace-insert y t g,
          replace-insert x t h,
          replace-insert x _ far,
          replace-insert y _ near,
        )
        (insert_comm x y t (apart_ids x y c))

  -- A row may as well be put in first.
  replace-moved :
      (before : A → A → Bool) (x : A) (l t : List A)
      → Apart k x l
      → Pairwise k l
      → Across (x ∷ l) t
      → replace_rows k (insert_by before x l) t ≡ replace_rows k (x ∷ l) t
  unfolding insert_by replace_rows
  replace-moved before x [] t h p a = refl
  replace-moved before x (y ∷ l) t h (g, p) a = elim (Bool-cases (before x y)) [
    | inl first ↦ rw first
    | inr later ↦
        let x_t : Apart k x t = (&&_split a).0 in
        let rest : Across (y ∷ l) t = (&&_split a).1 in
        let y_t : Apart k y t = (&&_split rest).0 in
        let l_t : Across l t = (&&_split rest).1 in
        let x_y : compatible k x y ≡ true = (&&_split h).0 in
        let x_l : Apart k x l = (&&_split h).1 in
        let y_x : compatible k y x ≡ true = ground (arith, symmetric x y) in
        let near : Across (x ∷ l) (replace_row k y t) =
          subst (Across (x ∷ l)) (sym (replace-insert y t y_t))
            (Across-insert y (x ∷ l) t (ap₂ ◌&&◌ y_x g) (ap₂ ◌&&◌ x_t l_t)) in
        rw later (
          replace-moved before x l (replace_row k y t) x_l p near
          ∙ ap (replace_rows k l) (replace_comm x y t x_y x_t y_t))
  ]

  -- The order in which rows come makes no difference.
  replace-sort_by :
      (before : A → A → Bool) (l t : List A)
      → Pairwise k l
      → Across l t
      → replace_rows k (sort_by before l) t ≡ replace_rows k l t
  unfolding sort_by replace_rows
  replace-sort_by before [] t p a = refl
  replace-sort_by before (x ∷ l) t (h, p) a =
      replace-moved before x (sort_by before l) t (all-sort_by (compatible k x) before l ∙ h)
        (sort-Pairwise k symmetric before l p)
        (ground (arith, all-sort_by (λ z. all (compatible k z) t) before l))
      ∙ replace-sort_by before l (replace_row k x t) p (Across-replace x l t h a)

  -- Each id of the second list is smaller than each of the first.
  abbrev Below : List A → List A → Type 0
  Below l t = all (λ x. all (λ s. by_id k s x) t) l ≡ true

  insert-last :
      (x : A) (t : List A) → all (λ s. by_id k s x) t ≡ true → insert_by (by_id k) x t ≡ t ++ x ∷ []
  unfolding insert_by by_id
  insert-last x [] h = refl
  insert-last x (s ∷ t) h = ground (arith, insert-last x t)

  Below-insert :
      (x : A) (l t : List A)
      → all (by_id k x) l ≡ true
      → Below l t
      → Below l (insert_by (by_id k) x t)
  unfolding by_id
  Below-insert x [] t h b = refl
  Below-insert x (y ∷ l) t h b = ground (
    arith,
    all-insert_by (λ s. ltb (k.id s) (k.id y)) (λ r s. ltb (k.id r) (k.id s)) x t,
    Below-insert x l t,
  )

  -- Rows in the order of their ids come behind those that are there.
  replace-Ascending :
      (l t : List A)
      → Ascending k l
      → Pairwise k l
      → Across l t
      → Below l t
      → replace_rows k l t ≡ t ++ l
  unfolding replace_rows
  replace-Ascending [] t g p a b = sym (append-nil t)
  replace-Ascending (x ∷ l) t (h, g) (apart, p) a b =
      let (x_t, l_t) = &&_split a in
      let (x_b, l_b) = &&_split b in
      replace-Ascending l (replace_row k x t) g p (Across-replace x l t apart a)
        (rw (replace-insert x t x_t) (Below-insert x l t h l_b))
      ∙ ap (λ u. u ++ l) (replace-insert x t x_t ∙ insert-last x t x_b)
      ∙ append_assoc t (x ∷ []) l

  empty_across : (l : List A) → all (λ x. true) l ≡ true
  empty_across [] = refl
  empty_across (x ∷ l) = empty_across l

  -- Well-formed rows that are put into an empty table, in any order, give the same rows.
  pub replace-restores :
      (before : A → A → Bool) (l : List A)
      → Ascending k l
      → Pairwise k l
      → replace_rows k (sort_by before l) [] ≡ l
  replace-restores before l g p =
      replace-sort_by before l [] p (empty_across l)
      ∙ replace-Ascending l [] g p (empty_across l) (empty_across l)
