-- ===== src/Store/Tables/Order.antt =====
-- Rows that are put into an empty table, in whatever order they come.
use ribat.Base.{Bool, true, ◌&&◌, List, [], ◌∷◌, ◌≡◌, refl, arith, all, keep, insert_by, sort_by}
use ribat.Store.Tables.{Keys, compatible, by_id}

module _ {A : Type 0} where
  pub all-insert_by :
      (p : A → Bool) (before : A → A → Bool) (x : A) (l : List A)
      → all p (insert_by before x l) ≡ (p x && all p l)
  unfolding insert_by
  all-insert_by p before x [] = refl
  all-insert_by p before x (y ∷ l) = ground (arith, all-insert_by p before x l)

  pub keep-all : (p : A → Bool) (l : List A) → all p l ≡ true → keep p l ≡ l
  unfolding keep
  keep-all p [] h = refl
  keep-all p (x ∷ l) h = ground (arith, keep-all p l)

module _ {A : Type 0} (k : Keys A) where
  -- A row may stand with each of a list.
  abbrev pub Apart : A → List A → Type 0
  Apart x l = all (compatible k x) l ≡ true

  abbrev pub Pairwise : List A → Type 0
  Pairwise [] = Unit
  Pairwise (x ∷ l) = Apart x l × Pairwise l

  -- The ids grow.
  abbrev pub Ascending : List A → Type 0
  Ascending [] = Unit
  Ascending (x ∷ l) = (all (by_id k x) l ≡ true) × Ascending l

  -- Each row of the first list may stand with each of the second.
  abbrev Across : List A → List A → Type 0
  Across [] t = Unit
  Across (x ∷ l) t = Apart x t × Across l t

  module _ (symmetric : (r s : A) → k.clash r s ≡ k.clash s r) where
    compatible_comm : (r s : A) → compatible k r s ≡ compatible k s r
    compatible_comm r s = ground (arith, symmetric r s)

    pub insert-Pairwise :
        (before : A → A → Bool) (x : A) (l : List A)
        → Apart x l
        → Pairwise l
        → Pairwise (insert_by before x l)
    unfolding insert_by
    insert-Pairwise before x [] h p = (refl, tt)
    insert-Pairwise before x (y ∷ l) h p = ground (
      arith,
      compatible_comm x y,
      all-insert_by (compatible k y) before x l,
      insert-Pairwise before x l,
    )

    Apart-insert :
        (before : A → A → Bool) (x y : A) (l : List A)
        → compatible k x y ≡ true
        → Apart x l
        → Apart x (insert_by before y l)
    Apart-insert before x y l c h = rw (all-insert_by, c, h)

    Apart-sort :
        (before : A → A → Bool) (x : A) (l : List A) → Apart x l → Apart x (sort_by before l)
    unfolding sort_by
    Apart-sort before x [] h = h
    Apart-sort before x (y ∷ l) h =
        ground (arith, Apart-sort before x l, Apart-insert before x y (sort_by before l))

    pub sort-Pairwise :
        (before : A → A → Bool) (l : List A) → Pairwise l → Pairwise (sort_by before l)
    unfolding sort_by
    sort-Pairwise before [] p = tt
    sort-Pairwise before (x ∷ l) (h, p) =
        insert-Pairwise before x (sort_by before l) (Apart-sort before x l h)
          (sort-Pairwise before l p)
