-- ===== src/Store/Invariant/Imports.antt =====
-- A row that `INSERT OR REPLACE` puts into a well-formed table, and the import of a whole state.
use ribat.Base.{
  ℕ, Bool, true, ◌&&◌, List, [], ◌∷◌, leb, ltb, all, keep, insert_by, ◌≡◌, refl, ◌∙◌, arith,
  Bool-cases, inl, inr, &&_split, if◌then◌else◌, ap₂,
}
use ribat.Store.Rows.{Table}
use ribat.Store.Tables.{Keys, compatible, by_id, replace_row, import_row}
use ribat.Store.Tables.Order.{all-insert_by, Apart, Ascending, Pairwise, insert-Pairwise}
use ribat.Store.Invariant.{IsTable}

module _ {A : Type 0} where
  all_kept : (p q : A → Bool) (l : List A) → all p l ≡ true → all p (keep q l) ≡ true
  unfolding keep
  all_kept p q [] h = refl
  all_kept p q (x ∷ l) h = ground (arith, all_kept p q l)

  keep_holds : (p : A → Bool) (l : List A) → all p (keep p l) ≡ true
  unfolding keep
  keep_holds p [] = refl
  keep_holds p (x ∷ l) = ground (arith, keep_holds p l)

  all_weaken :
      (p q : A → Bool)
      → ((x : A) → p x ≡ true → q x ≡ true)
      → (l : List A) → all p l ≡ true
      → all q l ≡ true
  all_weaken p q h [] a = refl
  all_weaken p q h (x ∷ l) a =
      let (a_x, a_l) = &&_split a in ap₂ ◌&&◌ (h x a_x) (all_weaken p q h l a_l)

module _ {A : Type 0} (k : Keys A) (symmetric : (r s : A) → k.clash r s ≡ k.clash s r) where
  keep-Ascending : (q : A → Bool) (l : List A) → Ascending k l → Ascending k (keep q l)
  unfolding keep
  keep-Ascending q [] g = tt
  keep-Ascending q (x ∷ l) (h, g) = elim (Bool-cases (q x)) [
    | inl e ↦ rw e (all_kept (by_id k x) q l h, keep-Ascending q l g)
    | inr e ↦ rw e (keep-Ascending q l g)
  ]

  keep-Pairwise : (q : A → Bool) (l : List A) → Pairwise k l → Pairwise k (keep q l)
  unfolding keep
  keep-Pairwise q [] g = tt
  keep-Pairwise q (x ∷ l) (h, g) = elim (Bool-cases (q x)) [
    | inl e ↦ rw e (all_kept (compatible k x) q l h, keep-Pairwise q l g)
    | inr e ↦ rw e (keep-Pairwise q l g)
  ]

  insert-Ascending :
      (x : A) (l : List A) → Apart k x l → Ascending k l → Ascending k (insert_by (by_id k) x l)
  unfolding insert_by by_id
  insert-Ascending x [] a g = (refl, tt)
  insert-Ascending x (y ∷ l) a (h, g) = elim (Bool-cases (ltb (k.id x) (k.id y))) [
    | inl e ↦ rw e (
      ap₂ ◌&&◌ e (all_weaken _ (λ s. ltb (k.id x) (k.id s)) (λ s less. ground arith) l h),
      (h, g),
    )
    | inr e ↦
        let front : ltb (k.id y) (k.id x) ≡ true = ground arith in
        rw e (
          all-insert_by (λ s. ltb (k.id y) (k.id s)) (λ r s. ltb (k.id r) (k.id s)) x l
              ∙ ap₂ ◌&&◌ front h,
          insert-Ascending x l (&&_split a).1 g,
        )
  ]

  pub import_row-IsTable : (r : A) (t : Table A) → IsTable k t → IsTable k (import_row k r t)
  unfolding import_row replace_row
  import_row-IsTable r t v =
      let others : List A = keep (compatible k r) t.rows in
      let apart : Apart k r others = keep_holds (compatible k r) t.rows in
      let top : ℕ = if leb t.seq (k.id r) then k.id r else t.seq in
      let first : leb (k.id r) top ≡ true = ground arith in
      let old : all (λ s. leb (k.id s) top) t.rows ≡ true =
        all_weaken (λ s. leb (k.id s) t.seq) (λ s. leb (k.id s) top) (λ s h. ground arith) t.rows
          v.counted in
      record {
        ascending =
            insert-Ascending r others apart (keep-Ascending (compatible k r) t.rows v.ascending);
        pairwise =
            insert-Pairwise k symmetric (by_id k) r others apart
              (keep-Pairwise (compatible k r) t.rows v.pairwise);
        counted =
            all-insert_by (λ s. leb (k.id s) top) (by_id k) r others
            ∙ ap₂ ◌&&◌ first (all_kept (λ s. leb (k.id s) top) (compatible k r) t.rows old);
      }

module _ {A : Type 0} (k : Keys A) where
  pub all-import_row :
      (p : A → Bool) (r : A) (t : Table A)
      → p r ≡ true
      → all p t.rows ≡ true
      → all p (import_row k r t).rows ≡ true
  unfolding import_row replace_row
  all-import_row p r t h a =
      all-insert_by p (by_id k) r (keep (compatible k r) t.rows)
      ∙ ap₂ ◌&&◌ h (all_kept p (compatible k r) t.rows a)
