-- ===== src/Store/Invariant/Tables.antt =====
-- How the invariant of a table survives the statements.
use ribat.Base.{
  ℕ, suc, Bool, true, false, ◌&&◌, List, [], ◌∷◌, ◌++◌, map, leb, any, all, all-append, ◌≡◌, refl,
  ◌∙◌, ap, ap₂, arith, &&_split,
}
use ribat.Store.Rows.{Table}
use ribat.Store.Tables.{Keys, compatible, by_id}
use ribat.Store.Tables.Order.{Ascending, Pairwise}
use ribat.Store.Invariant.{IsTable}

module _ {A : Type 0} (k : Keys A) where
  -- Behind rows with smaller ids.
  Ascending-last :
      (n : ℕ) (x : A) (l : List A)
      → Ascending k l
      → all (λ r. leb (k.id r) n) l ≡ true
      → k.id x ≡ suc n
      → Ascending k (l ++ x ∷ [])
  unfolding by_id
  Ascending-last n x [] g h e = (refl, tt)
  Ascending-last n x (y ∷ l) (g, gs) h e = (
    all-append (by_id k y) l (x ∷ []) ∙ ap₂ ◌&&◌ g (ground arith),
    Ascending-last n x l gs (&&_split h).1 e,
  )

  Pairwise-last :
      (n : ℕ) (x : A) (l : List A)
      → Pairwise k l
      → all (λ r. leb (k.id r) n) l ≡ true
      → k.id x ≡ suc n
      → any (λ r. k.clash r x) l ≡ false
      → Pairwise k (l ++ x ∷ [])
  Pairwise-last n x [] p h e c = (refl, tt)
  Pairwise-last n x (y ∷ l) (p, ps) h e c = (
    all-append (compatible k y) l (x ∷ []) ∙ ap₂ ◌&&◌ p (ground arith),
    Pairwise-last n x l ps (&&_split h).1 e (ground arith),
  )

  counted-last :
      (n : ℕ) (x : A) (l : List A)
      → all (λ r. leb (k.id r) n) l ≡ true
      → k.id x ≡ suc n
      → all (λ r. leb (k.id r) (suc n)) (l ++ x ∷ []) ≡ true
  counted-last n x [] h e = ground arith
  counted-last n x (y ∷ l) h e = ground (arith, counted-last n x l)

  -- A new row with the next id, which breaks no UNIQUE constraint.
  pub append-IsTable :
      (x : A) (t : Table A)
      → IsTable k t
      → k.id x ≡ suc t.seq
      → any (λ r. k.clash r x) t.rows ≡ false
      → IsTable k (record { rows = t.rows ++ x ∷ []; seq = suc t.seq })
  append-IsTable x t v e c = record {
    ascending = Ascending-last t.seq x t.rows v.ascending v.counted e;
    pairwise = Pairwise-last t.seq x t.rows v.pairwise v.counted e c;
    counted = counted-last t.seq x t.rows v.counted e;
  }

  module _ (f : A → A) (same_id : (r : A) → k.id (f r) ≡ k.id r)
      (same_clash : (r s : A) → k.clash (f r) (f s) ≡ k.clash r s) where
    all-update :
        (p q : A → Bool) → ((r : A) → p (f r) ≡ q r) → (l : List A) → all p (map f l) ≡ all q l
    all-update p q h [] = refl
    all-update p q h (r ∷ l) = ap₂ ◌&&◌ (h r) (all-update p q h l)

    same_compatible : (r s : A) → compatible k (f r) (f s) ≡ compatible k r s
    same_compatible r s = ground (arith, same_id r, same_id s, same_clash r s)

    same_order : (r s : A) → by_id k (f r) (f s) ≡ by_id k r s
    unfolding by_id
    same_order r s = ground (arith, same_id r, same_id s)

    Ascending-update : (l : List A) → Ascending k l → Ascending k (map f l)
    Ascending-update [] g = tt
    Ascending-update (x ∷ l) (g, gs) =
        (all-update (by_id k (f x)) (by_id k x) (same_order x) l ∙ g, Ascending-update l gs)

    Pairwise-update : (l : List A) → Pairwise k l → Pairwise k (map f l)
    Pairwise-update [] p = tt
    Pairwise-update (x ∷ l) (p, ps) = (
      all-update (compatible k (f x)) (compatible k x) (same_compatible x) l ∙ p,
      Pairwise-update l ps,
    )

    -- An update of rows that leaves the ids and what UNIQUE constraints compare.
    pub update-IsTable : (t : Table A) → IsTable k t → IsTable k (record t { rows = map f t.rows })
    update-IsTable t v = record {
      ascending = Ascending-update t.rows v.ascending;
      pairwise = Pairwise-update t.rows v.pairwise;
      counted =
          all-update (λ r. leb (k.id r) t.seq) (λ r. leb (k.id r) t.seq)
            (λ r. ap (λ (n : ℕ). leb n t.seq) (same_id r)) t.rows
          ∙ v.counted;
    }
