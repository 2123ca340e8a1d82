-- ===== src/Store/Overrides/Inserted.antt =====
-- The row that `ApproveDigest`, `FreezeTag` or `BypassTag` reads back is the one that it has inserted.
use ribat.Base.{
  ℕ, suc, true, false, List, [], ◌∷◌, ◌++◌, some, all, keep, leb, ◌==◌, Text, ◌≡◌, refl, subst,
  arith, &&_split,
}
use ribat.Store.Rows.{Db, Approval, Freeze, Bypass}
use ribat.Store.World.{World, call, change, gets, ◌>>=◌}
use ribat.Store.World.Runs.{Runs, Runs-bind, Runs-then, Runs-change, Runs-gets, Runs-query, at}
use ribat.Store.Invariant.{IsWellFormed}
use ribat.Store.Overrides.{scan_approval, scan_freeze, scan_bypass}
use ribat.Store.Overrides.Granted.{with_approval, with_freeze, with_bypass}
use ribat.Store.Overrides.Insert.{
  Grant, insert_approval, insert_freeze, insert_bypass, approve_digest, freeze_tag, bypass_tag,
  get_approval, get_freeze, get_bypass,
}

insert_and_read-Runs :
    {A : Type 0} (s t u : Text) (f : Db → Db) (id : Db → ℕ) (get : ℕ → Db → A) (w : World)
    → Runs w (get (id (f w.db)) (f w.db)) (f w.db) (
        (call s >>= λ _. change f >>= λ _.
        call t >>= λ _. gets (λ v. id v.db) >>= λ i. call u >>= λ _. gets (λ v. get i v.db))
          w)
insert_and_read-Runs s t u f id get w = Runs-then s _ w λ w1.
    Runs-bind _ _ (at w.db w1) (Runs-change f (at w.db w1)) λ w2.
      Runs-then t _ (at (f w.db) w2) λ w3.
        Runs-bind _ _ (at (f w.db) w3) (Runs-gets (λ v. id v.db) (at (f w.db) w3))
          λ w4. Runs-query u (get (id (f w.db))) (at (f w.db) w4)

module _ {A : Type 0} (id : A → ℕ) where
  -- The row with the next id is the last one.
  keep_last :
      (n : ℕ) (l : List A) (x : A)
      → all (λ r. leb (id r) n) l ≡ true
      → id x ≡ suc n
      → keep (λ r. id r == suc n) (l ++ x ∷ []) ≡ x ∷ []
  unfolding keep
  keep_last n [] x h e = ground arith
  keep_last n (y ∷ l) x h e =
      let (first, later) = &&_split h in
      let other : (id y == suc n) ≡ false = ground arith in rw other (keep_last n l x later e)

module _ (g : Grant) (w : World) (good : IsWellFormed w.db) where
  pub freeze_tag-Runs :
      (digest : Text)
      → (row : Freeze) × Runs w (some row) (with_freeze g digest w.db) (freeze_tag g digest w)
  unfolding freeze_tag get_freeze insert_freeze scan_freeze
  freeze_tag-Runs digest = (
    _,
    subst (λ rows. Runs w (scan_freeze rows) (with_freeze g digest w.db) (freeze_tag g digest w))
        (keep_last (λ r. r.id) w.db.freezes.seq w.db.freezes.rows _ good.freezes.counted refl)
        (insert_and_read-Runs _ _ _ (with_freeze g digest) (λ db. db.freezes.seq)
          (λ i db. scan_freeze (keep (λ r. r.id == i) db.freezes.rows)) w),
  )

  pub approve_digest-Runs :
      (digest : Text)
      → (row : Approval) × Runs w
          (some row)
          (with_approval g digest w.db)
          (approve_digest g digest w)
  unfolding approve_digest get_approval insert_approval scan_approval
  approve_digest-Runs digest = (
    _,
    subst
        (λ rows.
          Runs w (scan_approval rows) (with_approval g digest w.db) (approve_digest g digest w))
        (keep_last (λ r. r.id) w.db.approvals.seq w.db.approvals.rows _ good.approvals.counted refl)
        (insert_and_read-Runs _ _ _ (with_approval g digest) (λ db. db.approvals.seq)
          (λ i db. scan_approval (keep (λ r. r.id == i) db.approvals.rows)) w),
  )

  pub bypass_tag-Runs : (row : Bypass) × Runs w (some row) (with_bypass g w.db) (bypass_tag g w)
  unfolding bypass_tag get_bypass insert_bypass scan_bypass
  bypass_tag-Runs = (
    _,
    subst (λ rows. Runs w (scan_bypass rows) (with_bypass g w.db) (bypass_tag g w))
        (keep_last (λ r. r.id) w.db.bypasses.seq w.db.bypasses.rows _ good.bypasses.counted refl)
        (insert_and_read-Runs _ _ _ (with_bypass g) (λ db. db.bypasses.seq)
          (λ i db. scan_bypass (keep (λ r. r.id == i) db.bypasses.rows)) w),
  )
