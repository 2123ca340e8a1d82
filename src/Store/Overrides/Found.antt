-- ===== src/Store/Overrides/Found.antt =====
-- A query for an override finds something exactly if some row of the table is active.
use ribat.Base.{
  Bool, true, false, List, [], ◌∷◌, ◌++◌, is_some, any, any-append, keep, insert_by, sort_by, Text,
  ◌≡◌, refl, ◌∙◌, arith, Bool-cases, inl, inr,
}
use ribat.Time.{Time, unix}
use ribat.Store.Rows.{Db, ApprovalRow, FreezeRow, BypassRow}
use ribat.Store.Overrides.{
  find_approval, find_freeze, find_bypass, is_active_approval, is_active_freeze, is_active_bypass,
  scan_approval, scan_freeze, scan_bypass,
}

module _ {A : Type 0} where
  pub has_any : List A → Bool
  has_any [] = false
  has_any (x ∷ l) = true

  has_any-insert_by :
      (before : A → A → Bool) (x : A) (l : List A) → has_any (insert_by before x l) ≡ true
  unfolding has_any insert_by
  has_any-insert_by before x [] = refl
  has_any-insert_by before x (y ∷ l) = elim (Bool-cases (before x y)) [
    | inl e ↦ rw e refl
    | inr e ↦ rw e refl
  ]

  has_any-sort_by : (before : A → A → Bool) (l : List A) → has_any (sort_by before l) ≡ has_any l
  unfolding has_any sort_by
  has_any-sort_by before [] = refl
  has_any-sort_by before (x ∷ l) = has_any-insert_by before x (sort_by before l)

  has_any-keep : (p : A → Bool) (l : List A) → has_any (keep p l) ≡ any p l
  unfolding has_any keep
  has_any-keep p [] = refl
  has_any-keep p (x ∷ l) = elim (Bool-cases (p x)) [
    | inl e ↦ rw e refl
    | inr e ↦ rw e (has_any-keep p l)
  ]

scan_approval-some : (l : List ApprovalRow) → is_some (scan_approval l) ≡ has_any l
unfolding scan_approval has_any
scan_approval-some [] = refl
scan_approval-some (r ∷ l) = refl

scan_freeze-some : (l : List FreezeRow) → is_some (scan_freeze l) ≡ has_any l
unfolding scan_freeze has_any
scan_freeze-some [] = refl
scan_freeze-some (r ∷ l) = refl

scan_bypass-some : (l : List BypassRow) → is_some (scan_bypass l) ≡ has_any l
unfolding scan_bypass has_any
scan_bypass-some [] = refl
scan_bypass-some (r ∷ l) = refl

module _ (registry repository tag digest : Text) (now : Time) (db : Db) where
  pub find_approval-any :
      is_some (find_approval registry repository tag digest now db)
      ≡ any (is_active_approval registry repository tag digest (unix now)) db.approvals.rows
  unfolding find_approval
  find_approval-any = scan_approval-some _ ∙ has_any-sort_by _ _ ∙ has_any-keep _ db.approvals.rows

  pub find_freeze-any :
      is_some (find_freeze registry repository tag digest now db)
      ≡ any (is_active_freeze registry repository tag digest (unix now)) db.freezes.rows
  unfolding find_freeze
  find_freeze-any = scan_freeze-some _ ∙ has_any-sort_by _ _ ∙ has_any-keep _ db.freezes.rows

  pub find_bypass-any :
      is_some (find_bypass registry repository tag now db)
      ≡ any (is_active_bypass registry repository tag (unix now)) db.bypasses.rows
  unfolding find_bypass
  find_bypass-any = scan_bypass-some _ ∙ has_any-sort_by _ _ ∙ has_any-keep _ db.bypasses.rows

-- A row behind the others.
pub any-last :
    {A : Type 0} (p : A → Bool) (l : List A) (x : A) → p x ≡ true → any p (l ++ x ∷ []) ≡ true
any-last p l x h = ground (arith, any-append p l (x ∷ []))
