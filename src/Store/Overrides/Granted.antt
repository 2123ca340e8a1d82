-- ===== src/Store/Overrides/Granted.antt =====
-- What a grant that succeeds leaves: its row is active for whatever it covers until it expires.
use ribat.Base.{ℕ, true, [], is_some, Text, text_eq_refl, ◌≡◌, refl, ◌∙◌, ap}
use ribat.Time.{Time, unix, nullable_unix}
use ribat.Store.Rows.{Db, nullable_string}
use ribat.Store.World.{World, call, change, gets, ◌>>=◌}
use ribat.Store.World.Gives.{Gives, Gives-bind, Unchanged, call-Gives}
use ribat.Store.Overrides.{
  find_approval, find_freeze, find_bypass, is_active_approval, is_active_freeze, is_active_bypass,
  not_expired, covers,
}
use ribat.Store.Overrides.Found.{find_approval-any, find_freeze-any, find_bypass-any, any-last}
use ribat.Store.Overrides.Insert.{
  Grant, insert_approval, insert_freeze, insert_bypass, approve_digest, freeze_tag, bypass_tag,
  get_approval, get_freeze, get_bypass,
}

-- The tables after each of the three.
abbrev pub with_approval : Grant → Text → Db → Db
with_approval g digest db = record db { approvals = insert_approval g digest db.approvals }

abbrev pub with_freeze : Grant → Text → Db → Db
with_freeze g digest db = record db { freezes = insert_freeze g digest db.freezes }

abbrev pub with_bypass : Grant → Db → Db
with_bypass g db = record db { bypasses = insert_bypass g db.bypasses }

-- An `INSERT` and the query of its row, when both succeed.
insert_and_read-Gives :
    {A : Type 0} (s t u : Text) (f : Db → Db) (id : World → ℕ) (get : ℕ → World → A) (w : World)
    → Gives
        (λ a v. v.db ≡ f w.db)
        ((call s >>= λ _.
            change f >>= λ _. call t >>= λ _. gets id >>= λ i. call u >>= λ _. gets (get i))
          w)
unfolding change gets
insert_and_read-Gives s t u f id get w =
    Gives-bind (Unchanged w) _ _ _ w (call-Gives s w) λ x v (kept, log).
      Gives-bind (λ y v'. v'.db ≡ f v.db) _ _ _ v refl
        λ y v' changed. Gives-bind (Unchanged v') _ _ _ v' (call-Gives t v') λ z v'' (kept', log').
          Gives-bind (λ i v'''. v''' ≡ v'') _ _ _ v'' refl
            λ i v''' same.
              Gives-bind (Unchanged v''') _ _ _ v''' (call-Gives u v''') λ a u' (kept'', log'').
                kept'' ∙ ap (λ (x : World). x.db) same ∙ kept' ∙ changed ∙ ap f kept

module _ (g : Grant) (w : World) where
  pub approve_digest-Gives :
      (digest : Text)
      → Gives (λ a v. v.db ≡ with_approval g digest w.db) (approve_digest g digest w)
  unfolding approve_digest get_approval
  approve_digest-Gives digest = insert_and_read-Gives _ _ _ (with_approval g digest) _ _ w

  pub freeze_tag-Gives :
      (digest : Text) → Gives (λ a v. v.db ≡ with_freeze g digest w.db) (freeze_tag g digest w)
  unfolding freeze_tag get_freeze
  freeze_tag-Gives digest = insert_and_read-Gives _ _ _ (with_freeze g digest) _ _ w

  pub bypass_tag-Gives : Gives (λ a v. v.db ≡ with_bypass g w.db) (bypass_tag g w)
  unfolding bypass_tag get_bypass
  bypass_tag-Gives = insert_and_read-Gives _ _ _ (with_bypass g) _ _ w

module _ (g : Grant) (now : Time) (db : Db)
    (lasts : not_expired (nullable_unix g.expires_at) (unix now) ≡ true) where
  pub with_approval-found :
      (digest : Text)
      → is_some (find_approval g.registry g.repository g.tag digest now (with_approval g digest db))
        ≡ true
  unfolding insert_approval is_active_approval
  with_approval-found digest =
      find_approval-any g.registry g.repository g.tag digest now _
      ∙ any-last _ db.approvals.rows _ (
          simp (
            text_eq_refl g.registry,
            text_eq_refl g.repository,
            text_eq_refl g.tag,
            text_eq_refl digest,
            lasts,
          ))

  -- A freeze of a tag covers every digest.
  pub with_freeze-found :
      (digest target : Text)
      → covers (nullable_string digest) target ≡ true
      → is_some (find_freeze g.registry g.repository g.tag target now (with_freeze g digest db))
        ≡ true
  unfolding insert_freeze is_active_freeze
  with_freeze-found digest target covered =
      find_freeze-any g.registry g.repository g.tag target now _
      ∙ any-last _ db.freezes.rows _ (
          simp (
            text_eq_refl g.registry,
            text_eq_refl g.repository,
            text_eq_refl g.tag,
            covered,
            lasts,
          ))

  pub with_bypass-found :
      is_some (find_bypass g.registry g.repository g.tag now (with_bypass g db)) ≡ true
  unfolding insert_bypass is_active_bypass
  with_bypass-found =
      find_bypass-any g.registry g.repository g.tag [] now _
      ∙ any-last _ db.bypasses.rows _
          (simp (text_eq_refl g.registry, text_eq_refl g.repository, text_eq_refl g.tag, lasts))
