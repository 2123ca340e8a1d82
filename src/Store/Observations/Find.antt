-- ===== src/Store/Observations/Find.antt =====
-- What `GetObservation` finds, before and after `CreateObservation`.
use ribat.Base.{
  ℕ, suc, ℤ, true, Option, none, some, List, [], ◌∷◌, Text, ◌≡◌, refl, ap, arith, any, keep, ◌==◌,
  ==_iff, Bool-cases, inl, inr, text_eq_refl, any-append, keep_of_any, any_of_keep,
}
use ribat.Time.{Time, unix}
use ribat.Store.Rows.{Db, Observation, ObservationRow, Table, scan_observation_value}
use ribat.Store.Observations.{
  find_observation, scan_first, insert_observation, new_observation, affected, is_observation,
  update_rows, update_observation, touch,
}
use ribat.Store.Observations.Runs.{with_observation}

abbrev id_or_zero : Option Observation → ℕ
id_or_zero none = 0
id_or_zero (some obs) = obs.id

module _ (registry repository tag digest : Text) where
  is_new :
      (ts : ℤ) (id : ℕ)
      → is_observation registry repository tag digest
          (new_observation registry repository tag digest ts id)
        ≡ true
  unfolding is_observation
  is_new ts id =
      ground (
        arith,
        text_eq_refl registry,
        text_eq_refl repository,
        text_eq_refl tag,
        text_eq_refl digest,
      )

  any→find :
      (db : Db)
      → any (is_observation registry repository tag digest) db.tag_observations.rows ≡ true
      → (obs : Observation) × (find_observation registry repository tag digest db ≡ some obs)
  unfolding find_observation
  any→find db h =
      let (r, rest, e) = keep_of_any (is_observation registry repository tag digest) _ h in
      (scan_observation_value r, ap scan_first e)

  -- The row that an observation was read from is there to be updated.
  pub find→affected :
      (db : Db) (obs : Observation)
      → find_observation registry repository tag digest db ≡ some obs
      → affected obs.id db ≡ true
  unfolding find_observation affected scan_observation_value
  find→affected db obs h =
      go (keep (is_observation registry repository tag digest) db.tag_observations.rows) refl h
    where
      go :
          (rows : List ObservationRow)
          → keep (is_observation registry repository tag digest) db.tag_observations.rows ≡ rows
          → scan_first rows ≡ some obs
          → any (λ r. r.id == obs.id) db.tag_observations.rows ≡ true
      go [] e h = cc
      go (r ∷ rest) e h =
          any_of_keep _ (λ r. r.id == obs.id) _ r rest e ((==_iff r.id obs.id).1 (ap id_or_zero h))

  any-insert :
      (ts : ℤ) (t : Table ObservationRow)
      → any
          (is_observation registry repository tag digest)
          (insert_observation registry repository tag digest ts t).rows
        ≡ true
  unfolding insert_observation
  any-insert ts t = elim (Bool-cases (any (is_observation registry repository tag digest) t.rows)) [
    | inl old ↦ rw old old
    | inr new ↦ rw (new, any-append, new, is_new ts (suc t.seq))
  ]

  -- After `CreateObservation` there is an observation.
  pub find_created :
      (now : Time) (db : Db)
      → (obs : Observation) × (find_observation registry repository tag digest
            (with_observation registry repository tag digest now db)
          ≡ some obs)
  find_created now db = any→find _ (any-insert (unix now) db.tag_observations)

touched_ids :
    (id : ℕ) (ts : ℤ) (rows : List ObservationRow)
    → any (λ r. r.id == id) rows ≡ true
    → any (λ r. r.id == id) (update_rows id (touch ts) rows) ≡ true
unfolding update_rows touch
touched_ids id ts [] h = cc
touched_ids id ts (r ∷ rows) h = ground (arith, touched_ids id ts rows)

-- `TouchObservation` leaves the row there.
pub affected-touch :
    (id : ℕ) (ts : ℤ) (db : Db)
    → affected id db ≡ true
    → affected id (update_observation id (touch ts) db) ≡ true
unfolding affected update_observation
affected-touch id ts db h = touched_ids id ts db.tag_observations.rows h
