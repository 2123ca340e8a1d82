-- ===== src/Store/Observations/Runs.antt =====
-- How the statements on observations run.
use ribat.Base.{ℕ, true, Text, ◌≡◌, ap, ◌∙◌, any, ◌==◌}
use ribat.Time.{Time, unix}
use ribat.Store.Rows.{Db, ObservationRow, Table}
use ribat.Store.World.{World, change, gets}
use ribat.Store.World.Runs.{
  Runs, Runs-pure, Runs-gets, Runs-change, Runs-bind, Runs-then, Runs-query, at,
}
use ribat.Store.Observations.{
  get_observation, find_observation, create_observation, insert_observation, touch_observation,
  mark_observation_allowed, mark_allowed, affected, update_observation, update_statement,
  require_affected, touch,
}

-- The tables with a row for the digest.
abbrev pub with_observation : Text → Text → Text → Text → Time → Db → Db
with_observation registry repository tag digest now db = record db {
  tag_observations =
      insert_observation registry repository tag digest (unix now) db.tag_observations;
}

module _ (registry repository tag digest : Text) (w : World) where
  pub get_observation-Runs :
      Runs w
        (find_observation registry repository tag digest w.db)
        w.db
        (get_observation registry repository tag digest w)
  unfolding get_observation
  get_observation-Runs = Runs-query _ (find_observation registry repository tag digest) w

  pub create_observation-Runs :
      (now : Time)
      → Runs w
          (find_observation registry repository tag digest
            (with_observation registry repository tag digest now w.db))
          (with_observation registry repository tag digest now w.db)
          (create_observation registry repository tag digest now w)
  unfolding create_observation get_observation
  create_observation-Runs now = Runs-then _ _ w λ w1.
      Runs-bind (change (with_observation registry repository tag digest now)) _ (at w.db w1)
        (Runs-change (with_observation registry repository tag digest now) (at w.db w1))
        λ w2.
          Runs-query _ (find_observation registry repository tag digest)
            (at (with_observation registry repository tag digest now w.db) w2)

pub update_statement-Runs :
    (operation : Text) (id : ℕ) (f : ObservationRow → ObservationRow) (w : World)
    → affected id w.db ≡ true
    → Runs w (tt {0}) (update_observation id f w.db) (update_statement operation id f w)
unfolding update_statement require_affected
update_statement-Runs operation id f w h = Runs-then _ _ w λ w1.
    let v1 = at w.db w1 in
    Runs-bind (gets (λ v. affected id v.db)) _ v1 (Runs-gets (λ v. affected id v.db) v1) λ w2.
      let v2 = at w.db w2 in
      Runs-bind (change (update_observation id f)) _ v2 (Runs-change (update_observation id f) v2)
        λ w3. Runs-then _ _ (at (update_observation id f w.db) w3) λ w4. rw h (Runs-pure tt _)

module _ (id : ℕ) (now : Time) (w : World) (known : affected id w.db ≡ true) where
  pub touch_observation-Runs :
      Runs w (tt {0}) (update_observation id (touch (unix now)) w.db) (touch_observation id now w)
  unfolding touch_observation
  touch_observation-Runs = update_statement-Runs _ id (touch (unix now)) w known

  pub mark_observation_allowed-Runs :
      Runs w
        (tt {0})
        (update_observation id (mark_allowed (unix now)) w.db)
        (mark_observation_allowed id now w)
  unfolding mark_observation_allowed
  mark_observation_allowed-Runs = update_statement-Runs _ id (mark_allowed (unix now)) w known

pub affected-same :
    (id : ℕ) (db db' : Db)
    → db'.tag_observations ≡ db.tag_observations
    → affected id db ≡ true
    → affected id db' ≡ true
unfolding affected
affected-same id db db' same h =
    ap (λ (t : Table ObservationRow). any (λ r. r.id == id) t.rows) same ∙ h
