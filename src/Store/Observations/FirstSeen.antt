-- ===== src/Store/Observations/FirstSeen.antt =====
-- The time at which a digest was first seen, from statement to statement.
use ribat.Base.{
  ℕ, ℤ, Bool, Option, none, some, List, [], ◌∷◌, ◌++◌, Text, ◌≡◌, refl, arith, ◌∙◌, any, keep,
  Bool-cases, inl, inr,
}
use ribat.Time.{Time}
use ribat.Store.Rows.{Db, Observation, ObservationRow, scan_observation_value}
use ribat.Store.World.{World}
use ribat.Store.World.Runs.{at}
use ribat.Store.World.Keeps.{Preorder}
use ribat.Store.Observations.{
  find_observation, scan_first, insert_observation, is_observation, update_rows, update_observation,
  touch, mark_allowed,
}
use ribat.Store.Observations.Runs.{with_observation}

abbrev seen : Option Observation → Option Time
seen none = none
seen (some obs) = some obs.first_seen_at

-- When the store first saw a digest, if it did.
unfoldable pub first_seen : Text → Text → Text → Text → Db → Option Time
first_seen registry repository tag digest db =
    seen (find_observation registry repository tag digest db)

-- What was first seen at some time is still first seen then.
unfoldable pub Remembers : World → World → Type 0
Remembers v w =
    (registry repository tag digest : Text) (t : Time)
    → first_seen registry repository tag digest v.db ≡ some t
    → first_seen registry repository tag digest w.db ≡ some t

abbrev pub remembering : Preorder
unfolding Remembers
remembering = record {
  rel = Remembers;
  same = λ w registry repository tag digest t h. h;
  after = λ h k registry repository tag digest t e.
      k registry repository tag digest t (h registry repository tag digest t e);
  calls = λ w later registry repository tag digest t h. h;
}

module _ (p : ObservationRow → Bool) where
  seen-append :
      (rows more : List ObservationRow) (t : Time)
      → seen (scan_first (keep p rows)) ≡ some t
      → seen (scan_first (keep p (rows ++ more))) ≡ some t
  unfolding keep scan_first
  seen-append [] more t h = cc
  seen-append (r ∷ rows) more t h = elim (Bool-cases (p r)) [
    | inl hit ↦ rw hit (rw hit at h)
    | inr miss ↦ rw miss (seen-append rows more t (rw miss at h))
  ]

  module _ (f : ObservationRow → ObservationRow) (same_key : (r : ObservationRow) → p (f r) ≡ p r)
      (same_time : (r : ObservationRow) → (f r).first_seen_at ≡ r.first_seen_at) where
    seen_row :
        (r : ObservationRow)
        → (scan_observation_value (f r)).first_seen_at ≡ (scan_observation_value r).first_seen_at
    unfolding scan_observation_value
    seen_row r = rw same_time refl

    seen-update :
        (id : ℕ) (rows : List ObservationRow)
        → seen (scan_first (keep p (update_rows id f rows))) ≡ seen (scan_first (keep p rows))
    unfolding keep scan_first update_rows
    seen-update id [] = refl
    seen-update id (r ∷ rows) = ground (arith, same_key r, seen_row r, seen-update id rows)

pub touch-Remembers :
    (id : ℕ) (ts : ℤ) (w : World) → Remembers w (at (update_observation id (touch ts) w.db) w)
unfolding Remembers first_seen find_observation update_observation touch is_observation
touch-Remembers id ts w registry repository tag digest t h =
    seen-update (is_observation registry repository tag digest) (touch ts) (λ r. refl) (λ r. refl)
      id w.db.tag_observations.rows
    ∙ h

pub mark-Remembers :
    (id : ℕ) (ts : ℤ) (w : World)
    → Remembers w (at (update_observation id (mark_allowed ts) w.db) w)
unfolding Remembers first_seen find_observation update_observation mark_allowed is_observation
mark-Remembers id ts w registry repository tag digest t h =
    seen-update (is_observation registry repository tag digest) (mark_allowed ts) (λ r. refl)
      (λ r. refl) id w.db.tag_observations.rows
    ∙ h

pub create-Remembers :
    (registry repository tag digest : Text) (now : Time) (w : World)
    → Remembers w (at (with_observation registry repository tag digest now w.db) w)
unfolding Remembers first_seen find_observation insert_observation
create-Remembers registry repository tag digest now w registry' repository' tag' digest' t h =
    elim (Bool-cases
      (any (is_observation registry repository tag digest) w.db.tag_observations.rows)) [
        | inl old ↦ rw old h
        | inr new ↦ rw new (seen-append (is_observation registry' repository' tag' digest') _ _ t h)
      ]
