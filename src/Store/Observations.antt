-- ===== src/Store/Observations.antt =====
-- The statements on `tag_observations`: when each digest of a tag was first seen.
pub mod FirstSeen
pub mod Runs
pub mod Find
use ribat.Base.{
  ℕ, zero, suc, ◌+◌, ℤ, Bool, true, false, ◌&&◌, ◌||◌, List, [], ◌∷◌, ◌++◌, map, Option, none, some,
  ◌==◌, ltb, if◌then◌else◌, length, keep, any, first, sort_by, Text, codes, text_eq, ltb_ℤ, ok, err,
}
use ribat.Time.{Time, unix}
use ribat.Store.Rows.{
  Observation, ObservationRow, scan_observation_value, observation_status_quarantined, Table, Db,
}
use ribat.Store.World.{World, Act, call, change, pure, raise, gets, ◌>>=◌, ◌>>◌}

-- `WHERE registry = ? AND repository = ? AND tag = ? AND digest = ?`.
unfoldable pub is_observation : Text → Text → Text → Text → ObservationRow → Bool
is_observation registry repository tag digest r =
    text_eq r.registry registry
    && text_eq r.repository repository
    && text_eq r.tag tag
    && text_eq r.digest digest

unfoldable pub scan_first : List ObservationRow → Option Observation
scan_first [] = none
scan_first (r ∷ _) = some (scan_observation_value r)

unfoldable pub find_observation : Text → Text → Text → Text → Db → Option Observation
unfolding scan_first
find_observation registry repository tag digest db =
    scan_first (keep (is_observation registry repository tag digest) db.tag_observations.rows)

unfoldable pub get_observation : Text → Text → Text → Text → Act Text (Option Observation)
get_observation registry repository tag digest = do
  call (codes "get observation: ")
  gets (λ w. find_observation registry repository tag digest w.db)

-- `ORDER BY first_seen_at DESC, id DESC`.
pub later_seen : ObservationRow → ObservationRow → Bool
later_seen r s =
    if ltb_ℤ s.first_seen_at r.first_seen_at
    then true
    else if ltb_ℤ r.first_seen_at s.first_seen_at
    then false
    else ltb s.id r.id

unfoldable pub is_observation_of_tag : Text → Text → Text → ObservationRow → Bool
is_observation_of_tag registry repository tag r =
    text_eq r.registry registry && text_eq r.repository repository && text_eq r.tag tag

unfoldable pub list_observations : Text → Text → Text → Act Text (List Observation)
unfolding later_seen is_observation_of_tag
list_observations registry repository tag = do
  call (codes "list observations: ")
  gets λ w. map scan_observation_value (
      sort_by later_seen
        (keep (is_observation_of_tag registry repository tag) w.db.tag_observations.rows))

-- The row that the `INSERT` gives.
abbrev pub new_observation : Text → Text → Text → Text → ℤ → ℕ → ObservationRow
new_observation registry repository tag digest ts id = record {
  id = id;
  registry = registry;
  repository = repository;
  tag = tag;
  digest = digest;
  first_seen_at = ts;
  last_seen_at = ts;
  last_allowed_at = none;
  status = observation_status_quarantined;
}

-- `INSERT OR IGNORE`: a row with the same registry, repository, tag and digest stays as it is.
unfoldable pub insert_observation :
    Text → Text → Text → Text → ℤ → Table ObservationRow → Table ObservationRow
insert_observation registry repository tag digest ts t =
    if any (is_observation registry repository tag digest) t.rows then t else record {
      rows = t.rows ++ new_observation registry repository tag digest ts (suc t.seq) ∷ [];
      seq = suc t.seq;
    }

unfoldable pub create_observation : Text → Text → Text → Text → Time → Act Text (Option Observation)
unfolding insert_observation
create_observation registry repository tag digest now = do
  let ts = unix now
  call (codes "create observation: ")
  change λ db. record db {
    tag_observations = insert_observation registry repository tag digest ts db.tag_observations;
  }
  get_observation registry repository tag digest

-- `UPDATE tag_observations SET … WHERE id = ?`.
unfoldable pub update_rows :
    ℕ → (ObservationRow → ObservationRow) → List ObservationRow → List ObservationRow
update_rows id f [] = []
update_rows id f (r ∷ rows) = (if r.id == id then f r else r) ∷ update_rows id f rows

unfoldable pub update_observation : ℕ → (ObservationRow → ObservationRow) → Db → Db
unfolding update_rows
update_observation id f db = record db {
  tag_observations = record db.tag_observations {
    rows = update_rows id f db.tag_observations.rows;
  };
}

unfoldable pub affected : ℕ → Db → Bool
affected id db = any (λ r. r.id == id) db.tag_observations.rows

-- `requireAffected`: a statement that has changed no row is an error.
unfoldable pub require_affected : Bool → Text → Act Text (Unit {0})
require_affected changed operation = do
  call (operation ++ codes ": read affected rows: ")
  if changed then pure tt else raise (operation ++ codes ": no matching row")

-- The common shape of the two updates: the statement, and then the check of its effect.
unfoldable pub update_statement : Text → ℕ → (ObservationRow → ObservationRow) → Act Text (Unit {0})
unfolding update_observation affected require_affected
update_statement operation id f = do
  call (operation ++ codes ": ")
  changed ← gets (λ w. affected id w.db)
  change (update_observation id f)
  require_affected changed operation

unfoldable pub touch : ℤ → ObservationRow → ObservationRow
touch ts r = record r { last_seen_at = ts }

unfoldable pub touch_observation : ℕ → Time → Act Text (Unit {0})
unfolding touch update_statement
touch_observation id now = update_statement (codes "touch observation") id (touch (unix now))

unfoldable pub mark_allowed : ℤ → ObservationRow → ObservationRow
mark_allowed ts r = record r { last_seen_at = ts; last_allowed_at = some ts }

unfoldable pub mark_observation_allowed : ℕ → Time → Act Text (Unit {0})
unfolding mark_allowed update_statement
mark_observation_allowed id now =
    update_statement (codes "mark observation allowed") id (mark_allowed (unix now))
