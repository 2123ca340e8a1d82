-- ===== src/Store/Export/Atomic.antt =====
-- `ImportState` leaves the tables as they are or with every row of the export, never in between.
use ribat.Base.{
  ℤ, [], ◌++◌, Bool, true, false, Text, codes, Result, ok, err, ◌≡◌, refl, subst, ◌∙◌,
  if◌then◌else◌,
}
use ribat.Policy.Validate.{is_version_one}
use ribat.Store.Rows.{Db}
use ribat.Store.World.{World, call, raise, ◌>>◌}
use ribat.Store.World.Called.{Called, passed, broken, call-Called}
use ribat.Store.World.Runs.{Runs, returns}
use ribat.Store.Export.{ExportedState}
use ribat.Store.Export.Import.{
  imported, rolled_back, after_failed_commit, committed, end_transaction, import_items,
  import_transaction, import_state,
}
use ribat.Store.Export.RoundTrip.{all_loops-imported, begun-Runs}

-- The ends of an import into the tables `db`.
pub data Atomic (st : ExportedState) (db : Db) : Result Text (Unit {0}) × World → Type 0 where
  complete : {w : World} → w.db ≡ imported st db → Atomic st db (ok tt, w)
  undone : (m : Text) {w : World} → w.db ≡ db → Atomic st db (err m, w)
  commit_failed :
      (m : Text) {w : World}
      → w.db ≡ imported st db
      → Atomic st db (err (codes "commit import state: " ++ m), w)

module _ (st : ExportedState) (db : Db) where
  after_failed_commit-Atomic :
      (m : Text) {t : Text} {new : Db} {r : Result Text (Unit {0}) × World}
      → new ≡ imported st db
      → Called t new r
      → Atomic st db (after_failed_commit db (codes "commit import state: " ++ m) r)
  unfolding after_failed_commit
  after_failed_commit-Atomic m all (passed same) = undone _ refl
  after_failed_commit-Atomic m all (broken e same) = commit_failed _ (same ∙ all)

  committed-Atomic :
      {new : Db} {r : Result Text (Unit {0}) × World}
      → new ≡ imported st db
      → Called (codes "commit import state: ") new r
      → Atomic st db (committed db r)
  unfolding committed
  committed-Atomic all (passed same) = complete (same ∙ all)
  committed-Atomic all (broken m {w = w} same) =
      after_failed_commit-Atomic m (same ∙ all) (call-Called [] w)

  end_transaction-Atomic :
      {v : World} {r : Result Text (Unit {0}) × World}
      → Runs v (tt {0}) (imported st db) r
      → Atomic st db (end_transaction db r)
  unfolding end_transaction rolled_back
  end_transaction-Atomic (returns {w' = w} same clear) =
      committed-Atomic same (call-Called (codes "commit import state: ") w)
  end_transaction-Atomic (Runs.fails h) = undone _ refl

if_supported :
    (b : Bool) (st : ExportedState) (t : Text) (w : World)
    → Atomic st w.db ((if b then import_transaction st else raise t) w)
unfolding import_transaction raise
if_supported true st t w = end_transaction-Atomic st w.db (
    subst (λ db. Runs w (tt {0}) db ((call (codes "begin import state: ") >> import_items st) w))
      (all_loops-imported st w.db) (begun-Runs st w))
if_supported false st t w = undone _ refl

-- Whatever external calls fail, ImportState leaves the tables as they are or with every row of all
-- six lists of the export put in, never in between: without an error the rows are all in, after an
-- error the tables are those before the call, or the error is that of the commit and the rows are
-- all in.
pub import_state-Atomic :
    (show : ℤ → Text) (st : ExportedState) (w : World) → Atomic st w.db (import_state show st w)
unfolding import_state
import_state-Atomic show st w = if_supported (is_version_one st.version) st _ w
