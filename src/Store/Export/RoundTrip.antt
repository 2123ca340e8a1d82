-- ===== src/Store/Export/RoundTrip.antt =====
-- `ExportState` from one store and `ImportState` into an empty one.
use ribat.Base.{
  ℤ, List, [], ◌∷◌, map, Text, codes, Result, ok, err, ◌≡◌, ◌≢◌, refl, ap, subst, sym, ◌∙◌,
}
use ribat.Policy.Validate.{is_version_one}
use ribat.Store.Rows.{
  Db, Observation, DecisionRecord, Approval, Freeze, Bypass, CosignVerification, empty_db,
}
use ribat.Store.World.{World, call, ◌>>◌}
use ribat.Store.World.Runs.{
  Runs, returns, Runs-pure, Runs-bind, Runs-then, Runs-query, Runs-change, Runs-call, at,
}
use ribat.Store.Decisions.{list_decisions}
use ribat.Store.Invariant.{IsWellFormed}
use ribat.Store.Tables.{import_rows}
use ribat.Store.Export.{
  ExportedState, list_all_observations, list_approvals, list_freezes, list_bypasses,
  list_cosign_verifications, export_state, observation_keys, decision_keys, approval_keys,
  freeze_keys, bypass_keys, cosign_keys, observation_row, decision_row, approval_row, freeze_row,
  bypass_row, cosign_row,
}
use ribat.Store.Export.Import.{
  put_observation, put_decision, put_approval, put_freeze, put_bypass, put_cosign, import_each,
  import_items, rolled_back, after_failed_commit, committed, end_transaction, import_transaction,
  import_state, imported,
}
use ribat.Store.Export.Restores.{exported, SameRows, imported-exported}

pub export_state-Runs : (w : World) → Runs w (exported w.db) w.db (export_state w)
unfolding export_state exported list_all_observations list_approvals list_freezes list_bypasses
    list_cosign_verifications list_decisions
export_state-Runs w = Runs-bind _ _ w (Runs-query _ _ w) λ w1.
    Runs-bind _ _ (at w.db w1) (Runs-query _ _ (at w.db w1)) λ w2.
      Runs-bind _ _ (at w.db w2) (Runs-query _ _ (at w.db w2)) λ w3.
        Runs-bind _ _ (at w.db w3) (Runs-query _ _ (at w.db w3)) λ w4.
          Runs-bind _ _ (at w.db w4) (Runs-query _ _ (at w.db w4)) λ w5.
            Runs-bind _ _ (at w.db w5) (Runs-query _ _ (at w.db w5)) λ w6. Runs-pure _ (at w.db w6)

-- The tables after one loop.
put_all : {A : Type 0} → (A → Db → Db) → List A → Db → Db
put_all put [] db = db
put_all put (a ∷ items) db = put_all put items (put a db)

import_each-Runs :
    {A : Type 0} (label : A → Text) (put : A → Db → Db) (items : List A) (w : World)
    → Runs w (tt {0}) (put_all put items w.db) (import_each label put items w)
unfolding import_each put_all
import_each-Runs label put [] w = Runs-pure tt w
import_each-Runs label put (a ∷ items) w = Runs-then _ _ w λ w1.
    Runs-bind _ _ (at w.db w1) (Runs-change (put a) (at w.db w1))
      λ w2. import_each-Runs label put items (at (put a w.db) w2)

put_observations :
    (l : List Observation) (db : Db)
    → put_all put_observation l db ≡ record db {
      tag_observations = import_rows observation_keys (map observation_row l) db.tag_observations;
    }
unfolding put_all import_rows
put_observations [] db = refl
put_observations (x ∷ l) db = put_observations l (put_observation x db)

put_decisions :
    (l : List DecisionRecord) (db : Db)
    → put_all put_decision l db ≡ record db {
      pull_decisions = import_rows decision_keys (map decision_row l) db.pull_decisions;
    }
unfolding put_all import_rows
put_decisions [] db = refl
put_decisions (x ∷ l) db = put_decisions l (put_decision x db)

put_approvals :
    (l : List Approval) (db : Db)
    → put_all put_approval l db
      ≡ record db { approvals = import_rows approval_keys (map approval_row l) db.approvals }
unfolding put_all import_rows
put_approvals [] db = refl
put_approvals (x ∷ l) db = put_approvals l (put_approval x db)

put_freezes :
    (l : List Freeze) (db : Db)
    → put_all put_freeze l db
      ≡ record db { freezes = import_rows freeze_keys (map freeze_row l) db.freezes }
unfolding put_all import_rows
put_freezes [] db = refl
put_freezes (x ∷ l) db = put_freezes l (put_freeze x db)

put_bypasses :
    (l : List Bypass) (db : Db)
    → put_all put_bypass l db
      ≡ record db { bypasses = import_rows bypass_keys (map bypass_row l) db.bypasses }
unfolding put_all import_rows
put_bypasses [] db = refl
put_bypasses (x ∷ l) db = put_bypasses l (put_bypass x db)

cosign_rows :
    (l : List CosignVerification) (db : Db)
    → put_all put_cosign l db ≡ record db {
      cosign_verifications = import_rows cosign_keys (map cosign_row l) db.cosign_verifications;
    }
unfolding put_all import_rows
cosign_rows [] db = refl
cosign_rows (x ∷ l) db = cosign_rows l (put_cosign x db)

-- The six loops, one after the other.
pub all_loops : ExportedState → Db → Db
all_loops st db = put_all put_cosign st.cosign (
    put_all put_bypass st.bypasses (
      put_all put_freeze st.freezes (
        put_all put_approval st.approvals
          (put_all put_decision st.decisions (put_all put_observation st.observations db)))))

pub all_loops-imported : (st : ExportedState) (db : Db) → all_loops st db ≡ imported st db
unfolding all_loops imported
all_loops-imported st db =
    simp (put_observations, put_decisions, put_approvals, put_freezes, put_bypasses, cosign_rows)

import_items-Runs :
    (st : ExportedState) (w : World) → Runs w (tt {0}) (all_loops st w.db) (import_items st w)
unfolding import_items all_loops
import_items-Runs st w = Runs-bind _ _ w (import_each-Runs _ _ st.observations w) λ w1.
    Runs-bind _ _ (at _ w1) (import_each-Runs _ _ st.decisions (at _ w1)) λ w2.
      Runs-bind _ _ (at _ w2) (import_each-Runs _ _ st.approvals (at _ w2)) λ w3.
        Runs-bind _ _ (at _ w3) (import_each-Runs _ _ st.freezes (at _ w3)) λ w4.
          Runs-bind _ _ (at _ w4) (import_each-Runs _ _ st.bypasses (at _ w4))
            λ w5. import_each-Runs _ _ st.cosign (at _ w5)

-- A call after a run.
Runs-after :
    {w v : World} {db : Db} {r : Result Text (Unit {0}) × World}
    → v.db ≡ db
    → (w.faults ≡ [] → v.faults ≡ [])
    → Runs v (tt {0}) v.db r
    → Runs w (tt {0}) db r
Runs-after same clear (returns same' clear') = returns (same' ∙ same) (λ h. clear' (clear h))
Runs-after same clear (Runs.fails h) = Runs.fails (λ e. h (clear e))

after_failed_commit-Runs :
    {w : World} {db : Db} (old : Db) (m : Text) (r : Result Text (Unit {0}) × World)
    → w.faults ≢ []
    → Runs w (tt {0}) db (after_failed_commit old m r)
unfolding after_failed_commit
after_failed_commit-Runs old m (ok x, v) broken = Runs.fails broken
after_failed_commit-Runs old m (err e, v) broken = Runs.fails broken

committed-Runs :
    {w : World} {db : Db} (old : Db) {r : Result Text (Unit {0}) × World}
    → Runs w (tt {0}) db r
    → Runs w (tt {0}) db (committed old r)
unfolding committed
committed-Runs old (returns same clear) = returns same clear
committed-Runs old (Runs.fails h) = after_failed_commit-Runs old _ _ h

end_transaction-Runs :
    {w : World} {db : Db} (old : Db) {r : Result Text (Unit {0}) × World}
    → Runs w (tt {0}) db r
    → Runs w (tt {0}) db (end_transaction old r)
unfolding end_transaction rolled_back
end_transaction-Runs old (returns {w' = v} same clear) =
    committed-Runs old (Runs-after same clear (Runs-call (codes "commit import state: ") v))
end_transaction-Runs old (Runs.fails h) = Runs.fails h

pub begun-Runs :
    (st : ExportedState) (w : World)
    → Runs w
        (tt {0})
        (all_loops st w.db)
        ((call (codes "begin import state: ") >> import_items st) w)
begun-Runs st w = Runs-then _ _ w λ w1. import_items-Runs st (at w.db w1)

pub import_state-Runs :
    (show : ℤ → Text) (db : Db) (w : World)
    → Runs w (tt {0}) (all_loops (exported db) w.db) (import_state show (exported db) w)
unfolding import_state import_transaction exported is_version_one
import_state-Runs show db w = end_transaction-Runs w.db (begun-Runs (exported db) w)

calm_run :
    {A : Type 0} {w : World} {a : A} {db : Db} {r : Result Text A × World}
    → Runs w a db r
    → w.faults ≡ []
    → (r.0 ≡ ok a) × (r.1.db ≡ db)
calm_run (returns same clear) calm = (refl, same)
calm_run (Runs.fails h) calm = absurd (h calm)

-- If no external call fails, ExportState gives a state for every world with well-formed tables,
-- ImportState takes that state into empty tables without an error, and then each table has the rows
-- that it had where the state comes from.
pub export-import :
    (show : ℤ → Text) (w v : World)
    → IsWellFormed w.db
    → v.db ≡ empty_db
    → w.faults ≡ []
    → v.faults ≡ []
    → (st : ExportedState) × ((export_state w).0 ≡ ok st)
      × ((import_state show st v).0 ≡ ok tt)
      × SameRows (import_state show st v).1.db w.db
export-import show w v good fresh calm calm' =
    let (read, kept) = calm_run (export_state-Runs w) calm in
    let (written, after) = calm_run (import_state-Runs show w.db v) calm' in
    (
      exported w.db,
      read,
      written,
      subst (λ db. SameRows db w.db)
          (sym
            (after ∙ all_loops-imported (exported w.db) v.db ∙ ap (imported (exported w.db)) fresh))
          (imported-exported w.db good),
    )
