-- ===== src/Store/Export/Lawful.antt =====
-- The import of a state leaves the tables well-formed, whatever stands in it.
use ribat.Base.{ℤ, List, [], ◌∷◌, Text, codes, refl, Result, ok, err}
use ribat.Policy.Validate.{is_version_one}
use ribat.Store.Rows.{Db, Observation, DecisionRecord, Approval, Freeze, Bypass, CosignVerification}
use ribat.Store.World.{World, call}
use ribat.Store.World.Keeps.{
  Keeps, Keeps-pure, Keeps-raise, Keeps-if, Keeps-call, Keeps-change, Keeps-bind,
}
use ribat.Store.Invariant.{IsWellFormed, is_set}
use ribat.Store.Invariant.Keeps.{nullable_is_set}
use ribat.Store.Invariant.Imports.{import_row-IsTable, all-import_row}
use ribat.Store.Export.{
  ExportedState, observation_keys, decision_keys, approval_keys, freeze_keys, bypass_keys,
  cosign_keys, observation_row, decision_row, approval_row, freeze_row, bypass_row, cosign_row,
}
use ribat.Store.Export.Import.{
  put_observation, put_decision, put_approval, put_freeze, put_bypass, put_cosign, import_each,
  import_items, rolled_back, after_failed_commit, committed, end_transaction, import_transaction,
  import_state,
}
use ribat.Store.Export.Restores.{observation_symmetric, cosign_symmetric}
use ribat.Store.Invariant.Lawful.{lawful}

module _ (db : Db) (v : IsWellFormed db) where
  put_observation-IsWellFormed : (o : Observation) → IsWellFormed (put_observation o db)
  put_observation-IsWellFormed o = record {
    observations =
        import_row-IsTable observation_keys observation_symmetric (observation_row o) _
          v.observations;
    decisions = v.decisions;
    approvals = v.approvals;
    freezes = v.freezes;
    bypasses = v.bypasses;
    verifications = v.verifications;
    digests = v.digests;
  }

  put_decision-IsWellFormed : (d : DecisionRecord) → IsWellFormed (put_decision d db)
  put_decision-IsWellFormed d = record {
    observations = v.observations;
    decisions = import_row-IsTable decision_keys (λ r s. refl) (decision_row d) _ v.decisions;
    approvals = v.approvals;
    freezes = v.freezes;
    bypasses = v.bypasses;
    verifications = v.verifications;
    digests = v.digests;
  }

  put_approval-IsWellFormed : (a : Approval) → IsWellFormed (put_approval a db)
  put_approval-IsWellFormed a = record {
    observations = v.observations;
    decisions = v.decisions;
    approvals = import_row-IsTable approval_keys (λ r s. refl) (approval_row a) _ v.approvals;
    freezes = v.freezes;
    bypasses = v.bypasses;
    verifications = v.verifications;
    digests = v.digests;
  }

  put_freeze-IsWellFormed : (f : Freeze) → IsWellFormed (put_freeze f db)
  unfolding freeze_row
  put_freeze-IsWellFormed f = record {
    observations = v.observations;
    decisions = v.decisions;
    approvals = v.approvals;
    freezes = import_row-IsTable freeze_keys (λ r s. refl) (freeze_row f) _ v.freezes;
    bypasses = v.bypasses;
    verifications = v.verifications;
    digests =
        all-import_row freeze_keys (λ r. is_set r.digest) (freeze_row f) db.freezes
          (nullable_is_set f.digest) v.digests;
  }

  put_bypass-IsWellFormed : (b : Bypass) → IsWellFormed (put_bypass b db)
  put_bypass-IsWellFormed b = record {
    observations = v.observations;
    decisions = v.decisions;
    approvals = v.approvals;
    freezes = v.freezes;
    bypasses = import_row-IsTable bypass_keys (λ r s. refl) (bypass_row b) _ v.bypasses;
    verifications = v.verifications;
    digests = v.digests;
  }

  put_cosign-IsWellFormed : (c : CosignVerification) → IsWellFormed (put_cosign c db)
  put_cosign-IsWellFormed c = record {
    observations = v.observations;
    decisions = v.decisions;
    approvals = v.approvals;
    freezes = v.freezes;
    bypasses = v.bypasses;
    verifications =
        import_row-IsTable cosign_keys cosign_symmetric (cosign_row c) _ v.verifications;
    digests = v.digests;
  }

import_each-Keeps :
    {A : Type 0} (label : A → Text) (put : A → Db → Db)
    → ((db : Db) → IsWellFormed db → (a : A) → IsWellFormed (put a db))
    → (items : List A) → Keeps lawful (import_each label put items)
unfolding import_each
import_each-Keeps label put h [] = Keeps-pure lawful tt
import_each-Keeps label put h (a ∷ items) = Keeps-bind lawful _ _ (Keeps-call lawful (label a)) λ _.
    Keeps-bind lawful _ _ (Keeps-change lawful (put a) (λ w good. h w.db good a))
      λ _. import_each-Keeps label put h items

import_items-Keeps : (st : ExportedState) → Keeps lawful (import_items st)
unfolding import_items
import_items-Keeps st =
    Keeps-bind lawful _ _ (import_each-Keeps _ _ put_observation-IsWellFormed st.observations) λ _.
      Keeps-bind lawful _ _ (import_each-Keeps _ _ put_decision-IsWellFormed st.decisions) λ _.
        Keeps-bind lawful _ _ (import_each-Keeps _ _ put_approval-IsWellFormed st.approvals) λ _.
          Keeps-bind lawful _ _ (import_each-Keeps _ _ put_freeze-IsWellFormed st.freezes) λ _.
            Keeps-bind lawful _ _ (import_each-Keeps _ _ put_bypass-IsWellFormed st.bypasses)
              λ _. import_each-Keeps _ _ put_cosign-IsWellFormed st.cosign

after_failed_commit-lawful :
    (db : Db) (m : Text) (r : Result Text (Unit {0}) × World)
    → IsWellFormed db
    → IsWellFormed r.1.db
    → IsWellFormed (after_failed_commit db m r).1.db
unfolding after_failed_commit
after_failed_commit-lawful db m (ok x, v) good new = good
after_failed_commit-lawful db m (err e, v) good new = new

committed-lawful :
    (db : Db) (r : Result Text (Unit {0}) × World)
    → IsWellFormed db
    → IsWellFormed r.1.db
    → IsWellFormed (committed db r).1.db
unfolding committed
committed-lawful db (ok x, v) good new = new
committed-lawful db (err m, v) good new =
    after_failed_commit-lawful db m (call [] v) good ((Keeps-call lawful []).kept v new)

end_transaction-lawful :
    (db : Db) (r : Result Text (Unit {0}) × World)
    → IsWellFormed db
    → IsWellFormed r.1.db
    → IsWellFormed (end_transaction db r).1.db
unfolding end_transaction rolled_back
end_transaction-lawful db (ok x, v) good new =
    committed-lawful db (call (codes "commit import state: ") v) good
      ((Keeps-call lawful (codes "commit import state: ")).kept v new)
end_transaction-lawful db (err m, v) good new = good

import_transaction-Keeps : (st : ExportedState) → Keeps lawful (import_transaction st)
unfolding import_transaction
import_transaction-Keeps st = record {
  kept = λ w good.
      end_transaction-lawful w.db _ good
        ((Keeps-bind lawful _ _ (Keeps-call lawful _) λ _. import_items-Keeps st).kept w good);
}

pub import_state-Keeps :
    (show : ℤ → Text) (st : ExportedState) → Keeps lawful (import_state show st)
unfolding import_state
import_state-Keeps show st =
    Keeps-if lawful (is_version_one st.version) _ _ (import_transaction-Keeps st)
      (Keeps-raise lawful _)
