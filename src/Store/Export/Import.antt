-- ===== src/Store/Export/Import.antt =====
-- `ImportState`: one transaction, which a failure before its commit rolls back.
use ribat.Base.{ℤ, List, [], ◌∷◌, ◌++◌, map, if◌then◌else◌, Text, codes, Result, ok, err}
use ribat.Policy.Validate.{is_version_one}
use ribat.Store.Rows.{Db, Observation, DecisionRecord, Approval, Freeze, Bypass, CosignVerification}
use ribat.Store.World.{World, Act, call, change, pure, raise, ◌>>◌}
use ribat.Store.Tables.{import_row, import_rows}
use ribat.Store.Export.{
  ExportedState, observation_keys, decision_keys, approval_keys, freeze_keys, bypass_keys,
  cosign_keys, observation_row, decision_row, approval_row, freeze_row, bypass_row, cosign_row,
}

-- The tables after a transaction that succeeds, table by table.
unfoldable pub imported : ExportedState → Db → Db
imported st db = record {
  tag_observations =
      import_rows observation_keys (map observation_row st.observations) db.tag_observations;
  pull_decisions = import_rows decision_keys (map decision_row st.decisions) db.pull_decisions;
  approvals = import_rows approval_keys (map approval_row st.approvals) db.approvals;
  freezes = import_rows freeze_keys (map freeze_row st.freezes) db.freezes;
  bypasses = import_rows bypass_keys (map bypass_row st.bypasses) db.bypasses;
  cosign_verifications = import_rows cosign_keys (map cosign_row st.cosign) db.cosign_verifications;
}

-- The statement of each of the six loops.
abbrev pub put_observation : Observation → Db → Db
put_observation o db = record db {
  tag_observations = import_row observation_keys (observation_row o) db.tag_observations;
}

abbrev pub put_decision : DecisionRecord → Db → Db
put_decision d db = record db {
  pull_decisions = import_row decision_keys (decision_row d) db.pull_decisions;
}

abbrev pub put_approval : Approval → Db → Db
put_approval a db = record db { approvals = import_row approval_keys (approval_row a) db.approvals }

abbrev pub put_freeze : Freeze → Db → Db
put_freeze f db = record db { freezes = import_row freeze_keys (freeze_row f) db.freezes }

abbrev pub put_bypass : Bypass → Db → Db
put_bypass b db = record db { bypasses = import_row bypass_keys (bypass_row b) db.bypasses }

abbrev pub put_cosign : CosignVerification → Db → Db
put_cosign v db = record db {
  cosign_verifications = import_row cosign_keys (cosign_row v) db.cosign_verifications;
}

-- One loop: `label` stands in front of the error of the statement `put`.
unfoldable pub import_each :
    {A : Type 0} → (A → Text) → (A → Db → Db) → List A → Act Text (Unit {0})
import_each label put [] = pure tt
import_each label put (a ∷ items) = do call (label a); change (put a); import_each label put items

abbrev place : Text → Text → Text
place registry repository = registry ++ (b'/' ∷ repository)

observation_label : Observation → Text
observation_label o =
    codes "import observation "
    ++ (place o.registry o.repository ++ (b':' ∷ (o.tag ++ (b'@' ∷ (o.digest ++ codes ": ")))))

decision_label : DecisionRecord → Text
decision_label d = codes "import decision for " ++ (d.image_ref ++ codes ": ")

approval_label : Approval → Text
approval_label a =
    codes "import approval "
    ++ (place a.registry a.repository ++ (b':' ∷ (a.tag ++ (b'@' ∷ (a.digest ++ codes ": ")))))

freeze_label : Freeze → Text
freeze_label f =
    codes "import freeze " ++ (place f.registry f.repository ++ (b':' ∷ (f.tag ++ codes ": ")))

bypass_label : Bypass → Text
bypass_label b =
    codes "import bypass " ++ (place b.registry b.repository ++ (b':' ∷ (b.tag ++ codes ": ")))

cosign_label : CosignVerification → Text
cosign_label v =
    codes "import cosign verification "
    ++ (place v.registry v.repository ++ (b'@' ∷ (v.digest ++ codes ": ")))

unfoldable pub import_items : ExportedState → Act Text (Unit {0})
unfolding import_each observation_label decision_label approval_label freeze_label bypass_label
    cosign_label
import_items st = do
  import_each observation_label put_observation st.observations
  import_each decision_label put_decision st.decisions
  import_each approval_label put_approval st.approvals
  import_each freeze_label put_freeze st.freezes
  import_each bypass_label put_bypass st.bypasses
  import_each cosign_label put_cosign st.cosign

-- `defer tx.Rollback()`: after an error before the commit the tables are those before the
-- transaction.
unfoldable pub rolled_back : Db → Result Text (Unit {0}) × World → Result Text (Unit {0}) × World
rolled_back db (ok x, w) = (ok x, w)
rolled_back db (err m, w) = (err m, record w { db = db })

-- After a `Commit` that fails with `m`, `Rollback` does nothing any more. Whether the database has
-- undone the transaction or still has it is not for the code to say: the next outcome tells.
unfoldable pub after_failed_commit :
    Db → Text → Result Text (Unit {0}) × World → Result Text (Unit {0}) × World
after_failed_commit db m (ok x, w) = (err m, record w { db = db })
after_failed_commit db m (err e, w) = (err m, w)

unfoldable pub committed : Db → Result Text (Unit {0}) × World → Result Text (Unit {0}) × World
unfolding after_failed_commit
committed db (ok x, w) = (ok x, w)
committed db (err m, w) = after_failed_commit db m (call [] w)

unfoldable pub end_transaction :
    Db → Result Text (Unit {0}) × World → Result Text (Unit {0}) × World
unfolding rolled_back committed
end_transaction db (ok x, w) = committed db (call (codes "commit import state: ") w)
end_transaction db (err m, w) = rolled_back db (err m, w)

unfoldable pub import_transaction : ExportedState → Act Text (Unit {0})
unfolding import_items end_transaction
import_transaction st w =
    end_transaction w.db ((call (codes "begin import state: ") >> import_items st) w)

-- `show` prints a number, as `%d` does.
unfoldable pub import_state : (ℤ → Text) → ExportedState → Act Text (Unit {0})
unfolding import_transaction
import_state show st =
    if is_version_one st.version
    then import_transaction st
    else raise (codes "unsupported state export version " ++ show st.version)
