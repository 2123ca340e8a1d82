-- ===== src/Store/Export.antt =====
-- `ExportState` and `ImportState`: the whole of the tables, out and in again.
pub mod Import
pub mod Restores
pub mod Atomic
pub mod RoundTrip
pub mod Lawful
use ribat.Base.{
  ℕ, ℤ, pos, Bool, true, false, not, List, [], ◌∷◌, ◌++◌, map, Option, none, some, if◌then◌else◌,
  sort_by, Text, codes, ◌==◌,
}
use ribat.Policy.Validate.{is_version_one}
use ribat.Time.{unix, nullable_unix}
use ribat.Store.Rows.{
  Db, Table, Observation, ObservationRow, scan_observation_value, DecisionRecord, DecisionRow,
  scan_decision_row, Approval, ApprovalRow, scan_approval_value, Freeze, FreezeRow,
  scan_freeze_value, nullable_string, Bypass, BypassRow, scan_bypass_value, CosignVerification,
  CosignRow, scan_cosign_value,
}
use ribat.Store.World.{World, Act, call, change, pure, raise, gets, ◌>>=◌, ◌>>◌}
use ribat.Store.Tables.{Keys, by_id, import_rows}
use ribat.Store.Observations.{is_observation}
use ribat.Store.Decisions.{list_decisions}
use ribat.Store.Verifications.{is_verification}

pub record ExportedState : Type 0 where
  pub version : ℤ
  pub observations : List Observation
  pub decisions : List DecisionRecord
  pub approvals : List Approval
  pub freezes : List Freeze
  pub bypasses : List Bypass
  pub cosign : List CosignVerification

-- The PRIMARY KEY and the UNIQUE constraint of each table.
abbrev pub observation_keys : Keys ObservationRow
observation_keys = record {
  id = λ r. r.id;
  clash = λ r s. is_observation r.registry r.repository r.tag r.digest s;
}

abbrev pub decision_keys : Keys DecisionRow
decision_keys = record { id = λ r. r.id; clash = λ r s. false }

abbrev pub approval_keys : Keys ApprovalRow
approval_keys = record { id = λ r. r.id; clash = λ r s. false }

abbrev pub freeze_keys : Keys FreezeRow
freeze_keys = record { id = λ r. r.id; clash = λ r s. false }

abbrev pub bypass_keys : Keys BypassRow
bypass_keys = record { id = λ r. r.id; clash = λ r s. false }

abbrev pub cosign_keys : Keys CosignRow
cosign_keys = record {
  id = λ r. r.id;
  clash = λ r s. is_verification r.registry r.repository r.digest r.policy_key s;
}

-- `ORDER BY id ASC`.
unfoldable pub list_by_id :
    {A B : Type 0} → Text → Keys A → (A → B) → (Db → Table A) → Act Text (List B)
list_by_id operation keys scan table = do
  call operation
  gets (λ w. map scan (sort_by (by_id keys) (table w.db).rows))

unfoldable pub list_all_observations : Act Text (List Observation)
unfolding list_by_id
list_all_observations =
    list_by_id (codes "list all observations: ") observation_keys scan_observation_value
      (λ db. db.tag_observations)

unfoldable pub list_approvals : Act Text (List Approval)
unfolding list_by_id
list_approvals =
    list_by_id (codes "list approvals: ") approval_keys scan_approval_value (λ db. db.approvals)

unfoldable pub list_freezes : Act Text (List Freeze)
unfolding list_by_id
list_freezes = list_by_id (codes "list freezes: ") freeze_keys scan_freeze_value (λ db. db.freezes)

unfoldable pub list_bypasses : Act Text (List Bypass)
unfolding list_by_id
list_bypasses =
    list_by_id (codes "list bypasses: ") bypass_keys scan_bypass_value (λ db. db.bypasses)

unfoldable pub list_cosign_verifications : Act Text (List CosignVerification)
unfolding list_by_id
list_cosign_verifications =
    list_by_id (codes "list cosign verifications: ") cosign_keys scan_cosign_value
      (λ db. db.cosign_verifications)

unfoldable pub export_state : Act Text ExportedState
unfolding list_all_observations list_approvals list_freezes list_bypasses list_cosign_verifications
export_state = do
  observations ← list_all_observations
  decisions ← list_decisions
  approvals ← list_approvals
  freezes ← list_freezes
  bypasses ← list_bypasses
  cosign ← list_cosign_verifications
  pure (record {
    version = pos 1;
    observations = observations;
    decisions = decisions;
    approvals = approvals;
    freezes = freezes;
    bypasses = bypasses;
    cosign = cosign;
  })

-- The values of the six `INSERT OR REPLACE` statements.
unfoldable pub observation_row : Observation → ObservationRow
observation_row o = record {
  id = o.id;
  registry = o.registry;
  repository = o.repository;
  tag = o.tag;
  digest = o.digest;
  first_seen_at = unix o.first_seen_at;
  last_seen_at = unix o.last_seen_at;
  last_allowed_at = nullable_unix o.last_allowed_at;
  status = o.status;
}

unfoldable pub decision_row : DecisionRecord → DecisionRow
decision_row d = record {
  id = d.id;
  timestamp = unix d.timestamp;
  image_ref = d.image_ref;
  registry = d.registry;
  repository = d.repository;
  tag = d.tag;
  digest = d.digest;
  decision = d.decision;
  reason = d.reason;
  client_user = d.client_user;
  request_method = d.request_method;
  request_uri = d.request_uri;
}

unfoldable pub approval_row : Approval → ApprovalRow
approval_row a = record {
  id = a.id;
  registry = a.registry;
  repository = a.repository;
  tag = a.tag;
  digest = a.digest;
  approved_at = unix a.approved_at;
  approved_by = a.approved_by;
  reason = a.reason;
  expires_at = nullable_unix a.expires_at;
}

unfoldable pub freeze_row : Freeze → FreezeRow
freeze_row f = record {
  id = f.id;
  registry = f.registry;
  repository = f.repository;
  tag = f.tag;
  digest = nullable_string f.digest;
  created_at = unix f.created_at;
  created_by = f.created_by;
  reason = f.reason;
  expires_at = nullable_unix f.expires_at;
}

unfoldable pub bypass_row : Bypass → BypassRow
bypass_row b = record {
  id = b.id;
  registry = b.registry;
  repository = b.repository;
  tag = b.tag;
  created_at = unix b.created_at;
  created_by = b.created_by;
  reason = b.reason;
  expires_at = nullable_unix b.expires_at;
}

unfoldable pub cosign_row : CosignVerification → CosignRow
cosign_row v = record {
  id = v.id;
  registry = v.registry;
  repository = v.repository;
  digest = v.digest;
  policy_key = v.policy_key;
  image_ref = v.image_ref;
  verified_at = unix v.verified_at;
  success = v.success;
  reason = v.reason;
}
