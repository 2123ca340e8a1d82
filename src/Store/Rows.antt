-- ===== src/Store/Rows.antt =====
-- The structs of internal/store/sqlite.go, the rows of its tables, and the scans between them.
use ribat.Base.{ℕ, ℤ, Bool, List, [], Option, none, some, Text, codes, is_empty, if◌then◌else◌}
use ribat.Time.{Time, from_unix, nullable_time}

abbrev pub observation_status_quarantined : Text
observation_status_quarantined = codes "quarantined"

abbrev pub decision_allow : Text
decision_allow = codes "allow"

abbrev pub decision_deny : Text
decision_deny = codes "deny"

pub record Observation : Type 0 where
  pub id : ℕ
  pub registry : Text
  pub repository : Text
  pub tag : Text
  pub digest : Text
  pub first_seen_at : Time
  pub last_seen_at : Time
  pub last_allowed_at : Option Time
  pub status : Text

-- A row counts seconds where the struct has a time; a column that may be NULL is an option.
pub record ObservationRow : Type 0 where
  pub id : ℕ
  pub registry : Text
  pub repository : Text
  pub tag : Text
  pub digest : Text
  pub first_seen_at : ℤ
  pub last_seen_at : ℤ
  pub last_allowed_at : Option ℤ
  pub status : Text

unfoldable pub scan_observation_value : ObservationRow → Observation
scan_observation_value r = record {
  id = r.id;
  registry = r.registry;
  repository = r.repository;
  tag = r.tag;
  digest = r.digest;
  first_seen_at = from_unix r.first_seen_at;
  last_seen_at = from_unix r.last_seen_at;
  last_allowed_at = nullable_time r.last_allowed_at;
  status = r.status;
}

-- The struct of a decision; its row differs in the timestamp alone.
pub record DecisionRecord : Type 0 where
  pub id : ℕ
  pub timestamp : Time
  pub image_ref : Text
  pub registry : Text
  pub repository : Text
  pub tag : Text
  pub digest : Text
  pub decision : Text
  pub reason : Text
  pub client_user : Text
  pub request_method : Text
  pub request_uri : Text

pub record DecisionRow : Type 0 where
  pub id : ℕ
  pub timestamp : ℤ
  pub image_ref : Text
  pub registry : Text
  pub repository : Text
  pub tag : Text
  pub digest : Text
  pub decision : Text
  pub reason : Text
  pub client_user : Text
  pub request_method : Text
  pub request_uri : Text

unfoldable pub scan_decision_row : DecisionRow → DecisionRecord
scan_decision_row r = record {
  id = r.id;
  timestamp = from_unix r.timestamp;
  image_ref = r.image_ref;
  registry = r.registry;
  repository = r.repository;
  tag = r.tag;
  digest = r.digest;
  decision = r.decision;
  reason = r.reason;
  client_user = r.client_user;
  request_method = r.request_method;
  request_uri = r.request_uri;
}

pub record Approval : Type 0 where
  pub id : ℕ
  pub registry : Text
  pub repository : Text
  pub tag : Text
  pub digest : Text
  pub approved_at : Time
  pub approved_by : Text
  pub reason : Text
  pub expires_at : Option Time

pub record ApprovalRow : Type 0 where
  pub id : ℕ
  pub registry : Text
  pub repository : Text
  pub tag : Text
  pub digest : Text
  pub approved_at : ℤ
  pub approved_by : Text
  pub reason : Text
  pub expires_at : Option ℤ

unfoldable pub scan_approval_value : ApprovalRow → Approval
scan_approval_value r = record {
  id = r.id;
  registry = r.registry;
  repository = r.repository;
  tag = r.tag;
  digest = r.digest;
  approved_at = from_unix r.approved_at;
  approved_by = r.approved_by;
  reason = r.reason;
  expires_at = nullable_time r.expires_at;
}

pub record Freeze : Type 0 where
  pub id : ℕ
  pub registry : Text
  pub repository : Text
  pub tag : Text
  pub digest : Text
  pub created_at : Time
  pub created_by : Text
  pub reason : Text
  pub expires_at : Option Time

pub record FreezeRow : Type 0 where
  pub id : ℕ
  pub registry : Text
  pub repository : Text
  pub tag : Text
  pub digest : Option Text
  pub created_at : ℤ
  pub created_by : Text
  pub reason : Text
  pub expires_at : Option ℤ

-- `nullableString`, and `sql.NullString` the other way.
unfoldable pub nullable_string : Text → Option Text
nullable_string s = if is_empty s then none else some s

unfoldable pub null_string : Option Text → Text
null_string none = []
null_string (some s) = s

unfoldable pub scan_freeze_value : FreezeRow → Freeze
unfolding null_string
scan_freeze_value r = record {
  id = r.id;
  registry = r.registry;
  repository = r.repository;
  tag = r.tag;
  digest = null_string r.digest;
  created_at = from_unix r.created_at;
  created_by = r.created_by;
  reason = r.reason;
  expires_at = nullable_time r.expires_at;
}

pub record Bypass : Type 0 where
  pub id : ℕ
  pub registry : Text
  pub repository : Text
  pub tag : Text
  pub created_at : Time
  pub created_by : Text
  pub reason : Text
  pub expires_at : Option Time

pub record BypassRow : Type 0 where
  pub id : ℕ
  pub registry : Text
  pub repository : Text
  pub tag : Text
  pub created_at : ℤ
  pub created_by : Text
  pub reason : Text
  pub expires_at : Option ℤ

unfoldable pub scan_bypass_value : BypassRow → Bypass
scan_bypass_value r = record {
  id = r.id;
  registry = r.registry;
  repository = r.repository;
  tag = r.tag;
  created_at = from_unix r.created_at;
  created_by = r.created_by;
  reason = r.reason;
  expires_at = nullable_time r.expires_at;
}

-- The column `success` is 0 or 1, which is a Boolean here.
pub record CosignVerification : Type 0 where
  pub id : ℕ
  pub registry : Text
  pub repository : Text
  pub digest : Text
  pub policy_key : Text
  pub image_ref : Text
  pub verified_at : Time
  pub success : Bool
  pub reason : Text

pub record CosignRow : Type 0 where
  pub id : ℕ
  pub registry : Text
  pub repository : Text
  pub digest : Text
  pub policy_key : Text
  pub image_ref : Text
  pub verified_at : ℤ
  pub success : Bool
  pub reason : Text

unfoldable pub scan_cosign_value : CosignRow → CosignVerification
scan_cosign_value r = record {
  id = r.id;
  registry = r.registry;
  repository = r.repository;
  digest = r.digest;
  policy_key = r.policy_key;
  image_ref = r.image_ref;
  verified_at = from_unix r.verified_at;
  success = r.success;
  reason = r.reason;
}

-- A table with AUTOINCREMENT: its rows, oldest first, and the largest id that was ever used.
pub record Table (A : Type 0) : Type 0 where
  pub rows : List A
  pub seq : ℕ

-- The schema of `Migrate`.
pub record Db : Type 0 where
  pub tag_observations : Table ObservationRow
  pub pull_decisions : Table DecisionRow
  pub approvals : Table ApprovalRow
  pub freezes : Table FreezeRow
  pub bypasses : Table BypassRow
  pub cosign_verifications : Table CosignRow

abbrev pub empty_table : {A : Type 0} → Table A
empty_table = record { rows = []; seq = 0 }

-- The state after `Migrate` of a new file.
abbrev pub empty_db : Db
empty_db = record {
  tag_observations = empty_table;
  pull_decisions = empty_table;
  approvals = empty_table;
  freezes = empty_table;
  bypasses = empty_table;
  cosign_verifications = empty_table;
}
