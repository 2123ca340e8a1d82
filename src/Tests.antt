-- ===== src/Tests.antt =====
-- The theorems at concrete inputs: a tag that has been known for ten days and must be one day old.
pub mod Decisions
pub mod Policies
pub mod Plugin
pub mod State
pub mod Proxy
pub mod Registry
pub mod Files
pub mod Commands
use ribat.Base.{
  ℕ, ◌*◌, ℤ, pos, Bool, true, false, List, [], ◌∷◌, Option, none, some, Text, codes, Result, ok,
  err,
}
use ribat.Image.{Reference, make_reference}
use ribat.Policy.{
  Config, zero_config, action_quarantine, action_deny, action_allow, EffectivePolicy,
}
use ribat.Store.Rows.{Db, empty_db, ObservationRow}
use ribat.Store.World.{World}
use ribat.Engine.{Engine, Request}

abbrev pub hour : ℕ
hour = 3600_000_000_000

-- Quarantine for a day.
abbrev pub day_policy : EffectivePolicy
day_policy = record zero_config.default_policy {
  mutable_tags = record {
    action = action_quarantine;
    min_digest_age = pos (24 * hour);
    allow_first_seen_pull = false;
  };
  digest_pinned_images = record { action = action_allow };
  failed_registry_resolution = record { action = action_deny };
  failed_signature_check = record { action = action_deny };
}

abbrev pub day_config : Config
day_config = record zero_config { version = pos 1; default_policy = day_policy }

-- The registry answers that the tag points to sha256:ab; nothing is verified.
abbrev pub sample_engine : Engine
sample_engine = record {
  config = day_config;
  has_store = true;
  resolve = λ ref. ok (record { digest = codes "sha256:ab"; media_type = [] });
  verify = λ ref digest cfg. err (codes "no verifier");
  policy_key = λ cfg. [];
  audit = some (codes "audit.jsonl");
  now = pos (240 * hour);
}

abbrev pub sample_request : Request
sample_request = record {
  image_ref = codes "nginx";
  client_user = codes "alice";
  request_method = codes "POST";
  request_uri = codes "/v1.41/images/create?fromImage=nginx";
}

abbrev pub sample_row : ObservationRow
sample_row = record {
  id = 1;
  registry = codes "docker.io";
  repository = codes "library/nginx";
  tag = codes "latest";
  digest = codes "sha256:ab";
  first_seen_at = pos 0;
  last_seen_at = pos 0;
  last_allowed_at = none;
  status = codes "quarantined";
}

abbrev pub sample_db : Db
sample_db = record empty_db { tag_observations = record { rows = sample_row ∷ []; seq = 1 } }

abbrev pub sample_world : World
sample_world = record { db = sample_db; audit_log = []; faults = [] }

abbrev pub nginx : Reference
nginx = make_reference (codes "docker.io") (codes "library/nginx") (codes "latest") []
