-- ===== src/Engine.antt =====
-- internal/quarantine/engine.go: the decision on one pull.
pub mod Ends
pub mod Verification
pub mod Decide
use ribat.Base.{
  ℕ, ℤ, pos, Bool, true, false, List, [], ◌∷◌, ◌++◌, Option, none, some, if◌then◌else◌, Text, codes,
  Result, ok, err,
}
use ribat.Time.{Time}
use ribat.Image.{Reference, ImageError}
use ribat.Policy.{Config, CosignPolicy}
use ribat.Cosign.{CosignResult}
use ribat.Audit.{Event}
use ribat.Audit.Logger.{record_event}
use ribat.Store.Rows.{DecisionRecord, decision_allow, decision_deny}
use ribat.Store.Decisions.{record_decision}
use ribat.Store.World.{World, Act, pure, ◌>>=◌, ◌>>◌}

-- `registry.ManifestDigest`, as far as the engine reads it.
pub record ManifestDigest : Type 0 where
  pub digest : Text
  pub media_type : Text

-- The fields of `Engine` and what its interfaces answer during one call of `Decide`: the resolver
-- and the verifier (those given, or the default ones), the key of a cosign policy, and the clock.
-- `audit` is the path of the logger, when there is one; `has_store` tells that the store is not nil.
pub record Engine : Type 0 where
  pub config : Config
  pub has_store : Bool
  pub resolve : Reference → Result Text ManifestDigest
  pub verify : Reference → Text → CosignPolicy → Result Text CosignResult
  pub policy_key : CosignPolicy → Text
  pub audit : Option Text
  pub now : Time

pub record Request : Type 0 where
  pub image_ref : Text
  pub client_user : Text
  pub request_method : Text
  pub request_uri : Text

pub record Decision : Type 0 where
  pub image_ref : Text
  pub registry : Text
  pub repository : Text
  pub tag : Text
  pub digest : Text
  pub allowed : Bool
  pub reason : Text
  pub matched_rule : Text
  pub first_seen_at : Option Time
  pub current_age : ℤ
  pub required_age : ℤ
  pub next_allowed_at : Option Time
  pub manual_approval : Bool
  pub bypassed : Bool
  pub frozen : Bool
  pub cosign_verified : Bool
  pub cosign_cached : Bool

-- `Decision{}`.
abbrev pub zero_decision : Decision
zero_decision = record {
  image_ref = [];
  registry = [];
  repository = [];
  tag = [];
  digest = [];
  allowed = false;
  reason = [];
  matched_rule = [];
  first_seen_at = none;
  current_age = pos 0;
  required_age = pos 0;
  next_allowed_at = none;
  manual_approval = false;
  bypassed = false;
  frozen = false;
  cosign_verified = false;
  cosign_cached = false;
}

-- `nil_observation` is the panic at a nil pointer, had `CreateObservation` returned one.
pub data EngineError : Type 0 where
  no_store : EngineError
  bad_image : ImageError → EngineError
  store_error : Text → EngineError
  nil_observation : EngineError

module _ {A : Type 0} where
  caught : Result Text A × World → Result EngineError (Result Text A) × World
  caught (r, w) = (ok r, w)

  -- `err` is looked at and not returned.
  unfoldable pub try : Act Text A → Act EngineError (Result Text A)
  unfolding caught
  try m w = caught (m w)

  lifted : Result Text A × World → Result EngineError A × World
  lifted (ok a, w) = (ok a, w)
  lifted (err e, w) = (err (store_error e), w)

  -- `if err != nil { return err }`.
  unfoldable pub lift : Act Text A → Act EngineError A
  unfolding lifted
  lift m w = lifted (m w)

unfoldable pub decision_record : Request → Decision → Time → DecisionRecord
decision_record req d now = record {
  id = 0;
  timestamp = now;
  image_ref = d.image_ref;
  registry = d.registry;
  repository = d.repository;
  tag = d.tag;
  digest = d.digest;
  decision = if d.allowed then decision_allow else decision_deny;
  reason = d.reason;
  client_user = req.client_user;
  request_method = req.request_method;
  request_uri = req.request_uri;
}

unfoldable pub decision_event : Request → Decision → Time → Event
decision_event req d now = record {
  timestamp = now;
  image_ref = d.image_ref;
  registry = d.registry;
  repository = d.repository;
  tag = d.tag;
  digest = d.digest;
  decision = if d.allowed then decision_allow else decision_deny;
  reason = d.reason;
  matched_rule = d.matched_rule;
  client_user = req.client_user;
  request_method = req.request_method;
  request_uri = req.request_uri;
  cosign_verified = d.cosign_verified;
  cosign_cached = d.cosign_cached;
}

unfoldable pub record_audit : Option Text → Event → Act Text (Unit {0})
record_audit none event = pure tt
record_audit (some path) event = record_event path event

-- The method `record`: the decision goes to the store, then to the audit log.
unfoldable pub record_outcome : Engine → Request → Decision → Act Text (Unit {0})
unfolding decision_record decision_event record_audit
record_outcome e req d = do
  record_decision (decision_record req d e.now)
  record_audit e.audit (decision_event req d e.now)
