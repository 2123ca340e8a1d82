-- ===== src/Authz/Server.antt =====
-- `handleAuthZReq`: one request of the Docker daemon, answered by the decision engine.
pub mod Safe
pub mod Guarded
pub mod Inspected
pub mod Exact
pub mod Keeps
use ribat.Base.{
  Bool, true, false, List, [], ◌∷◌, ◌++◌, Option, none, some, if◌then◌else◌, Text, codes, join,
  Result, ok, err,
}
use ribat.Time.{Time}
use ribat.Audit.{Event}
use ribat.Store.Rows.{DecisionRecord, decision_deny}
use ribat.Store.Decisions.{record_decision}
use ribat.Store.World.{World, Act, pure, ◌>>=◌, ◌>>◌}
use ribat.Engine.{Request, Decision, EngineError, record_audit}
use ribat.Authz.{
  Readers, InspectError, RequestAction, action_pass, action_decide, action_deny, inspect_request,
}
use ribat.Authz.Messages.{Formats, decision_message}

-- The fields of `Server`: the engine by its method `Decide`, whether decisions are stored, the path
-- of the audit log, and the clock.
pub record Server : Type 0 where
  pub decide : Request → World → (Decision × Option EngineError) × World
  pub has_decisions : Bool
  pub audit : Option Text
  pub now : Time

pub record PluginRequest : Type 0 where
  pub user : Text
  pub user_authn_method : Text
  pub request_method : Text
  pub request_uri : Text
  pub request_body : Text

-- What stands in `Err`, before it is put into words.
pub data PluginError : Type 0 where
  invalid_request : Text → PluginError
  not_inspected : InspectError → PluginError
  authorization_failed : EngineError → PluginError
  recording_failed : Text → PluginError
  blocked : Text → PluginError

pub record PluginResponse : Type 0 where
  pub allow : Bool
  pub msg : Text
  pub error : Option PluginError

abbrev pub refuse : PluginError → PluginResponse
refuse e = record { allow = false; msg = []; error = some e }

abbrev pub accept : Text → PluginResponse
accept msg = record { allow = true; msg = msg; error = none }

unfoldable pub synthetic_record : Server → PluginRequest → Text → DecisionRecord
synthetic_record s req reason = record {
  id = 0;
  timestamp = s.now;
  image_ref = codes "docker build";
  registry = [];
  repository = [];
  tag = [];
  digest = [];
  decision = decision_deny;
  reason = reason;
  client_user = req.user;
  request_method = req.request_method;
  request_uri = req.request_uri;
}

unfoldable pub synthetic_event : Server → PluginRequest → Text → Event
synthetic_event s req reason = record {
  timestamp = s.now;
  image_ref = codes "docker build";
  registry = [];
  repository = [];
  tag = [];
  digest = [];
  decision = decision_deny;
  reason = reason;
  matched_rule = [];
  client_user = req.user;
  request_method = req.request_method;
  request_uri = req.request_uri;
  cosign_verified = false;
  cosign_cached = false;
}

unfoldable pub record_synthetic_deny : Server → PluginRequest → Text → Act Text (Unit {0})
unfolding synthetic_record synthetic_event
record_synthetic_deny s req reason = do
  if s.has_decisions then record_decision (synthetic_record s req reason) else pure tt
  record_audit s.audit (synthetic_event s req reason)

deny_response : Text → Result Text (Unit {0}) × World → PluginResponse × World
deny_response reason (err m, w) = (refuse (recording_failed m), w)
deny_response reason (ok _, w) = (refuse (blocked reason), w)

unfoldable pub plugin_decision : PluginRequest → Text → Request
plugin_decision req image = record {
  image_ref = image;
  client_user = req.user;
  request_method = req.request_method;
  request_uri = req.request_uri;
}

-- The answer to one image; `later` is the answer to those behind it.
answer : Option EngineError → Bool → Text → World → PluginResponse × World → PluginResponse × World
answer (some e) allowed message w later = (refuse (authorization_failed e), w)
answer none true message w later = later
answer none false message w later = (refuse (blocked message), w)

-- The loop over the images; `messages` holds those of the images before.
unfoldable pub decide_images :
    Formats → Server → PluginRequest → List Text → List Text → World → PluginResponse × World
unfolding plugin_decision answer
decide_images f s req [] messages w = (accept (join (b'\n' ∷ b'\n' ∷ []) messages), w)
decide_images f s req (image ∷ images) messages w =
    let ((d, failure), w') = s.decide (plugin_decision req image) w in
    let message = decision_message f d in
    let later = decide_images f s req images (messages ++ message ∷ []) w' in
    answer failure d.allowed message w' later

act_on :
    Formats
    → Server
    → PluginRequest
    → Result InspectError RequestAction
    → World
    → PluginResponse × World
unfolding deny_response record_synthetic_deny decide_images
act_on f s req (err m) w = (refuse (not_inspected m), w)
act_on f s req (ok action_pass) w = (accept [], w)
act_on f s req (ok (action_deny reason)) w =
    deny_response reason (record_synthetic_deny s req reason w)
act_on f s req (ok (action_decide images)) w = decide_images f s req images [] w

-- The body of the request, decoded or not.
unfoldable pub handle_authz_req :
    Readers → Formats → Server → Result Text PluginRequest → World → PluginResponse × World
unfolding act_on
handle_authz_req readers f s (err m) w = (refuse (invalid_request m), w)
handle_authz_req readers f s (ok req) w =
    act_on f s req (inspect_request readers req.request_method req.request_uri req.request_body) w

-- `handleAuthZRes` lets every answer of the daemon through.
unfoldable pub handle_authz_res : PluginResponse
handle_authz_res = accept []
