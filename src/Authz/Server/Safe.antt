-- ===== src/Authz/Server/Safe.antt =====
-- What a request that the plugin accepts has gone through.
use ribat.Base.{
  Bool, true, false, List, [], ◌∷◌, ◌++◌, Option, none, some, Text, Result, ok, err, ◌≡◌, ◌↔◌, refl,
  subst,
}
use ribat.Image.{Reference, parse_reference}
use ribat.Store.World.{World}
use ribat.Engine.{Engine, EngineError}
use ribat.Engine.Decide.{decide}
use ribat.Engine.Decide.Permitted.{permitted}
use ribat.Engine.Decide.Safe.{decide_safe}
use ribat.Authz.{
  Readers, InspectError, RequestAction, action_pass, action_decide, action_deny, inspect_request,
}
use ribat.Authz.Messages.{Formats, decision_message}
use ribat.Authz.Server.{
  Server, PluginRequest, PluginResponse, plugin_decision, answer, decide_images, deny_response,
  act_on, handle_authz_req, record_synthetic_deny,
}

-- The engine allows each image, one after the other, and returns no error.
abbrev pub AllAllowed : Server → PluginRequest → List Text → World → Type 0
AllAllowed s req [] w = Unit
AllAllowed s req (image ∷ images) w =
    ((s.decide (plugin_decision req image) w).0.1 ≡ none)
    × ((s.decide (plugin_decision req image) w).0.0.allowed ≡ true)
    × AllAllowed s req images (s.decide (plugin_decision req image) w).1

abbrev pub Accepted : Server → PluginRequest → Result InspectError RequestAction → World → Type 0
Accepted s req (err m) w = ⊥
Accepted s req (ok action_pass) w = Unit
Accepted s req (ok (action_deny reason)) w = ⊥
Accepted s req (ok (action_decide images)) w = AllAllowed s req images w

module _ (f : Formats) (s : Server) (req : PluginRequest) where
  -- The answer to one image, from what the engine returns and what the images behind it answer.
  step_iff :
      {P : Type 0} (failure : Option EngineError) (allowed : Bool) (message : Text) (w : World)
      (later : PluginResponse × World)
      → (later.0.allow ≡ true) ↔ P
      → ((answer failure allowed message w later).0.allow ≡ true)
        ↔ ((failure ≡ none) × (allowed ≡ true) × P)
  unfolding answer
  step_iff none true message w later h = (λ k. (refl, refl, h.0 k), λ (a, b, p). h.1 p)
  step_iff none false message w later h = (λ k. cc, λ (a, b, p). cc)
  step_iff (some e) allowed message w later h = (λ k. cc, λ (a, b, p). cc)

  decide_images_iff :
      (images messages : List Text) (w : World)
      → ((decide_images f s req images messages w).0.allow ≡ true) ↔ AllAllowed s req images w
  unfolding decide_images
  decide_images_iff [] messages w = (λ h. tt, λ h. refl)
  decide_images_iff (image ∷ images) messages w =
      let out = s.decide (plugin_decision req image) w in
      step_iff out.0.1 out.0.0.allowed (decision_message f out.0.0) out.1 _
        (decide_images_iff images (messages ++ decision_message f out.0.0 ∷ []) out.1)

  denied_allow :
      (reason : Text) (r : Result Text (Unit {0}) × World)
      → (deny_response reason r).0.allow ≡ false
  unfolding deny_response
  denied_allow reason (err m, w) = refl
  denied_allow reason (ok x, w) = refl

  act_on_iff :
      (action : Result InspectError RequestAction) (w : World)
      → ((act_on f s req action w).0.allow ≡ true) ↔ Accepted s req action w
  unfolding act_on
  act_on_iff (err m) w = (λ h. cc, λ h. absurd h)
  act_on_iff (ok action_pass) w = (λ h. tt, λ h. refl)
  act_on_iff (ok (action_deny reason)) w =
      (λ h. cc (h, denied_allow reason (record_synthetic_deny s req reason w)), λ h. absurd h)
  act_on_iff (ok (action_decide images)) w = decide_images_iff images [] w

-- The plugin allows a decoded request exactly if its inspection passes it, or gives images each of
-- which the engine allows without an error, in the world that the image before it leaves.
pub handle_authz_req-allow_iff :
    (readers : Readers) (f : Formats) (s : Server) (req : PluginRequest) (w : World)
    → ((handle_authz_req readers f s (ok req) w).0.allow ≡ true)
      ↔ Accepted s req
          (inspect_request readers req.request_method req.request_uri req.request_body)
          w
unfolding handle_authz_req
handle_authz_req-allow_iff readers f s req w = act_on_iff f s req _ w

-- A server whose engine is that of Engine/Decide.
abbrev pub serving : Engine → Server → Server
serving e s = record s { decide = decide e }

-- If a request to the plugin is a pull of one image, the image parses, the store is open and the
-- plugin, with Decide as its engine, allows the request, then the specification of the engine
-- permits the pull.
pub handle_authz_req-permitted :
    (readers : Readers) (f : Formats) (s : Server) (e : Engine) (req : PluginRequest) (image : Text)
    (ref : Reference) (w : World)
    → inspect_request readers req.request_method req.request_uri req.request_body
      ≡ ok (action_decide (image ∷ []))
    → e.has_store ≡ true
    → parse_reference image ≡ ok ref
    → (handle_authz_req readers f (serving e s) (ok req) w).0.allow ≡ true
    → permitted e ref w.db ≡ true
unfolding plugin_decision
handle_authz_req-permitted readers f s e req image ref w pull open_store parses allowed =
    let all =
      subst (λ a. Accepted (serving e s) req a w) pull
        ((handle_authz_req-allow_iff readers f (serving e s) req w).0 allowed) in
    decide_safe e (plugin_decision req image) ref w open_store parses all.0 all.1
