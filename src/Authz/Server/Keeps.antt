-- ===== src/Authz/Server/Keeps.antt =====
-- What a request to the plugin keeps of the world: every relation that its engine keeps.
use ribat.Base.{Bool, true, false, List, [], ◌∷◌, Option, none, some, Text, Result, ok, err}
use ribat.Store.World.{World}
use ribat.Store.World.Keeps.{Keeps, Keeps-pure, Keeps-if, Keeps-call, Keeps-change, Keeps-bind}
use ribat.Store.Decisions.{record_decision}
use ribat.Engine.{EngineError, Request}
use ribat.Engine.Decide.Lasts.{Lasting, record_audit-Keeps}
use ribat.Authz.{Readers, InspectError, RequestAction, action_pass, action_decide, action_deny}
use ribat.Authz.Messages.{Formats}
use ribat.Authz.Server.{
  Server, PluginRequest, PluginResponse, plugin_decision, answer, decide_images, deny_response,
  act_on, handle_authz_req, record_synthetic_deny, synthetic_record,
}

module _ (l : Lasting) where
  module _ (f : Formats) (s : Server)
      (decides : (req : Request) (w : World) → l.stable.order.rel w (s.decide req w).1)
      (req : PluginRequest) where
    answer-Keeps :
        {v : World} (failure : Option EngineError) (allowed : Bool) (message : Text) (w : World)
        (later : PluginResponse × World)
        → l.stable.order.rel v w
        → l.stable.order.rel v later.1
        → l.stable.order.rel v (answer failure allowed message w later).1
    unfolding answer
    answer-Keeps (some e) allowed message w later h k = h
    answer-Keeps none true message w later h k = k
    answer-Keeps none false message w later h k = h

    decide_images-Keeps :
        (images messages : List Text) (w : World)
        → l.stable.order.rel w (decide_images f s req images messages w).1
    unfolding decide_images
    decide_images-Keeps [] messages w = l.stable.order.same w
    decide_images-Keeps (image ∷ images) messages w =
        let here = decides (plugin_decision req image) w in
        answer-Keeps _ _ _ _ _ here (l.stable.order.after here (decide_images-Keeps images _ _))

    deny_response-Keeps :
        {v : World} (reason : Text) (r : Result Text (Unit {0}) × World)
        → l.stable.order.rel v r.1
        → l.stable.order.rel v (deny_response reason r).1
    unfolding deny_response
    deny_response-Keeps reason (err m, w) h = h
    deny_response-Keeps reason (ok x, w) h = h

    record_synthetic_deny-Keeps :
        (reason : Text) → Keeps l.stable.order (record_synthetic_deny s req reason)
    unfolding record_synthetic_deny record_decision
    record_synthetic_deny-Keeps reason =
        Keeps-bind l.stable.order _ _
          (Keeps-if l.stable.order s.has_decisions _ _
            (Keeps-bind l.stable.order _ _ (Keeps-call l.stable.order _)
              λ _. Keeps-change l.stable.order _ (l.records (synthetic_record s req reason)))
            (Keeps-pure l.stable.order tt))
          λ _. record_audit-Keeps l s.audit _

    act_on-Keeps :
        (action : Result InspectError RequestAction) (w : World)
        → l.stable.order.rel w (act_on f s req action w).1
    unfolding act_on
    act_on-Keeps (err m) w = l.stable.order.same w
    act_on-Keeps (ok action_pass) w = l.stable.order.same w
    act_on-Keeps (ok (action_deny reason)) w =
        deny_response-Keeps reason _ ((record_synthetic_deny-Keeps reason).kept w)
    act_on-Keeps (ok (action_decide images)) w = decide_images-Keeps images [] w

  pub handle_authz_req-Keeps :
      (readers : Readers) (f : Formats) (s : Server)
      → ((req : Request) (w : World) → l.stable.order.rel w (s.decide req w).1)
      → (q : Result Text PluginRequest) (w : World)
      → l.stable.order.rel w (handle_authz_req readers f s q w).1
  unfolding handle_authz_req
  handle_authz_req-Keeps readers f s decides (err m) w = l.stable.order.same w
  handle_authz_req-Keeps readers f s decides (ok req) w = act_on-Keeps f s decides req _ w
