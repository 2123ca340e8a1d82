-- ===== src/Proxy/Server/Keeps.antt =====
-- What a request to the proxy keeps of the world: every relation that its engine keeps.
use ribat.Base.{
  Bool, true, false, not, ◌&&◌, ◌||◌, String, codes, text_eq, Option, none, some, Text, Result, ok,
  err, if◌then◌else◌,
}
use ribat.Image.{Reference, ImageError}
use ribat.Store.World.{World}
use ribat.Store.World.Keeps.{Preorder}
use ribat.Engine.{Decision, EngineError, Request}
use ribat.Proxy.{
  ProxyRequest, PathError, ProxyKind, proxy_manifest, proxy_blob, proxy_unknown,
  parse_proxy_request,
}
use ribat.Registry.{Manifest}
use ribat.Proxy.Server.{
  Proxy, ProxyState, HttpRequest, HttpResponse, image_of, proxy_request, serve_manifest,
  fetch_allowed, after_decision, handle_manifest, by_kind, routed, handle_v2, api_version,
  http_error, no_body, method_not_allowed,
}

module _ (o : Preorder) where
  module _ (p : Proxy) (decides : (req : Request) (w : World) → o.rel w (p.decide req w).1)
      (r : HttpRequest) where
    serve_manifest-world :
        (req : ProxyRequest) (answer : Result Text Manifest) (st : ProxyState) {v : World}
        → o.rel v st.world
        → o.rel v (serve_manifest p r req answer st).1.world
    unfolding serve_manifest
    serve_manifest-world req (err m) st h = h
    serve_manifest-world req (ok m) st h = h

    fetch_allowed-world :
        (req : ProxyRequest) (reference : Text) (parsed : Result ImageError Reference)
        (st : ProxyState) {v : World}
        → o.rel v st.world
        → o.rel v (fetch_allowed p r req reference parsed st).1.world
    unfolding fetch_allowed
    fetch_allowed-world req reference (err m) st h = h
    fetch_allowed-world req reference (ok ref) st h = serve_manifest-world req _ st h

    after_decision-world :
        (req : ProxyRequest) (d : Decision) (failure : Option EngineError) (allowed : Bool)
        (st : ProxyState) {v : World}
        → o.rel v st.world
        → o.rel v (after_decision p r req (record d { allowed = allowed }, failure) st).1.world
    unfolding after_decision
    after_decision-world req d (some e) allowed st h = h
    after_decision-world req d none true st h = fetch_allowed-world req _ _ st h
    after_decision-world req d none false st h = h

    by_kind-world :
        (req : ProxyRequest) (kind : ProxyKind) (st : ProxyState)
        → o.rel st.world (by_kind p r req kind st).1.world
    unfolding by_kind handle_manifest
    by_kind-world req proxy_manifest st =
        let out = p.decide (proxy_request r (image_of req)) st.world in
        after_decision-world req out.0.0 out.0.1 out.0.0.allowed (record st { world = out.1 })
          (decides _ _)
    by_kind-world req proxy_blob st = o.same st.world
    by_kind-world req proxy_unknown st = o.same st.world

    routed-world :
        (route : Result PathError ProxyRequest) (st : ProxyState)
        → o.rel st.world (routed p r route st).1.world
    unfolding routed
    routed-world (err m) st = o.same st.world
    routed-world (ok req) st = by_kind-world req req.kind st

    guarded-world :
        (root other : Bool) (a z : HttpResponse) (st : ProxyState)
        (rest : HttpResponse × ProxyState)
        → o.rel st.world rest.1.world
        → o.rel st.world (if root then (a, st) else if other then (z, st) else rest).1.world
    guarded-world true other a z st rest h = o.same st.world
    guarded-world false true a z st rest h = o.same st.world
    guarded-world false false a z st rest h = h

    pub handle_v2-world : (st : ProxyState) → o.rel st.world (handle_v2 p r st).1.world
    unfolding handle_v2
    handle_v2-world st =
        let is : String → Bool = λ path. text_eq r.path (codes path) in
        let does : String → Bool = λ method. text_eq r.method (codes method) in
        guarded-world (is "/v2" || is "/v2/") (not (does "GET") && not (does "HEAD"))
          (record { status = 200; headers = api_version; body = no_body })
          (http_error 405 method_not_allowed) st (routed p r (parse_proxy_request r.path) st)
          (routed-world (parse_proxy_request r.path) st)
