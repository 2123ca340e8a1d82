-- ===== src/Proxy/Server/Exact.antt =====
-- When a request for a manifest is answered with it.
use ribat.Base.{
  Bool, true, false, not, ◌&&◌, ◌||◌, Option, none, some, Text, codes, text_eq, if◌then◌else◌, ok,
  ◌≡◌, ◌↔◌, refl, ◌∙◌, ap, arith, subst,
}
use ribat.Image.{Reference, parse_reference}
use ribat.Store.World.{World}
use ribat.Engine.{Decision, EngineError}
use ribat.Registry.{Manifest}
use ribat.Proxy.{proxy_manifest, ProxyRequest, parse_proxy_request, normalize_manifest_reference}
use ribat.Proxy.Server.{
  Proxy, ProxyState, HttpRequest, HttpResponse, ProxyError, http_error, image_of, proxy_request,
  serve_manifest, fetch_allowed, after_decision, handle_manifest, by_kind, routed, handle_v2,
}
use ribat.Proxy.Server.Steps.{Step, keeps, exposes, handle_v2-Step, root_is_no_route}

-- The engine allows the image without an error, and the registry has given the manifest.
abbrev pub Fetches : Proxy → HttpRequest → ProxyRequest → World → Type 0
Fetches p r req w =
    ((p.decide (proxy_request r (image_of req)) w).0.1 ≡ none)
    × ((p.decide (proxy_request r (image_of req)) w).0.0.allowed ≡ true)
    × ((ref : Reference) × (m : Manifest) × (parse_reference (image_of req) ≡ ok ref)
        × (p.fetch_manifest ref (normalize_manifest_reference req.reference) ≡ ok m))

-- Past the two guards of `handleV2`.
pub if_read :
    (root other : Bool) (a z rest : HttpResponse × ProxyState)
    → (root ≡ true → ⊥)
    → other ≡ false
    → rest.0.status ≡ 200
    → (if root then a else if other then z else rest).0.status ≡ 200
if_read true other a z rest h k s = absurd (h refl)
if_read false true a z rest h k s = cc
if_read false false a z rest h k s = s

pub read_passes :
    (method : Text)
    → (text_eq method (codes "GET") || text_eq method (codes "HEAD")) ≡ true
    → (not (text_eq method (codes "GET")) && not (text_eq method (codes "HEAD"))) ≡ false
read_passes method read = ground arith

module _ (p : Proxy) (r : HttpRequest) (req : ProxyRequest) (st : ProxyState)
    (route : parse_proxy_request r.path ≡ ok req) (kind : req.kind ≡ proxy_manifest) where
  after_decision-ok :
      (d : Decision) (failure : Option EngineError) (ref : Reference) (m : Manifest)
      (v : ProxyState)
      → failure ≡ none
      → d.allowed ≡ true
      → parse_reference (image_of req) ≡ ok ref
      → p.fetch_manifest ref (normalize_manifest_reference req.reference) ≡ ok m
      → (after_decision p r req (d, failure) v).0.status ≡ 200
  unfolding after_decision fetch_allowed serve_manifest
  after_decision-ok d none ref m v quiet allowed parses fetched = simp (allowed, parses, fetched)
  after_decision-ok d (some e) ref m v quiet allowed parses fetched = cc

  routed-manifest : routed p r (parse_proxy_request r.path) st ≡ handle_manifest p r req st
  unfolding routed by_kind
  routed-manifest = ap (λ a. routed p r a st) route ∙ ap (λ k. by_kind p r req k st) kind

  Fetches-ok :
      (text_eq r.method (codes "GET") || text_eq r.method (codes "HEAD")) ≡ true
      → Fetches p r req st.world
      → (handle_v2 p r st).0.status ≡ 200
  unfolding handle_v2 handle_manifest
  Fetches-ok read (quiet, allowed, (ref, m, parses, fetched)) =
      if_read _ _ _ (http_error 405 ProxyError.method_not_allowed, st) _
        (λ root. root_is_no_route p r st req root route) (read_passes r.method read)
        (ap (λ out. out.0.status) routed-manifest
          ∙ after_decision-ok _ _ ref m _ quiet allowed parses fetched)

  ok-Fetches :
      {out : HttpResponse × ProxyState}
      → Step p r st out
      → out.0.status ≡ 200
      → Fetches p r req st.world
  ok-Fetches (keeps other) status = absurd (other req route kind status)
  ok-Fetches (exposes s) status =
      let same : s.req ≡ req = cc (s.route, route) in
      subst (λ q. Fetches p r q st.world) same
        (s.quiet, s.allowed, (s.ref, s.manifest, s.parses, s.fetched))

  -- A GET or HEAD request whose path is that of a manifest is answered with status 200 exactly if
  -- the engine returns no error and allows the image, the image parses, and the registry gives the
  -- manifest.
  pub handle_v2-manifest_iff :
      (text_eq r.method (codes "GET") || text_eq r.method (codes "HEAD")) ≡ true
      → ((handle_v2 p r st).0.status ≡ 200) ↔ Fetches p r req st.world
  handle_v2-manifest_iff read = (λ h. ok-Fetches (handle_v2-Step p r st) h, λ h. Fetches-ok read h)
