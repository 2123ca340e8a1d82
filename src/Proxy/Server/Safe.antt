-- ===== src/Proxy/Server/Safe.antt =====
-- The manifests that the proxy serves are those that the engine permits.
use ribat.Base.{true, none, ok, ◌≡◌, subst}
use ribat.Image.{Reference, parse_reference}
use ribat.Store.World.{World}
use ribat.Engine.{Engine, Request}
use ribat.Engine.Decide.{decide}
use ribat.Engine.Decide.Permitted.{permitted}
use ribat.Engine.Decide.Safe.{decide_safe, quiet_opens}
use ribat.Proxy.{proxy_manifest, ProxyRequest, parse_proxy_request}
use ribat.Proxy.Server.{
  Proxy, ProxyState, HttpRequest, HttpResponse, image_of, proxy_request, handle_v2,
}
use ribat.Proxy.Server.Steps.{Served, Step, keeps, exposes, handle_v2-Step}

-- A decision without an error needs no premise about the store.
decide_permitted :
    (e : Engine) (req : Request) (ref : Reference) (w : World)
    → parse_reference req.image_ref ≡ ok ref
    → (decide e req w).0.1 ≡ none
    → (decide e req w).0.0.allowed ≡ true
    → permitted e ref w.db ≡ true
decide_permitted e req ref w parses quiet allowed =
    decide_safe e req ref w (quiet_opens e req w quiet) parses quiet allowed

-- A proxy whose engine is that of Engine/Decide.
abbrev pub deciding : Engine → Proxy → Proxy
deciding e p = record p { decide = decide e }

module _ (e : Engine) (p : Proxy) (r : HttpRequest) (st : ProxyState) where
  pub Served-permitted : (s : Served (deciding e p) r st) → permitted e s.ref st.world.db ≡ true
  unfolding proxy_request
  Served-permitted s =
      decide_permitted e (proxy_request r (image_of s.req)) s.ref st.world s.parses s.quiet
        s.allowed

  Served-of_ok :
      {out : HttpResponse × ProxyState} (req : ProxyRequest)
      → Step (deciding e p) r st out
      → parse_proxy_request r.path ≡ ok req
      → req.kind ≡ proxy_manifest
      → out.0.status ≡ 200
      → (s : Served (deciding e p) r st) × (s.req ≡ req)
  Served-of_ok req (keeps other) route kind status = absurd (other req route kind status)
  Served-of_ok req (exposes s) route kind status = (s, cc (s.route, route))

  -- If the proxy, with Decide as its engine, answers a request whose path is that of a manifest
  -- with status 200, then the image of the request parses, and the specification of the engine
  -- permits its pull with the tables before the request.
  pub handle_v2-permitted :
      (req : ProxyRequest)
      → parse_proxy_request r.path ≡ ok req
      → req.kind ≡ proxy_manifest
      → (handle_v2 (deciding e p) r st).0.status ≡ 200
      → (ref : Reference) × (parse_reference (image_of req) ≡ ok ref)
        × (permitted e ref st.world.db ≡ true)
  handle_v2-permitted req route kind status =
      let (s, same) = Served-of_ok req (handle_v2-Step (deciding e p) r st) route kind status in
      (
        s.ref,
        subst (λ q. parse_reference (image_of q) ≡ ok s.ref) same s.parses,
        Served-permitted s,
      )
