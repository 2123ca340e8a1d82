-- ===== src/Proxy/Server/Steps.antt =====
-- What one request does, as one of two cases: it exposes the blobs of a manifest, or it leaves the
-- map of blobs.
use ribat.Base.{
  Bool, true, false, ◌||◌, Option, none, some, Text, codes, text_eq, text_eq→eq, has_prefix,
  trim_prefix, drop, Bool-cases, inl, inr, if◌then◌else◌, Result, ok, err, ◌≡◌, refl, ap, arith,
  sym, ◌∙◌,
}
use ribat.Image.{Reference, ImageError, parse_reference}
use ribat.Store.World.{World}
use ribat.Engine.{Decision, EngineError}
use ribat.Registry.{Manifest}
use ribat.Proxy.{
  ProxyKind, proxy_unknown, proxy_manifest, proxy_blob, ProxyRequest, PathError,
  parse_proxy_request, normalize_manifest_reference,
}
use ribat.Proxy.Server.{
  Proxy, ProxyState, HttpRequest, HttpResponse, ProxyError, http_error, image_of, proxy_request,
  manifest_blob_digests, remember_manifest_blobs, serve_manifest, fetch_allowed, after_decision,
  handle_manifest, by_kind, routed, handle_v2,
}

-- The manifest that an allowed request has got.
pub record Served (p : Proxy) (r : HttpRequest) (st : ProxyState) : Type 0 where
  pub req : ProxyRequest
  pub ref : Reference
  pub manifest : Manifest
  pub route : parse_proxy_request r.path ≡ ok req
  pub kind : req.kind ≡ proxy_manifest
  pub quiet : (p.decide (proxy_request r (image_of req)) st.world).0.1 ≡ none
  pub allowed : (p.decide (proxy_request r (image_of req)) st.world).0.0.allowed ≡ true
  pub parses : parse_reference (image_of req) ≡ ok ref
  pub fetched : p.fetch_manifest ref (normalize_manifest_reference req.reference) ≡ ok manifest

-- No manifest is in the answer.
abbrev IsOther : HttpRequest → HttpResponse → Type 0
IsOther r res =
    (req : ProxyRequest)
    → parse_proxy_request r.path ≡ ok req
    → req.kind ≡ proxy_manifest
    → res.status ≡ 200
    → ⊥

pub data Step (p : Proxy) (r : HttpRequest) (st : ProxyState)
    : HttpResponse × ProxyState → Type 0 where
  keeps :
      {res : HttpResponse} {w : World} → IsOther r res → Step p r st (res, record st { world = w })
  exposes :
      {res : HttpResponse} {w : World} (s : Served p r st)
      → Step p r st (
        res,
        record {
          world = w;
          allowed_blobs =
              remember_manifest_blobs s.req.registry s.req.repository
                (manifest_blob_digests (p.unmarshal s.manifest.body))
                st.allowed_blobs;
        },
      )

module _ (p : Proxy) (r : HttpRequest) (st : ProxyState) (req : ProxyRequest)
    (route : parse_proxy_request r.path ≡ ok req) (kind : req.kind ≡ proxy_manifest) where
  serve_manifest-Step :
      (ref : Reference) (w : World) (answer : Result Text Manifest)
      → (p.decide (proxy_request r (image_of req)) st.world).0.1 ≡ none
      → (p.decide (proxy_request r (image_of req)) st.world).0.0.allowed ≡ true
      → parse_reference (image_of req) ≡ ok ref
      → p.fetch_manifest ref (normalize_manifest_reference req.reference) ≡ answer
      → Step p r st (serve_manifest p r req answer (record st { world = w }))
  unfolding serve_manifest
  serve_manifest-Step ref w (err m) quiet allowed parses fetched = keeps (λ req' e k h. omega arith)
  serve_manifest-Step ref w (ok m) quiet allowed parses fetched = exposes (record {
    req = req;
    ref = ref;
    manifest = m;
    route = route;
    kind = kind;
    quiet = quiet;
    allowed = allowed;
    parses = parses;
    fetched = fetched;
  })

  fetch_allowed-Step :
      (w : World) (parsed : Result ImageError Reference)
      → (p.decide (proxy_request r (image_of req)) st.world).0.1 ≡ none
      → (p.decide (proxy_request r (image_of req)) st.world).0.0.allowed ≡ true
      → parse_reference (image_of req) ≡ parsed
      → Step p r st (
          fetch_allowed p r req
            (normalize_manifest_reference req.reference)
            parsed
            (record st { world = w }))
  unfolding fetch_allowed
  fetch_allowed-Step w (err m) quiet allowed parses = keeps (λ req' e k h. omega arith)
  fetch_allowed-Step w (ok ref) quiet allowed parses =
      serve_manifest-Step ref w _ quiet allowed parses refl

  if_allowed :
      (b : Bool) (w : World) (res : HttpResponse) (rest : HttpResponse × ProxyState)
      → (b ≡ true → Step p r st rest)
      → IsOther r res
      → Step p r st (if b then rest else (res, record st { world = w }))
  if_allowed true w res rest h k = h refl
  if_allowed false w res rest h k = keeps k

  after_decision-Step :
      (failure : Option EngineError) (d : Decision) (w : World)
      → (p.decide (proxy_request r (image_of req)) st.world).0 ≡ (d, failure)
      → Step p r st (after_decision p r req (d, failure) (record st { world = w }))
  unfolding after_decision
  after_decision-Step (some e) d w same = keeps (λ req' e' k h. omega arith)
  after_decision-Step none d w same =
      if_allowed d.allowed w _ _
        (λ on.
          fetch_allowed-Step w (parse_reference (image_of req)) (ap (λ x. x.1) same)
            (ap (λ x. x.0.allowed) same ∙ on) refl)
        (λ req' e' k h. omega arith)

no_route : parse_proxy_request (codes "/v2") ≡ err (PathError.unsupported_path (codes "/v2"))
unfolding parse_proxy_request trim_prefix has_prefix text_eq codes drop
no_route = refl

no_route_slash :
    parse_proxy_request (codes "/v2/") ≡ err (PathError.unsupported_path (codes "/v2/"))
unfolding parse_proxy_request trim_prefix has_prefix text_eq codes drop
no_route_slash = refl

module _ (p : Proxy) (r : HttpRequest) (st : ProxyState) where
  by_kind-Step :
      (req : ProxyRequest) (k : ProxyKind)
      → parse_proxy_request r.path ≡ ok req
      → req.kind ≡ k
      → Step p r st (by_kind p r req k st)
  unfolding by_kind handle_manifest
  by_kind-Step req proxy_manifest route kind = after_decision-Step p r st req route kind _ _ _ refl
  by_kind-Step req proxy_blob route kind = keeps (λ req' e k h. cc (kind, k, sym route ∙ e))
  by_kind-Step req proxy_unknown route kind = keeps (λ req' e k h. omega arith)

  routed-Step :
      (a : Result PathError ProxyRequest)
      → parse_proxy_request r.path ≡ a
      → Step p r st (routed p r a st)
  unfolding routed
  routed-Step (err m) route = keeps (λ req' e k h. omega arith)
  routed-Step (ok req) route = by_kind-Step req req.kind route refl

  pub root_is_no_route :
      (req : ProxyRequest)
      → (text_eq r.path (codes "/v2") || text_eq r.path (codes "/v2/")) ≡ true
      → parse_proxy_request r.path ≡ ok req
      → ⊥
  root_is_no_route req h e = elim (Bool-cases (text_eq r.path (codes "/v2"))) [
    | inl same ↦
        cc (sym e ∙ ap parse_proxy_request (text_eq→eq r.path (codes "/v2") same) ∙ no_route)
    | inr other ↦
        let same : text_eq r.path (codes "/v2/") ≡ true = ground arith in
        cc (sym e ∙ ap parse_proxy_request (text_eq→eq r.path (codes "/v2/") same) ∙ no_route_slash)
  ]

  if_root :
      (root other : Bool) (res res' : HttpResponse) (rest : HttpResponse × ProxyState)
      → (root ≡ true → IsOther r res)
      → IsOther r res'
      → Step p r st rest
      → Step p r st (if root then (res, st) else if other then (res', st) else rest)
  if_root true other res res' rest h k s = keeps (h refl)
  if_root false true res res' rest h k s = keeps k
  if_root false false res res' rest h k s = s

  pub handle_v2-Step : Step p r st (handle_v2 p r st)
  unfolding handle_v2
  handle_v2-Step =
      if_root _ _ _ (http_error 405 ProxyError.method_not_allowed) _
        (λ root req e k h. root_is_no_route req root e) (λ req e k h. omega arith)
        (routed-Step (parse_proxy_request r.path) refl)
