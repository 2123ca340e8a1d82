-- ===== src/Proxy/Server/Blobs.antt =====
-- The blobs that the proxy serves are those of manifests that it has been allowed to serve.
use ribat.Base.{
  Bool, true, false, List, [], ◌∷◌, Text, text_eq, any, ◌≡◌, refl, sym, ◌⊎◌, inl, inr, Bool-cases,
  if◌then◌else◌, ok, arith, ap, ◌∙◌,
}
use ribat.Engine.{Engine}
use ribat.Engine.Decide.Permitted.{permitted}
use ribat.Proxy.{proxy_blob, ProxyRequest, parse_proxy_request}
use ribat.Proxy.Server.{
  Proxy, ProxyState, HttpRequest, HttpResponse, ProxyError, http_error, blob_key,
  manifest_blob_digests, remember_manifest_blobs, blob_allowed, handle_blob, by_kind, routed,
  handle_v2,
}
use ribat.Proxy.Server.Steps.{Served, Step, keeps, exposes, handle_v2-Step, root_is_no_route}
use ribat.Proxy.Server.Safe.{deciding, Served-permitted}

-- One call: its engine, what it meets beside the engine, and the request.
pub record Call : Type 0 where
  pub engine : Engine
  pub proxy : Proxy
  pub request : HttpRequest

abbrev pub handle_call : Call → ProxyState → HttpResponse × ProxyState
handle_call c st = handle_v2 (deciding c.engine c.proxy) c.request st

unfoldable pub handle_calls : List Call → ProxyState → ProxyState
handle_calls [] st = st
handle_calls (c ∷ calls) st = handle_calls calls (handle_call c st).1

-- The key is that of a blob in a manifest that the policy permitted at that time.
pub record Exposes (key : Text) (c : Call) (st : ProxyState) : Type 0 where
  pub served : Served (deciding c.engine c.proxy) c.request st
  pub permits : permitted c.engine served.ref st.world.db ≡ true
  pub listed :
      any
        (λ digest. text_eq key (blob_key served.req.registry served.req.repository digest))
        (manifest_blob_digests (c.proxy.unmarshal served.manifest.body))
      ≡ true

-- One of the calls has exposed the key.
pub data Exposed (key : Text) : List Call → ProxyState → Type 0 where
  by_first :
      {c : Call} {calls : List Call} {st : ProxyState}
      → Exposes key c st
      → Exposed key (c ∷ calls) st
  by_later :
      {c : Call} {calls : List Call} {st : ProxyState}
      → Exposed key calls (handle_call c st).1
      → Exposed key (c ∷ calls) st

remembered :
    (key registry repository : Text) (digests allowed : List Text)
    → any (text_eq key) (remember_manifest_blobs registry repository digests allowed) ≡ true
    → (any (text_eq key) allowed ≡ true)
      ⊎ (any (λ digest. text_eq key (blob_key registry repository digest)) digests ≡ true)
unfolding remember_manifest_blobs
remembered key registry repository [] allowed h = inl h
remembered key registry repository (digest ∷ digests) allowed h =
    elim (remembered key registry repository digests (blob_key registry repository digest ∷ allowed)
      h) [
        | inr later ↦ inr (ground (arith, later))
        | inl front ↦ elim (Bool-cases (text_eq key (blob_key registry repository digest))) [
          | inl same ↦ inr (ground (arith, same))
          | inr other ↦ inl (ground (arith, front, other))
        ]
      ]

Step-Exposes :
    (key : Text) (c : Call) (st : ProxyState) {out : HttpResponse × ProxyState}
    → Step (deciding c.engine c.proxy) c.request st out
    → any (text_eq key) out.1.allowed_blobs ≡ true
    → (any (text_eq key) st.allowed_blobs ≡ true) ⊎ Exposes key c st
Step-Exposes key c st (keeps other) h = inl h
Step-Exposes key c st (exposes s) h =
    elim (remembered key s.req.registry s.req.repository _ st.allowed_blobs h) [
      | inl old ↦ inl old
      | inr listed ↦ inr (record {
        served = s;
        permits = Served-permitted c.engine c.proxy c.request st s;
        listed = listed;
      })
    ]

allowed-Exposed :
    (key : Text) (calls : List Call) (st : ProxyState)
    → any (text_eq key) (handle_calls calls st).allowed_blobs ≡ true
    → (any (text_eq key) st.allowed_blobs ≡ true) ⊎ Exposed key calls st
unfolding handle_calls
allowed-Exposed key [] st h = inl h
allowed-Exposed key (c ∷ calls) st h = elim (allowed-Exposed key calls (handle_call c st).1 h) [
  | inr later ↦ inr (by_later later)
  | inl now ↦
      elim (Step-Exposes key c st (handle_v2-Step (deciding c.engine c.proxy) c.request st) now) [
        | inl old ↦ inl old
        | inr first ↦ inr (by_first first)
      ]
]

-- A blob that is served is in the map.
module _ (p : Proxy) (r : HttpRequest) (st : ProxyState) (req : ProxyRequest)
    (route : parse_proxy_request r.path ≡ ok req) (kind : req.kind ≡ proxy_blob) where
  if_in_map :
      (b : Bool) (a z : HttpResponse)
      → (z.status ≡ 200 → ⊥)
      → (if b then a else z).status ≡ 200
      → b ≡ true
  if_in_map true a z h k = refl
  if_in_map false a z h k = absurd (h k)

  handle_blob-allowed :
      (handle_blob p r req st).status ≡ 200
      → any (text_eq (blob_key req.registry req.repository req.reference)) st.allowed_blobs ≡ true
  unfolding handle_blob blob_allowed
  handle_blob-allowed h = if_in_map _ _ _ (λ k. omega (arith, k)) h

  past_guards :
      (root other : Bool) (a z rest : HttpResponse × ProxyState)
      → (root ≡ true → ⊥)
      → (z.0.status ≡ 200 → ⊥)
      → (if root then a else if other then z else rest).0.status ≡ 200
      → rest.0.status ≡ 200
  past_guards true other a z rest h k l = absurd (h refl)
  past_guards false true a z rest h k l = absurd (k l)
  past_guards false false a z rest h k l = l

  pub routed-blob : (routed p r (parse_proxy_request r.path) st).0 ≡ handle_blob p r req st
  unfolding routed by_kind
  routed-blob = ap (λ a. (routed p r a st).0) route ∙ ap (λ k. (by_kind p r req k st).0) kind

  served_blob-allowed :
      (handle_v2 p r st).0.status ≡ 200
      → any (text_eq (blob_key req.registry req.repository req.reference)) st.allowed_blobs ≡ true
  unfolding handle_v2
  served_blob-allowed h =
      let served : (routed p r (parse_proxy_request r.path) st).0.status ≡ 200 =
        past_guards _ _ _ (http_error 405 ProxyError.method_not_allowed, st) _
          (λ root. root_is_no_route p r st req root route) (λ k. omega (arith, k)) h in
      handle_blob-allowed (sym (ap (λ res. res.status) routed-blob) ∙ served)

-- If the proxy has started with no blobs, has handled any sequence of requests with Decide as its
-- engine, and then answers a request whose path is that of a blob with status 200, then one of the
-- requests before was for a manifest that lists a blob with the same key, and the specification of
-- the engine permitted the image of that manifest with the tables that it met.
pub served_blob-Exposed :
    (calls : List Call) (p : Proxy) (r : HttpRequest) (req : ProxyRequest) (st : ProxyState)
    → st.allowed_blobs ≡ []
    → parse_proxy_request r.path ≡ ok req
    → req.kind ≡ proxy_blob
    → (handle_v2 p r (handle_calls calls st)).0.status ≡ 200
    → Exposed (blob_key req.registry req.repository req.reference) calls st
served_blob-Exposed calls p r req st fresh route kind status =
    let key = blob_key req.registry req.repository req.reference in
    elim (allowed-Exposed key calls st
      (served_blob-allowed p r (handle_calls calls st) req route kind status)) [
        | inr exposed ↦ exposed
        | inl old ↦ cc (sym old ∙ ap (any (text_eq key)) fresh)
      ]
