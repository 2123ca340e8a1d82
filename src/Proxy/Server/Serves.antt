-- ===== src/Proxy/Server/Serves.antt =====
-- A blob of a manifest that has been served is served from then on.
use ribat.Base.{
  true, ◌||◌, List, [], ◌∷◌, Text, codes, text_eq, text_eq→eq, text_eq_refl, any, ok, ◌≡◌, sym, ◌∙◌,
  ap, arith, Bool-cases, inl, inr,
}
use ribat.Image.{Reference, parse_reference}
use ribat.Registry.{Manifest, Blob}
use ribat.Proxy.{
  proxy_manifest, proxy_blob, ProxyRequest, parse_proxy_request, normalize_manifest_reference,
}
use ribat.Proxy.Server.{
  Proxy, ProxyState, HttpRequest, HttpResponse, ProxyError, http_error, image_of, blob_key,
  manifest_blob_digests, remember_manifest_blobs, blob_allowed, serve_blob, handle_blob, handle_v2,
}
use ribat.Proxy.Server.Steps.{Step, keeps, exposes, handle_v2-Step, root_is_no_route}
use ribat.Proxy.Server.Exact.{if_read, read_passes}
use ribat.Proxy.Server.Safe.{deciding}
use ribat.Proxy.Server.Blobs.{Call, handle_call, handle_calls, routed-blob}

module _ (key registry repository : Text) where
  remember_more :
      (digests allowed : List Text)
      → any (text_eq key) allowed ≡ true
      → any (text_eq key) (remember_manifest_blobs registry repository digests allowed) ≡ true
  unfolding remember_manifest_blobs
  remember_more [] allowed h = h
  remember_more (digest ∷ digests) allowed h = remember_more digests _ (ground (arith, h))

  remember_listed :
      (digest : Text) (digests allowed : List Text)
      → key ≡ blob_key registry repository digest
      → any (text_eq digest) digests ≡ true
      → any (text_eq key) (remember_manifest_blobs registry repository digests allowed) ≡ true
  unfolding remember_manifest_blobs
  remember_listed digest [] allowed e h = cc
  remember_listed digest (d ∷ digests) allowed e h = elim (Bool-cases (text_eq digest d)) [
    | inl same ↦
        let it : text_eq key (blob_key registry repository d) ≡ true =
          ap (text_eq key) (sym (e ∙ ap (blob_key registry repository) (text_eq→eq digest d same)))
          ∙ text_eq_refl key in
        remember_more digests (blob_key registry repository d ∷ allowed) (ground (arith, it))
    | inr other ↦ remember_listed digest digests _ e (ground (arith, h, other))
  ]

module _ (key : Text) where
  Step-more :
      (p : Proxy) (r : HttpRequest) (st : ProxyState) {out : HttpResponse × ProxyState}
      → Step p r st out
      → any (text_eq key) st.allowed_blobs ≡ true
      → any (text_eq key) out.1.allowed_blobs ≡ true
  Step-more p r st (keeps other) h = h
  Step-more p r st (exposes s) h =
      remember_more key s.req.registry s.req.repository _ st.allowed_blobs h

  calls_more :
      (calls : List Call) (st : ProxyState)
      → any (text_eq key) st.allowed_blobs ≡ true
      → any (text_eq key) (handle_calls calls st).allowed_blobs ≡ true
  unfolding handle_calls
  calls_more [] st h = h
  calls_more (c ∷ calls) st h = calls_more calls (handle_call c st).1 (
      Step-more (deciding c.engine c.proxy) c.request st
        (handle_v2-Step (deciding c.engine c.proxy) c.request st) h)

module _ (p : Proxy) (r : HttpRequest) (req : ProxyRequest) (st : ProxyState)
    (route : parse_proxy_request r.path ≡ ok req) (kind : req.kind ≡ proxy_manifest) where
  served_listed :
      (ref : Reference) (m : Manifest) (digest : Text) {out : HttpResponse × ProxyState}
      → parse_reference (image_of req) ≡ ok ref
      → p.fetch_manifest ref (normalize_manifest_reference req.reference) ≡ ok m
      → any (text_eq digest) (manifest_blob_digests (p.unmarshal m.body)) ≡ true
      → Step p r st out
      → out.0.status ≡ 200
      → any (text_eq (blob_key req.registry req.repository digest)) out.1.allowed_blobs ≡ true
  served_listed ref m digest parses fetched listed (keeps other) status =
      absurd (other req route kind status)
  served_listed ref m digest parses fetched listed (exposes s) status =
      let req_same : s.req ≡ req = cc (s.route, route) in
      let ref_same : s.ref ≡ ref = cc (s.parses, parses, req_same) in
      let m_same : s.manifest ≡ m = cc (s.fetched, fetched, req_same, ref_same) in
      remember_listed (blob_key req.registry req.repository digest) s.req.registry s.req.repository
        digest _ st.allowed_blobs (ap (λ q. blob_key q.registry q.repository digest) (sym req_same))
        (ap (λ n. any (text_eq digest) (manifest_blob_digests (p.unmarshal n.body))) m_same
          ∙ listed)

module _ (p : Proxy) (r : HttpRequest) (st : ProxyState) (req : ProxyRequest)
    (route : parse_proxy_request r.path ≡ ok req) (kind : req.kind ≡ proxy_blob) where
  handle_blob-ok :
      (blob : Blob)
      → any (text_eq (blob_key req.registry req.repository req.reference)) st.allowed_blobs ≡ true
      → p.fetch_blob req.registry req.repository req.reference ≡ ok blob
      → (handle_blob p r req st).status ≡ 200
  unfolding handle_blob blob_allowed serve_blob
  handle_blob-ok blob known fetched = simp (known, fetched)

  known_blob-ok :
      (blob : Blob)
      → (text_eq r.method (codes "GET") || text_eq r.method (codes "HEAD")) ≡ true
      → any (text_eq (blob_key req.registry req.repository req.reference)) st.allowed_blobs ≡ true
      → p.fetch_blob req.registry req.repository req.reference ≡ ok blob
      → (handle_v2 p r st).0.status ≡ 200
  unfolding handle_v2
  known_blob-ok blob read known fetched =
      if_read _ _ _ (http_error 405 ProxyError.method_not_allowed, st) _
        (λ root. root_is_no_route p r st req root route) (read_passes r.method read)
        (ap (λ res. res.status) (routed-blob p r st req route kind)
          ∙ handle_blob-ok blob known fetched)

-- If a manifest that the registry gives has been served with status 200, then after any further
-- requests each blob that it lists is served with status 200 to a GET or HEAD request for it under
-- the same registry and repository, provided the registry gives the blob.
pub blob_after_manifest :
    (p p' : Proxy) (r r' : HttpRequest) (req req' : ProxyRequest) (st : ProxyState)
    (calls : List Call) (ref : Reference) (m : Manifest) (blob : Blob)
    → parse_proxy_request r.path ≡ ok req
    → req.kind ≡ proxy_manifest
    → parse_reference (image_of req) ≡ ok ref
    → p.fetch_manifest ref (normalize_manifest_reference req.reference) ≡ ok m
    → (handle_v2 p r st).0.status ≡ 200
    → parse_proxy_request r'.path ≡ ok req'
    → req'.kind ≡ proxy_blob
    → (text_eq r'.method (codes "GET") || text_eq r'.method (codes "HEAD")) ≡ true
    → req'.registry ≡ req.registry
    → req'.repository ≡ req.repository
    → any (text_eq req'.reference) (manifest_blob_digests (p.unmarshal m.body)) ≡ true
    → p'.fetch_blob req'.registry req'.repository req'.reference ≡ ok blob
    → (handle_v2 p' r' (handle_calls calls (handle_v2 p r st).1)).0.status ≡ 200
blob_after_manifest p p' r r' req req' st calls ref m blob route kind parses fetched status route'
      kind' read same same' listed got =
    let key : blob_key req.registry req.repository req'.reference
        ≡ blob_key req'.registry req'.repository req'.reference =
      cc (same, same') in
    known_blob-ok p' r' _ req' route' kind' blob read
      (calls_more _ calls _ (
        sym (ap (λ k. any (text_eq k) (handle_v2 p r st).1.allowed_blobs) key)
        ∙ served_listed p r req st route kind ref m req'.reference parses fetched listed
            (handle_v2-Step p r st) status))
      got
