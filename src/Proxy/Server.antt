-- ===== src/Proxy/Server.antt =====
-- The handlers of the proxy: a manifest is served after a decision, a blob after its manifest.
pub mod Steps
pub mod Exact
pub mod Blobs
pub mod Serves
pub mod Safe
pub mod Keeps
use ribat.Base.{
  ℕ, ℤ, pos, Bool, true, false, not, ◌&&◌, ◌||◌, List, [], ◌∷◌, ◌++◌, if◌then◌else◌, any, map, keep,
  length, Option, none, some, leb_ℤ, Text, codes, text_eq, is_empty, join, Result, ok, err,
}
use ribat.Image.{Reference, ImageError, parse_reference}
use ribat.Store.World.{World}
use ribat.Engine.{Request, Decision, EngineError}
use ribat.Authz.Messages.{Formats, time_line, duration_line}
use ribat.Registry.{Headers, get_header, set_header, Manifest, Blob}
use ribat.Proxy.{
  ProxyKind, proxy_unknown, proxy_manifest, proxy_blob, ProxyRequest, PathError,
  parse_proxy_request, proxy_image_ref, normalize_manifest_reference,
}

-- What `json.Unmarshal` reads of a manifest: the digest of the configuration, when there is one,
-- and those of the layers.
pub record Payload : Type 0 where
  pub config : Option Text
  pub layers : List Text

-- What one request meets: the engine by its method `Decide`, the resolver, and the libraries that
-- decode a manifest and print numbers and times.
pub record Proxy : Type 0 where
  pub decide : Request → World → (Decision × Option EngineError) × World
  pub fetch_manifest : Reference → Text → Result Text Manifest
  pub fetch_blob : Text → Text → Text → Result Text Blob
  pub unmarshal : List ℕ → Option Payload
  pub print_nat : ℕ → Text
  pub print_int : ℤ → Text
  pub formats : Formats

-- `allowedBlobs` is the list of the keys of the map, beside the world that the engine works in.
pub record ProxyState : Type 0 where
  pub world : World
  pub allowed_blobs : List Text

pub record HttpRequest : Type 0 where
  pub method : Text
  pub path : Text
  pub request_uri : Text

pub data ProxyError : Type 0 where
  method_not_allowed blob_denied not_found : ProxyError
  bad_path : PathError → ProxyError
  decision_failed : EngineError → ProxyError
  pull_blocked : Text → ProxyError
  bad_upstream : ImageError → ProxyError
  upstream_failed : Text → ProxyError

pub data Body : Type 0 where
  no_body : Body
  bytes : List ℕ → Body
  failure : ProxyError → Body

-- The headers are those that the handlers set.
pub record HttpResponse : Type 0 where
  pub status : ℕ
  pub headers : Headers
  pub body : Body

-- The header that every answer has.
abbrev pub api_version : Headers
api_version = (codes "Docker-Distribution-API-Version", codes "registry/2.0") ∷ []

-- `http.Error`.
abbrev pub http_error : ℕ → ProxyError → HttpResponse
http_error status e = record { status = status; headers = api_version; body = failure e }

unfoldable pub blob_key : Text → Text → Text → Text
blob_key registry repository digest = registry ++ (b'\n' ∷ (repository ++ (b'\n' ∷ digest)))

config_digests : Option Text → List Text
config_digests none = []
config_digests (some digest) = if is_empty digest then [] else digest ∷ []

-- `manifestBlobDigests`, behind the decoding.
unfoldable pub manifest_blob_digests : Option Payload → List Text
unfolding config_digests
manifest_blob_digests none = []
manifest_blob_digests (some payload) =
    config_digests payload.config ++ keep (λ digest. not (is_empty digest)) payload.layers

unfoldable pub remember_manifest_blobs : Text → Text → List Text → List Text → List Text
remember_manifest_blobs registry repository [] allowed = allowed
remember_manifest_blobs registry repository (digest ∷ digests) allowed =
    remember_manifest_blobs registry repository digests
      (blob_key registry repository digest ∷ allowed)

unfoldable pub blob_allowed : Text → Text → Text → List Text → Bool
blob_allowed registry repository digest allowed =
    any (text_eq (blob_key registry repository digest)) allowed

abbrev text_line : Text → Text → List Text
text_line label value = if is_empty value then [] else (label ++ value) ∷ []

unfoldable pub proxy_decision_message : Formats → Decision → Text
proxy_decision_message f d = join (b'\n' ∷ []) (
    codes "Pull blocked by Ribat."
    ∷ []
    ∷ (codes "Image: " ++ d.image_ref)
    ∷ (text_line (codes "Resolved digest: ") d.digest
        ++ (text_line (codes "Policy: ") d.matched_rule
            ++ (duration_line f (codes "Required minimum age: ") d.required_age
                ++ (duration_line f (codes "Current age: ") d.current_age
                    ++ (time_line f (codes "Next allowed pull: ") d.next_allowed_at
                        ++ (codes "Reason: " ++ d.reason) ∷ []))))))

-- `r.Method != http.MethodHead`.
abbrev body_for : Text → List ℕ → Body
body_for method b = if text_eq method (codes "HEAD") then no_body else bytes b

abbrev set_unless_empty : Text → Text → Headers → Headers
set_unless_empty key value headers =
    if is_empty value then headers else set_header key value headers

unfoldable pub manifest_headers : Proxy → Manifest → Headers
manifest_headers p m = set_header (codes "Content-Length") (p.print_nat (length m.body)) (
    set_unless_empty (codes "Docker-Content-Digest") m.digest
      (set_unless_empty (codes "Content-Type") m.media_type api_version))

-- The first loop of `copyBlobHeaders`.
copied_headers : List Text → Headers → Headers → Headers
copied_headers [] from to = to
copied_headers (key ∷ keys) from to =
    copied_headers keys from (set_unless_empty key (get_header key from) to)

abbrev set_if_missing : Bool → Text → Text → Headers → Headers
set_if_missing wanted key value headers =
    if is_empty (get_header key headers) && wanted then set_header key value headers else headers

unfoldable pub copy_blob_headers : Proxy → Headers → Blob → Headers
unfolding copied_headers
copy_blob_headers p to blob =
    let keys =
      codes "Content-Type"
      ∷ codes "Content-Length"
      ∷ codes "Docker-Content-Digest"
      ∷ codes "Etag"
      ∷ [] in
    set_if_missing true (codes "Docker-Content-Digest") blob.digest (
      set_if_missing (leb_ℤ (pos 0) blob.size) (codes "Content-Length") (p.print_int blob.size) (
        set_if_missing (not (is_empty blob.media_type)) (codes "Content-Type") blob.media_type
          (copied_headers keys blob.headers to)))

serve_manifest :
    Proxy
    → HttpRequest
    → ProxyRequest
    → Result Text Manifest
    → ProxyState
    → HttpResponse × ProxyState
serve_manifest p r req (err m) st = (http_error 502 (upstream_failed m), st)
serve_manifest p r req (ok m) st = (
  record { status = 200; headers = manifest_headers p m; body = body_for r.method m.body },
  record st {
    allowed_blobs =
        remember_manifest_blobs req.registry req.repository
          (manifest_blob_digests (p.unmarshal m.body)) st.allowed_blobs;
  },
)

fetch_allowed :
    Proxy
    → HttpRequest
    → ProxyRequest
    → Text
    → Result ImageError Reference
    → ProxyState
    → HttpResponse × ProxyState
unfolding serve_manifest
fetch_allowed p r req reference (err m) st = (http_error 500 (bad_upstream m), st)
fetch_allowed p r req reference (ok ref) st =
    serve_manifest p r req (p.fetch_manifest ref reference) st

-- The request that the engine decides.
unfoldable pub proxy_request : HttpRequest → Text → Request
proxy_request r image = record {
  image_ref = image;
  client_user = [];
  request_method = r.method;
  request_uri = r.request_uri;
}

abbrev pub image_of : ProxyRequest → Text
image_of req =
    proxy_image_ref req.registry req.repository (normalize_manifest_reference req.reference)

after_decision :
    Proxy
    → HttpRequest
    → ProxyRequest
    → (Decision × Option EngineError)
    → ProxyState
    → HttpResponse × ProxyState
unfolding fetch_allowed
after_decision p r req (d, some e) st = (http_error 500 (decision_failed e), st)
after_decision p r req (d, none) st =
    if d.allowed
    then fetch_allowed p r req (normalize_manifest_reference req.reference)
        (parse_reference (image_of req)) st
    else (http_error 403 (pull_blocked (proxy_decision_message p.formats d)), st)

unfoldable pub handle_manifest :
    Proxy → HttpRequest → ProxyRequest → ProxyState → HttpResponse × ProxyState
unfolding after_decision
handle_manifest p r req st =
    let (decided, w) = p.decide (proxy_request r (image_of req)) st.world in
    after_decision p r req decided (record st { world = w })

serve_blob : Proxy → HttpRequest → Result Text Blob → HttpResponse
serve_blob p r (err m) = http_error 502 (upstream_failed m)
serve_blob p r (ok blob) = record {
  status = 200;
  headers = copy_blob_headers p api_version blob;
  body = body_for r.method blob.body;
}

unfoldable pub handle_blob : Proxy → HttpRequest → ProxyRequest → ProxyState → HttpResponse
unfolding serve_blob
handle_blob p r req st =
    if blob_allowed req.registry req.repository req.reference st.allowed_blobs
    then serve_blob p r (p.fetch_blob req.registry req.repository req.reference)
    else http_error 403 blob_denied

by_kind : Proxy → HttpRequest → ProxyRequest → ProxyKind → ProxyState → HttpResponse × ProxyState
by_kind p r req proxy_manifest st = handle_manifest p r req st
by_kind p r req proxy_blob st = (handle_blob p r req st, st)
by_kind p r req proxy_unknown st = (http_error 404 not_found, st)

pub routed :
    Proxy → HttpRequest → Result PathError ProxyRequest → ProxyState → HttpResponse × ProxyState
unfolding by_kind
routed p r (err m) st = (http_error 404 (bad_path m), st)
routed p r (ok req) st = by_kind p r req req.kind st

unfoldable pub handle_v2 : Proxy → HttpRequest → ProxyState → HttpResponse × ProxyState
unfolding routed
handle_v2 p r st =
    if text_eq r.path (codes "/v2") || text_eq r.path (codes "/v2/")
    then (record { status = 200; headers = api_version; body = no_body }, st)
    else if not (text_eq r.method (codes "GET")) && not (text_eq r.method (codes "HEAD"))
    then (http_error 405 method_not_allowed, st)
    else routed p r (parse_proxy_request r.path) st
