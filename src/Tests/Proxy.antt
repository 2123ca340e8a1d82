-- ===== src/Tests/Proxy.antt =====
-- The proxy on a manifest of nginx and a blob that it lists.
use ribat.Base.{
  ℤ, true, [], ◌∷◌, none, some, codes, text_eq, trim, split, contains, has_prefix, trim_prefix,
  cut_at, join, drop, take, last_index_byte, index_le, trim_space, has_suffix, ok, ◌≡◌, ◌↔◌, refl,
  any, keep, ◌||◌, ◌∙◌,
}
use ribat.Regex.{match_string}
use ribat.Image.{
  Reference, parse_reference, registry_re, component_re, tag_re, digest_re, canonical,
  has_explicit_registry,
}
use ribat.Engine.{Request}
use ribat.Engine.Decide.{decide}
use ribat.Engine.Decide.Permitted.{permitted}
use ribat.Engine.Decide.Safe.{decide_exact}
use ribat.Registry.{Manifest, Blob}
use ribat.Authz.Messages.{Formats}
use ribat.Proxy.{
  ProxyRequest, proxy_manifest, proxy_blob, parse_proxy_request, proxy_image_ref,
  normalize_manifest_reference, upstream_repository, parse_repository_reference,
}
use ribat.Proxy.Server.{
  manifest_blob_digests, Proxy, ProxyState, HttpRequest, image_of, proxy_request, handle_v2,
  blob_key,
}
use ribat.Proxy.Server.Safe.{handle_v2-permitted}
use ribat.Proxy.Server.Exact.{Fetches, handle_v2-manifest_iff}
use ribat.Proxy.Server.Blobs.{Call, Exposed, handle_calls, served_blob-Exposed}
use ribat.Proxy.Server.Serves.{blob_after_manifest}
use ribat.Tests.{sample_engine, sample_world, sample_db, nginx}
use ribat.Tests.Decisions.{nginx-permitted}

abbrev plain : Formats
plain = record { format_time = λ t. codes "some time"; format_duration = λ d. codes "some time" }

-- The manifest lists one layer.
abbrev sample_manifest : Manifest
sample_manifest = record {
  registry = codes "docker.io";
  repository = codes "library/nginx";
  reference = codes "latest";
  digest = codes "sha256:ab";
  media_type = [];
  body = 1 ∷ 2 ∷ [];
}

abbrev sample_blob : Blob
sample_blob = record {
  registry = codes "docker.io";
  repository = codes "library/nginx";
  digest = codes "sha256:cd";
  media_type = [];
  size = ℤ.pos 1;
  body = 7 ∷ [];
  status_code = 200;
  headers = [];
}

abbrev sample_proxy : Proxy
sample_proxy = record {
  decide = decide sample_engine;
  fetch_manifest = λ ref reference. ok sample_manifest;
  fetch_blob = λ registry repository digest. ok sample_blob;
  unmarshal = λ body. some (record { config = none; layers = codes "sha256:cd" ∷ [] });
  print_nat = λ n. codes "2";
  print_int = λ n. codes "1";
  formats = plain;
}

abbrev get_manifest : HttpRequest
get_manifest = record {
  method = codes "GET";
  path = codes "/v2/library/nginx/manifests/latest";
  request_uri = codes "/v2/library/nginx/manifests/latest";
}

abbrev nginx_manifest : ProxyRequest
nginx_manifest = record {
  kind = proxy_manifest;
  registry = codes "docker.io";
  repository = codes "library/nginx";
  reference = codes "latest";
}

abbrev get_blob : HttpRequest
get_blob = record {
  method = codes "GET";
  path = codes "/v2/library/nginx/blobs/sha256:cd";
  request_uri = codes "/v2/library/nginx/blobs/sha256:cd";
}

abbrev nginx_blob : ProxyRequest
nginx_blob = record {
  kind = proxy_blob;
  registry = codes "docker.io";
  repository = codes "library/nginx";
  reference = codes "sha256:cd";
}

abbrev new_state : ProxyState
new_state = record { world = sample_world; allowed_blobs = [] }

manifest_route :
    parse_proxy_request (codes "/v2/library/nginx/manifests/latest") ≡ ok nginx_manifest
unfolding codes parse_proxy_request trim_prefix cut_at has_prefix text_eq drop
    parse_repository_reference trim upstream_repository split join has_explicit_registry
manifest_route = refl

blob_route : parse_proxy_request (codes "/v2/library/nginx/blobs/sha256:cd") ≡ ok nginx_blob
unfolding codes parse_proxy_request trim_prefix cut_at has_prefix text_eq drop
    parse_repository_reference trim upstream_repository split join has_explicit_registry
blob_route = refl

image_parses : parse_reference (image_of nginx_manifest) ≡ ok nginx
unfolding codes parse_reference trim_space split has_prefix has_suffix contains join last_index_byte
    index_le take drop text_eq match_string registry_re component_re tag_re digest_re canonical
    proxy_image_ref normalize_manifest_reference
image_parses = refl

abbrev pull : Request
pull = proxy_request get_manifest (image_of nginx_manifest)

image_decided :
    ((decide sample_engine pull sample_world).0.1 ≡ none)
    × ((decide sample_engine pull sample_world).0.0.allowed
        ≡ permitted sample_engine nginx sample_world.db)
unfolding proxy_request
image_decided = decide_exact sample_engine pull nginx sample_world refl image_parses refl

sample-Fetches : Fetches sample_proxy get_manifest nginx_manifest sample_world
sample-Fetches = (
  image_decided.0,
  image_decided.1 ∙ nginx-permitted,
  (nginx, sample_manifest, image_parses, refl),
)

get_is_read : (text_eq (codes "GET") (codes "GET") || text_eq (codes "GET") (codes "HEAD")) ≡ true
unfolding codes text_eq
get_is_read = refl

handle_v2-manifest_iff_example :
    ((handle_v2 sample_proxy get_manifest new_state).0.status ≡ 200)
    ↔ Fetches sample_proxy get_manifest nginx_manifest sample_world
handle_v2-manifest_iff_example =
    handle_v2-manifest_iff sample_proxy get_manifest nginx_manifest new_state manifest_route refl
      get_is_read

manifest_served : (handle_v2 sample_proxy get_manifest new_state).0.status ≡ 200
manifest_served =
    (handle_v2-manifest_iff sample_proxy get_manifest nginx_manifest new_state manifest_route refl
        get_is_read).1
      sample-Fetches

handle_v2-permitted_example :
    (ref : Reference) × (parse_reference (image_of nginx_manifest) ≡ ok ref)
    × (permitted sample_engine ref sample_db ≡ true)
handle_v2-permitted_example =
    handle_v2-permitted sample_engine sample_proxy get_manifest new_state nginx_manifest
      manifest_route refl manifest_served

-- The manifest first, and then its layer.
abbrev sample_call : Call
sample_call = record { engine = sample_engine; proxy = sample_proxy; request = get_manifest }

layer_listed :
    any
      (text_eq (codes "sha256:cd"))
      (manifest_blob_digests (sample_proxy.unmarshal sample_manifest.body))
    ≡ true
unfolding manifest_blob_digests codes text_eq keep
layer_listed = refl

blob_after_manifest_example :
    (handle_v2 sample_proxy get_blob
      (handle_calls [] (handle_v2 sample_proxy get_manifest new_state).1)).0.status
    ≡ 200
blob_after_manifest_example =
    blob_after_manifest sample_proxy sample_proxy get_manifest get_blob nginx_manifest nginx_blob
      new_state [] nginx sample_manifest sample_blob manifest_route refl image_parses refl
      manifest_served blob_route refl get_is_read refl refl layer_listed refl

blob_served :
    (handle_v2 sample_proxy get_blob (handle_calls (sample_call ∷ []) new_state)).0.status ≡ 200
unfolding handle_calls
blob_served =
    blob_after_manifest sample_proxy sample_proxy get_manifest get_blob nginx_manifest nginx_blob
      new_state [] nginx sample_manifest sample_blob manifest_route refl image_parses refl
      manifest_served blob_route refl get_is_read refl refl layer_listed refl

served_blob-Exposed_example :
    Exposed
      (blob_key (codes "docker.io") (codes "library/nginx") (codes "sha256:cd"))
      (sample_call ∷ [])
      new_state
served_blob-Exposed_example =
    served_blob-Exposed (sample_call ∷ []) sample_proxy get_blob nginx_blob new_state refl
      blob_route refl blob_served
