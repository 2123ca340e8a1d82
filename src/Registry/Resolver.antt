-- ===== src/Registry/Resolver.antt =====
-- `Resolve`, `FetchManifest` and `FetchBlob`, with the token that a registry may ask for.
pub mod Sends
pub mod Sound
use ribat.Base.{
  ℕ, Bool, true, false, not, ◌&&◌, ◌||◌, List, [], ◌∷◌, ◌++◌, ◌==◌, if◌then◌else◌, leb, Option,
  none, some, Text, codes, text_eq, is_empty, cut, join, trim_right, trim_space, Result, ok, err,
  ◌^◌,
}
use ribat.Image.{Reference}
use ribat.Engine.{ManifestDigest}
use ribat.Registry.{get_header, Manifest, Blob}
use ribat.Registry.Exchange.{
  Sent, Reply, read_all, read_limited, Libraries, Exchange, give, give_result, request, ◌>>=◌,
}
use ribat.Registry.Challenge.{BearerChallenge, ChallengeError, parse_bearer_challenge}

-- The fields of `Resolver`, with the client among the libraries; `endpoints` gives the empty text
-- for a registry that is not in the map.
pub record Resolver : Type 0 where
  pub libraries : Libraries
  pub endpoints : Text → Text

pub data TokenError : Type 0 where
  bad_realm bad_token_request token_request_failed token_unread bad_token_reply : Text → TokenError
  bad_token_status : ℕ → TokenError
  missing_token : TokenError

pub data RegistryError : Type 0 where
  no_tag : Text → RegistryError
  missing_reference missing_registry missing_digest missing_blob_digest : RegistryError
  bad_request manifest_request_failed registry_request_failed body_unread : Text → RegistryError
  tag_not_found blob_not_found : RegistryError
  bad_status : ℕ → RegistryError
  bad_challenge : ChallengeError → RegistryError
  no_bearer_token : TokenError → RegistryError

-- The value of `Accept` for manifests.
unfoldable pub manifest_types : Text
manifest_types = join (codes ", ") (
    codes "application/vnd.oci.image.index.v1+json"
    ∷ codes "application/vnd.docker.distribution.manifest.list.v2+json"
    ∷ codes "application/vnd.oci.image.manifest.v1+json"
    ∷ codes "application/vnd.docker.distribution.manifest.v2+json"
    ∷ [])

unfoldable pub media_type : Text → Text
media_type content_type = elim (cut b';' content_type) [
  | none ↦ trim_space content_type
  | some (value, rest) ↦ trim_space value
]

unfoldable pub endpoint : Resolver → Text → Result RegistryError Text
endpoint r registry =
    if not (is_empty (r.endpoints registry))
    then ok (trim_right (λ c. c == b'/') (r.endpoints registry))
    else if text_eq registry (codes "docker.io")
    then ok (codes "https://registry-1.docker.io")
    else if is_empty registry
    then err missing_registry
    else ok (codes "https://" ++ registry)

unfoldable pub manifest_url : Resolver → Text → Text → Text → Text
manifest_url r base repository reference =
    base
    ++ (codes "/v2/" ++ (repository ++ (codes "/manifests/" ++ r.libraries.path_escape reference)))

unfoldable pub blob_url : Resolver → Text → Text → Text → Text
blob_url r base repository digest =
    base ++ (codes "/v2/" ++ (repository ++ (codes "/blobs/" ++ r.libraries.path_escape digest)))

unfoldable pub is_success : ℕ → Bool
is_success status = leb 200 status && leb status 299

unfoldable pub should_fallback_to_get : Reply → Bool
should_fallback_to_get reply =
    reply.status == 405
    || (reply.status == 404 && is_empty (get_header (codes "Docker-Content-Digest") reply.headers))

unfoldable pub do_manifest_request : Resolver → Text → Text → Text → Exchange RegistryError Reply
do_manifest_request r method url token =
    request r.libraries bad_request manifest_request_failed
      (record { method = method; url = url; accept = manifest_types; token = token })

unfoldable pub do_registry_request :
    Resolver → Text → Text → Text → Text → Exchange RegistryError Reply
do_registry_request r method url accept token =
    request r.libraries bad_request registry_request_failed
      (record { method = method; url = url; accept = accept; token = token })

-- The token of a reply, `token` before `access_token`.
token_of : Result Text (Text × Text) → Result TokenError Text
token_of (err m) = err (bad_token_reply m)
token_of (ok (token, access_token)) =
    if not (is_empty token)
    then ok token
    else if not (is_empty access_token)
    then ok access_token
    else err missing_token

unmarshalled : Libraries → Result Text (List ℕ) → Result TokenError Text
unfolding token_of
unmarshalled l (err m) = err (token_unread m)
unmarshalled l (ok body) = token_of (l.unmarshal_token body)

unfoldable pub read_token : Libraries → Reply → Result TokenError Text
unfolding unmarshalled
read_token l reply =
    if is_success reply.status
    then unmarshalled l (read_limited (2 ^ 20) reply.body)
    else err (bad_token_status reply.status)

-- The values that are set in the query, without those that are empty.
unfoldable pub token_query : BearerChallenge → List (Text × Text)
token_query c =
    (if is_empty c.service then [] else (codes "service", c.service) ∷ [])
    ++ (if is_empty c.scope then [] else (codes "scope", c.scope) ∷ [])

token_from : Libraries → Result Text Text → Exchange TokenError Text
unfolding read_token
token_from l (err m) = give_result (err (bad_realm m))
token_from l (ok url) = do
  reply ←
      request l bad_token_request token_request_failed
        (record { method = codes "GET"; url = url; accept = []; token = [] })
  give_result (read_token l reply)

unfoldable pub fetch_bearer_token : Libraries → BearerChallenge → Exchange TokenError Text
unfolding token_from
fetch_bearer_token l c = token_from l (l.token_url c.realm (token_query c))

-- The error of the token, as an error of the resolver.
token_result : Result TokenError Text × List Sent → Result RegistryError Text × List Sent
token_result (ok token, sent) = (ok token, sent)
token_result (err m, sent) = (err (no_bearer_token m), sent)

token_for : Libraries → Result ChallengeError BearerChallenge → Exchange RegistryError Text
unfolding token_result fetch_bearer_token
token_for l (err m) sent = (err (bad_challenge m), sent)
token_for l (ok c) sent = token_result (fetch_bearer_token l c sent)

-- The token that a reply with status 401 asks for.
unfoldable pub challenged : Resolver → Reply → Exchange RegistryError Text
unfolding token_for
challenged r reply =
    token_for r.libraries
      (parse_bearer_challenge (get_header (codes "Www-Authenticate") reply.headers))

-- `HEAD`, and `GET` where the registry does not serve it.
unfoldable pub head_or_get : Resolver → Text → Text → Exchange RegistryError Reply
unfolding do_manifest_request should_fallback_to_get
head_or_get r url token = do
  reply ← do_manifest_request r (codes "HEAD") url token
  if should_fallback_to_get reply then do_manifest_request r (codes "GET") url token else give reply

unfoldable pub authorized_head : Resolver → Text → Reply → Exchange RegistryError Reply
unfolding challenged head_or_get
authorized_head r url reply =
    if reply.status == 401
    then (do token ← challenged r reply; head_or_get r url token)
    else give reply

-- The digest in the last reply.
unfoldable pub resolved : Reply → Result RegistryError ManifestDigest
unfolding media_type is_success
resolved reply =
    if reply.status == 404
    then err tag_not_found
    else if not (is_success reply.status)
    then err (bad_status reply.status)
    else if is_empty (get_header (codes "Docker-Content-Digest") reply.headers)
    then err missing_digest
    else ok (record {
      digest = get_header (codes "Docker-Content-Digest") reply.headers;
      media_type = media_type (get_header (codes "Content-Type") reply.headers);
    })

unfoldable pub resolve_at : Resolver → Text → Exchange RegistryError ManifestDigest
unfolding authorized_head resolved
resolve_at r url = do
  reply ← head_or_get r url []
  last ← authorized_head r url reply
  give_result (resolved last)

unfoldable pub resolve : Resolver → Reference → Exchange RegistryError ManifestDigest
unfolding resolve_at endpoint manifest_url
resolve r ref = if is_empty ref.tag then give_result (err (no_tag ref.canonical_ref)) else do
  base ← give_result (endpoint r ref.registry)
  resolve_at r (manifest_url r base ref.repository ref.tag)

unfoldable pub do_registry_request_with_auth :
    Resolver → Text → Text → Text → Exchange RegistryError Reply
unfolding do_registry_request challenged
do_registry_request_with_auth r method url accept = do
  reply ← do_registry_request r method url accept []
  if reply.status == 401
      then (do token ← challenged r reply; do_registry_request r method url accept token)
      else give reply

manifest_read : Reference → Text → Reply → Result Text (List ℕ) → Result RegistryError Manifest
manifest_read ref reference reply (err m) = err (body_unread m)
manifest_read ref reference reply (ok body) = ok (record {
  registry = ref.registry;
  repository = ref.repository;
  reference = reference;
  digest = get_header (codes "Docker-Content-Digest") reply.headers;
  media_type = media_type (get_header (codes "Content-Type") reply.headers);
  body = body;
})

unfoldable pub fetched_manifest : Reference → Text → Reply → Result RegistryError Manifest
unfolding manifest_read is_success
fetched_manifest ref reference reply =
    if reply.status == 404
    then err tag_not_found
    else if not (is_success reply.status)
    then err (bad_status reply.status)
    else manifest_read ref reference reply (read_all reply.body)

unfoldable pub fetch_manifest : Resolver → Reference → Text → Exchange RegistryError Manifest
unfolding fetched_manifest do_registry_request_with_auth endpoint manifest_url
fetch_manifest r ref reference =
    if is_empty reference then give_result (err missing_reference) else do
      base ← give_result (endpoint r ref.registry)
      reply ←
          do_registry_request_with_auth r (codes "GET")
            (manifest_url r base ref.repository reference) manifest_types
      give_result (fetched_manifest ref reference reply)

-- The body is read later, by the caller.
unfoldable pub fetched_blob : Text → Text → Text → Reply → Result RegistryError Blob
unfolding is_success
fetched_blob registry repository digest reply =
    if reply.status == 404
    then err blob_not_found
    else if not (is_success reply.status)
    then err (bad_status reply.status)
    else ok (record {
      registry = registry;
      repository = repository;
      digest = digest;
      media_type = media_type (get_header (codes "Content-Type") reply.headers);
      size = reply.content_length;
      body = reply.body.bytes;
      status_code = reply.status;
      headers = reply.headers;
    })

unfoldable pub fetch_blob : Resolver → Text → Text → Text → Exchange RegistryError Blob
unfolding fetched_blob do_registry_request_with_auth endpoint blob_url
fetch_blob r registry repository digest =
    if is_empty digest then give_result (err missing_blob_digest) else do
      base ← give_result (endpoint r registry)
      reply ← do_registry_request_with_auth r (codes "GET") (blob_url r base repository digest) []
      give_result (fetched_blob registry repository digest reply)
