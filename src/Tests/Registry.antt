-- ===== src/Tests/Registry.antt =====
-- A registry that asks for a token before it tells the digest of nginx.
use ribat.Base.{
  ℕ, ℤ, ◌≤◌, true, [], ◌∷◌, ◌++◌, none, List, Text, codes, text_eq, is_empty, equal_fold, cut, trim,
  trim_space, length, all, if◌then◌else◌, Result, ok, ◌≡◌, refl,
}
use ribat.Image.{make_reference}
use ribat.Engine.{ManifestDigest}
use ribat.Registry.{get_header, Headers}
use ribat.Registry.Exchange.{
  Sent, Reply, Libraries, read_limited, give, give_result, request, ◌>>=◌,
}
use ribat.Registry.Challenge.{
  parse_bearer_challenge, challenge_of, challenge_values, split_challenge_params,
}
use ribat.Registry.Resolver.{
  Resolver, endpoint, manifest_url, resolve, resolve_at, head_or_get, authorized_head, challenged,
  resolved, do_manifest_request, should_fallback_to_get, fetch_bearer_token, token_query,
  read_token, is_success, media_type, fetch_manifest,
}
use ribat.Registry.Resolver.Sends.{is_discreet, resolve_sends, fetch_manifest_sends}
use ribat.Registry.Resolver.Sound.{IsAnswer, resolve_sound}
use ribat.Tests.{nginx}

abbrev reply_with : ℕ → Headers → Reply
reply_with status headers = record {
  status = status;
  headers = headers;
  content_length = ℤ.pos 0;
  body = record { bytes = []; broken = none };
}

abbrev challenge_header : Text
challenge_header =
    codes
      "Bearer realm=\"https://auth.docker.io/token\",scope=\"repository:library/nginx:pull,push\""

-- Without a token every manifest is refused; the token service is the one URL on auth.docker.io.
abbrev sample_send : List Sent → Sent → Result Text Reply
sample_send sent q =
    if text_eq q.url (codes "https://auth.docker.io/token")
    then ok (reply_with 200 [])
    else if is_empty q.token
    then ok (reply_with 401 ((codes "Www-Authenticate", challenge_header) ∷ []))
    else ok (reply_with 200 ((codes "Docker-Content-Digest", codes "sha256:ab") ∷ []))

abbrev sample_libraries : Libraries
sample_libraries = record {
  send = sample_send;
  new_request = λ method url. ok tt;
  path_escape = λ s. s;
  token_url = λ realm query. ok realm;
  unmarshal_token = λ body. ok (codes "secret", []);
}

abbrev sample_resolver : Resolver
sample_resolver = record { libraries = sample_libraries; endpoints = λ registry. [] }

abbrev hub : Text
hub = codes "https://registry-1.docker.io"

hub-endpoint : endpoint sample_resolver (codes "docker.io") ≡ ok hub
unfolding endpoint codes text_eq
hub-endpoint = refl

resolve_sends_example :
    (more : List Sent) × ((resolve sample_resolver nginx []).1 ≡ more ++ [])
    × (length more ≤ 5)
    × (all
          (is_discreet (manifest_url sample_resolver hub (codes "library/nginx") (codes "latest")))
          more
        ≡ true)
unfolding make_reference codes
resolve_sends_example = resolve_sends sample_resolver nginx hub hub-endpoint []

fetch_manifest_sends_example :
    (more : List Sent) × ((fetch_manifest sample_resolver nginx (codes "latest") []).1 ≡ more ++ [])
    × (length more ≤ 3)
    × (all
          (is_discreet (manifest_url sample_resolver hub (codes "library/nginx") (codes "latest")))
          more
        ≡ true)
unfolding make_reference codes
fetch_manifest_sends_example =
    fetch_manifest_sends sample_resolver nginx hub hub-endpoint (codes "latest") []

abbrev sample_answer : ManifestDigest
sample_answer = record { digest = codes "sha256:ab"; media_type = [] }

resolves : (resolve sample_resolver nginx []).0 ≡ ok sample_answer
unfolding resolve endpoint resolve_at head_or_get authorized_head challenged resolved
    do_manifest_request should_fallback_to_get fetch_bearer_token token_query read_token is_success
    media_type read_limited give give_result request ◌>>=◌ parse_bearer_challenge challenge_of
    challenge_values split_challenge_params codes text_eq equal_fold cut trim trim_space get_header
    manifest_url make_reference
resolves = refl

resolve_sound_example :
    (base : Text) × (endpoint sample_resolver (codes "docker.io") ≡ ok base)
    × IsAnswer sample_resolver
        (manifest_url sample_resolver base (codes "library/nginx") (codes "latest"))
        sample_answer
        (resolve sample_resolver nginx []).1
unfolding make_reference codes
resolve_sound_example = resolve_sound sample_resolver nginx [] sample_answer resolves
