-- ===== src/Proxy.antt =====
-- internal/proxy/server.go: the paths of a registry, and the image that each is about.
pub mod Server
use ribat.Base.{
  ℕ, ◌+◌, Bool, true, false, not, ◌&&◌, ◌||◌, List, [], ◌∷◌, ◌++◌, ◌==◌, if◌then◌else◌, leb, all,
  length, Option, none, some, Text, codes, text_eq, is_empty, has_prefix, contains, split, trim,
  cut_at, trim_prefix, join, Result, ok, err,
}
use ribat.Image.{has_explicit_registry}

pub data ProxyKind : Type 0 where
  proxy_unknown proxy_manifest proxy_blob : ProxyKind

pub record ProxyRequest : Type 0 where
  pub kind : ProxyKind
  pub registry : Text
  pub repository : Text
  pub reference : Text

-- One constructor for each message, with the text that it quotes.
pub data PathError : Type 0 where
  unsupported_path : Text → PathError
  missing_parts : PathError
  required_path : PathError
  missing_upstream : Text → PathError

-- The registry and the repository, from the first component and the others.
upstream_parts : Text → List Text → Result PathError (Text × Text)
upstream_parts repo_path [] = err required_path
upstream_parts repo_path (first ∷ others) =
    if has_explicit_registry first
    then elim others [
      | [] ↦ err (missing_upstream repo_path)
      | second ∷ rest ↦ ok (first, join (b'/' ∷ []) (second ∷ rest))
    ]
    else elim others [
      | [] ↦ ok (codes "docker.io", codes "library/" ++ first)
      | _ ↦ ok (codes "docker.io", repo_path)
    ]

unfoldable pub upstream_repository : Text → Result PathError (Text × Text)
unfolding upstream_parts
upstream_repository repo_path = upstream_parts repo_path (split b'/' repo_path)

abbrev pub trim_slashes : Text → Text
trim_slashes = trim (λ c. c == b'/')

upstream_request : ProxyKind → Text → Result PathError (Text × Text) → Result PathError ProxyRequest
upstream_request kind reference (err m) = err m
upstream_request kind reference (ok (registry, repository)) =
    ok (record { kind = kind; registry = registry; repository = repository; reference = reference })

unfoldable pub parse_repository_reference : Text → Text → ProxyKind → Result PathError ProxyRequest
unfolding upstream_request
parse_repository_reference repo_path reference kind =
    if is_empty (trim_slashes repo_path) || is_empty (trim_slashes reference)
    then err missing_parts
    else upstream_request kind (trim_slashes reference)
        (upstream_repository (trim_slashes repo_path))

-- The two `strings.Cut`, the one of manifests first.
parse_rest : Text → Option (Text × Text) → Option (Text × Text) → Result PathError ProxyRequest
parse_rest path (some (before, after)) _ = parse_repository_reference before after proxy_manifest
parse_rest path none (some (before, after)) = parse_repository_reference before after proxy_blob
parse_rest path none none = err (unsupported_path path)

unfoldable pub parse_proxy_request : Text → Result PathError ProxyRequest
unfolding parse_rest
parse_proxy_request path =
    let rest = trim_prefix path (codes "/v2/") in
    if text_eq rest path || is_empty rest
    then err (unsupported_path path)
    else parse_rest path (cut_at (codes "/manifests/") rest) (cut_at (codes "/blobs/") rest)

unfoldable pub proxy_image_ref : Text → Text → Text → Text
proxy_image_ref registry repository reference =
    if contains reference (b':' ∷ [])
    then registry ++ (b'/' ∷ (repository ++ (b'@' ∷ reference)))
    else registry ++ (b'/' ∷ (repository ++ (b':' ∷ reference)))

abbrev pub is_hex : ℕ → Bool
is_hex c = leb b'0' c && leb c b'9' || (leb b'a' c && leb c b'f' || leb b'A' c && leb c b'F')

-- A digest may stand in a path with a dash in place of its colon. `len` counts bytes: that makes no
-- difference, since a reference with a character that is not ASCII is returned in any case.
unfoldable pub normalize_manifest_reference : Text → Text
normalize_manifest_reference reference =
    let hex_part = trim_prefix reference (codes "sha256-") in
    if not (length reference == 7 + 64) || not (has_prefix reference (codes "sha256-"))
    then reference
    else if all is_hex hex_part
    then codes "sha256:" ++ hex_part
    else reference
