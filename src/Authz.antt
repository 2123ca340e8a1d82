-- ===== src/Authz.antt =====
-- internal/authz/server.go: which requests to Docker are pulls, and of which images.
pub mod Messages
pub mod Flags
pub mod Names
pub mod Server
use ribat.Base.{
  ℕ, Bool, true, false, not, ◌&&◌, ◌||◌, List, [], ◌∷◌, ◌++◌, ◌+◌, ◌==◌, Option, if◌then◌else◌, leb,
  any, map, Text, codes, text_eq, is_empty, has_prefix, contains, split, equal_fold, trim,
  trim_space, last_index_byte, index_le, Result, ok, err, ◌>>=◌, ◌>>◌, guard,
}

-- What `url.ParseRequestURI` gives, as far as it is read: `get` is `u.Query().Get`.
pub record Url : Type 0 where
  pub path : Text
  pub get : Text → Text

-- The libraries that read a request: `url.ParseRequestURI`, and `json.Unmarshal` into the two
-- structures, each with the one field that they have.
pub record Readers : Type 0 where
  pub parse_request_uri : Text → Result Text Url
  pub container_image : Text → Result Text Text
  pub service_image : Text → Result Text Text

pub data Operation : Type 0 where
  container_create service_create : Operation

pub data InspectError : Type 0 where
  bad_uri : Text → InspectError
  missing_from_image : InspectError
  missing_body : Operation → InspectError
  bad_body : Operation → Text → InspectError
  missing_image : Operation → InspectError

-- `requestAction`, with what each kind carries.
pub data RequestAction : Type 0 where
  action_pass : RequestAction
  action_decide : List Text → RequestAction
  action_deny : Text → RequestAction

unfoldable pub path_parts : Text → List Text
path_parts path = split b'/' (trim (λ c. c == b'/') path)

abbrev pub is_version : Text → Bool
is_version part = has_prefix part (codes "v")

-- A version, a collection and `create`.
unfoldable pub is_create : Text → List Text → Bool
is_create collection (version ∷ kind ∷ verb ∷ []) =
    is_version version && text_eq kind collection && text_eq verb (codes "create")
is_create collection _ = false

unfoldable pub is_create_path : Text → Text → Bool
unfolding path_parts is_create
is_create_path collection path = is_create collection (path_parts path)

unfoldable pub is_images_create_path : Text → Bool
is_images_create_path = is_create_path (codes "images")

unfoldable pub is_containers_create_path : Text → Bool
is_containers_create_path = is_create_path (codes "containers")

unfoldable pub is_services_create_path : Text → Bool
is_services_create_path = is_create_path (codes "services")

unfoldable pub is_build : List Text → Bool
is_build (version ∷ verb ∷ []) = is_version version && text_eq verb (codes "build")
is_build _ = false

unfoldable pub is_build_path : Text → Bool
unfolding path_parts is_build
is_build_path path = is_build (path_parts path)

unfoldable pub is_update : List Text → Bool
is_update (version ∷ kind ∷ id ∷ verb ∷ []) =
    is_version version
    && text_eq kind (codes "services")
    && not (is_empty id)
    && text_eq verb (codes "update")
is_update _ = false

unfoldable pub is_services_update_path : Text → Bool
unfolding path_parts is_update
is_services_update_path path = is_update (path_parts path)

-- `strings.ToLower` where it can give one of the five words; no letter outside ASCII has a lower
-- case among theirs.
unfoldable pub query_bool : Text → Bool
query_bool value =
    let lower = map (λ c. if leb b'A' c && leb c b'Z' then c + 32 else c) value in
    any (text_eq lower) (codes "1" ∷ codes "true" ∷ codes "t" ∷ codes "yes" ∷ codes "y" ∷ [])

unfoldable pub has_tag : Text → Bool
has_tag ref = not (index_le (last_index_byte b':' ref) (last_index_byte b'/' ref))

unfoldable pub combine_image_and_tag : Text → Text → Text
unfolding has_tag
combine_image_and_tag from_image tag =
    if is_empty tag || contains from_image (codes "@") || has_tag from_image
    then from_image
    else from_image ++ (b':' ∷ tag)

decoded : Operation → Result Text Text → Result InspectError Text
decoded operation (err m) = err (bad_body operation m)
decoded operation (ok image) = ok image

-- `decodeRequestBody`.
unfoldable pub decode_request_body :
    Operation → (Text → Result Text Text) → Text → Result InspectError Text
unfolding decoded
decode_request_body operation read body =
    if is_empty (trim_space body)
    then err (missing_body operation)
    else decoded operation (read body)

-- `containerCreateImage` and `serviceImage`.
unfoldable pub body_image : Operation → (Text → Result Text Text) → Text → Result InspectError Text
unfolding decode_request_body
body_image operation read body = do
  image ← decode_request_body operation read body
  guard (not (is_empty image)) (missing_image operation)
  ok image

abbrev pub build_reason : Text
build_reason =
    codes
      "docker build --pull is denied by Ribat because Dockerfile base images cannot be verified from this authorization request; use digest-pinned base images and build without --pull or pre-approve the pull separately"

abbrev one_image : Result InspectError Text → Result InspectError RequestAction
one_image (err m) = err m
one_image (ok image) = ok (action_decide (image ∷ []))

-- The `switch` on the path.
unfoldable pub inspect_url : Readers → Text → Url → Result InspectError RequestAction
unfolding is_images_create_path is_build_path is_containers_create_path is_services_create_path
    is_services_update_path combine_image_and_tag query_bool body_image
inspect_url readers body u =
    if is_images_create_path u.path
    then (if is_empty (u.get (codes "fromImage"))
        then err missing_from_image
        else ok (
            action_decide
              (combine_image_and_tag (u.get (codes "fromImage")) (u.get (codes "tag")) ∷ [])))
    else if is_build_path u.path
    then (if query_bool (u.get (codes "pull"))
        then ok (action_deny build_reason)
        else ok action_pass)
    else if is_containers_create_path u.path
    then one_image (body_image container_create readers.container_image body)
    else if is_services_create_path u.path || is_services_update_path u.path
    then one_image (body_image service_create readers.service_image body)
    else ok action_pass

read_url : Readers → Text → Result Text Url → Result InspectError RequestAction
unfolding inspect_url
read_url readers body (err m) = err (bad_uri m)
read_url readers body (ok u) = inspect_url readers body u

unfoldable pub inspect_request : Readers → Text → Text → Text → Result InspectError RequestAction
unfolding equal_fold read_url
inspect_request readers method uri body =
    if equal_fold method (codes "POST")
    then read_url readers body (readers.parse_request_uri uri)
    else ok action_pass

-- `pullImageRef`: the first image of a request with no body, if there is one to decide on.
pull_result : Result InspectError RequestAction → Result InspectError (Text × Bool)
pull_result (err m) = err m
pull_result (ok (action_decide (image ∷ _))) = ok (image, true)
pull_result (ok (action_decide [])) = ok ([], false)
pull_result (ok action_pass) = ok ([], false)
pull_result (ok (action_deny _)) = ok ([], false)

unfoldable pub pull_image_ref : Readers → Text → Text → Result InspectError (Text × Bool)
unfolding inspect_request pull_result
pull_image_ref readers method uri = pull_result (inspect_request readers method uri [])
