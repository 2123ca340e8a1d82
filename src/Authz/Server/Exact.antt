-- ===== src/Authz/Server/Exact.antt =====
-- What the plugin lets through.
use ribat.Base.{
  Bool, true, false, List, [], ◌∷◌, Text, codes, text_eq, equal_fold, Result, ok, err, ◌≡◌, ◌↔◌,
  ◌⊎◌, refl, Bool-cases, inl, inr,
}
use ribat.Store.World.{World}
use ribat.Authz.{
  Readers, Url, container_create, service_create, path_parts, is_create, is_create_path, is_build,
  is_build_path, is_update, is_services_update_path, is_images_create_path,
  is_containers_create_path, is_services_create_path, body_image, inspect_url, read_url,
  inspect_request,
}
use ribat.Authz.Flags.{query_bool-AsksPull}
use ribat.Authz.Names.{Named-combine_image_and_tag}
use ribat.Authz.Messages.{Formats}
use ribat.Authz.Server.{Server, PluginRequest, handle_authz_req}
use ribat.Authz.Server.Safe.{AllAllowed, Accepted, handle_authz_req-allow_iff}
use ribat.Authz.Server.Guarded.{
  IsCreate, IsBuild, IsUpdate, Demands, by_pull, by_build, by_container, by_service, no_image,
  is_create_iff, is_build_iff, is_update_iff,
}
use ribat.Authz.Server.Inspected.{body_image-Gives, inspect_url-Granted}

module _ (parts : List Text) where
  create_other : (c d : Text) → IsCreate c parts → text_eq c d ≡ false → is_create d parts ≡ false
  unfolding is_create
  create_other c d (v, e, p) other = rw (e, p, other) refl

  create-is_build : (c : Text) → IsCreate c parts → is_build parts ≡ false
  unfolding is_build
  create-is_build c (v, e, p) = rw e refl

  build-is_create : (c : Text) → IsBuild parts → is_create c parts ≡ false
  unfolding is_create
  build-is_create c (v, e, p) = rw e refl

  update-is_create : (c : Text) → IsUpdate parts → is_create c parts ≡ false
  unfolding is_create
  update-is_create c (v, i, e, p, q) = rw e refl

  update-is_build : IsUpdate parts → is_build parts ≡ false
  unfolding is_build
  update-is_build (v, i, e, p, q) = rw e refl

refuted : (b : Bool) {P : Type 0} → ((b ≡ true) ↔ P) → ¬ P → b ≡ false
refuted true h never = absurd (never (h.0 refl))
refuted false h never = refl

distinct :
    (text_eq (codes "containers") (codes "images") ≡ false)
    × (text_eq (codes "services") (codes "images") ≡ false)
    × (text_eq (codes "services") (codes "containers") ≡ false)
unfolding codes text_eq
distinct = (refl, refl, refl)

module _ (s : Server) (q : PluginRequest) (w : World) (readers : Readers) (body : Text)
    (u : Url) where
  service-Accepted :
      (image : Text)
      → IsCreate (codes "services") (path_parts u.path) ⊎ IsUpdate (path_parts u.path)
      → body_image service_create readers.service_image body ≡ ok image
      → AllAllowed s q (image ∷ []) w
      → Accepted s q (inspect_url readers body u) w
  unfolding inspect_url is_images_create_path is_build_path is_containers_create_path
      is_services_create_path is_services_update_path is_create_path
  service-Accepted image (inl at) gives a =
      let parts = path_parts u.path in
      rw
        (
          create_other parts (codes "services") (codes "images") at distinct.1,
          create-is_build parts (codes "services") at,
          create_other parts (codes "services") (codes "containers") at distinct.2,
          (is_create_iff (codes "services") parts).1 at,
          gives,
        )
        a
  service-Accepted image (inr at) gives a =
      let parts = path_parts u.path in
      rw
        (
          update-is_create parts (codes "images") at,
          update-is_build parts at,
          update-is_create parts (codes "containers") at,
          update-is_create parts (codes "services") at,
          (is_update_iff parts).1 at,
          gives,
        )
        a

  Demands-Accepted :
      (images : List Text)
      → Demands readers body u images
      → AllAllowed s q images w
      → Accepted s q (inspect_url readers body u) w
  unfolding inspect_url is_images_create_path is_build_path is_containers_create_path
      is_services_create_path is_services_update_path is_create_path
  Demands-Accepted images (by_pull at filled named) a =
      rw
        (
          (is_create_iff (codes "images") (path_parts u.path)).1 at,
          filled,
          Named-combine_image_and_tag (u.get (codes "fromImage")) (u.get (codes "tag")) named,
        )
        a
  Demands-Accepted images (by_build at free) a =
      let parts = path_parts u.path in
      rw
        (
          build-is_create parts (codes "images") at,
          (is_build_iff parts).1 at,
          (query_bool-AsksPull _).1 free,
        )
        tt
  Demands-Accepted images (by_container {image = image} at g) a =
      let parts = path_parts u.path in
      rw
        (
          create_other parts (codes "containers") (codes "images") at distinct.0,
          create-is_build parts (codes "containers") at,
          (is_create_iff (codes "containers") parts).1 at,
          body_image-Gives container_create readers.container_image body image g,
        )
        a
  Demands-Accepted images (by_service {image = image} at g) a =
      service-Accepted image at (body_image-Gives service_create readers.service_image body image g)
        a
  Demands-Accepted images (no_image pull build create service) a =
      let parts = path_parts u.path in
      rw
        (
          refuted (is_create (codes "images") parts) (is_create_iff (codes "images") parts) pull,
          refuted (is_build parts) (is_build_iff parts) build,
          refuted (is_create (codes "containers") parts) (is_create_iff (codes "containers") parts)
              create,
          refuted (is_create (codes "services") parts) (is_create_iff (codes "services") parts)
              (λ x. service (inl x)),
          refuted (is_update parts) (is_update_iff parts) (λ x. service (inr x)),
        )
        tt

-- What a request must be to go through: no POST, or one whose images are each allowed by the engine.
pub data Passes (readers : Readers) (s : Server) (q : PluginRequest) (w : World) : Type 0 where
  other_method : equal_fold q.request_method (codes "POST") ≡ false → Passes readers s q w
  posted :
      (u : Url) (images : List Text)
      → equal_fold q.request_method (codes "POST") ≡ true
      → readers.parse_request_uri q.request_uri ≡ ok u
      → Demands readers q.request_body u images
      → AllAllowed s q images w
      → Passes readers s q w

module _ (readers : Readers) (s : Server) (q : PluginRequest) (w : World) where
  read_url-Passes :
      (r : Result Text Url)
      → readers.parse_request_uri q.request_uri ≡ r
      → equal_fold q.request_method (codes "POST") ≡ true
      → Accepted s q (read_url readers q.request_body r) w
      → Passes readers s q w
  unfolding read_url
  read_url-Passes (err m) e post h = absurd h
  read_url-Passes (ok u) e post h =
      let (images, demands, a) = inspect_url-Granted s q w readers q.request_body u h in
      posted u images post e demands a

  inspect_request-Passes :
      Accepted s q (inspect_request readers q.request_method q.request_uri q.request_body) w
      → Passes readers s q w
  unfolding inspect_request
  inspect_request-Passes = elim (Bool-cases (equal_fold q.request_method (codes "POST"))) [
    | inl post ↦ rw post (read_url-Passes (readers.parse_request_uri q.request_uri) refl post)
    | inr other ↦ (λ h. other_method other)
  ]

  Passes-Accepted :
      Passes readers s q w
      → Accepted s q (inspect_request readers q.request_method q.request_uri q.request_body) w
  unfolding inspect_request read_url
  Passes-Accepted (other_method other) = rw other tt
  Passes-Accepted (posted u images post e demands a) =
      rw (post, e) (Demands-Accepted s q w readers q.request_body u images demands a)

  -- The plugin allows a decoded request exactly if it is no POST, or its URI parses and each image
  -- that it demands is allowed by the engine without an error, in the world that the image before
  -- it leaves: a path v…/images/create demands the image fromImage, which is not empty, with the
  -- tag behind it if there is a tag and fromImage has neither an @ nor a tag of its own;
  -- v…/containers/create, v…/services/create and v…/services/ID/update demand the image that their
  -- body gives; v…/build demands none and does not go through if the value of pull is 1, true, t,
  -- yes or y in upper or lower case; any other path demands none.
  pub handle_authz_req-Passes_iff :
      (f : Formats)
      → ((handle_authz_req readers f s (ok q) w).0.allow ≡ true) ↔ Passes readers s q w
  handle_authz_req-Passes_iff f =
      let (forth, back) = handle_authz_req-allow_iff readers f s q w in
      (λ h. inspect_request-Passes (forth h), λ p. back (Passes-Accepted p))
