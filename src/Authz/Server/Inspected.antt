-- ===== src/Authz/Server/Inspected.antt =====
-- A request that the plugin lets through has the images that it demands allowed.
use ribat.Base.{
  false, not, List, [], ◌∷◌, Text, codes, is_empty, trim_space, Result, ok, err, ◌>>=◌, ◌>>◌, guard,
  ◌≡◌, refl, Bool-cases, inl, inr,
}
use ribat.Store.World.{World}
use ribat.Authz.{
  Readers, Url, Operation, container_create, service_create, missing_image, path_parts, is_create,
  is_create_path, is_build, is_build_path, is_update, is_services_update_path,
  is_images_create_path, is_containers_create_path, is_services_create_path, query_bool, decoded,
  decode_request_body, body_image, one_image, inspect_url,
}
use ribat.Authz.Flags.{query_bool-AsksPull}
use ribat.Authz.Names.{combine_image_and_tag-Named}
use ribat.Authz.Server.{Server, PluginRequest}
use ribat.Authz.Server.Safe.{AllAllowed, Accepted}
use ribat.Authz.Server.Guarded.{
  Gives, Demands, by_pull, by_build, by_container, by_service, no_image, is_create_iff,
  is_build_iff, is_update_iff,
}

pub body_image-Gives :
    (operation : Operation) (read : Text → Result Text Text) (body image : Text)
    → Gives read body image
    → body_image operation read body ≡ ok image
unfolding body_image decode_request_body decoded
body_image-Gives operation read body image g = rw (g.present, g.reads, g.filled) refl

module _ (s : Server) (q : PluginRequest) (w : World) where
  module _ (operation : Operation) (read : Text → Result Text Text) (body : Text) where
    decoded-Accepted :
        (r : Result Text Text)
        → read body ≡ r
        → is_empty (trim_space body) ≡ false
        → Accepted s q
            (one_image (
              decoded operation r >>= λ image.
              guard (not (is_empty image)) (missing_image operation) >> ok image))
            w
        → (image : Text) × Gives read body image × AllAllowed s q (image ∷ []) w
    unfolding decoded
    decoded-Accepted (err m) e present h = absurd h
    decoded-Accepted (ok []) e present h = absurd h
    decoded-Accepted (ok (c ∷ image)) e present h =
        (c ∷ image, record { present = present; reads = e; filled = refl }, h)

    body_image-Accepted :
        Accepted s q (one_image (body_image operation read body)) w
        → (image : Text) × Gives read body image × AllAllowed s q (image ∷ []) w
    unfolding body_image decode_request_body
    body_image-Accepted = elim (Bool-cases (is_empty (trim_space body))) [
      | inl e ↦ rw e (λ h. absurd h)
      | inr e ↦ rw e (decoded-Accepted (read body) refl e)
    ]

  -- Images that a request asks for, each allowed.
  abbrev pub Granted : Readers → Text → Url → Type 0
  Granted readers body u =
      (images : List Text) × Demands readers body u images × AllAllowed s q images w

  module _ (readers : Readers) (body : Text) (u : Url) where
    pub inspect_url-Granted : Accepted s q (inspect_url readers body u) w → Granted readers body u
    unfolding inspect_url is_images_create_path is_build_path is_containers_create_path
        is_services_create_path is_services_update_path is_create_path
    inspect_url-Granted =
        let parts = path_parts u.path in
        elim (Bool-cases (is_create (codes "images") parts)) [
          | inl pull ↦ elim (Bool-cases (is_empty (u.get (codes "fromImage")))) [
            | inl e ↦ rw (pull, e) (λ h. absurd h)
            | inr e ↦
                rw (pull, e)
                  (λ h. (
                    _,
                    by_pull ((is_create_iff _ parts).0 pull) e (
                        combine_image_and_tag-Named (u.get (codes "fromImage"))
                          (u.get (codes "tag"))),
                    h,
                  ))
          ]
          | inr pull ↦ elim (Bool-cases (is_build parts)) [
            | inl build ↦ elim (Bool-cases (query_bool (u.get (codes "pull")))) [
              | inl e ↦ rw (pull, build, e) (λ h. absurd h)
              | inr e ↦
                  rw (pull, build, e)
                    (λ h. (
                      [],
                      by_build ((is_build_iff parts).0 build) ((query_bool-AsksPull _).0 e),
                      tt,
                    ))
            ]
            | inr build ↦ elim (Bool-cases (is_create (codes "containers") parts)) [
              | inl create ↦
                  rw (pull, build, create)
                    (λ h.
                      let (image, g, a) =
                        body_image-Accepted container_create readers.container_image body h in
                      (image ∷ [], by_container ((is_create_iff _ parts).0 create) g, a))
              | inr create ↦ elim (Bool-cases (is_create (codes "services") parts)) [
                | inl service ↦
                    rw (pull, build, create, service)
                      (λ h.
                        let (image, g, a) =
                          body_image-Accepted service_create readers.service_image body h in
                        (image ∷ [], by_service (inl ((is_create_iff _ parts).0 service)) g, a))
                | inr service ↦ elim (Bool-cases (is_update parts)) [
                  | inl update ↦
                      rw (pull, build, create, service, update)
                        (λ h.
                          let (image, g, a) =
                            body_image-Accepted service_create readers.service_image body h in
                          (image ∷ [], by_service (inr ((is_update_iff parts).0 update)) g, a))
                  | inr update ↦
                      rw (pull, build, create, service, update)
                        (λ h. (
                          [],
                          no_image
                              (λ x. absurd (cc (pull, (is_create_iff (codes "images") parts).1 x)))
                              (λ x. absurd (cc (build, (is_build_iff parts).1 x)))
                              (λ x.
                                absurd
                                  (cc (create, (is_create_iff (codes "containers") parts).1 x)))
                              (λ x. elim x [
                                | inl y ↦
                                    absurd
                                      (cc (service, (is_create_iff (codes "services") parts).1 y))
                                | inr y ↦ absurd (cc (update, (is_update_iff parts).1 y))
                              ]),
                          tt,
                        ))
                ]
              ]
            ]
          ]
        ]
