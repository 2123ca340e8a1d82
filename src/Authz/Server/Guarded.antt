-- ===== src/Authz/Server/Guarded.antt =====
-- Which images a request to Docker asks for, told from the parts of its path.
use ribat.Base.{
  true, false, List, [], ◌∷◌, Text, codes, text_eq, text_eq→eq, text_eq_refl, is_empty, trim_space,
  Result, ok, ◌≡◌, ◌↔◌, ◌⊎◌, refl, subst, arith,
}
use ribat.Authz.{Readers, Url, path_parts, is_version, is_create, is_build, is_update}
use ribat.Authz.Flags.{AsksPull}
use ribat.Authz.Names.{Named}

-- The paths of the requests that name images, in their parts.
abbrev pub IsCreate : Text → List Text → Type 0
IsCreate collection parts =
    (version : Text) × (parts ≡ version ∷ collection ∷ codes "create" ∷ [])
    × (is_version version ≡ true)

abbrev pub IsBuild : List Text → Type 0
IsBuild parts =
    (version : Text) × (parts ≡ version ∷ codes "build" ∷ []) × (is_version version ≡ true)

abbrev pub IsUpdate : List Text → Type 0
IsUpdate parts =
    (version : Text) × (id : Text) × (parts ≡ version ∷ codes "services" ∷ id ∷ codes "update" ∷ [])
    × (is_version version ≡ true)
    × (is_empty id ≡ false)

-- The body of a request is there, and gives an image.
pub record Gives (read : Text → Result Text Text) (body image : Text) : Type 0 where
  pub present : is_empty (trim_space body) ≡ false
  pub reads : read body ≡ ok image
  pub filled : is_empty image ≡ false

-- The images that must be allowed before a request goes through.
pub data Demands (readers : Readers) (body : Text) (u : Url) : List Text → Type 0 where
  by_pull :
      {image : Text}
      → IsCreate (codes "images") (path_parts u.path)
      → is_empty (u.get (codes "fromImage")) ≡ false
      → Named (u.get (codes "fromImage")) (u.get (codes "tag")) image
      → Demands readers body u (image ∷ [])
  by_build :
      IsBuild (path_parts u.path) → ¬ AsksPull (u.get (codes "pull")) → Demands readers body u []
  by_container :
      {image : Text}
      → IsCreate (codes "containers") (path_parts u.path)
      → Gives readers.container_image body image
      → Demands readers body u (image ∷ [])
  by_service :
      {image : Text}
      → IsCreate (codes "services") (path_parts u.path) ⊎ IsUpdate (path_parts u.path)
      → Gives readers.service_image body image
      → Demands readers body u (image ∷ [])
  no_image :
      ¬ IsCreate (codes "images") (path_parts u.path)
      → ¬ IsBuild (path_parts u.path)
      → ¬ IsCreate (codes "containers") (path_parts u.path)
      → ¬ (IsCreate (codes "services") (path_parts u.path) ⊎ IsUpdate (path_parts u.path))
      → Demands readers body u []

pub is_create_iff :
    (collection : Text) (parts : List Text)
    → (is_create collection parts ≡ true) ↔ IsCreate collection parts
unfolding is_create
is_create_iff collection [] = (λ h. cc, λ (v, e, p). cc)
is_create_iff collection (a ∷ []) = (λ h. cc, λ (v, e, p). cc)
is_create_iff collection (a ∷ b ∷ []) = (λ h. cc, λ (v, e, p). cc)
is_create_iff collection (a ∷ b ∷ c ∷ []) = (
  λ h.
      let kind : b ≡ collection = text_eq→eq b collection (ground (arith, h)) in
      let verb : c ≡ codes "create" = text_eq→eq c (codes "create") (ground (arith, h)) in
      (a, cc (kind, verb), ground (arith, h)),
  λ (v, e, p).
      let version : is_version a ≡ true = subst (λ (t : Text). is_version t ≡ true) (cc e) p in
      let kind : text_eq b collection ≡ true =
        subst (λ (t : Text). text_eq b t ≡ true) (cc e) (text_eq_refl b) in
      let verb : text_eq c (codes "create") ≡ true =
        subst (λ (t : Text). text_eq c t ≡ true) (cc e) (text_eq_refl c) in
      rw (version, kind, verb) refl,
)
is_create_iff collection (a ∷ b ∷ c ∷ d ∷ parts) = (λ h. cc, λ (v, e, p). cc)

pub is_build_iff : (parts : List Text) → (is_build parts ≡ true) ↔ IsBuild parts
unfolding is_build
is_build_iff [] = (λ h. cc, λ (v, e, p). cc)
is_build_iff (a ∷ []) = (λ h. cc, λ (v, e, p). cc)
is_build_iff (a ∷ b ∷ []) = (
  λ h.
      let verb : b ≡ codes "build" = text_eq→eq b (codes "build") (ground (arith, h)) in
      (a, cc verb, ground (arith, h)),
  λ (v, e, p).
      let version : is_version a ≡ true = subst (λ (t : Text). is_version t ≡ true) (cc e) p in
      let verb : text_eq b (codes "build") ≡ true =
        subst (λ (t : Text). text_eq b t ≡ true) (cc e) (text_eq_refl b) in
      rw (version, verb) refl,
)
is_build_iff (a ∷ b ∷ c ∷ parts) = (λ h. cc, λ (v, e, p). cc)

pub is_update_iff : (parts : List Text) → (is_update parts ≡ true) ↔ IsUpdate parts
unfolding is_update
is_update_iff [] = (λ h. cc, λ (v, i, e, p, q). cc)
is_update_iff (a ∷ []) = (λ h. cc, λ (v, i, e, p, q). cc)
is_update_iff (a ∷ b ∷ []) = (λ h. cc, λ (v, i, e, p, q). cc)
is_update_iff (a ∷ b ∷ c ∷ []) = (λ h. cc, λ (v, i, e, p, q). cc)
is_update_iff (a ∷ b ∷ c ∷ d ∷ []) = (
  λ h.
      let kind : b ≡ codes "services" = text_eq→eq b (codes "services") (ground (arith, h)) in
      let verb : d ≡ codes "update" = text_eq→eq d (codes "update") (ground (arith, h)) in
      (a, c, cc (kind, verb), ground (arith, h), ground (arith, h)),
  λ (v, i, e, p, q).
      let version : is_version a ≡ true = subst (λ (t : Text). is_version t ≡ true) (cc e) p in
      let kind : text_eq b (codes "services") ≡ true =
        subst (λ (t : Text). text_eq b t ≡ true) (cc e) (text_eq_refl b) in
      let filled : is_empty c ≡ false = subst (λ (t : Text). is_empty t ≡ false) (cc e) q in
      let verb : text_eq d (codes "update") ≡ true =
        subst (λ (t : Text). text_eq d t ≡ true) (cc e) (text_eq_refl d) in
      rw (version, kind, filled, verb) refl,
)
is_update_iff (a ∷ b ∷ c ∷ d ∷ f ∷ parts) = (λ h. cc, λ (v, i, e, p, q). cc)
