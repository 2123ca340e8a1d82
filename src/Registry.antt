-- ===== src/Registry.antt =====
-- internal/registry/resolver.go: what is asked of a registry, and what it answers.
pub mod Exchange
pub mod Challenge
pub mod Resolver
use ribat.Base.{ℕ, ℤ, not, List, [], ◌∷◌, Text, text_eq, if◌then◌else◌, keep}

-- `http.Header` with one value for each key, under the names that net/http gives them.
abbrev pub Headers : Type 0
Headers = List (Text × Text)

-- `Header.Get`: the empty text for a key that is missing.
unfoldable pub get_header : Text → Headers → Text
get_header key [] = []
get_header key ((k, value) ∷ headers) =
    let later = get_header key headers in if text_eq k key then value else later

-- `Header.Set`.
unfoldable pub set_header : Text → Text → Headers → Headers
set_header key value headers = (key, value) ∷ keep (λ h. not (text_eq h.0 key)) headers

-- A body is a list of bytes.
pub record Manifest : Type 0 where
  pub registry : Text
  pub repository : Text
  pub reference : Text
  pub digest : Text
  pub media_type : Text
  pub body : List ℕ

-- `size` is -1 where the registry does not tell.
pub record Blob : Type 0 where
  pub registry : Text
  pub repository : Text
  pub digest : Text
  pub media_type : Text
  pub size : ℤ
  pub body : List ℕ
  pub status_code : ℕ
  pub headers : Headers
