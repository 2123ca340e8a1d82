-- ===== src/Registry/Exchange.antt =====
-- The HTTP requests that a method of the resolver sends, one after the other.
pub mod Sending
use ribat.Base.{
  ℕ, ℤ, Bool, true, false, List, [], ◌∷◌, Option, none, some, Text, Result, ok, err, if◌then◌else◌,
  leb, length, take,
}
use ribat.Registry.{Headers}

-- `accept` and `token` are empty where the header is not set.
pub record Sent : Type 0 where
  pub method : Text
  pub url : Text
  pub accept : Text
  pub token : Text

-- The bytes of a body, and the error that reading it meets behind them, if any.
pub record ReplyBody : Type 0 where
  pub bytes : List ℕ
  pub broken : Option Text

pub record Reply : Type 0 where
  pub status : ℕ
  pub headers : Headers
  pub content_length : ℤ
  pub body : ReplyBody

-- `io.ReadAll`.
unfoldable pub read_all : ReplyBody → Result Text (List ℕ)
read_all b = elim b.broken [ none ↦ ok b.bytes | some m ↦ err m ]

-- `io.ReadAll(io.LimitReader(body, n))`.
unfoldable pub read_limited : ℕ → ReplyBody → Result Text (List ℕ)
unfolding read_all
read_limited n b = if leb n (length b.bytes) then ok (take n b.bytes) else read_all b

-- The libraries below the resolver. `send` is `Client.Do`: the answer to a request, which may hang
-- on the requests sent before it, the latest first. `token_url` parses a URL and sets values in its
-- query; `unmarshal_token` reads `token` and `access_token`.
pub record Libraries : Type 0 where
  pub send : List Sent → Sent → Result Text Reply
  pub new_request : Text → Text → Result Text (Unit {0})
  pub path_escape : Text → Text
  pub token_url : Text → List (Text × Text) → Result Text Text
  pub unmarshal_token : List ℕ → Result Text (Text × Text)

-- A method that sends requests; the list of those sent comes in and goes out.
abbrev pub Exchange : Type 0 → Type 0 → Type 0
Exchange E A = List Sent → Result E A × List Sent

module _ {E A : Type 0} where
  unfoldable pub give : A → Exchange E A
  give a sent = (ok a, sent)

  unfoldable pub give_result : Result E A → Exchange E A
  give_result r sent = (r, sent)

module _ {E A B : Type 0} where
  unfoldable pub go_on : Result E A → (A → Exchange E B) → Exchange E B
  go_on (ok a) k sent = k a sent
  go_on (err e) k sent = (err e, sent)

  infixl 10 ◌>>=◌
  unfoldable pub ◌>>=◌ : Exchange E A → (A → Exchange E B) → Exchange E B
  unfolding go_on
  ◌>>=◌ m k sent = let (r, sent') = m sent in go_on r k sent'

module _ {E : Type 0} (l : Libraries) (bad failed : Text → E) where
  answered : Result Text Reply → Result E Reply
  answered (ok reply) = ok reply
  answered (err m) = err (failed m)

  sent_if : Sent → Result Text (Unit {0}) → Exchange E Reply
  unfolding answered
  sent_if q (err m) sent = (err (bad m), sent)
  sent_if q (ok x) sent = (answered (l.send sent q), q ∷ sent)

  -- `http.NewRequestWithContext`, and then `Client.Do`; each puts its words in front of its error.
  unfoldable pub request : Sent → Exchange E Reply
  unfolding sent_if
  request q = sent_if q (l.new_request q.method q.url)
