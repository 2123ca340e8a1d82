-- ===== src/Registry/Resolver/Sends.antt =====
-- How many requests the resolver sends, and to whom it shows a token.
use ribat.Base.{
  ◌≤◌, Bool, true, ◌||◌, List, [], ◌++◌, length, all, Text, text_eq, text_eq_refl, is_empty, Result,
  ok, err, ◌≡◌, refl, arith, codes, ◌==◌, ◌∙◌,
}
use ribat.Image.{Reference}
use ribat.Registry.Exchange.{Sent, Reply, Libraries}
use ribat.Registry.Challenge.{BearerChallenge, ChallengeError}
use ribat.Registry.Exchange.Sending.{
  Sends, Sends-result, Sends-give, Sends-if, Sends-bind, Sends-known, Sends-request,
}
use ribat.Registry.Resolver.{
  Resolver, TokenError, endpoint, manifest_url, manifest_types, do_manifest_request,
  do_registry_request, token_from, fetch_bearer_token, token_result, token_for, challenged,
  head_or_get, authorized_head, resolve_at, resolve, do_registry_request_with_auth, fetch_manifest,
}

-- A request without a token, or to the given URL.
abbrev pub is_discreet : Text → Sent → Bool
is_discreet url q = is_empty q.token || text_eq q.url url

module _ (r : Resolver) (url : Text) where
  own_request :
      (method accept token : Text)
      → is_discreet url (record { method = method; url = url; accept = accept; token = token })
        ≡ true
  own_request method accept token = ground (arith, text_eq_refl url)

  do_manifest_request-Sends :
      (method token : Text) → Sends 1 (is_discreet url) (do_manifest_request r method url token)
  unfolding do_manifest_request
  do_manifest_request-Sends method token =
      Sends-request _ _ _ _ _ (own_request method manifest_types token)

  do_registry_request-Sends :
      (method accept token : Text)
      → Sends 1 (is_discreet url) (do_registry_request r method url accept token)
  unfolding do_registry_request
  do_registry_request-Sends method accept token =
      Sends-request _ _ _ _ _ (own_request method accept token)

  token_from-Sends :
      (l : Libraries) (u : Result Text Text) → Sends 1 (is_discreet url) (token_from l u)
  unfolding token_from
  token_from-Sends l (err m) = Sends-result _ 1 _
  token_from-Sends l (ok u) =
      Sends-bind _ 1 0 _ _ (Sends-request _ _ _ _ _ refl) λ reply. Sends-result _ 0 _

  token_result-sent : (out : Result TokenError Text × List Sent) → (token_result out).1 ≡ out.1
  unfolding token_result
  token_result-sent (ok t, sent) = refl
  token_result-sent (err m, sent) = refl

  token_for-Sends :
      (l : Libraries) (c : Result ChallengeError BearerChallenge)
      → Sends 1 (is_discreet url) (token_for l c)
  unfolding token_for fetch_bearer_token
  token_for-Sends l (err m) = record { sends = λ sent. ([], refl, omega arith, refl) }
  token_for-Sends l (ok c) = record {
    sends = λ sent.
        let (more, same, few, good) = (token_from-Sends l (l.token_url c.realm _)).sends sent in
        (more, token_result-sent (fetch_bearer_token l c sent) ∙ same, few, good);
  }

  challenged-Sends : (reply : Reply) → Sends 1 (is_discreet url) (challenged r reply)
  unfolding challenged
  challenged-Sends reply = token_for-Sends r.libraries _

  head_or_get-Sends : (token : Text) → Sends 2 (is_discreet url) (head_or_get r url token)
  unfolding head_or_get
  head_or_get-Sends token =
      Sends-bind _ 1 1 _ _ (do_manifest_request-Sends (codes "HEAD") token) λ reply.
        Sends-if _ 1 _ _ _ (do_manifest_request-Sends (codes "GET") token) (Sends-give _ 1 reply)

  resolve_at-Sends : Sends 5 (is_discreet url) (resolve_at r url)
  unfolding resolve_at authorized_head
  resolve_at-Sends = Sends-bind _ 2 3 _ _ (head_or_get-Sends []) λ reply.
      Sends-bind _ 3 0 _ _
        (Sends-if _ 3 (reply.status == 401) _ _
          (Sends-bind _ 1 2 _ _ (challenged-Sends reply) λ token. head_or_get-Sends token)
          (Sends-give _ 3 reply))
        λ last. Sends-result _ 0 _

  with_auth-Sends :
      (method accept : Text)
      → Sends 3 (is_discreet url) (do_registry_request_with_auth r method url accept)
  unfolding do_registry_request_with_auth
  with_auth-Sends method accept =
      Sends-bind _ 1 2 _ _ (do_registry_request-Sends method accept []) λ reply.
        Sends-if _ 2 (reply.status == 401) _ _
          (Sends-bind _ 1 1 _ _ (challenged-Sends reply)
            λ token. do_registry_request-Sends method accept token)
          (Sends-give _ 2 reply)

module _ (r : Resolver) (ref : Reference) (base : Text)
    (known : endpoint r ref.registry ≡ ok base) where
  -- If the registry of a reference has an endpoint, then Resolve sends at most five requests, and
  -- each of them that carries a token goes to the URL of the manifest at that endpoint, whatever
  -- the registry and its token service answer.
  pub resolve_sends :
      (sent : List Sent)
      → (more : List Sent) × ((resolve r ref sent).1 ≡ more ++ sent)
        × (length more ≤ 5)
        × (all (is_discreet (manifest_url r base ref.repository ref.tag)) more ≡ true)
  unfolding resolve
  resolve_sends =
      (Sends-if (is_discreet (manifest_url r base ref.repository ref.tag)) 5 (is_empty ref.tag) _ _
        (Sends-result _ 5 _) (Sends-known _ 0 5 base _ _ known (resolve_at-Sends r _))).sends

  -- If the registry of a reference has an endpoint, then FetchManifest sends at most three
  -- requests, and each of them that carries a token goes to the URL of the manifest at that
  -- endpoint, whatever the registry and its token service answer.
  pub fetch_manifest_sends :
      (reference : Text) (sent : List Sent)
      → (more : List Sent) × ((fetch_manifest r ref reference sent).1 ≡ more ++ sent)
        × (length more ≤ 3)
        × (all (is_discreet (manifest_url r base ref.repository reference)) more ≡ true)
  unfolding fetch_manifest
  fetch_manifest_sends reference =
      (Sends-if (is_discreet (manifest_url r base ref.repository reference)) 3 (is_empty reference)
        _ _ (Sends-result _ 3 _)
        (Sends-known _ 0 3 base _ _ known (
          Sends-bind _ 3 0 _ _ (with_auth-Sends r _ (codes "GET") _)
            λ reply. Sends-result _ 0 _))).sends
