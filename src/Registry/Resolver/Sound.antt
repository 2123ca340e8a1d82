-- ===== src/Registry/Resolver/Sound.antt =====
-- What the resolver gives is what the registry has answered last.
use ribat.Base.{
  Bool, true, false, not, List, [], Text, is_empty, Result, ok, err, ◌≡◌, refl, codes, ◌==◌,
  if◌then◌else◌, subst,
}
use ribat.Image.{Reference}
use ribat.Engine.{ManifestDigest}
use ribat.Registry.{get_header}
use ribat.Registry.Exchange.{Sent, Reply, Exchange, give, give_result, ◌>>=◌, go_on}
use ribat.Registry.Exchange.Sending.{Ensures, Ensures-bind, IsLast, request-IsLast}
use ribat.Registry.Resolver.{
  Resolver, RegistryError, endpoint, manifest_url, is_success, media_type, do_manifest_request,
  should_fallback_to_get, challenged, head_or_get, authorized_head, resolved, resolve_at, resolve,
}

Ensures-if :
    {E A : Type 0} (Q : A → List Sent → Type 0) (b : Bool) (m k : Exchange E A) (sent : List Sent)
    → Ensures Q (m sent)
    → Ensures Q (k sent)
    → Ensures Q ((if b then m else k) sent)
Ensures-if Q true m k sent h g = h
Ensures-if Q false m k sent h g = g

Ensures-guard :
    {E A : Type 0} (Q : A → List Sent → Type 0) (b : Bool) (e : E) (r : Result E A)
    (sent : List Sent)
    → (b ≡ false → Ensures Q (r, sent))
    → Ensures Q (if b then err e else r, sent)
Ensures-guard Q true e r sent h = tt
Ensures-guard Q false e r sent h = h refl

anything : {E A : Type 0} (r : Result E A × List Sent) → Ensures (λ (a : A) sent. Unit {0}) r
anything (ok a, sent) = tt
anything (err e, sent) = tt

passes : (b : Bool) → not b ≡ false → b ≡ true
passes true h = refl
passes false h = cc

abbrev named_digest : Reply → ManifestDigest
named_digest reply = record {
  digest = get_header (codes "Docker-Content-Digest") reply.headers;
  media_type = media_type (get_header (codes "Content-Type") reply.headers);
}

module _ (r : Resolver) (url : Text) where
  do_manifest_request-IsLast :
      (method token : Text) (sent : List Sent)
      → Ensures (IsLast r.libraries url) (do_manifest_request r method url token sent)
  unfolding do_manifest_request
  do_manifest_request-IsLast method token sent = request-IsLast _ _ _ _ sent

  head_or_get-IsLast :
      (token : Text) (sent : List Sent)
      → Ensures (IsLast r.libraries url) (head_or_get r url token sent)
  unfolding head_or_get give
  head_or_get-IsLast token sent =
      Ensures-bind (IsLast r.libraries url) _ _ _ sent
        (do_manifest_request-IsLast (codes "HEAD") token sent)
        λ reply later last.
          Ensures-if _ (should_fallback_to_get reply) _ _ later
            (do_manifest_request-IsLast (codes "GET") token later) last

  authorized_head-IsLast :
      (reply : Reply) (sent : List Sent)
      → IsLast r.libraries url reply sent
      → Ensures (IsLast r.libraries url) (authorized_head r url reply sent)
  unfolding authorized_head give
  authorized_head-IsLast reply sent last =
      Ensures-if _ (reply.status == 401) _ _ sent
        (Ensures-bind (λ token later. Unit {0}) _ _ _ sent (anything (challenged r reply sent))
          λ token later x. head_or_get-IsLast token later)
        last

  -- The digest is the one that the last reply names.
  pub record IsAnswer (m : ManifestDigest) (sent : List Sent) : Type 0 where
    pub reply : Reply
    pub last : IsLast r.libraries url reply sent
    pub success : is_success reply.status ≡ true
    pub named : m.digest ≡ get_header (codes "Docker-Content-Digest") reply.headers
    pub present : is_empty m.digest ≡ false

  resolved-IsAnswer :
      (reply : Reply) (sent : List Sent)
      → IsLast r.libraries url reply sent
      → Ensures IsAnswer (give_result (resolved reply) sent)
  unfolding resolved give_result
  resolved-IsAnswer reply sent last =
      let digest : Result RegistryError ManifestDigest = ok (named_digest reply) in
      let named : Result RegistryError ManifestDigest =
        if is_empty (named_digest reply).digest then err RegistryError.missing_digest else digest in
      let good : Result RegistryError ManifestDigest =
        if not (is_success reply.status)
        then err (RegistryError.bad_status reply.status)
        else named in
      Ensures-guard IsAnswer (reply.status == 404) RegistryError.tag_not_found good sent λ found.
        Ensures-guard IsAnswer (not (is_success reply.status))
          (RegistryError.bad_status reply.status) named sent
          λ fine.
            Ensures-guard IsAnswer (is_empty (named_digest reply).digest)
              RegistryError.missing_digest digest sent
              λ there. record {
                reply = reply;
                last = last;
                success = passes _ fine;
                named = refl;
                present = there;
              }

  resolve_at-IsAnswer : (sent : List Sent) → Ensures IsAnswer (resolve_at r url sent)
  unfolding resolve_at
  resolve_at-IsAnswer sent =
      Ensures-bind (IsLast r.libraries url) _ _ _ sent (head_or_get-IsLast [] sent)
        λ reply later last.
          Ensures-bind (IsLast r.libraries url) _ _ _ later
            (authorized_head-IsLast reply later last)
            λ reply' end last'. resolved-IsAnswer reply' end last'

-- The URL of the manifest, at the endpoint of the registry.
abbrev Answered : Resolver → Reference → ManifestDigest → List Sent → Type 0
Answered r ref m sent =
    (base : Text) × (endpoint r ref.registry ≡ ok base)
    × IsAnswer r (manifest_url r base ref.repository ref.tag) m sent

module _ (r : Resolver) (ref : Reference) where
  based-Answered :
      (found : Result RegistryError Text) (sent : List Sent)
      → endpoint r ref.registry ≡ found
      → Ensures (Answered r ref) (
          (give_result found >>= λ base. resolve_at r (manifest_url r base ref.repository ref.tag))
            sent)
  unfolding give_result ◌>>=◌ go_on
  based-Answered (err m) sent known = tt
  based-Answered (ok base) sent known =
      with_base (resolve_at r (manifest_url r base ref.repository ref.tag) sent)
        (resolve_at-IsAnswer r (manifest_url r base ref.repository ref.tag) sent)
    where
      with_base :
          (out : Result RegistryError ManifestDigest × List Sent)
          → Ensures (IsAnswer r (manifest_url r base ref.repository ref.tag)) out
          → Ensures (Answered r ref) out
      with_base (ok m, later) h = (base, known, h)
      with_base (err m, later) h = tt

  ensured :
      (out : Result RegistryError ManifestDigest × List Sent) (m : ManifestDigest)
      → Ensures (Answered r ref) out
      → out.0 ≡ ok m
      → Answered r ref m out.1
  ensured (ok m', later) m h e =
      let same : m' ≡ m = cc e in subst (λ d. Answered r ref d later) same h
  ensured (err m', later) m h e = cc

  -- If Resolve gives a digest, whatever the registry and its token service answer, then the
  -- registry has an endpoint, the digest is not empty, and the last request went to the URL of the
  -- manifest at that endpoint and was answered with a status from 200 to 299 and the digest in
  -- Docker-Content-Digest.
  pub resolve_sound :
      (sent : List Sent) (m : ManifestDigest)
      → (resolve r ref sent).0 ≡ ok m
      → (base : Text) × (endpoint r ref.registry ≡ ok base)
        × IsAnswer r (manifest_url r base ref.repository ref.tag) m (resolve r ref sent).1
  unfolding resolve give_result
  resolve_sound sent m = ensured _ m (
      Ensures-if (Answered r ref) (is_empty ref.tag) _ _ sent tt
        (based-Answered (endpoint r ref.registry) sent refl))
