-- ===== src/Engine/Decide.antt =====
-- The method `Decide`, branch by branch.
pub mod Permitted
pub mod Refines
pub mod Safe
pub mod Keeps
pub mod Recorded
pub mod Lasts
pub mod Remembers
pub mod WellFormed
use ribat.Base.{
  ℕ, ℤ, pos, Bool, true, false, not, ◌&&◌, ◌||◌, List, [], ◌∷◌, ◌++◌, Option, none, some,
  if◌then◌else◌, Text, codes, text_eq, is_some, ltb_ℤ, Result, ok, err,
}
use ribat.Time.{Time, add_time, sub_time}
use ribat.Image.{Reference, ImageError, parse_reference}
use ribat.Policy.{EffectivePolicy, action_allow, action_deny}
use ribat.Policy.Matcher.{MatchResult, effective_policy_for}
use ribat.Store.Rows.{Observation, decision_allow, decision_deny}
use ribat.Store.Observations.{get_observation, create_observation, touch_observation}
use ribat.Store.Overrides.{LocalOverride, local_override}
use ribat.Store.World.{World, Act, pure, raise, ◌>>=◌, ◌>>◌}
use ribat.Engine.{
  ManifestDigest, Engine, Request, Decision, zero_decision, EngineError, no_store, bad_image,
  nil_observation, try, lift, record_outcome,
}
use ribat.Engine.Verification.{denied, verify_if_required, allow_with_verification}

-- The decision before any branch.
unfoldable pub first_decision : Reference → MatchResult → Decision
first_decision ref result = record zero_decision {
  image_ref = ref.canonical_ref;
  registry = ref.registry;
  repository = ref.repository;
  tag = ref.tag;
  digest = ref.digest;
  matched_rule = result.matched_rule;
  required_age = result.policy.mutable_tags.min_digest_age;
}

-- The flags that both branches take from an override.
unfoldable pub with_override : LocalOverride → Decision → Decision
with_override o d = record d {
  manual_approval = is_some o.approval;
  bypassed = is_some o.bypass && not (is_some o.approval);
}

unfoldable pub frozen_decision : Decision → Decision
frozen_decision d = record d { frozen = true; reason = codes "tag or digest is frozen" }

unfoldable pub pinned_end : LocalOverride → Bool × Decision → Decision
unfolding with_override
pinned_end o (false, d) = d
pinned_end o (true, d) = record (with_override o d) {
  allowed = true;
  reason = codes "digest-pinned image allowed by policy";
}

-- `decideDigestPinned`.
unfoldable pub decide_pinned :
    Engine → Reference → EffectivePolicy → Decision → Act EngineError Decision
unfolding frozen_decision pinned_end
decide_pinned e ref p d = do
  o ← lift (local_override ref.registry ref.repository ref.tag ref.digest e.now)
  if text_eq o.decision decision_deny
      then pure (frozen_decision d)
      else if text_eq p.digest_pinned_images.action action_deny
      then pure (record d { reason = codes "digest-pinned image denied by policy" })
      else do
        verified ← verify_if_required e p.signatures.cosign ref ref.digest d
        pure (pinned_end o verified)

-- A digest that the store did not know: `CreateObservation` has put it there.
unfoldable pub decide_new :
    Engine
    → EffectivePolicy
    → LocalOverride
    → Decision
    → Option Observation
    → Act EngineError Decision
unfolding with_override
decide_new e p o d none = raise nil_observation
decide_new e p o d (some obs) =
    let d' = record d { first_seen_at = some obs.first_seen_at } in
    if text_eq o.decision decision_allow || p.mutable_tags.allow_first_seen_pull
    then allow_with_verification e p obs.id (with_override o d')
    else pure (record d' {
      reason = codes "new digest observed for mutable tag; digest entered quarantine";
      next_allowed_at = some (add_time obs.first_seen_at p.mutable_tags.min_digest_age);
    })

-- The end of the branch of a digest that the store knows.
unfoldable pub decide_age :
    Engine → EffectivePolicy → Observation → Decision → Act EngineError Decision
decide_age e p obs d =
    let age = sub_time e.now obs.first_seen_at in
    if ltb_ℤ age p.mutable_tags.min_digest_age
    then pure (record d {
      current_age = age;
      reason = codes "digest is still in quarantine";
      next_allowed_at = some (add_time obs.first_seen_at p.mutable_tags.min_digest_age);
    })
    else allow_with_verification e p obs.id (record d { current_age = age })

unfoldable pub decide_known :
    Engine → EffectivePolicy → LocalOverride → Decision → Observation → Act EngineError Decision
unfolding with_override decide_age
decide_known e p o d obs = do
  lift (touch_observation obs.id e.now)
  if text_eq o.decision decision_allow
      then allow_with_verification e p obs.id
          (with_override o (record d { first_seen_at = some obs.first_seen_at }))
      else decide_age e p obs (record d { first_seen_at = some obs.first_seen_at })

unfoldable pub decide_observed :
    Engine
    → Reference
    → EffectivePolicy
    → LocalOverride
    → Decision
    → Option Observation
    → Act EngineError Decision
unfolding decide_new decide_known
decide_observed e ref p o d (some obs) = decide_known e p o d obs
decide_observed e ref p o d none = do
  obs ← lift (create_observation ref.registry ref.repository ref.tag d.digest e.now)
  decide_new e p o d obs

-- After the tag has been resolved; `d.digest` is the digest that it points to now.
unfoldable pub decide_resolved :
    Engine → Reference → EffectivePolicy → Decision → Act EngineError Decision
unfolding frozen_decision decide_observed
decide_resolved e ref p d = do
  o ← lift (local_override ref.registry ref.repository ref.tag d.digest e.now)
  if text_eq o.decision decision_deny then pure (frozen_decision d) else do
    obs ← lift (get_observation ref.registry ref.repository ref.tag d.digest)
    decide_observed e ref p o d obs

unfoldable pub unresolved : EffectivePolicy → Text → Decision → Decision
unresolved p m d =
    if text_eq p.failed_registry_resolution.action action_allow
    then record d {
      allowed = true;
      reason = codes "registry resolution failed but policy allows fallback";
    }
    else record d { reason = codes "could not resolve remote digest: " ++ m }

unfoldable pub decide_resolution :
    Engine
    → Reference
    → EffectivePolicy
    → Decision
    → Result Text ManifestDigest
    → Act EngineError Decision
unfolding unresolved decide_resolved
decide_resolution e ref p d (err m) = pure (unresolved p m d)
decide_resolution e ref p d (ok m) = decide_resolved e ref p (record d { digest = m.digest })

unfoldable pub decide_mutable :
    Engine → Reference → EffectivePolicy → Decision → Act EngineError Decision
unfolding decide_resolution
decide_mutable e ref p d =
    if text_eq p.mutable_tags.action action_allow
    then pure (record d { allowed = true; reason = codes "mutable tag allowed by policy" })
    else if text_eq p.mutable_tags.action action_deny
    then pure (record d { reason = codes "mutable tag denied by policy" })
    else decide_resolution e ref p d (e.resolve ref)

unfoldable pub decide_reference : Engine → Reference → Act EngineError Decision
unfolding decide_pinned decide_mutable first_decision
decide_reference e ref =
    let result = effective_policy_for e.config ref in
    let d = first_decision ref result in
    if ref.is_digest_pinned
    then decide_pinned e ref result.policy d
    else decide_mutable e ref result.policy d

unfoldable pub record_error : Result Text (Unit {0}) → Option EngineError
record_error (ok _) = none
record_error (err m) = some (EngineError.store_error m)

-- `return decision, e.record(…)`: the decision comes with the error of recording it, if any.
unfoldable pub finish :
    Engine → Request → Decision → Act EngineError (Decision × Option EngineError)
unfolding record_error
finish e req d = do recorded ← try (record_outcome e req d); pure (d, record_error recorded)

parsed :
    Engine → Request → Result ImageError Reference → Act EngineError (Decision × Option EngineError)
unfolding decide_reference finish
parsed e req (err m) = raise (bad_image m)
parsed e req (ok ref) = do d ← decide_reference e ref; finish e req d

returned :
    Result EngineError (Decision × Option EngineError) × World
    → (Decision × Option EngineError) × World
returned (ok (d, m), w) = ((d, m), w)
returned (err m, w) = ((zero_decision, some m), w)

-- The decision and the error that `Decide` returns, and the world that it leaves.
unfoldable pub decide : Engine → Request → World → (Decision × Option EngineError) × World
unfolding parsed returned
decide e req w =
    if e.has_store
    then returned (parsed e req (parse_reference req.image_ref) w)
    else ((zero_decision, some no_store), w)
