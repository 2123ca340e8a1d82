-- ===== src/Engine/Verification.antt =====
-- `verifyCosign` and `allowWithVerification`. An error becomes a denial, never an error of `Decide`.
pub mod Sound
use ribat.Base.{
  ℕ, Bool, true, false, not, ◌&&◌, List, [], ◌∷◌, ◌++◌, Option, none, some, if◌then◌else◌, Text,
  codes, is_empty, Result, ok, err,
}
use ribat.Image.{Reference}
use ribat.Policy.{CosignPolicy, EffectivePolicy}
use ribat.Cosign.{CosignResult, digest_reference}
use ribat.Store.Rows.{CosignVerification}
use ribat.Store.Verifications.{get_cosign_verification, record_cosign_verification}
use ribat.Store.Observations.{mark_observation_allowed}
use ribat.Store.World.{Act, pure, ◌>>=◌, ◌>>◌}
use ribat.Engine.{Engine, Decision, EngineError, try}

-- A denial with its reason.
unfoldable pub denied : Text → Decision → Decision
denied reason d = record d { allowed = false; reason = reason }

unfoldable pub new_verification :
    Engine → Reference → Text → CosignPolicy → CosignResult → CosignVerification
new_verification e ref digest cfg result = record {
  id = 0;
  registry = ref.registry;
  repository = ref.repository;
  digest = digest;
  policy_key = e.policy_key cfg;
  image_ref = digest_reference ref digest;
  verified_at = e.now;
  success = result.success;
  reason = result.reason;
}

-- The end of `verifyCosign`: what the verifier found, once it is in the cache.
unfoldable pub after_record : CosignResult → Decision → Result Text (Unit {0}) → Bool × Decision
unfolding denied
after_record result d (err m) =
    (false, denied (codes "could not cache cosign verification result: " ++ m) d)
after_record result d (ok _) =
    if result.success
    then (true, record d { cosign_verified = true })
    else if is_empty result.reason
    then (false, denied (codes "cosign verification failed") d)
    else (false, denied (codes "cosign verification failed: " ++ result.reason) d)

unfoldable pub run_verifier :
    Engine
    → Reference
    → Text
    → CosignPolicy
    → Decision
    → Result Text CosignResult
    → Act EngineError (Bool × Decision)
unfolding denied new_verification after_record
run_verifier e ref digest cfg d (err m) =
    pure (false, denied (codes "cosign verification failed: " ++ m) d)
run_verifier e ref digest cfg d (ok result) = do
  recorded ← try (record_cosign_verification (new_verification e ref digest cfg result))
  pure (after_record result d recorded)

-- `cached != nil && cached.Success`.
unfoldable pub is_cached : Option CosignVerification → Bool
is_cached none = false
is_cached (some v) = v.success

unfoldable pub use_cache :
    Engine
    → Reference
    → Text
    → CosignPolicy
    → Decision
    → Result Text (Option CosignVerification)
    → Act EngineError (Bool × Decision)
unfolding denied is_cached run_verifier
use_cache e ref digest cfg d (err m) =
    pure (false, denied (codes "could not read cosign verification cache: " ++ m) d)
use_cache e ref digest cfg d (ok cached) =
    if is_cached cached
    then pure (true, record d { cosign_verified = true; cosign_cached = true })
    else run_verifier e ref digest cfg d (e.verify ref digest cfg)

-- Whether the verification succeeded, and the decision with what it has changed.
unfoldable pub verify_cosign :
    Engine → Reference → Text → CosignPolicy → Decision → Act EngineError (Bool × Decision)
unfolding use_cache
verify_cosign e ref digest cfg d = do
  cached ← try (get_cosign_verification ref.registry ref.repository digest (e.policy_key cfg))
  use_cache e ref digest cfg d cached

-- The reference that `allowWithVerification` makes from the decision.
unfoldable pub decision_reference : Decision → Reference
decision_reference d = record {
  registry = d.registry;
  repository = d.repository;
  tag = d.tag;
  digest = [];
  is_mutable_tag = false;
  is_digest_pinned = false;
  canonical_ref = d.image_ref;
}

unfoldable pub allow_reason : Decision → Text
allow_reason d =
    if d.manual_approval
    then codes "digest manually approved"
    else if d.bypassed
    then codes "tag bypass active"
    else if d.cosign_verified
    then codes "digest satisfies quarantine and cosign verification policy"
    else codes "digest satisfies quarantine policy"

unfoldable pub after_mark : Decision → Result Text (Unit {0}) → Decision
unfolding denied allow_reason
after_mark d (err m) = denied (codes "could not update allowed observation state: " ++ m) d
after_mark d (ok _) = record d { allowed = true; reason = allow_reason d }

-- `if required && !verifyCosign(…) { return }`, as the flag that says to go on.
unfoldable pub verify_if_required :
    Engine → CosignPolicy → Reference → Text → Decision → Act EngineError (Bool × Decision)
unfolding verify_cosign
verify_if_required e cfg ref digest d =
    if cfg.required then verify_cosign e ref digest cfg d else pure (true, d)

unfoldable pub mark_verified : Engine → ℕ → Bool × Decision → Act EngineError Decision
unfolding after_mark
mark_verified e id (false, d) = pure d
mark_verified e id (true, d) = do
  marked ← try (mark_observation_allowed id e.now)
  pure (after_mark d marked)

unfoldable pub allow_with_verification :
    Engine → EffectivePolicy → ℕ → Decision → Act EngineError Decision
unfolding verify_if_required mark_verified decision_reference
allow_with_verification e p id d = do
  verified ← verify_if_required e p.signatures.cosign (decision_reference d) d.digest d
  mark_verified e id verified
