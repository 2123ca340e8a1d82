-- ===== src/Engine/Decide/Keeps.antt =====
-- What `Decide` keeps of the world before it records its decision: every relation that the
-- statements it runs keep.
use ribat.Base.{ℕ, ℤ, Bool, true, false, Option, none, some, Text, text_eq, Result, ok, err}
use ribat.Time.{Time, unix}
use ribat.Image.{Reference}
use ribat.Policy.{action_allow, action_deny, CosignPolicy, EffectivePolicy}
use ribat.Policy.Matcher.{effective_policy_for}
use ribat.Cosign.{CosignResult}
use ribat.Store.Rows.{decision_deny, Observation, ObservationRow, CosignVerification}
use ribat.Store.World.{World, Act}
use ribat.Store.World.Runs.{at}
use ribat.Store.World.Keeps.{
  Preorder, Keeps, Keeps-pure, Keeps-raise, Keeps-gets, Keeps-if, Keeps-call, Keeps-change,
  Keeps-bind, Keeps-query,
}
use ribat.Store.Observations.{
  get_observation, create_observation, touch_observation, mark_observation_allowed,
  update_statement, update_observation, require_affected, touch, mark_allowed,
}
use ribat.Store.Observations.Runs.{with_observation}
use ribat.Store.Overrides.{
  LocalOverride, local_override, active_freeze, active_approval, active_bypass,
}
use ribat.Store.Verifications.{get_cosign_verification, record_cosign_verification}
use ribat.Store.Verifications.Runs.{with_verification}
use ribat.Engine.{ManifestDigest, Engine, Decision, try, lift}
use ribat.Engine.Verification.{
  new_verification, run_verifier, use_cache, verify_cosign, verify_if_required, mark_verified,
  allow_with_verification,
}
use ribat.Engine.Decide.{
  first_decision, decide_pinned, decide_new, decide_age, decide_known, decide_observed,
  decide_resolved, decide_resolution, decide_mutable, decide_reference,
}

-- A relation with what the four statements that change tables must do for it.
pub record Stable : Type 1 where
  pub order : Preorder
  pub inserts :
      (registry repository tag digest : Text) (now : Time) (w : World)
      → order.rel w (at (with_observation registry repository tag digest now w.db) w)
  pub touches :
      (id : ℕ) (ts : ℤ) (w : World) → order.rel w (at (update_observation id (touch ts) w.db) w)
  pub marks :
      (id : ℕ) (ts : ℤ) (w : World)
      → order.rel w (at (update_observation id (mark_allowed ts) w.db) w)
  pub verifies :
      (v : CosignVerification) (w : World) → order.rel w (at (with_verification v w.db) w)

module _ (o : Preorder) {A : Type 0} where
  pub Keeps-try : (m : Act Text A) → Keeps o m → Keeps o (try m)
  unfolding try
  Keeps-try m h = record { kept = λ w. h.kept w }

  lift_result : (r : Result Text A) (w w' : World) → o.rel w w' → o.rel w (lift (λ _. (r, w')) w).1
  unfolding lift
  lift_result (ok a) w w' h = h
  lift_result (err e) w w' h = h

  Keeps-lift : (m : Act Text A) → Keeps o m → Keeps o (lift m)
  unfolding lift
  Keeps-lift m h = record { kept = λ w. lift_result (m w).0 w (m w).1 (h.kept w) }

module _ (s : Stable) where
  update_statement-Keeps :
      (t : Text) (id : ℕ) (f : ObservationRow → ObservationRow)
      → ((w : World) → s.order.rel w (at (update_observation id f w.db) w))
      → Keeps s.order (update_statement t id f)
  unfolding update_statement require_affected
  update_statement-Keeps t id f h = Keeps-bind s.order _ _ (Keeps-call s.order _) λ _.
      Keeps-bind s.order _ _ (Keeps-gets s.order _) λ changed.
        Keeps-bind s.order _ _ (Keeps-change s.order _ h) λ _.
          Keeps-bind s.order _ _ (Keeps-call s.order _)
            λ _. Keeps-if s.order changed _ _ (Keeps-pure s.order tt) (Keeps-raise s.order _)

  touch-Keeps : (id : ℕ) (now : Time) → Keeps s.order (touch_observation id now)
  unfolding touch_observation
  touch-Keeps id now = update_statement-Keeps _ id _ (s.touches id (unix now))

  mark-Keeps : (id : ℕ) (now : Time) → Keeps s.order (mark_observation_allowed id now)
  unfolding mark_observation_allowed
  mark-Keeps id now = update_statement-Keeps _ id _ (s.marks id (unix now))

  create-Keeps :
      (registry repository tag digest : Text) (now : Time)
      → Keeps s.order (create_observation registry repository tag digest now)
  unfolding create_observation get_observation
  create-Keeps registry repository tag digest now =
      Keeps-bind s.order _ _ (Keeps-call s.order _) λ _.
        Keeps-bind s.order _ _
          (Keeps-change s.order _ (s.inserts registry repository tag digest now))
          λ _. Keeps-query s.order _ _

  get-Keeps :
      (registry repository tag digest : Text)
      → Keeps s.order (get_observation registry repository tag digest)
  unfolding get_observation
  get-Keeps registry repository tag digest = Keeps-query s.order _ _

  override-Keeps :
      (registry repository tag digest : Text) (now : Time)
      → Keeps s.order (local_override registry repository tag digest now)
  unfolding local_override active_freeze active_approval active_bypass
  override-Keeps registry repository tag digest now =
      Keeps-bind s.order _ _ (Keeps-query s.order _ _) λ _.
        Keeps-bind s.order _ _ (Keeps-query s.order _ _)
          λ _. Keeps-bind s.order _ _ (Keeps-query s.order _ _) λ _. Keeps-pure s.order _

module _ (s : Stable) (e : Engine) where
  run_verifier-Keeps :
      (ref : Reference) (digest : Text) (cfg : CosignPolicy) (d : Decision)
      (answer : Result Text CosignResult)
      → Keeps s.order (run_verifier e ref digest cfg d answer)
  unfolding run_verifier record_cosign_verification
  run_verifier-Keeps ref digest cfg d (err m) = Keeps-pure s.order _
  run_verifier-Keeps ref digest cfg d (ok r) =
      Keeps-bind s.order _ _
        (Keeps-try s.order _ (
          Keeps-bind s.order _ _ (Keeps-call s.order _)
            λ _. Keeps-change s.order _ (s.verifies (new_verification e ref digest cfg r))))
        λ _. Keeps-pure s.order _

  use_cache-Keeps :
      (ref : Reference) (digest : Text) (cfg : CosignPolicy) (d : Decision)
      (cached : Result Text (Option CosignVerification))
      → Keeps s.order (use_cache e ref digest cfg d cached)
  unfolding use_cache
  use_cache-Keeps ref digest cfg d (err m) = Keeps-pure s.order _
  use_cache-Keeps ref digest cfg d (ok cached) =
      Keeps-if s.order _ _ _ (Keeps-pure s.order _)
        (run_verifier-Keeps ref digest cfg d (e.verify ref digest cfg))

  verify_if_required-Keeps :
      (cfg : CosignPolicy) (ref : Reference) (digest : Text) (d : Decision)
      → Keeps s.order (verify_if_required e cfg ref digest d)
  unfolding verify_if_required verify_cosign get_cosign_verification
  verify_if_required-Keeps cfg ref digest d =
      Keeps-if s.order _ _ _
        (Keeps-bind s.order _ _ (Keeps-try s.order _ (Keeps-query s.order _ _))
          (use_cache-Keeps ref digest cfg d))
        (Keeps-pure s.order _)

  mark_verified-Keeps : (id : ℕ) (x : Bool × Decision) → Keeps s.order (mark_verified e id x)
  unfolding mark_verified
  mark_verified-Keeps id (false, d) = Keeps-pure s.order _
  mark_verified-Keeps id (true, d) =
      Keeps-bind s.order _ _ (Keeps-try s.order _ (mark-Keeps s id e.now)) λ _. Keeps-pure s.order _

  allow-Keeps :
      (p : EffectivePolicy) (id : ℕ) (d : Decision)
      → Keeps s.order (allow_with_verification e p id d)
  unfolding allow_with_verification
  allow-Keeps p id d =
      Keeps-bind s.order _ _ (verify_if_required-Keeps _ _ _ d) (mark_verified-Keeps id)

  pinned-Keeps :
      (ref : Reference) (p : EffectivePolicy) (d : Decision)
      → Keeps s.order (decide_pinned e ref p d)
  unfolding decide_pinned
  pinned-Keeps ref p d =
      Keeps-bind s.order _ _ (Keeps-lift s.order _ (override-Keeps s _ _ _ _ _)) λ o.
        Keeps-if s.order (text_eq o.decision decision_deny) _ _ (Keeps-pure s.order _) (
          Keeps-if s.order (text_eq p.digest_pinned_images.action action_deny) _ _
            (Keeps-pure s.order _)
            (Keeps-bind s.order _ _ (verify_if_required-Keeps _ ref ref.digest d)
              λ x. Keeps-pure s.order _))

  new-Keeps :
      (p : EffectivePolicy) (o : LocalOverride) (d : Decision) (obs : Option Observation)
      → Keeps s.order (decide_new e p o d obs)
  unfolding decide_new
  new-Keeps p o d none = Keeps-raise s.order _
  new-Keeps p o d (some obs) =
      Keeps-if s.order _ _ _ (allow-Keeps p obs.id _) (Keeps-pure s.order _)

  observed-Keeps :
      (ref : Reference) (p : EffectivePolicy) (o : LocalOverride) (d : Decision)
      (obs : Option Observation)
      → Keeps s.order (decide_observed e ref p o d obs)
  unfolding decide_observed decide_known decide_age
  observed-Keeps ref p o d none =
      Keeps-bind s.order _ _ (Keeps-lift s.order _ (create-Keeps s _ _ _ _ _)) (new-Keeps p o d)
  observed-Keeps ref p o d (some obs) =
      Keeps-bind s.order _ _ (Keeps-lift s.order _ (touch-Keeps s obs.id e.now)) λ _.
        Keeps-if s.order _ _ _ (allow-Keeps p obs.id _)
          (Keeps-if s.order _ _ _ (Keeps-pure s.order _) (allow-Keeps p obs.id _))

  resolved-Keeps :
      (ref : Reference) (p : EffectivePolicy) (d : Decision)
      → Keeps s.order (decide_resolved e ref p d)
  unfolding decide_resolved
  resolved-Keeps ref p d =
      Keeps-bind s.order _ _ (Keeps-lift s.order _ (override-Keeps s _ _ _ _ _)) λ o.
        Keeps-if s.order _ _ _ (Keeps-pure s.order _) (
          Keeps-bind s.order _ _ (Keeps-lift s.order _ (get-Keeps s _ _ _ _))
            (observed-Keeps ref p o d))

  resolution-Keeps :
      (ref : Reference) (p : EffectivePolicy) (d : Decision) (answer : Result Text ManifestDigest)
      → Keeps s.order (decide_resolution e ref p d answer)
  unfolding decide_resolution
  resolution-Keeps ref p d (err m) = Keeps-pure s.order _
  resolution-Keeps ref p d (ok m) = resolved-Keeps ref p _

  mutable-Keeps :
      (ref : Reference) (p : EffectivePolicy) (d : Decision)
      → Keeps s.order (decide_mutable e ref p d)
  unfolding decide_mutable
  mutable-Keeps ref p d =
      Keeps-if s.order (text_eq p.mutable_tags.action action_allow) _ _ (Keeps-pure s.order _) (
        Keeps-if s.order (text_eq p.mutable_tags.action action_deny) _ _ (Keeps-pure s.order _)
          (resolution-Keeps ref p d (e.resolve ref)))

  pub decide_reference-Keeps : (ref : Reference) → Keeps s.order (decide_reference e ref)
  unfolding decide_reference
  decide_reference-Keeps ref =
      let p = (effective_policy_for e.config ref).policy in
      let d = first_decision ref (effective_policy_for e.config ref) in
      Keeps-if s.order _ _ _ (pinned-Keeps ref p d) (mutable-Keeps ref p d)
