-- ===== src/Engine/Verification/Sound.antt =====
-- `verifyCosign` and `allowWithVerification` against the specification in Engine/Decide/Permitted.
use ribat.Base.{
  ℕ, ◌∙◌, Bool, true, false, not, ◌||◌, Option, Text, Result, ok, err, ◌≡◌, refl, Bool-cases, inl,
  inr, arith, if◌then◌else◌,
}
use ribat.Image.{Reference}
use ribat.Policy.{CosignPolicy, EffectivePolicy}
use ribat.Cosign.{CosignResult}
use ribat.Store.Rows.{Db, CosignVerification}
use ribat.Store.Observations.{affected}
use ribat.Store.Observations.Runs.{mark_observation_allowed-Runs, affected-same}
use ribat.Store.Verifications.{find_verification}
use ribat.Store.Verifications.Runs.{get_cosign_verification-Runs, record_cosign_verification-Runs}
use ribat.Store.World.{World, pure}
use ribat.Store.World.Runs.{at}
use ribat.Engine.{Engine, Decision}
use ribat.Engine.Ends.{Ends, Ends-pure, Ends-try, Ends-bind, Refused}
use ribat.Engine.Verification.{
  denied, new_verification, after_record, run_verifier, is_cached, use_cache, verify_cosign,
  verify_if_required, mark_verified, after_mark, allow_with_verification, decision_reference,
}
use ribat.Engine.Decide.Permitted.{succeeded, verified}

-- What `verifyCosign` returns when the specification says `b`: that flag, a decision that is not
-- allowed if it is false, and the same observations.
abbrev pub Says : Bool → Db → Bool × Decision → World → Type 0
Says b db (flag, d) w =
    (flag ≡ b) × (flag ≡ false → d.allowed ≡ false) × (w.db.tag_observations ≡ db.tag_observations)

abbrev pub IsRefusal : Bool × Decision → Type 0
IsRefusal (flag, d) = (flag ≡ false) × (d.allowed ≡ false)

module _ (e : Engine) (ref : Reference) (digest : Text) (cfg : CosignPolicy) (d : Decision) where
  run_verifier-Ends :
      (answer : Result Text CosignResult) (w : World)
      → Ends (Says (succeeded answer) w.db) IsRefusal w (run_verifier e ref digest cfg d answer w)
  unfolding run_verifier after_record denied pure
  run_verifier-Ends (err m) w = Ends-pure _ w (refl, λ _. refl, refl)
  run_verifier-Ends (ok r) w =
      Ends-try _ _ w (record_cosign_verification-Runs (new_verification e ref digest cfg r) w)
        (λ w'. Ends-pure _ _ (ground arith, λ h. ground arith, refl)) λ m w'. (refl, refl)

  use_cache-Ends :
      (cached : Option CosignVerification) (w : World)
      → Ends
          (Says (is_cached cached || succeeded (e.verify ref digest cfg)) w.db)
          IsRefusal
          w
          (use_cache e ref digest cfg d (ok cached) w)
  unfolding use_cache
  use_cache-Ends cached w = elim (Bool-cases (is_cached cached)) [
    | inl hit ↦ rw hit (Ends-pure _ w (refl, λ h. cc, refl))
    | inr miss ↦ rw miss (run_verifier-Ends (e.verify ref digest cfg) w)
  ]

  verify_cosign-Ends :
      (w : World)
      → Ends
          (Says
            (is_cached
                (find_verification ref.registry ref.repository digest (e.policy_key cfg) w.db)
              || succeeded (e.verify ref digest cfg))
            w.db)
          IsRefusal
          w
          (verify_cosign e ref digest cfg d w)
  unfolding verify_cosign denied use_cache pure
  verify_cosign-Ends w =
      Ends-try _ _ w
        (get_cosign_verification-Runs ref.registry ref.repository digest (e.policy_key cfg) w)
        (λ w'.
          use_cache-Ends
            (find_verification ref.registry ref.repository digest (e.policy_key cfg) w.db)
            (at w.db w'))
        λ m w'. (refl, refl)

  if_required-Ends :
      (required : Bool) (w : World)
      → Ends
          (Says
            (not required
              || (is_cached
                    (find_verification ref.registry ref.repository digest (e.policy_key cfg) w.db)
                  || succeeded (e.verify ref digest cfg)))
            w.db)
          IsRefusal
          w
          ((if required then verify_cosign e ref digest cfg d else pure (true, d)) w)
  if_required-Ends true w = verify_cosign-Ends w
  if_required-Ends false w = Ends-pure _ w (refl, λ h. cc, refl)

  pub verify_if_required-Ends :
      (w : World)
      → Ends
          (Says (verified e cfg ref digest w.db) w.db)
          IsRefusal
          w
          (verify_if_required e cfg ref digest d w)
  unfolding verify_if_required verified
  verify_if_required-Ends w = if_required-Ends cfg.required w

-- The decision that comes out is allowed exactly if the specification says `b`.
abbrev pub Allowed : Bool → Decision → World → Type 0
Allowed b d w = d.allowed ≡ b

abbrev pub IsDenial : Decision → Type 0
IsDenial d = d.allowed ≡ false

module _ (e : Engine) (p : EffectivePolicy) (id : ℕ) where
  mark_verified-Ends :
      (b : Bool) (x : Bool × Decision) (db : Db) (w : World)
      → affected id db ≡ true
      → Says b db x w
      → Ends (Allowed b) IsDenial w (mark_verified e id x w)
  unfolding mark_verified after_mark denied pure
  mark_verified-Ends b (false, d) db w known (says, denies, same) =
      Ends-pure d w (denies refl ∙ says)
  mark_verified-Ends b (true, d) db w known (says, denies, same) =
      Ends-try _ _ w
        (mark_observation_allowed-Runs id e.now w (affected-same id db w.db same known))
        (λ w'. Ends-pure _ _ says) λ m w'. refl

  mark_verified-Refused :
      (x : Bool × Decision) (w : World) → IsRefusal x → Refused IsDenial (mark_verified e id x w)
  unfolding mark_verified pure
  mark_verified-Refused (false, d) w r = r.1
  mark_verified-Refused (true, d) w r = cc

  -- With the row of the observation in its table, `allowWithVerification` allows exactly if the
  -- verification that the policy requires succeeds.
  pub allow_with_verification-Ends :
      (d : Decision) (w : World)
      → affected id w.db ≡ true
      → Ends
          (Allowed (verified e p.signatures.cosign (decision_reference d) d.digest w.db))
          IsDenial
          w
          (allow_with_verification e p id d w)
  unfolding allow_with_verification
  allow_with_verification-Ends d w known =
      Ends-bind _ _ w
        (verify_if_required-Ends e (decision_reference d) d.digest p.signatures.cosign d w)
        (λ x w' says. mark_verified-Ends _ x w.db w' known says)
        (λ x w' refusal. mark_verified-Refused x w' refusal)
