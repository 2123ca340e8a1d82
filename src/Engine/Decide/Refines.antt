-- ===== src/Engine/Decide/Refines.antt =====
-- The branches of `Decide` against the specification in Engine/Decide/Permitted.
use ribat.Base.{
  Bool, true, false, ◌&&◌, ◌||◌, Option, none, some, Text, Result, ok, err, ◌≡◌, refl, sym, ◌∙◌,
  Bool-cases, Option-cases, inl, inr, text_eq, ltb_ℤ,
}
use ribat.Time.{sub_time, unix}
use ribat.Image.{Reference}
use ribat.Policy.Matcher.{effective_policy_for}
use ribat.Policy.{EffectivePolicy, action_allow, action_deny}
use ribat.Store.Rows.{Db, Observation, decision_allow}
use ribat.Store.Observations.{find_observation, affected, update_observation, touch}
use ribat.Store.Observations.Runs.{
  get_observation-Runs, create_observation-Runs, touch_observation-Runs, with_observation,
}
use ribat.Store.Observations.Find.{find→affected, find_created, affected-touch}
use ribat.Store.Verifications.{find_verification}
use ribat.Store.Overrides.{LocalOverride, make_override, find_freeze, find_approval, find_bypass}
use ribat.Store.Overrides.Precedence.{find_override, local_override-Runs, deny_iff, allow_iff}
use ribat.Store.World.{World, pure}
use ribat.Store.World.Runs.{at}
use ribat.Engine.{Engine, Decision, ManifestDigest}
use ribat.Engine.Ends.{Ends, Ends-pure, Ends-lift, Ends-bind, Refused}
use ribat.Engine.Verification.{decision_reference}
use ribat.Engine.Verification.Sound.{
  Says, IsRefusal, Allowed, IsDenial, verify_if_required-Ends, allow_with_verification-Ends,
}
use ribat.Engine.Decide.{
  decide_pinned, pinned_end, decide_new, decide_age, decide_known, decide_observed, decide_resolved,
  decide_resolution, decide_mutable, decide_reference, first_decision, with_override,
}
use ribat.Engine.Decide.Permitted.{
  verified, frozen, overridden, is_aged, digest_permitted, resolution_permitted, pinned_permitted,
  tag_reference, mutable_permitted, permitted,
}

decision_reference_digest :
    (d : Decision) (s : Text) → decision_reference (record d { digest = s }) ≡ decision_reference d
unfolding decision_reference
decision_reference_digest d s = refl

pinned_end-Ends :
    (o : LocalOverride) {b : Bool} (x : Bool × Decision) (db : Db) (w : World)
    → Says b db x w
    → Ends (Allowed b) IsDenial w (pure (pinned_end o x) w)
unfolding pinned_end
pinned_end-Ends o (false, d) db w (says, denies, same) = Ends-pure _ w (denies refl ∙ says)
pinned_end-Ends o (true, d) db w (says, denies, same) = Ends-pure _ w says

pinned_end-Refused :
    (o : LocalOverride) (x : Bool × Decision) (w : World)
    → IsRefusal x
    → Refused {A = Decision} IsDenial (pure (pinned_end o x) w)
unfolding pinned_end pure
pinned_end-Refused o (false, d) w r = r.1
pinned_end-Refused o (true, d) w r = cc

module _ (e : Engine) (p : EffectivePolicy) where
  -- The end of the branch of a known digest.
  decide_age-Ends :
      (obs : Observation) (d : Decision) (w : World)
      → affected obs.id w.db ≡ true
      → d.allowed ≡ false
      → Ends
          (Allowed (
            is_aged e p (some obs)
            && verified e p.signatures.cosign (decision_reference d) d.digest w.db))
          IsDenial
          w
          (decide_age e p obs d w)
  unfolding decide_age is_aged decision_reference
  decide_age-Ends obs d w known off =
      elim (Bool-cases (ltb_ℤ (sub_time e.now obs.first_seen_at) p.mutable_tags.min_digest_age)) [
        | inl young ↦ rw young (Ends-pure _ w off)
        | inr old ↦ rw old (
            allow_with_verification-Ends e p obs.id
              (record d { current_age = sub_time e.now obs.first_seen_at }) w known)
      ]

  -- What the override and the age say together, and the verification.
  abbrev verdict : Bool → Bool → Decision → Db → Bool
  verdict over aged d db =
      (over || aged) && verified e p.signatures.cosign (decision_reference d) d.digest db

  decide_known-Ends :
      (o : LocalOverride) (d : Decision) (obs : Observation) (w : World)
      → affected obs.id w.db ≡ true
      → d.allowed ≡ false
      → Ends
          (Allowed (verdict (text_eq o.decision decision_allow) (is_aged e p (some obs)) d w.db))
          IsDenial
          w
          (decide_known e p o d obs w)
  unfolding decide_known decision_reference with_override verified find_verification
      update_observation
  decide_known-Ends o d obs w known off =
      Ends-lift _ _ w (touch_observation-Runs obs.id e.now w known) λ w'.
        let db = update_observation obs.id (touch (unix e.now)) w.db in
        let still = affected-touch obs.id (unix e.now) w.db known in
        elim (Bool-cases (text_eq o.decision decision_allow)) [
          | inl over ↦ rw over (allow_with_verification-Ends e p obs.id _ (at db w') still)
          | inr none' ↦ rw none' (
              decide_age-Ends obs (record d { first_seen_at = some obs.first_seen_at }) (at db w')
                still off)
        ]

  decide_new-Ends :
      (o : LocalOverride) (d : Decision) (obs : Observation) (w : World)
      → affected obs.id w.db ≡ true
      → d.allowed ≡ false
      → Ends
          (Allowed (verdict (text_eq o.decision decision_allow) (is_aged e p none) d w.db))
          IsDenial
          w
          (decide_new e p o d (some obs) w)
  unfolding decide_new decision_reference with_override is_aged
  decide_new-Ends o d obs w known off =
      elim (Bool-cases
        (text_eq o.decision decision_allow || p.mutable_tags.allow_first_seen_pull)) [
          | inl over ↦ rw over (allow_with_verification-Ends e p obs.id _ w known)
          | inr none' ↦ rw none' (Ends-pure _ w off)
        ]

  decide_observed-Ends :
      (ref : Reference) (o : LocalOverride) (d : Decision) (found : Option Observation) (w : World)
      → find_observation ref.registry ref.repository ref.tag d.digest w.db ≡ found
      → d.allowed ≡ false
      → Ends
          (Allowed (verdict (text_eq o.decision decision_allow) (is_aged e p found) d w.db))
          IsDenial
          w
          (decide_observed e ref p o d found w)
  unfolding decide_observed verified find_verification
  decide_observed-Ends ref o d (some obs) w is off =
      decide_known-Ends o d obs w
        (find→affected ref.registry ref.repository ref.tag d.digest w.db obs is) off
  decide_observed-Ends ref o d none w is off =
      Ends-lift _ _ w (create_observation-Runs ref.registry ref.repository ref.tag d.digest w e.now)
        λ w'.
          let db = with_observation ref.registry ref.repository ref.tag d.digest e.now w.db in
          let (obs, made) = find_created ref.registry ref.repository ref.tag d.digest e.now w.db in
          let there = find→affected ref.registry ref.repository ref.tag d.digest db obs made in
          rw made (decide_new-Ends o d obs (at db w') there off)

  -- The branch of a tag that has been resolved to `d.digest`.
  decide_resolved-Ends :
      (ref : Reference) (d : Decision) (w : World)
      → tag_reference ref ≡ decision_reference d
      → d.allowed ≡ false
      → Ends
          (Allowed (digest_permitted e p (tag_reference ref) d.digest w.db))
          IsDenial
          w
          (decide_resolved e ref p d w)
  unfolding decide_resolved digest_permitted frozen overridden tag_reference find_override
  decide_resolved-Ends ref d w link off =
      Ends-lift _ _ w (local_override-Runs ref.registry ref.repository ref.tag d.digest e.now w)
        λ w'.
          elim (Option-cases
            (find_freeze ref.registry ref.repository ref.tag d.digest e.now w.db)) [
              | inl thawed ↦
                  rw (thawed, deny_iff)
                    (Ends-lift _ _ (at w.db w')
                      (get_observation-Runs ref.registry ref.repository ref.tag d.digest
                        (at w.db w'))
                      λ w''.
                        rw (allow_iff, ← link) at
                          (decide_observed-Ends ref
                            (make_override none
                              (find_approval ref.registry ref.repository ref.tag d.digest e.now
                                w.db)
                              (find_bypass ref.registry ref.repository ref.tag e.now w.db))
                            d _ (at w.db w'') refl off))
              | inr (f, held) ↦ rw (held, deny_iff) (Ends-pure _ _ off)
            ]

  decide_mutable-Ends :
      (ref : Reference) (d : Decision) (w : World)
      → tag_reference ref ≡ decision_reference d
      → d.allowed ≡ false
      → Ends (Allowed (mutable_permitted e p ref w.db)) IsDenial w (decide_mutable e ref p d w)
  unfolding decide_mutable mutable_permitted
  decide_mutable-Ends ref d w link off =
      elim (Bool-cases (text_eq p.mutable_tags.action action_allow)) [
        | inl allow ↦ rw allow (Ends-pure _ w refl)
        | inr other ↦ elim (Bool-cases (text_eq p.mutable_tags.action action_deny)) [
          | inl deny ↦ rw (other, deny) (Ends-pure _ w off)
          | inr go ↦ rw (other, go) (resolution (e.resolve ref))
        ]
      ]
    where
      resolution :
          (answer : Result Text ManifestDigest)
          → Ends
              (Allowed (resolution_permitted e p (tag_reference ref) w.db answer))
              IsDenial
              w
              (decide_resolution e ref p d answer w)
      resolution (ok m) =
          decide_resolved-Ends ref (record d { digest = m.digest }) w
            (link ∙ sym (decision_reference_digest d m.digest)) off
      resolution (err m) =
          elim (Bool-cases (text_eq p.failed_registry_resolution.action action_allow)) [
            | inl allow ↦ rw allow (Ends-pure _ w refl)
            | inr deny ↦ rw deny (Ends-pure _ w off)
          ]

  -- The override of a digest that is not frozen.
  abbrev thawed_override : Reference → Db → LocalOverride
  thawed_override ref db =
      make_override none (find_approval ref.registry ref.repository ref.tag ref.digest e.now db)
        (find_bypass ref.registry ref.repository ref.tag e.now db)

  decide_pinned-Ends :
      (ref : Reference) (d : Decision) (w : World)
      → d.allowed ≡ false
      → Ends (Allowed (pinned_permitted e p ref w.db)) IsDenial w (decide_pinned e ref p d w)
  unfolding decide_pinned pinned_permitted frozen find_override
  decide_pinned-Ends ref d w off =
      Ends-lift _ _ w (local_override-Runs ref.registry ref.repository ref.tag ref.digest e.now w)
        λ w'.
          elim (Option-cases
            (find_freeze ref.registry ref.repository ref.tag ref.digest e.now w.db)) [
              | inr (f, held) ↦ rw (held, deny_iff) (Ends-pure _ _ off)
              | inl thawed ↦ elim (Bool-cases (text_eq p.digest_pinned_images.action action_deny)) [
                | inl deny ↦ rw (thawed, deny_iff, deny) (Ends-pure _ _ off)
                | inr go ↦
                    rw (thawed, deny_iff, go)
                      (Ends-bind _ _ (at w.db w')
                        (verify_if_required-Ends e ref ref.digest p.signatures.cosign d
                          (at w.db w'))
                        (λ x w'' says. pinned_end-Ends (thawed_override ref w.db) x w.db w'' says)
                        λ x w'' refusal.
                          pinned_end-Refused (thawed_override ref w.db) x w'' refusal)
              ]
            ]

-- Each branch of `Decide` allows exactly what is permitted, unless an external call fails, and then
-- it denies or returns an error.
pub decide_reference-Ends :
    (e : Engine) (ref : Reference) (w : World)
    → Ends (Allowed (permitted e ref w.db)) IsDenial w (decide_reference e ref w)
unfolding decide_reference permitted first_decision tag_reference decision_reference
decide_reference-Ends e ref w =
    let result = effective_policy_for e.config ref in
    let d = first_decision ref result in
    elim (Bool-cases ref.is_digest_pinned) [
      | inl pinned ↦ simp pinned (decide_pinned-Ends e result.policy ref d w refl)
      | inr tag ↦ simp tag (decide_mutable-Ends e result.policy ref d w refl refl)
    ]
