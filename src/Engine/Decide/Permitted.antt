-- ===== src/Engine/Decide/Permitted.antt =====
-- What the policy promises, with no sequence of steps in it: when a pull is to be allowed, from the
-- tables, the configuration, the clock, and what the registry and the verifier answer.
use ribat.Base.{
  Bool, true, false, not, ◌&&◌, ◌||◌, Option, none, some, if◌then◌else◌, Text, [], text_eq, is_some,
  ltb_ℤ, Result, ok, err,
}
use ribat.Time.{sub_time}
use ribat.Image.{Reference}
use ribat.Policy.{EffectivePolicy, CosignPolicy, action_allow, action_deny}
use ribat.Policy.Matcher.{effective_policy_for}
use ribat.Cosign.{CosignResult}
use ribat.Store.Rows.{Db, Observation}
use ribat.Store.Observations.{find_observation}
use ribat.Store.Overrides.{find_freeze, find_approval, find_bypass}
use ribat.Store.Verifications.{find_verification}
use ribat.Engine.{ManifestDigest, Engine}
use ribat.Engine.Verification.{is_cached}

abbrev pub succeeded : Result Text CosignResult → Bool
succeeded (ok r) = r.success
succeeded (err _) = false

-- The reference by its tag alone, as it is handed to the verifier.
unfoldable pub tag_reference : Reference → Reference
tag_reference ref = record ref { digest = []; is_mutable_tag = false; is_digest_pinned = false }

module _ (e : Engine) where
  -- Verification is not required, or a success is in the cache, or the verifier succeeds now.
  unfoldable pub verified : CosignPolicy → Reference → Text → Db → Bool
  verified cfg ref digest db =
      not cfg.required
      || (is_cached (find_verification ref.registry ref.repository digest (e.policy_key cfg) db)
          || succeeded (e.verify ref digest cfg))

  unfoldable pub frozen : Reference → Text → Db → Bool
  frozen ref digest db = is_some (find_freeze ref.registry ref.repository ref.tag digest e.now db)

  -- An approval of the digest or a bypass of the tag is active.
  unfoldable pub overridden : Reference → Text → Db → Bool
  overridden ref digest db =
      is_some (find_approval ref.registry ref.repository ref.tag digest e.now db)
      || is_some (find_bypass ref.registry ref.repository ref.tag e.now db)

  unfoldable pub is_aged : EffectivePolicy → Option Observation → Bool
  is_aged p none = p.mutable_tags.allow_first_seen_pull
  is_aged p (some obs) =
      not (ltb_ℤ (sub_time e.now obs.first_seen_at) p.mutable_tags.min_digest_age)

  -- The digest that a tag points to may be pulled.
  unfoldable pub digest_permitted : EffectivePolicy → Reference → Text → Db → Bool
  digest_permitted p ref digest db =
      not (frozen ref digest db)
      && ((overridden ref digest db
            || is_aged p (find_observation ref.registry ref.repository ref.tag digest db))
          && verified p.signatures.cosign ref digest db)

  unfoldable pub resolution_permitted :
      EffectivePolicy → Reference → Db → Result Text ManifestDigest → Bool
  resolution_permitted p ref db (ok m) = digest_permitted p ref m.digest db
  resolution_permitted p ref db (err _) = text_eq p.failed_registry_resolution.action action_allow

  unfoldable pub pinned_permitted : EffectivePolicy → Reference → Db → Bool
  pinned_permitted p ref db =
      not (frozen ref ref.digest db)
      && (not (text_eq p.digest_pinned_images.action action_deny)
          && verified p.signatures.cosign ref ref.digest db)

  unfoldable pub mutable_permitted : EffectivePolicy → Reference → Db → Bool
  unfolding tag_reference resolution_permitted
  mutable_permitted p ref db =
      if text_eq p.mutable_tags.action action_allow
      then true
      else not (text_eq p.mutable_tags.action action_deny)
        && resolution_permitted p (tag_reference ref) db (e.resolve ref)

  unfoldable pub permitted : Reference → Db → Bool
  permitted ref db =
      let p = (effective_policy_for e.config ref).policy in
      if ref.is_digest_pinned then pinned_permitted p ref db else mutable_permitted p ref db
