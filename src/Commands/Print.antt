-- ===== src/Commands/Print.antt =====
-- `printDecision`, `printPolicyCheck`, `printApproval`, `printBypass` and `printFreeze`: the lines.
use ribat.Base.{
  ℤ, pos, Bool, true, false, List, [], ◌∷◌, ◌++◌, Option, if◌then◌else◌, ltb_ℤ, Text, codes,
  is_empty,
}
use ribat.Time.{Time}
use ribat.Image.{Reference}
use ribat.Policy.{CosignPolicy}
use ribat.Policy.Duration.Prints.{duration_string}
use ribat.Policy.Matcher.{MatchResult}
use ribat.Store.Rows.{Approval, Freeze, Bypass}
use ribat.Engine.{Decision}
use ribat.Authz.Messages.{time_line}
use ribat.Commands.{Machine}

-- `%t`.
unfoldable pub print_bool : Bool → Text
print_bool true = codes "true"
print_bool false = codes "false"

-- A line that is printed where its value is set.
abbrev pub set_line : Text → Text → List Text
set_line label value = if is_empty value then [] else (label ++ value) ∷ []

abbrev pub line_when : Bool → Text → List Text
line_when b line = if b then line ∷ [] else []

cosign_lines : CosignPolicy → List Text
cosign_lines c =
    set_line (codes "  cosign.mode: ") c.mode
    ++ (set_line (codes "  cosign.key: ") c.key
        ++ (set_line (codes "  cosign.issuer: ") c.issuer
            ++ (set_line (codes "  cosign.identity: ") c.identity
                ++ set_line (codes "  cosign.identity_regex: ") c.identity_regex)))

module _ (m : Machine) where
  -- A `policy.Duration`, by its method `String`.
  unfoldable pub print_duration : ℤ → Text
  print_duration = duration_string m.show m.formats.format_duration

  unfoldable pub print_policy_check : Reference → MatchResult → List Text
  unfolding print_bool cosign_lines print_duration
  print_policy_check ref result =
      let p = result.policy in
      (codes "Image: " ++ ref.canonical_ref)
      ∷ (codes "Matched rule: " ++ result.matched_rule)
      ∷ codes "Mutable tags:"
      ∷ (codes "  action: " ++ p.mutable_tags.action)
      ∷ (codes "  min_digest_age: " ++ print_duration p.mutable_tags.min_digest_age)
      ∷ (codes "  allow_first_seen_pull: " ++ print_bool p.mutable_tags.allow_first_seen_pull)
      ∷ codes "Digest pinned images:"
      ∷ (codes "  action: " ++ p.digest_pinned_images.action)
      ∷ codes "Failed registry resolution:"
      ∷ (codes "  action: " ++ p.failed_registry_resolution.action)
      ∷ codes "Failed signature check:"
      ∷ (codes "  action: " ++ p.failed_signature_check.action)
      ∷ codes "Signatures:"
      ∷ (codes "  cosign.required: " ++ print_bool p.signatures.cosign.required)
      ∷ cosign_lines p.signatures.cosign

  age_lines : Decision → List Text
  unfolding print_duration
  age_lines d =
      line_when (ltb_ℤ (pos 0) d.required_age)
        (codes "Required minimum age: " ++ print_duration d.required_age)
      ++ line_when (ltb_ℤ (pos 0) d.current_age)
          (codes "Current age: " ++ m.formats.format_duration (m.round_second d.current_age))

  cosign_line : Decision → List Text
  cosign_line d =
      if d.cosign_verified
      then (if d.cosign_cached then codes "Cosign: verified (cached)" else codes "Cosign: verified")
        ∷ []
      else []

  unfoldable pub print_decision : Decision → List Text
  unfolding age_lines cosign_line
  print_decision d =
      (codes "Image: " ++ d.image_ref) ∷ set_line (codes "Resolved digest: ") d.digest
      ++ ((codes "Matched rule: " ++ d.matched_rule)
          ∷ (time_line m.formats (codes "Digest first seen: ") d.first_seen_at
              ++ (age_lines d
                  ++ (time_line m.formats (codes "Next allowed pull: ") d.next_allowed_at
                      ++ ((if d.allowed then codes "Decision: ALLOW" else codes "Decision: DENY")
                          ∷ (codes "Reason: " ++ d.reason)
                          ∷ (cosign_line d
                              ++ (line_when d.manual_approval (codes "Manual approval: active")
                                  ++ (line_when d.bypassed (codes "Bypass: active")
                                      ++ line_when d.frozen (codes "Freeze: active")))))))))

  -- The lines that the three grants end with.
  grant_lines : Option Time → Text → List Text
  grant_lines expires_at reason =
      time_line m.formats (codes "Expires at: ") expires_at ++ set_line (codes "Reason: ") reason

  unfoldable pub print_approval : Reference → Approval → List Text
  unfolding grant_lines
  print_approval ref a =
      (codes "Approved: " ++ ref.canonical_ref)
      ∷ (codes "Digest: " ++ a.digest)
      ∷ (codes "Approved at: " ++ m.formats.format_time a.approved_at)
      ∷ (codes "Approved by: " ++ a.approved_by)
      ∷ grant_lines a.expires_at a.reason

  unfoldable pub print_bypass : Reference → Bypass → List Text
  unfolding grant_lines
  print_bypass ref b =
      (codes "Bypass active: " ++ ref.canonical_ref)
      ∷ (codes "Created at: " ++ m.formats.format_time b.created_at)
      ∷ (codes "Created by: " ++ b.created_by)
      ∷ grant_lines b.expires_at b.reason

  unfoldable pub print_freeze : Reference → Freeze → List Text
  unfolding grant_lines
  print_freeze ref f =
      (codes "Freeze active: " ++ ref.canonical_ref) ∷ set_line (codes "Digest: ") f.digest
      ++ ((codes "Created at: " ++ m.formats.format_time f.created_at)
          ∷ (codes "Created by: " ++ f.created_by)
          ∷ grant_lines f.expires_at f.reason)
