-- ===== src/Store/Overrides.antt =====
-- The statements on `approvals`, `freezes` and `bypasses`, and `LocalOverride`, which weighs them.
pub mod Insert
pub mod Precedence
pub mod Found
pub mod Granted
pub mod Inserted
use ribat.Base.{
  ℕ, ℤ, Bool, true, false, ◌&&◌, List, [], ◌∷◌, Option, none, some, ltb, if◌then◌else◌, keep,
  sort_by, Text, codes, text_eq, ltb_ℤ,
}
use ribat.Time.{Time, unix}
use ribat.Store.Rows.{
  Approval, ApprovalRow, scan_approval_value, Freeze, FreezeRow, scan_freeze_value, Bypass,
  BypassRow, scan_bypass_value, Db, decision_allow, decision_deny,
}
use ribat.Store.World.{Act, call, pure, gets, ◌>>=◌, ◌>>◌}

-- `expires_at IS NULL OR expires_at > ?`.
unfoldable pub not_expired : Option ℤ → ℤ → Bool
not_expired none now = true
not_expired (some t) now = ltb_ℤ now t

-- `digest IS NULL OR digest = ?`.
unfoldable pub covers : Option Text → Text → Bool
covers none digest = true
covers (some d) digest = text_eq d digest

-- `ORDER BY … DESC, id DESC`, on a time and an id.
unfoldable pub newer : ℤ × ℕ → ℤ × ℕ → Bool
newer (t, i) (u, j) = if ltb_ℤ u t then true else if ltb_ℤ t u then false else ltb j i

unfoldable pub is_active_approval : Text → Text → Text → Text → ℤ → ApprovalRow → Bool
unfolding not_expired
is_active_approval registry repository tag digest now r =
    text_eq r.registry registry
    && text_eq r.repository repository
    && text_eq r.tag tag
    && text_eq r.digest digest
    && not_expired r.expires_at now

unfoldable pub is_active_freeze : Text → Text → Text → Text → ℤ → FreezeRow → Bool
unfolding not_expired covers
is_active_freeze registry repository tag digest now r =
    text_eq r.registry registry
    && text_eq r.repository repository
    && text_eq r.tag tag
    && covers r.digest digest
    && not_expired r.expires_at now

unfoldable pub is_active_bypass : Text → Text → Text → ℤ → BypassRow → Bool
unfolding not_expired
is_active_bypass registry repository tag now r =
    text_eq r.registry registry
    && text_eq r.repository repository
    && text_eq r.tag tag
    && not_expired r.expires_at now

unfoldable pub scan_approval : List ApprovalRow → Option Approval
scan_approval [] = none
scan_approval (r ∷ _) = some (scan_approval_value r)

unfoldable pub scan_freeze : List FreezeRow → Option Freeze
scan_freeze [] = none
scan_freeze (r ∷ _) = some (scan_freeze_value r)

unfoldable pub scan_bypass : List BypassRow → Option Bypass
scan_bypass [] = none
scan_bypass (r ∷ _) = some (scan_bypass_value r)

newer_approval : ApprovalRow → ApprovalRow → Bool
newer_approval r s = newer (r.approved_at, r.id) (s.approved_at, s.id)

newer_freeze : FreezeRow → FreezeRow → Bool
newer_freeze r s = newer (r.created_at, r.id) (s.created_at, s.id)

newer_bypass : BypassRow → BypassRow → Bool
newer_bypass r s = newer (r.created_at, r.id) (s.created_at, s.id)

-- What the three queries find: the newest row that is active.
unfoldable pub find_approval : Text → Text → Text → Text → Time → Db → Option Approval
unfolding newer newer_approval scan_approval
find_approval registry repository tag digest now db = scan_approval (
    sort_by newer_approval
      (keep (is_active_approval registry repository tag digest (unix now)) db.approvals.rows))

unfoldable pub find_freeze : Text → Text → Text → Text → Time → Db → Option Freeze
unfolding newer newer_freeze scan_freeze
find_freeze registry repository tag digest now db = scan_freeze (
    sort_by newer_freeze
      (keep (is_active_freeze registry repository tag digest (unix now)) db.freezes.rows))

unfoldable pub find_bypass : Text → Text → Text → Time → Db → Option Bypass
unfolding newer newer_bypass scan_bypass
find_bypass registry repository tag now db = scan_bypass (
    sort_by newer_bypass
      (keep (is_active_bypass registry repository tag (unix now)) db.bypasses.rows))

unfoldable pub active_approval : Text → Text → Text → Text → Time → Act Text (Option Approval)
active_approval registry repository tag digest now = do
  call (codes "get approval: ")
  gets (λ w. find_approval registry repository tag digest now w.db)

unfoldable pub active_freeze : Text → Text → Text → Text → Time → Act Text (Option Freeze)
active_freeze registry repository tag digest now = do
  call (codes "get freeze: ")
  gets (λ w. find_freeze registry repository tag digest now w.db)

unfoldable pub active_bypass : Text → Text → Text → Time → Act Text (Option Bypass)
active_bypass registry repository tag now = do
  call (codes "get bypass: ")
  gets (λ w. find_bypass registry repository tag now w.db)

pub record LocalOverride : Type 0 where
  pub approval : Option Approval
  pub freeze : Option Freeze
  pub bypass : Option Bypass
  pub decision : Text

-- The `switch` of `LocalOverride`.
unfoldable pub override_decision : Option Freeze → Option Approval → Option Bypass → Text
override_decision (some _) approval bypass = decision_deny
override_decision none (some _) bypass = decision_allow
override_decision none none (some _) = decision_allow
override_decision none none none = []

unfoldable pub make_override : Option Freeze → Option Approval → Option Bypass → LocalOverride
unfolding override_decision
make_override freeze approval bypass = record {
  approval = approval;
  freeze = freeze;
  bypass = bypass;
  decision = override_decision freeze approval bypass;
}

unfoldable pub local_override : Text → Text → Text → Text → Time → Act Text LocalOverride
unfolding make_override active_freeze active_approval active_bypass
local_override registry repository tag digest now = do
  freeze ← active_freeze registry repository tag digest now
  approval ← active_approval registry repository tag digest now
  bypass ← active_bypass registry repository tag now
  pure (make_override freeze approval bypass)
