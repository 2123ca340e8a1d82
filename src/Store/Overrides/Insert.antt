-- ===== src/Store/Overrides/Insert.antt =====
-- `ApproveDigest`, `FreezeTag` and `BypassTag`: each inserts a row and reads it back by its id.
use ribat.Base.{ℕ, suc, [], ◌∷◌, ◌++◌, Option, ◌==◌, keep, Text, codes}
use ribat.Time.{Time, unix, nullable_unix}
use ribat.Store.Rows.{
  Approval, ApprovalRow, Freeze, FreezeRow, Bypass, BypassRow, Table, nullable_string,
}
use ribat.Store.Overrides.{scan_approval, scan_freeze, scan_bypass}
use ribat.Store.World.{Act, call, change, gets, ◌>>=◌, ◌>>◌}

unfoldable pub get_approval : ℕ → Act Text (Option Approval)
unfolding scan_approval
get_approval id = do
  call (codes "get approval: ")
  gets (λ w. scan_approval (keep (λ r. r.id == id) w.db.approvals.rows))

unfoldable pub get_freeze : ℕ → Act Text (Option Freeze)
unfolding scan_freeze
get_freeze id = do
  call (codes "get freeze: ")
  gets (λ w. scan_freeze (keep (λ r. r.id == id) w.db.freezes.rows))

unfoldable pub get_bypass : ℕ → Act Text (Option Bypass)
unfolding scan_bypass
get_bypass id = do
  call (codes "get bypass: ")
  gets (λ w. scan_bypass (keep (λ r. r.id == id) w.db.bypasses.rows))

-- The request of the three operations: who, why, when, and until when.
pub record Grant : Type 0 where
  pub registry : Text
  pub repository : Text
  pub tag : Text
  pub at : Time
  pub by : Text
  pub reason : Text
  pub expires_at : Option Time

unfoldable pub insert_approval : Grant → Text → Table ApprovalRow → Table ApprovalRow
insert_approval g digest t =
    let row : ApprovalRow = record {
      id = suc t.seq;
      registry = g.registry;
      repository = g.repository;
      tag = g.tag;
      digest = digest;
      approved_at = unix g.at;
      approved_by = g.by;
      reason = g.reason;
      expires_at = nullable_unix g.expires_at;
    } in
    record { rows = t.rows ++ row ∷ []; seq = suc t.seq }

unfoldable pub insert_freeze : Grant → Text → Table FreezeRow → Table FreezeRow
insert_freeze g digest t =
    let row : FreezeRow = record {
      id = suc t.seq;
      registry = g.registry;
      repository = g.repository;
      tag = g.tag;
      digest = nullable_string digest;
      created_at = unix g.at;
      created_by = g.by;
      reason = g.reason;
      expires_at = nullable_unix g.expires_at;
    } in
    record { rows = t.rows ++ row ∷ []; seq = suc t.seq }

unfoldable pub insert_bypass : Grant → Table BypassRow → Table BypassRow
insert_bypass g t =
    let row : BypassRow = record {
      id = suc t.seq;
      registry = g.registry;
      repository = g.repository;
      tag = g.tag;
      created_at = unix g.at;
      created_by = g.by;
      reason = g.reason;
      expires_at = nullable_unix g.expires_at;
    } in
    record { rows = t.rows ++ row ∷ []; seq = suc t.seq }

unfoldable pub approve_digest : Grant → Text → Act Text (Option Approval)
unfolding insert_approval get_approval
approve_digest g digest = do
  call (codes "approve digest: ")
  change (λ db. record db { approvals = insert_approval g digest db.approvals })
  call (codes "approve digest: read inserted id: ")
  id ← gets (λ w. w.db.approvals.seq)
  get_approval id

unfoldable pub freeze_tag : Grant → Text → Act Text (Option Freeze)
unfolding insert_freeze get_freeze
freeze_tag g digest = do
  call (codes "freeze tag: ")
  change (λ db. record db { freezes = insert_freeze g digest db.freezes })
  call (codes "freeze tag: read inserted id: ")
  id ← gets (λ w. w.db.freezes.seq)
  get_freeze id

unfoldable pub bypass_tag : Grant → Act Text (Option Bypass)
unfolding insert_bypass get_bypass
bypass_tag g = do
  call (codes "bypass tag: ")
  change (λ db. record db { bypasses = insert_bypass g db.bypasses })
  call (codes "bypass tag: read inserted id: ")
  id ← gets (λ w. w.db.bypasses.seq)
  get_bypass id
