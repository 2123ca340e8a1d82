-- ===== src/Commands/Grants.antt =====
-- `runApprove`, `runBypass` and `runFreeze`.
pub mod Granted
pub mod Succeeds
pub mod Decided
use ribat.Base.{
  true, false, not, ◌||◌, List, [], Option, none, some, Bool, Text, codes, is_empty, guard,
}
use ribat.Time.{Time}
use ribat.Image.{Reference, parse_reference}
use ribat.Policy.{Config}
use ribat.Store.Overrides.Insert.{Grant, approve_digest, freeze_tag, bypass_tag}
use ribat.Store.World.{World, Act, pure, raise, ◌>>=◌, ◌>>◌}
use ribat.Commands.{
  Machine, UsageError, bad_image, reason_required, digest_and_tag_required, digest_pinned,
  tag_required, Problem, usage_error, not_approved, not_bypassed, not_frozen, nil_row, Outcome,
  success, of_result, on_error, with_state, conclude,
}
use ribat.Commands.Args.{OperationOptions, parse_operation_args}
use ribat.Commands.State.{open_configured_state, expires_from_ttl, log_operation}
use ribat.Commands.Print.{print_approval, print_bypass, print_freeze}

-- The row that a method returns, or the panic at a nil pointer.
unfoldable pub printed_row : {A : Type 0} → (A → List Text) → Option A → Act Problem Outcome
printed_row print none = raise nil_row
printed_row print (some row) = pure (success (print row))

unfoldable pub require : Bool → UsageError → Act Problem (Unit {0})
require passed e = of_result usage_error (guard passed e)

unfoldable pub make_grant : Machine → Reference → OperationOptions → Grant
make_grant m ref o = record {
  registry = ref.registry;
  repository = ref.repository;
  tag = ref.tag;
  at = m.now;
  by = o.actor;
  reason = o.reason;
  expires_at = expires_from_ttl m.now o.ttl;
}

module _ (m : Machine) where
  -- What the three commands do before they look at the reference.
  unfoldable pub read_operation :
      List Text → Text → Bool → Act Problem (OperationOptions × Reference)
  unfolding require
  read_operation args command require_ttl = do
    o ← of_result usage_error (parse_operation_args m args command require_ttl)
    require (not (is_empty o.reason)) (reason_required command)
    ref ← of_result (λ e. usage_error (bad_image e)) (parse_reference o.image_ref)
    pure (o, ref)

  unfoldable pub approve_in : OperationOptions → Reference → Config → Act Problem Outcome
  unfolding make_grant printed_row
  approve_in o ref cfg = do
    row ← on_error not_approved (approve_digest (make_grant m ref o) ref.digest)
    log_operation cfg (codes "approval") ref ref.digest o.actor o.reason m.now
    printed_row (print_approval m ref) row

  unfoldable pub bypass_in : OperationOptions → Reference → Config → Act Problem Outcome
  unfolding make_grant printed_row
  bypass_in o ref cfg = do
    row ← on_error not_bypassed (bypass_tag (make_grant m ref o))
    log_operation cfg (codes "bypass") ref [] o.actor o.reason m.now
    printed_row (print_bypass m ref) row

  unfoldable pub freeze_in : OperationOptions → Reference → Config → Act Problem Outcome
  unfolding make_grant printed_row
  freeze_in o ref cfg = do
    row ← on_error not_frozen (freeze_tag (make_grant m ref o) ref.digest)
    log_operation cfg (codes "freeze") ref ref.digest o.actor o.reason m.now
    printed_row (print_freeze m ref) row

  unfoldable pub approve : List Text → Act Problem Outcome
  unfolding read_operation require approve_in
  approve args = do
    (o, ref) ← read_operation args (codes "approve") false
    require (not (is_empty ref.digest || is_empty ref.tag)) digest_and_tag_required
    cfg ← open_configured_state m o.config_path (codes "approve")
    with_state cfg.state.path (approve_in o ref cfg)

  unfoldable pub bypass : List Text → Act Problem Outcome
  unfolding read_operation require bypass_in
  bypass args = do
    (o, ref) ← read_operation args (codes "bypass") true
    require (not ref.is_digest_pinned) digest_pinned
    cfg ← open_configured_state m o.config_path (codes "bypass")
    with_state cfg.state.path (bypass_in o ref cfg)

  unfoldable pub freeze : List Text → Act Problem Outcome
  unfolding read_operation require freeze_in
  freeze args = do
    (o, ref) ← read_operation args (codes "freeze") false
    require (not (is_empty ref.tag)) tag_required
    cfg ← open_configured_state m o.config_path (codes "freeze")
    with_state cfg.state.path (freeze_in o ref cfg)

  unfoldable pub run_approve : List Text → World → Outcome × World
  unfolding approve
  run_approve args = conclude (approve args)

  unfoldable pub run_bypass : List Text → World → Outcome × World
  unfolding bypass
  run_bypass args = conclude (bypass args)

  unfoldable pub run_freeze : List Text → World → Outcome × World
  unfolding freeze
  run_freeze args = conclude (freeze args)
