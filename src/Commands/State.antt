-- ===== src/Commands/State.antt =====
-- `openConfiguredState`, `store.OpenSQLite`, `expiresFromTTL` and `logOperation`.
use ribat.Base.{ℤ, false, [], Option, none, some, if◌then◌else◌, Text, codes, text_eq, is_empty}
use ribat.Time.{Time, add_time}
use ribat.Image.{Reference}
use ribat.Audit.{Event}
use ribat.Audit.Logger.{record_event}
use ribat.Policy.{Config}
use ribat.Store.World.{Act, call, pure, raise, ◌>>=◌, ◌>>◌}
use ribat.Commands.{Machine, Problem, state_not_opened, audit_not_written, of_result, on_error}
use ribat.Commands.Configured.{checked_config}

-- The directory, the database and its schema; the statements of the schema change no table that exists.
unfoldable pub open_sqlite : Text → Act Text (Unit {0})
open_sqlite path = if is_empty path then raise (codes "sqlite state path is required") else do
  if text_eq path (codes ":memory:")
      then pure tt
      else call (codes "create sqlite state directory: ")
  call (codes "open sqlite state: ")
  call (codes "migrate sqlite state: ")

unfoldable pub open_configured_state : Machine → Text → Text → Act Problem Config
unfolding open_sqlite
open_configured_state m config_path command = do
  cfg ← of_result (λ p. p) (checked_config m config_path command)
  on_error state_not_opened (open_sqlite cfg.state.path)
  pure cfg

unfoldable pub expires_from_ttl : Time → Option ℤ → Option Time
expires_from_ttl now none = none
expires_from_ttl now (some ttl) = some (add_time now ttl)

unfoldable pub operation_event : Text → Reference → Text → Text → Text → Time → Event
operation_event operation ref digest actor reason now = record {
  timestamp = now;
  image_ref = if is_empty ref.canonical_ref then codes "state" else ref.canonical_ref;
  registry = ref.registry;
  repository = ref.repository;
  tag = ref.tag;
  digest = digest;
  decision = operation;
  reason = reason;
  matched_rule = [];
  client_user = actor;
  request_method = [];
  request_uri = [];
  cosign_verified = false;
  cosign_cached = false;
}

unfoldable pub log_operation :
    Config → Text → Reference → Text → Text → Text → Time → Act Problem (Unit {0})
unfolding operation_event
log_operation cfg operation ref digest actor reason now =
    on_error audit_not_written
      (record_event cfg.audit.path (operation_event operation ref digest actor reason now))
