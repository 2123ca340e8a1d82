-- ===== src/Commands.antt =====
-- cmd/ribat/main.go: what a run of the binary has around it, and what it ends with.
pub mod Args
pub mod Configured
pub mod State
pub mod Print
pub mod Grants
pub mod Queries
pub mod AuditLog
pub mod Transfer
pub mod Version
pub mod Servers
pub mod Run
pub mod Keeps
pub mod WellFormed
pub mod Gives
pub mod Calm
pub mod Decides
pub mod ReadOnly
use ribat.Base.{
  ℕ, ℤ, Bool, true, false, List, [], ◌∷◌, ◌++◌, Option, none, some, if◌then◌else◌, Text, codes,
  is_empty, text_eq, Result, ok, err,
}
use ribat.Time.{Time}
use ribat.Image.{Reference, ImageError}
use ribat.Audit.{Event}
use ribat.Policy.{Config, CosignPolicy}
use ribat.Policy.Duration.{DurationError}
use ribat.Policy.Reader.{LoadError}
use ribat.Cosign.{CosignResult, CosignError, verify, cosign_policy_key}
use ribat.Registry.Exchange.{Libraries}
use ribat.Registry.Resolver.{Resolver, RegistryError, resolve}
use ribat.Store.Rows.{Db, empty_db}
use ribat.Store.Export.{ExportedState}
use ribat.Store.World.{World, Act}
use ribat.Engine.{Engine, EngineError, ManifestDigest}
use ribat.Authz.Messages.{Formats}
use ribat.Proxy.Server.{Payload}

-- One constructor for each message that goes with the exit code 2.
pub data UsageError : Type 0 where
  missing_command missing_policy_subcommand : UsageError
  unknown_command unknown_policy_subcommand : Text → UsageError
  missing_value unknown_flag missing_image ttl_required reason_required : Text → UsageError
  unknown_argument extra_argument : Text → Text → UsageError
  bad_ttl bad_since : DurationError → UsageError
  ttl_not_positive address_required socket_required : UsageError
  digest_and_tag_required tag_required digest_pinned : UsageError
  bad_image : ImageError → UsageError

pub data FileError : Type 0 where
  not_opened : Text → FileError
  not_loaded : LoadError → FileError

-- What is written to stderr. `nil_row` is the panic at a nil pointer, had a store method that
-- inserts a row returned one; the Go runtime exits with 2 as well.
pub data Problem : Type 0 where
  usage_error : UsageError → Problem
  policy_not_loaded : FileError → Problem
  unsupported_backend state_path_required : Text → Problem
  state_not_opened not_approved not_bypassed not_frozen audit_not_written state_unread :
      Text → Problem
  not_decided : EngineError → Problem
  not_resolved : Text → Text → Problem
  audit_path_required : Problem
  audit_not_opened bad_audit_line audit_not_printed audit_unread : Text → Problem
  not_exported export_not_printed : Text → Problem
  import_not_opened import_not_decoded not_imported : Text → Problem
  server_failed : Text → Problem
  nil_row : Problem

unfoldable pub exit_code : Problem → ℕ
exit_code (usage_error _) = 2
exit_code nil_row = 2
exit_code _ = 1

-- The exit code, the lines on stdout, and what stands on stderr.
pub record Outcome : Type 0 where
  pub code : ℕ
  pub output : List Text
  pub problem : Option Problem

abbrev pub success : List Text → Outcome
success lines = record { code = 0; output = lines; problem = none }

unfoldable pub failure : Problem → Outcome
unfolding exit_code
failure p = record { code = exit_code p; output = []; problem = some p }

-- The files, the network, the clock, the environment and the libraries that a run meets.
-- `open_policy` gives the lines of a policy file and the error that the scanner stops with;
-- `open_audit` the same of the audit log, in which the given events have been written. `formats` are
-- those of the commands and `message_formats` those of the messages of the servers.
pub record Machine : Type 0 where
  pub has_example : Bool
  pub user : Text
  pub now : Time
  pub has_file : Text → Bool
  pub open_policy : Text → Result Text (List Text × Option Text)
  pub open_audit : Text → List Event → Result Text (List Text × Option Text)
  pub open_import : Text → Result Text (List ℕ)
  pub stdin : List ℕ
  pub std_parse : Text → Option ℤ
  pub libraries : Libraries
  pub print_registry_error : RegistryError → Text
  pub run_cosign : Text → List Text → Text × Option Text
  pub print_cosign_error : CosignError → Text
  pub sha256_hex : Text → Text
  pub formats : Formats
  pub message_formats : Formats
  pub show : ℤ → Text
  pub round_second : ℤ → ℤ
  pub unmarshal_manifest : List ℕ → Option Payload
  pub decode_event : Text → Result Text Event
  pub encode_event : Event → Text
  pub decode_state : List ℕ → Result Text ExportedState
  pub encode_state : ExportedState → Text

unfoldable pub default_config_path : Machine → Text
default_config_path m =
    if m.has_example then codes "configs/ribat.example.yaml" else codes "/etc/ribat/config.yaml"

unfoldable pub current_actor : Machine → Text
current_actor m = if is_empty m.user then codes "cli" else m.user

module _ {E F A : Type 0} where
  -- An error in other words.
  abbrev pub worded : (E → F) → Result E A → Result F A
  worded f (ok a) = ok a
  worded f (err e) = err (f e)

  unfoldable pub of_result : (E → F) → Result E A → Act F A
  of_result f r w = (worded f r, w)

  unfoldable pub on_error : (E → F) → Act E A → Act F A
  on_error f run w = let (r, w') = run w in (worded f r, w')

-- `registry.NewResolver(nil)`: no endpoint but the default ones.
unfoldable pub new_resolver : Machine → Resolver
new_resolver m = record { libraries = m.libraries; endpoints = λ registry. [] }

unfoldable pub resolve_on : Machine → Reference → Result Text ManifestDigest
resolve_on m ref = worded m.print_registry_error (resolve (new_resolver m) ref []).0

-- The engine that `runDecide`, `runAuthz` and `runProxy` build, with the default verifier.
unfoldable pub new_engine : Machine → Config → Engine
new_engine m cfg = record {
  config = cfg;
  has_store = true;
  resolve = resolve_on m;
  verify =
      λ ref digest policy. worded m.print_cosign_error (verify m.run_cosign [] ref digest policy);
  policy_key = cosign_policy_key m.sha256_hex;
  audit = some cfg.audit.path;
  now = m.now;
}

module _ {A : Type 0} where
  forget : Db → Result Problem A × World → Result Problem A × World
  forget db (r, w) = (r, record w { db = db })

  -- A run between `OpenSQLite` and `Close`. The tables of the world are those of the state file; a
  -- store in memory is empty at first and gone at the end.
  unfoldable pub with_state : Text → Act Problem A → Act Problem A
  unfolding forget
  with_state path run w =
      if text_eq path (codes ":memory:")
      then forget w.db (run (record w { db = empty_db }))
      else run w

concluded : Result Problem Outcome × World → Outcome × World
unfolding failure
concluded (ok o, w) = (o, w)
concluded (err p, w) = (failure p, w)

-- `return` with what the run has come to.
unfoldable pub conclude : Act Problem Outcome → World → Outcome × World
unfolding concluded
conclude run w = concluded (run w)
