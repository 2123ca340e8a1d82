-- ===== src/Commands/Run.antt =====
-- `run`: the command that the first argument names.
use ribat.Base.{Bool, List, [], ◌∷◌, ◌++◌, if◌then◌else◌, ◌||◌, Text, codes, text_eq, Result}
use ribat.Authz.{Readers}
use ribat.Authz.Server.{PluginRequest}
use ribat.Proxy.Server.{HttpRequest}
use ribat.Store.World.{World}
use ribat.Commands.{
  Machine, UsageError, missing_command, missing_policy_subcommand, unknown_command,
  unknown_policy_subcommand, usage_error, Outcome, success, failure,
}
use ribat.Commands.Version.{Build, version_string}
use ribat.Commands.Grants.{run_approve, run_bypass, run_freeze}
use ribat.Commands.Queries.{run_inspect, run_policy_check, run_decide, run_status}
use ribat.Commands.AuditLog.{run_audit}
use ribat.Commands.Transfer.{run_export_state, run_import_state}
use ribat.Commands.Servers.{Session, run_authz, run_proxy}

-- The binary, and the requests that come if it is started as a server. `usage` is the help text.
pub record Setting : Type 0 where
  pub build : Build
  pub usage : Text
  pub readers : Readers
  pub plugin_session : Session (Result Text PluginRequest)
  pub proxy_session : Session HttpRequest

unfoldable pub misuse : UsageError → World → Outcome × World
misuse e w = (failure (usage_error e), w)

unfoldable pub run_policy : Machine → List Text → World → Outcome × World
unfolding misuse
run_policy m [] w = misuse missing_policy_subcommand w
run_policy m (name ∷ args) w =
    if text_eq name (codes "check")
    then run_policy_check m args w
    else misuse (unknown_policy_subcommand name) w

module _ (m : Machine) (s : Setting) where
  unfoldable pub plugin_outcome : List Text → World → Outcome × World
  plugin_outcome args w =
      let ((o, answers), w') = run_authz m s.readers s.plugin_session args w in (o, w')

  unfoldable pub proxy_outcome : List Text → World → Outcome × World
  proxy_outcome args w = let ((o, answers), w') = run_proxy m s.proxy_session args w in (o, w')

  -- The `switch` on the name of the command.
  unfoldable pub run_command : Text → List Text → World → Outcome × World
  unfolding run_policy plugin_outcome proxy_outcome misuse version_string
  run_command name args w =
      let is : Text → Bool = text_eq name in
      if is (codes "version")
      then (success ((codes "ribat " ++ version_string s.build) ∷ []), w)
      else if is (codes "inspect")
      then run_inspect m args w
      else if is (codes "decide")
      then run_decide m args w
      else if is (codes "authz")
      then plugin_outcome args w
      else if is (codes "proxy")
      then proxy_outcome args w
      else if is (codes "approve")
      then run_approve m args w
      else if is (codes "bypass")
      then run_bypass m args w
      else if is (codes "freeze")
      then run_freeze m args w
      else if is (codes "audit")
      then run_audit m args w
      else if is (codes "export-state")
      then run_export_state m args w
      else if is (codes "import-state")
      then run_import_state m args w
      else if is (codes "policy")
      then run_policy m args w
      else if is (codes "status")
      then run_status m args w
      else if is (codes "help") || is (codes "-h") || is (codes "--help")
      then (success (s.usage ∷ []), w)
      else misuse (unknown_command name) w

  unfoldable pub run : List Text → World → Outcome × World
  unfolding misuse run_command
  run [] w = misuse missing_command w
  run (name ∷ args) w = run_command name args w
