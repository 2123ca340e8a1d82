-- ===== src/Commands/Configured.antt =====
-- `policy.LoadFile`, and the checks on the configured state that come before it is opened.
use ribat.Base.{
  List, Option, not, Text, codes, text_eq, is_empty, Result, ok, err, ◌>>=◌, ◌>>◌, guard,
}
use ribat.Policy.{Config}
use ribat.Policy.Reader.{LoadError}
use ribat.Policy.Reader.Parser.{load}
use ribat.Commands.{
  Machine, FileError, not_opened, not_loaded, Problem, policy_not_loaded, unsupported_backend,
  state_path_required,
}

loaded : Result LoadError Config → Result FileError Config
loaded (ok cfg) = ok cfg
loaded (err e) = err (not_loaded e)

opened : Machine → Result Text (List Text × Option Text) → Result FileError Config
unfolding loaded
opened m (err e) = err (not_opened e)
opened m (ok (lines, broken)) = loaded (load m.std_parse lines broken)

unfoldable pub load_file : Machine → Text → Result FileError Config
unfolding opened
load_file m path = opened m (m.open_policy path)

loaded_policy : Result FileError Config → Result Problem Config
loaded_policy (ok cfg) = ok cfg
loaded_policy (err e) = err (policy_not_loaded e)

unfoldable pub load_policy : Machine → Text → Result Problem Config
unfolding loaded_policy
load_policy m path = loaded_policy (load_file m path)

-- The configuration, with the checks on its state that come before the state is opened.
unfoldable pub checked_config : Machine → Text → Text → Result Problem Config
checked_config m config_path command = do
  cfg ← load_policy m config_path
  guard (text_eq cfg.state.backend (codes "sqlite")) (unsupported_backend cfg.state.backend)
  guard (not (is_empty cfg.state.path)) (state_path_required command)
  ok cfg
