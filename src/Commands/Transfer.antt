-- ===== src/Commands/Transfer.antt =====
-- `runExportState` and `runImportState`.
pub mod Moved
use ribat.Base.{
  ℕ, pos, List, [], ◌∷◌, ◌++◌, length, if◌then◌else◌, Text, codes, is_empty, Result, ok,
}
use ribat.Image.{no_reference}
use ribat.Policy.{Config}
use ribat.Store.Export.{ExportedState, export_state}
use ribat.Store.Export.Import.{import_state}
use ribat.Store.World.{World, Act, call, pure, ◌>>=◌, ◌>>◌}
use ribat.Commands.{
  Machine, current_actor, Problem, usage_error, not_exported, export_not_printed, import_not_opened,
  import_not_decoded, not_imported, Outcome, success, of_result, on_error, with_state, conclude,
}
use ribat.Commands.Args.{parse_config_only, parse_import_args}
use ribat.Commands.State.{open_configured_state, log_operation}

module _ (m : Machine) where
  unfoldable pub export_in : Config → Act Problem Outcome
  export_in cfg = do
    log_operation cfg (codes "export-state") no_reference [] (current_actor m)
        (codes "state export requested") m.now
    st ← on_error not_exported export_state
    on_error export_not_printed (call [])
    pure (success (m.encode_state st ∷ []))

  unfoldable pub export : List Text → Act Problem Outcome
  unfolding export_in
  export args = do
    config_path ← of_result usage_error (parse_config_only m args (codes "export-state"))
    cfg ← open_configured_state m config_path (codes "export-state")
    with_state cfg.state.path (export_in cfg)

  -- The file, or the standard input.
  unfoldable pub import_input : Text → Result Text (List ℕ)
  import_input path = if is_empty path then ok m.stdin else m.open_import path

  pub imported_line : ExportedState → Text
  imported_line st =
      codes "Imported state: observations="
      ++ (m.show (pos (length st.observations))
          ++ (codes " approvals="
              ++ (m.show (pos (length st.approvals))
                  ++ (codes " freezes="
                      ++ (m.show (pos (length st.freezes))
                          ++ (codes " bypasses="
                              ++ (m.show (pos (length st.bypasses))
                                  ++ (codes " decisions="
                                      ++ m.show (pos (length st.decisions))))))))))

  unfoldable pub import_in : Text → Config → Act Problem Outcome
  unfolding import_input imported_line
  import_in input_path cfg = do
    input ← of_result import_not_opened (import_input input_path)
    st ← of_result import_not_decoded (m.decode_state input)
    on_error not_imported (import_state m.show st)
    log_operation cfg (codes "import-state") no_reference [] (current_actor m)
        (codes "state import completed") m.now
    pure (success (imported_line st ∷ []))

  unfoldable pub import : List Text → Act Problem Outcome
  unfolding import_in
  import args = do
    o ← of_result usage_error (parse_import_args m args)
    cfg ← open_configured_state m o.config_path (codes "import-state")
    with_state cfg.state.path (import_in o.input_path cfg)

  unfoldable pub run_export_state : List Text → World → Outcome × World
  unfolding export
  run_export_state args = conclude (export args)

  unfoldable pub run_import_state : List Text → World → Outcome × World
  unfolding import
  run_import_state args = conclude (import args)
