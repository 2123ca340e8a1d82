-- ===== src/Commands/Transfer/Moved.antt =====
-- The state that `ribat export-state` prints, taken in by `ribat import-state` somewhere else.
use ribat.Base.{List, [], ◌∷◌, Text, codes, ok, ◌≡◌, refl, sym, ◌∙◌, ap, subst}
use ribat.Policy.{Config}
use ribat.Store.Rows.{Db, empty_db}
use ribat.Store.Invariant.{IsWellFormed}
use ribat.Store.World.{World}
use ribat.Store.World.Runs.{Runs-call}
use ribat.Store.Export.Import.{imported}
use ribat.Store.Export.Restores.{exported, SameRows, imported-exported}
use ribat.Store.Export.RoundTrip.{
  export_state-Runs, import_state-Runs, all_loops, all_loops-imported,
}
use ribat.Commands.{Machine, Outcome, success}
use ribat.Commands.Args.{ImportOptions, parse_config_only, parse_import_args}
use ribat.Commands.Transfer.{
  export_in, export, import_input, imported_line, import_in, import, run_export_state,
  run_import_state,
}
use ribat.Commands.Calm.{
  Calm, Calm-as, Usable, Runs-Calm, Calm-pure, Calm-of_result, Calm-on_error, Calm-bind,
  Calm-open_configured_state, Calm-log_operation, Calm-with_state, Calm-conclude,
}

export_in-Calm :
    (m : Machine) (cfg : Config) (v : World)
    → v.faults ≡ []
    → Calm (success (m.encode_state (exported v.db) ∷ [])) v.db (export_in m cfg v)
unfolding export_in
export_in-Calm m cfg v calm =
    Calm-bind _ _ v (Calm-log_operation cfg _ _ _ _ _ _ v calm) λ v1 kept1 calm1.
      Calm-bind _ _ v1 (Calm-on_error _ _ v1 (Runs-Calm (export_state-Runs v1) calm1))
        λ v2 kept2 calm2.
          Calm-bind _ _ v2 (Calm-on_error _ _ v2 (Runs-Calm (Runs-call [] v2) calm2))
            λ v3 kept3 calm3.
              Calm-as (ap (λ db. success (m.encode_state (exported db) ∷ [])) kept1) refl
                (Calm-pure _ v3 (kept3 ∙ kept2 ∙ kept1) calm3)

import_in-Calm :
    (m : Machine) (cfg : Config) (v : World) (db : Db)
    → m.decode_state m.stdin ≡ ok (exported db)
    → v.faults ≡ []
    → Calm
        (success (imported_line m (exported db) ∷ []))
        (all_loops (exported db) v.db)
        (import_in m [] cfg v)
unfolding import_in import_input
import_in-Calm m cfg v db reads calm =
    Calm-bind _ _ v (Calm-of_result _ _ m.stdin v refl calm) λ v1 kept1 calm1.
      Calm-bind _ _ v1 (Calm-of_result _ _ (exported db) v1 reads calm1) λ v2 kept2 calm2.
        Calm-bind _ _ v2 (Calm-on_error _ _ v2 (Runs-Calm (import_state-Runs m.show db v2) calm2))
          λ v3 kept3 calm3.
            Calm-bind _ _ v3 (Calm-log_operation cfg _ _ _ _ _ _ v3 calm3) λ v4 kept4 calm4.
              Calm-pure _ v4 (kept4 ∙ kept3 ∙ ap (all_loops (exported db)) (kept2 ∙ kept1)) calm4

run_export_state-Calm :
    (m : Machine) (args : List Text) (w : World) (path : Text) (cfg : Config)
    → parse_config_only m args (codes "export-state") ≡ ok path
    → Usable m path (codes "export-state") cfg
    → w.faults ≡ []
    → (run_export_state m args w).0 ≡ success (m.encode_state (exported w.db) ∷ [])
unfolding run_export_state export
run_export_state-Calm m args w path cfg parses usable calm =
    (Calm-conclude _ w (
      Calm-bind _ _ w (Calm-of_result _ _ path w parses calm) λ w1 kept1 calm1.
        Calm-bind _ _ w1 (Calm-open_configured_state m path _ cfg w1 usable calm1) λ w2 kept2 calm2.
          Calm-with_state _ cfg w2 usable.on_file (
            Calm-as (ap (λ db. success (m.encode_state (exported db) ∷ [])) (kept2 ∙ kept1))
              (kept2 ∙ kept1) (export_in-Calm m cfg w2 calm2)))).0

run_import_state-Calm :
    (m : Machine) (args : List Text) (w : World) (db : Db) (o : ImportOptions) (cfg : Config)
    → parse_import_args m args ≡ ok o
    → o.input_path ≡ []
    → Usable m o.config_path (codes "import-state") cfg
    → m.decode_state m.stdin ≡ ok (exported db)
    → w.faults ≡ []
    → ((run_import_state m args w).0 ≡ success (imported_line m (exported db) ∷ []))
      × ((run_import_state m args w).1.db ≡ all_loops (exported db) w.db)
unfolding run_import_state import
run_import_state-Calm m args w db o cfg parses from_stdin usable reads calm = Calm-conclude _ w (
    Calm-bind _ _ w (Calm-of_result _ _ o w parses calm) λ w1 kept1 calm1.
      Calm-bind _ _ w1 (Calm-open_configured_state m o.config_path _ cfg w1 usable calm1)
        λ w2 kept2 calm2. Calm-with_state _ cfg w2 usable.on_file (
          Calm-as refl (ap (all_loops (exported db)) (kept2 ∙ kept1)) (
            subst
              (λ path.
                Calm (success (imported_line m (exported db) ∷ [])) (all_loops (exported db) w2.db)
                  (import_in m path cfg w2))
              (sym from_stdin) (import_in-Calm m cfg w2 db reads calm2))))

-- If what `ribat export-state` prints is the input of `ribat import-state` on empty tables, both
-- with usable arguments and a state file, the decoder reads back what the encoder has printed, no
-- call fails, and the exported tables are well-formed, then both exit with 0 and the tables have
-- the same rows.
pub export_then_import :
    (m n : Machine) (args args' : List Text) (w v : World) (path : Text) (o : ImportOptions)
    (cfg cfg' : Config)
    → parse_config_only m args (codes "export-state") ≡ ok path
    → Usable m path (codes "export-state") cfg
    → parse_import_args n args' ≡ ok o
    → o.input_path ≡ []
    → Usable n o.config_path (codes "import-state") cfg'
    → n.decode_state (m.encode_state (exported w.db)) ≡ ok (exported w.db)
    → (run_export_state m args w).0.output ≡ n.stdin ∷ []
    → IsWellFormed w.db
    → v.db ≡ empty_db
    → w.faults ≡ []
    → v.faults ≡ []
    → ((run_export_state m args w).0.code ≡ 0)
      × ((run_import_state n args' v).0.code ≡ 0)
      × SameRows (run_import_state n args' v).1.db w.db
export_then_import m n args args' w v path o cfg cfg' parses usable parses' from_stdin usable' reads
      piped good fresh calm calm' =
    let printed : (run_export_state m args w).0 ≡ success (m.encode_state (exported w.db) ∷ []) =
      run_export_state-Calm m args w path cfg parses usable calm in
    let same : m.encode_state (exported w.db) ≡ n.stdin = cc (printed, piped) in
    let decoded : n.decode_state n.stdin ≡ ok (exported w.db) =
      subst (λ input. n.decode_state input ≡ ok (exported w.db)) same reads in
    let (read, after) =
      run_import_state-Calm n args' v w.db o cfg' parses' from_stdin usable' decoded calm' in
    (
      ap (λ (out : Outcome). out.code) printed,
      ap (λ (out : Outcome). out.code) read,
      subst (λ db. SameRows db w.db)
          (sym
            (after ∙ all_loops-imported (exported w.db) v.db ∙ ap (imported (exported w.db)) fresh))
          (imported-exported w.db good),
    )
