-- ===== src/Commands/Decides.antt =====
-- What the exit code of `ribat decide` says.
use ribat.Base.{
  ℕ, Bool, true, false, Option, none, some, List, Text, codes, ok, if◌then◌else◌, ◌≡◌, refl, arith,
  subst, ap, ◌∙◌,
}
use ribat.Image.{Reference, parse_reference}
use ribat.Policy.{Config}
use ribat.Store.Rows.{Db}
use ribat.Store.World.{World}
use ribat.Store.World.Gives.{Gives, Gives-bind}
use ribat.Engine.{Decision, EngineError}
use ribat.Engine.Decide.Permitted.{permitted}
use ribat.Engine.Decide.Safe.{quiet_permitted}
use ribat.Commands.{Machine, Outcome, new_engine}
use ribat.Commands.Args.{ImageOptions, parse_config_and_image}
use ribat.Commands.Configured.{checked_config}
use ribat.Commands.Queries.{command_request, decided, decide_in, decide_image, run_decide}
use ribat.Commands.Gives.{
  opened_tables, of_result-Gives, open_configured_state-Gives, with_state-Gives, conclude-Gives,
}

-- The arguments name a configuration and an image, and the specification of the engine that the
-- command builds permits the image with the tables of the state.
pub record IsPermitted (m : Machine) (args : List Text) (db : Db) : Type 0 where
  pub options : ImageOptions
  pub config : Config
  pub ref : Reference
  pub parses : parse_config_and_image m args (codes "decide") ≡ ok options
  pub loads : checked_config m options.config_path (codes "decide") ≡ ok config
  pub names : parse_reference options.image_ref ≡ ok ref
  pub permits : permitted (new_engine m config) ref (opened_tables config db) ≡ true

module _ (m : Machine) (args : List Text) (w : World) where
  code_zero : (allowed : Bool) → ◌≡◌ {A = ℕ} (if allowed then 0 else 1) 0 → allowed ≡ true
  code_zero true h = refl
  code_zero false h = ground arith

  decided-Gives :
      (P : Type 0) (out : (Decision × Option EngineError) × World)
      → (out.0.1 ≡ none → out.0.0.allowed ≡ true → P)
      → Gives (λ (o : Outcome) v. o.code ≡ 0 → P) (decided m out)
  unfolding decided
  decided-Gives P ((d, some e), v) h = tt
  decided-Gives P ((d, none), v) h = λ zero. h refl (code_zero d.allowed zero)

  decide_in-Gives :
      (options : ImageOptions) (config : Config) (v : World)
      → parse_config_and_image m args (codes "decide") ≡ ok options
      → checked_config m options.config_path (codes "decide") ≡ ok config
      → v.db ≡ opened_tables config w.db
      → Gives
          (λ (o : Outcome) u. o.code ≡ 0 → IsPermitted m args w.db)
          (decide_in m options.image_ref config v)
  unfolding decide_in command_request new_engine
  decide_in-Gives options config v parses loads same = decided-Gives _ _ λ quiet allowed.
      let (ref, names, permits) =
        quiet_permitted (new_engine m config) (command_request m options.image_ref) v quiet
          allowed in
      record {
        options = options;
        config = config;
        ref = ref;
        parses = parses;
        loads = loads;
        names = names;
        permits = subst (λ db. permitted (new_engine m config) ref db ≡ true) same permits;
      }

  decide_image-Gives :
      Gives (λ (o : Outcome) v. o.code ≡ 0 → IsPermitted m args w.db) (decide_image m args w)
  unfolding decide_image
  decide_image-Gives = Gives-bind _ _ _ _ w (of_result-Gives _ _ w) λ options v (parses, here).
      Gives-bind _ _ _ _ v (open_configured_state-Gives m options.config_path (codes "decide") v)
        λ config u (loads, kept).
          with_state-Gives _ u (λ o. o.code ≡ 0 → IsPermitted m args w.db) config
            λ t same.
              decide_in-Gives options config t parses loads
                (same ∙ ap (opened_tables config) (kept ∙ ap (λ (x : World). x.db) here))

  -- If `ribat decide` exits with 0, whatever external calls fail, then its arguments parse, the
  -- configuration loads, the reference parses, and the specification of the engine permits the pull
  -- with the tables that the run has opened.
  pub run_decide_safe : (run_decide m args w).0.code ≡ 0 → IsPermitted m args w.db
  unfolding run_decide
  run_decide_safe = conclude-Gives _ _ w decide_image-Gives
