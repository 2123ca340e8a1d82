-- ===== src/Commands/Grants/Succeeds.antt =====
-- A grant exits with 0 when its arguments and its configuration are usable and no call fails.
use ribat.Base.{
  Bool, true, false, not, Option, some, List, [], Text, codes, is_empty, Result, ok, guard, ◌≡◌,
  refl, sym, ◌∙◌, ap, subst,
}
use ribat.Image.{Reference, parse_reference}
use ribat.Policy.{Config}
use ribat.Store.Rows.{Db}
use ribat.Store.World.{World, Act, ◌>>=◌}
use ribat.Store.World.Runs.{Runs}
use ribat.Store.Invariant.{IsWellFormed}
use ribat.Store.Overrides.Granted.{with_freeze}
use ribat.Store.Overrides.Inserted.{freeze_tag-Runs}
use ribat.Commands.{
  Machine, UsageError, reason_required, Problem, Outcome, success, on_error, with_state, conclude,
}
use ribat.Commands.Args.{OperationOptions, parse_operation_args}
use ribat.Commands.State.{open_configured_state, log_operation}
use ribat.Commands.Grants.{
  printed_row, require, make_grant, read_operation, freeze_in, freeze, run_freeze,
}
use ribat.Commands.Calm.{
  Calm, Calm-as, Usable, Runs-Calm, Calm-pure, Calm-of_result, Calm-on_error, Calm-bind, Calm-after,
  Calm-open_configured_state, Calm-log_operation, Calm-with_state, Calm-conclude,
}

-- The arguments give the options, with a reason, and the reference.
pub record Reads (m : Machine) (args : List Text) (command : Text) (require_ttl : Bool)
    (options : OperationOptions) (ref : Reference) : Type 0 where
  pub parses : parse_operation_args m args command require_ttl ≡ ok options
  pub has_reason : is_empty options.reason ≡ false
  pub names : parse_reference options.image_ref ≡ ok ref

-- The run has exited with 0 and left these tables.
pub record Exits (db : Db) (r : Outcome × World) : Type 0 where
  pub code : r.0.code ≡ 0
  pub tables : r.1.db ≡ db

module _ (m : Machine) (args : List Text) (w : World) where
  Calm-read_operation :
      (command : Text) (require_ttl : Bool) (options : OperationOptions) (ref : Reference)
      → Reads m args command require_ttl options ref
      → w.faults ≡ []
      → Calm (options, ref) w.db (read_operation m args command require_ttl w)
  unfolding read_operation require
  Calm-read_operation command require_ttl options ref r calm =
      Calm-bind _ _ w (Calm-of_result _ _ options w r.parses calm) λ v1 kept1 calm1.
        Calm-bind _ _ v1
          (Calm-of_result _ (guard (not (is_empty options.reason)) _) tt v1
            (ap (λ b. guard (not b) (reason_required command)) r.has_reason) calm1)
          λ v2 kept2 calm2.
            Calm-bind _ _ v2 (Calm-of_result _ _ ref v2 r.names calm2)
              λ v3 kept3 calm3. Calm-pure (options, ref) v3 (kept3 ∙ kept2 ∙ kept1) calm3

granted-Calm :
    {A : Type 0} (wording : Text → Problem) (insert : Act Text (Option A)) (cfg : Config)
    (operation : Text) (m : Machine) (options : OperationOptions) (ref : Reference) (digest : Text)
    (print : A → List Text) (w : World) (row : A) (db : Db)
    → Runs w (some row) db (insert w)
    → w.faults ≡ []
    → Calm (success (print row)) db (
        (on_error wording insert >>= λ r.
        log_operation cfg operation ref digest options.actor options.reason m.now >>= λ _.
        printed_row print r)
          w)
unfolding printed_row
granted-Calm wording insert cfg operation m options ref digest print w row db runs calm =
    Calm-bind _ _ w (Calm-on_error _ _ w (Runs-Calm runs calm)) λ v1 kept1 calm1.
      Calm-bind _ _ v1 (Calm-log_operation cfg operation ref digest _ _ _ v1 calm1)
        λ v2 kept2 calm2. Calm-pure _ v2 (kept2 ∙ kept1) calm2

-- The run gives an outcome with code 0 and leaves these tables.
pub record Ends (db : Db) (r : Result Problem Outcome × World) : Type 0 where
  pub outcome : Outcome
  pub zero : outcome.code ≡ 0
  pub calm : Calm outcome db r

Ends-bind :
    {A : Type 0} (m : Act Problem A) (k : A → Act Problem Outcome) (w : World) {a : A} {db db' : Db}
    → Calm a db (m w)
    → ((v : World) → v.db ≡ db → v.faults ≡ [] → Ends db' (k a v))
    → Ends db' ((m >>= k) w)
Ends-bind m k w h next =
    let last = next (m w).1 h.leaves h.calm in
    record { outcome = last.outcome; zero = last.zero; calm = Calm-after m k w h last.calm }

module _ (m : Machine) (args : List Text) (w : World) (options : OperationOptions) (ref : Reference)
    (cfg : Config) where
  grant-Ends :
      (command : Text) (require_ttl : Bool) (passed : Reference → Bool) (e : UsageError)
      (run : OperationOptions → Reference → Config → Act Problem Outcome) (db : Db)
      → passed ref ≡ true
      → ((v : World) → v.db ≡ w.db → v.faults ≡ [] → Ends db (run options ref cfg v))
      → Reads m args command require_ttl options ref
      → Usable m options.config_path command cfg
      → w.faults ≡ []
      → Ends db (
          (read_operation m args command require_ttl >>= λ (x, r). require (passed r) e >>= λ _.
          open_configured_state m x.config_path command >>= λ c.
          with_state c.state.path (run x r c))
            w)
  unfolding require
  grant-Ends command require_ttl passed e run db pass ends reads usable calm =
      Ends-bind _ _ w (Calm-read_operation m args w command require_ttl options ref reads calm)
        λ v1 kept1 calm1.
          Ends-bind _ _ v1
            (Calm-of_result _ (guard (passed ref) e) tt v1 (ap (λ b. guard b e) pass) calm1)
            λ v2 kept2 calm2.
              Ends-bind _ _ v2
                (Calm-open_configured_state m options.config_path command cfg v2 usable calm2)
                λ v3 kept3 calm3.
                  let last = ends v3 (kept3 ∙ kept2 ∙ kept1) calm3 in
                  record {
                    outcome = last.outcome;
                    zero = last.zero;
                    calm = Calm-with_state _ cfg v3 usable.on_file last.calm;
                  }

  conclude-Exits :
      (run : Act Problem Outcome) (db : Db) → Ends db (run w) → Exits db (conclude run w)
  conclude-Exits run db h =
      let (out, tables) = Calm-conclude run w h.calm in
      record { code = ap (λ (o : Outcome). o.code) out ∙ h.zero; tables = tables }

  module _ (good : IsWellFormed w.db) (calm : w.faults ≡ []) where
    -- If the arguments of `ribat freeze` parse with a reason and a reference that has a tag, the
    -- configuration names a state file, the tables are well-formed and no call fails, then the run
    -- exits with 0 and its tables are those before with the freeze added.
    pub run_freeze-Exits :
        Reads m args (codes "freeze") false options ref
        → is_empty ref.tag ≡ false
        → Usable m options.config_path (codes "freeze") cfg
        → Exits (with_freeze (make_grant m ref options) ref.digest w.db) (run_freeze m args w)
    unfolding run_freeze freeze freeze_in
    run_freeze-Exits reads tagged usable = conclude-Exits _ _ (
        grant-Ends (codes "freeze") false (λ r. not (is_empty r.tag)) _ (freeze_in m) _
          (ap not tagged)
          (λ v same calm'.
            let (row, runs) =
              freeze_tag-Runs (make_grant m ref options) v (subst IsWellFormed (sym same) good)
                ref.digest in
            record {
              outcome = _;
              zero = refl;
              calm =
                  Calm-as refl (ap (with_freeze (make_grant m ref options) ref.digest) same)
                    (granted-Calm _ _ cfg _ m options ref ref.digest _ v row _ runs calm');
            })
          reads usable calm)
