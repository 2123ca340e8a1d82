-- ===== src/Commands/Grants/Granted.antt =====
-- What the tables are after `ribat approve`, `bypass` or `freeze` has exited with 0.
use ribat.Base.{
  Bool, true, false, not, ◌||◌, Option, none, some, List, Text, codes, text_eq, Result, ok, err,
  is_empty, if◌then◌else◌, ◌≡◌, refl, ◌∙◌, ap, Bool-cases, inl, inr,
}
use ribat.Time.{Time}
use ribat.Image.{Reference, parse_reference}
use ribat.Audit.Logger.{record_event-Runs}
use ribat.Policy.{Config}
use ribat.Store.Rows.{Db, empty_db}
use ribat.Store.World.{World, Act, ◌>>=◌}
use ribat.Store.World.Runs.{Runs, returns, fails}
use ribat.Store.World.Gives.{Gives, Gives-bind}
use ribat.Store.Overrides.Insert.{Grant}
use ribat.Store.Overrides.Granted.{
  with_approval, with_freeze, with_bypass, approve_digest-Gives, freeze_tag-Gives, bypass_tag-Gives,
}
use ribat.Commands.{Machine, UsageError, Problem, Outcome, on_error, with_state, forget}
use ribat.Commands.Args.{OperationOptions, parse_operation_args}
use ribat.Commands.Configured.{checked_config}
use ribat.Commands.State.{open_configured_state, log_operation}
use ribat.Commands.Grants.{
  printed_row, require, make_grant, read_operation, approve_in, bypass_in, freeze_in, approve,
  bypass, freeze, run_approve, run_bypass, run_freeze,
}
use ribat.Commands.Gives.{
  of_result-Gives, on_error-Gives, pure-Gives, raise-Gives, Gives-weaken,
  open_configured_state-Gives, conclude-Gives,
}

-- What a change of the open tables leaves: a store in memory leaves the tables of before.
unfoldable pub saved_tables : Config → (Db → Db) → Db → Db
saved_tables cfg f db = if text_eq cfg.state.path (codes ":memory:") then db else f db

-- The tables `db` and then `db'`, where a command has made a change for the reference and the
-- options that its arguments give.
pub record HasGranted (m : Machine) (args : List Text) (command : Text) (require_ttl : Bool)
    (granted : Grant → Text → Db → Db) (db db' : Db) : Type 0 where
  pub options : OperationOptions
  pub config : Config
  pub ref : Reference
  pub parses : parse_operation_args m args command require_ttl ≡ ok options
  pub loads : checked_config m options.config_path command ≡ ok config
  pub names : parse_reference options.image_ref ≡ ok ref
  pub after : db' ≡ saved_tables config (granted (make_grant m ref options) ref.digest) db

Runs-Gives :
    {A : Type 0} {w : World} {a : A} {db : Db} {r : Result Text A × World}
    → Runs w a db r
    → Gives (λ b v. v.db ≡ db) r
Runs-Gives (returns same clear) = same
Runs-Gives (fails h) = tt

log_operation-Gives :
    (cfg : Config) (operation : Text) (ref : Reference) (digest actor reason : Text) (now : Time)
    (w : World)
    → Gives (λ x v. v.db ≡ w.db) (log_operation cfg operation ref digest actor reason now w)
unfolding log_operation
log_operation-Gives cfg operation ref digest actor reason now w =
    on_error-Gives _ _ _ w (Runs-Gives (record_event-Runs cfg.audit.path _ w))

printed_row-Gives :
    {A : Type 0} (print : A → List Text) (row : Option A) (w : World)
    → Gives (λ o v. v.db ≡ w.db) (printed_row print row w)
unfolding printed_row
printed_row-Gives print none w = raise-Gives _ _ w
printed_row-Gives print (some row) w = pure-Gives Problem _ _ w refl

-- What the three commands do in an open state.
granted-Gives :
    {A : Type 0} (wording : Text → Problem) (insert : Act Text (Option A)) (cfg : Config)
    (operation : Text) (ref : Reference) (digest actor reason : Text) (now : Time)
    (print : A → List Text) (db : Db) (w : World)
    → Gives (λ a v. v.db ≡ db) (insert w)
    → Gives
        (λ (o : Outcome) v. v.db ≡ db)
        ((on_error wording insert >>= λ row.
            log_operation cfg operation ref digest actor reason now >>= λ _. printed_row print row)
          w)
granted-Gives wording insert cfg operation ref digest actor reason now print db w h =
    Gives-bind (λ a v. v.db ≡ db) _ _ _ w (on_error-Gives wording _ insert w h)
      λ row v here.
        Gives-bind (λ x u. u.db ≡ v.db) _ _ _ v
          (log_operation-Gives cfg operation ref digest actor reason now v)
          λ x u logged.
            Gives-weaken (λ o t. t.db ≡ u.db) _ _ (λ o t same. same ∙ logged ∙ here)
              (printed_row-Gives print row u)

forgotten :
    {A : Type 0} (db : Db) (r : Result Problem A × World) → Gives (λ a v. v.db ≡ db) (forget db r)
unfolding forget
forgotten db (ok a, v) = refl
forgotten db (err p, v) = tt

with_state-saved :
    {A : Type 0} (run : Act Problem A) (w : World) (cfg : Config) (f : Db → Db)
    → ((v : World) → Gives (λ a u. u.db ≡ f v.db) (run v))
    → Gives (λ a u. u.db ≡ saved_tables cfg f w.db) (with_state cfg.state.path run w)
unfolding with_state saved_tables
with_state-saved run w cfg f h = elim (Bool-cases (text_eq cfg.state.path (codes ":memory:"))) [
  | inl e ↦ rw e (forgotten w.db (run (record w { db = empty_db })))
  | inr e ↦ rw e (h w)
]

module _ (m : Machine) (args : List Text) (w : World) where
  -- What is known when the options and the reference have been read.
  abbrev Read : Text → Bool → OperationOptions × Reference → World → Type 0
  Read command require_ttl (options, ref) v =
      (parse_operation_args m args command require_ttl ≡ ok options)
      × (parse_reference options.image_ref ≡ ok ref)
      × (v ≡ w)

  read_operation-Gives :
      (command : Text) (require_ttl : Bool)
      → Gives (Read command require_ttl) (read_operation m args command require_ttl w)
  unfolding read_operation require
  read_operation-Gives command require_ttl =
      Gives-bind _ _ _ _ w (of_result-Gives _ _ w) λ options v (parses, here).
        Gives-bind _ _ _ _ v (of_result-Gives _ _ v) λ x u (passed, there).
          Gives-bind _ _ _ _ u (of_result-Gives _ _ u) λ ref t (names, same).
            pure-Gives Problem (Read command require_ttl) (options, ref) t
              (parses, names, same ∙ there ∙ here)

  grant-Gives :
      (command : Text) (require_ttl : Bool) (passed : Reference → Bool) (e : UsageError)
      (run : OperationOptions → Reference → Config → Act Problem Outcome)
      (granted : Grant → Text → Db → Db)
      → ((options : OperationOptions) (ref : Reference) (cfg : Config) (v : World)
          → Gives
              (λ o u. u.db ≡ granted (make_grant m ref options) ref.digest v.db)
              (run options ref cfg v))
      → Gives
          (λ (o : Outcome) v. o.code ≡ 0 → HasGranted m args command require_ttl granted w.db v.db)
          ((read_operation m args command require_ttl >>= λ (options, ref).
              require (passed ref) e >>= λ _.
              open_configured_state m options.config_path command >>= λ cfg.
              with_state cfg.state.path (run options ref cfg))
            w)
  unfolding require
  grant-Gives command require_ttl passed e run granted h =
      Gives-bind (Read command require_ttl) _ _ _ w (read_operation-Gives command require_ttl)
        λ (options, ref) v (parses, names, here).
          Gives-bind _ _ _ _ v (of_result-Gives _ _ v) λ x u (pass, there).
            Gives-bind _ _ _ _ u (open_configured_state-Gives m options.config_path command u)
              λ cfg t (loads, kept).
                let before : t.db ≡ w.db = kept ∙ ap (λ (x : World). x.db) (there ∙ here) in
                Gives-weaken
                  (λ o s.
                    s.db ≡ saved_tables cfg (granted (make_grant m ref options) ref.digest) t.db)
                  _ _
                  (λ o s after zero. record {
                    options = options;
                    config = cfg;
                    ref = ref;
                    parses = parses;
                    loads = loads;
                    names = names;
                    after =
                        after
                        ∙ ap (saved_tables cfg (granted (make_grant m ref options) ref.digest))
                            before;
                  })
                  (with_state-saved _ t cfg _ (h options ref cfg))

  pub run_freeze-HasGranted :
      (run_freeze m args w).0.code ≡ 0
      → HasGranted m args (codes "freeze") false with_freeze w.db (run_freeze m args w).1.db
  unfolding run_freeze freeze freeze_in
  run_freeze-HasGranted = conclude-Gives _ _ w (
      grant-Gives (codes "freeze") false (λ ref. not (is_empty ref.tag)) _ (freeze_in m) with_freeze
        λ options ref cfg v.
          granted-Gives _ _ _ _ _ _ _ _ _ _ _ v
            (freeze_tag-Gives (make_grant m ref options) v ref.digest))

  pub run_approve-HasGranted :
      (run_approve m args w).0.code ≡ 0
      → HasGranted m args (codes "approve") false with_approval w.db (run_approve m args w).1.db
  unfolding run_approve approve approve_in
  run_approve-HasGranted = conclude-Gives _ _ w (
      grant-Gives (codes "approve") false (λ ref. not (is_empty ref.digest || is_empty ref.tag)) _
        (approve_in m) with_approval
        λ options ref cfg v.
          granted-Gives _ _ _ _ _ _ _ _ _ _ _ v
            (approve_digest-Gives (make_grant m ref options) v ref.digest))

  pub run_bypass-HasGranted :
      (run_bypass m args w).0.code ≡ 0
      → HasGranted m args
          (codes "bypass")
          true
          (λ g digest. with_bypass g)
          w.db
          (run_bypass m args w).1.db
  unfolding run_bypass bypass bypass_in
  run_bypass-HasGranted = conclude-Gives _ _ w (
      grant-Gives (codes "bypass") true (λ ref. not ref.is_digest_pinned) _ (bypass_in m)
        (λ g digest. with_bypass g)
        λ options ref cfg v.
          granted-Gives _ _ _ _ _ _ _ _ _ _ _ v (bypass_tag-Gives (make_grant m ref options) v))
