-- ===== src/Commands/Keeps/Grants.antt =====
-- What the commands that grant an override keep of the world.
use ribat.Base.{ℕ, ℤ, Bool, List, Option, none, some, Text}
use ribat.Image.{Reference}
use ribat.Time.{Time}
use ribat.Policy.{Config}
use ribat.Store.World.{World, Act, call, change, gets, ◌>>=◌}
use ribat.Store.World.Runs.{at}
use ribat.Store.World.Keeps.{
  Preorder, Keeps, Keeps-pure, Keeps-raise, Keeps-gets, Keeps-call, Keeps-change, Keeps-bind,
  Keeps-query,
}
use ribat.Store.Overrides.Insert.{
  Grant, insert_approval, insert_freeze, insert_bypass, approve_digest, freeze_tag, bypass_tag,
  get_approval, get_freeze, get_bypass,
}
use ribat.Store.Rows.{Db}
use ribat.Store.Export.{ExportedState}
use ribat.Store.Export.Import.{import_state}
use ribat.Engine.Decide.Lasts.{Lasting, record_event-Keeps}
use ribat.Commands.{Machine, UsageError, Problem, Outcome, on_error, with_state}
use ribat.Commands.Args.{OperationOptions}
use ribat.Commands.State.{open_configured_state, log_operation}
use ribat.Commands.Grants.{printed_row, read_operation, require, approve_in, bypass_in, freeze_in}
use ribat.Commands.Run.{run}
use ribat.Commands.Keeps.{
  Enclosing, Keeps-of_result, Keeps-on_error, Keeps-with_state, Keeps-open_configured_state,
}

-- A relation that every operation of the store keeps.
pub record Enduring : Type 1 where
  pub lasting : Lasting
  pub enclosing : Enclosing lasting.stable.order
  pub approves :
      (g : Grant) (digest : Text) (w : World)
      → lasting.stable.order.rel w
          (at (record w.db { approvals = insert_approval g digest w.db.approvals }) w)
  pub freezes :
      (g : Grant) (digest : Text) (w : World)
      → lasting.stable.order.rel w
          (at (record w.db { freezes = insert_freeze g digest w.db.freezes }) w)
  pub bypasses :
      (g : Grant) (w : World)
      → lasting.stable.order.rel w (at (record w.db { bypasses = insert_bypass g w.db.bypasses }) w)
  pub imports :
      (show : ℤ → Text) (st : ExportedState) → Keeps lasting.stable.order (import_state show st)

abbrev pub order_of : Enduring → Preorder
order_of n = n.lasting.stable.order

-- An `INSERT` followed by the query of the row.
insert_and_read-Keeps :
    (o : Preorder) {A : Type 0} (s t u : Text) (f : Db → Db) (id : World → ℕ) (get : ℕ → World → A)
    → ((w : World) → o.rel w (at (f w.db) w))
    → Keeps o (
        call s >>= λ _.
        change f >>= λ _. call t >>= λ _. gets id >>= λ i. call u >>= λ _. gets (get i))
insert_and_read-Keeps o s t u f id get h = Keeps-bind o _ _ (Keeps-call o s) λ _.
    Keeps-bind o _ _ (Keeps-change o f h) λ _.
      Keeps-bind o _ _ (Keeps-call o t)
        λ _. Keeps-bind o _ _ (Keeps-gets o id) λ i. Keeps-query o u (get i)

module _ (o : Preorder) where
  Keeps-printed_row :
      {A : Type 0} (print : A → List Text) (row : Option A) → Keeps o (printed_row print row)
  unfolding printed_row
  Keeps-printed_row print none = Keeps-raise o _
  Keeps-printed_row print (some row) = Keeps-pure o _

  Keeps-read_operation :
      (m : Machine) (args : List Text) (command : Text) (require_ttl : Bool)
      → Keeps o (read_operation m args command require_ttl)
  unfolding read_operation require
  Keeps-read_operation m args command require_ttl = Keeps-bind o _ _ (Keeps-of_result o _ _) λ x.
      Keeps-bind o _ _ (Keeps-of_result o _ _)
        λ _. Keeps-bind o _ _ (Keeps-of_result o _ _) λ ref. Keeps-pure o (x, ref)

module _ (n : Enduring) where
  pub Keeps-log_operation :
      (cfg : Config) (operation : Text) (ref : Reference) (digest actor reason : Text) (now : Time)
      → Keeps (order_of n) (log_operation cfg operation ref digest actor reason now)
  unfolding log_operation
  Keeps-log_operation cfg operation ref digest actor reason now =
      Keeps-on_error (order_of n) _ _ (record_event-Keeps n.lasting cfg.audit.path _)

  -- What the three grants do in an open state.
  Keeps-granted :
      {A : Type 0} (wording : Text → Problem) (insert : Act Text (Option A)) (cfg : Config)
      (operation : Text) (ref : Reference) (digest actor reason : Text) (now : Time)
      (print : A → List Text)
      → Keeps (order_of n) insert
      → Keeps (order_of n) (
          on_error wording insert >>= λ row.
          log_operation cfg operation ref digest actor reason now >>= λ _. printed_row print row)
  Keeps-granted wording insert cfg operation ref digest actor reason now print h =
      Keeps-bind (order_of n) _ _ (Keeps-on_error (order_of n) _ _ h) λ row.
        Keeps-bind (order_of n) _ _ (Keeps-log_operation cfg operation ref digest actor reason now)
          λ _. Keeps-printed_row (order_of n) print row

  pub Keeps-approve_in :
      (m : Machine) (x : OperationOptions) (ref : Reference) (cfg : Config)
      → Keeps (order_of n) (approve_in m x ref cfg)
  unfolding approve_in approve_digest get_approval
  Keeps-approve_in m x ref cfg =
      Keeps-granted _ _ _ _ _ _ _ _ _ _
        (insert_and_read-Keeps (order_of n) _ _ _ _ _ _ (λ w. n.approves _ _ w))

  pub Keeps-bypass_in :
      (m : Machine) (x : OperationOptions) (ref : Reference) (cfg : Config)
      → Keeps (order_of n) (bypass_in m x ref cfg)
  unfolding bypass_in bypass_tag get_bypass
  Keeps-bypass_in m x ref cfg =
      Keeps-granted _ _ _ _ _ _ _ _ _ _
        (insert_and_read-Keeps (order_of n) _ _ _ _ _ _ (λ w. n.bypasses _ w))

  pub Keeps-freeze_in :
      (m : Machine) (x : OperationOptions) (ref : Reference) (cfg : Config)
      → Keeps (order_of n) (freeze_in m x ref cfg)
  unfolding freeze_in freeze_tag get_freeze
  Keeps-freeze_in m x ref cfg =
      Keeps-granted _ _ _ _ _ _ _ _ _ _
        (insert_and_read-Keeps (order_of n) _ _ _ _ _ _ (λ w. n.freezes _ _ w))

  -- A command that opens the state that its options name.
  pub Keeps-opened :
      {A : Type 0} (m : Machine) (path command : Text) (run : Config → Act Problem A)
      → ((cfg : Config) → Keeps (order_of n) (run cfg))
      → Keeps
          (order_of n)
          (open_configured_state m path command >>= λ cfg. with_state cfg.state.path (run cfg))
  Keeps-opened m path command run h =
      Keeps-bind (order_of n) _ _ (Keeps-open_configured_state (order_of n) m path command)
        λ cfg. Keeps-with_state (order_of n) n.enclosing cfg.state.path (run cfg) (h cfg)

  pub Keeps-grant :
      (m : Machine) (args : List Text) (command : Text) (require_ttl : Bool)
      (passed : Reference → Bool) (e : UsageError)
      (run : OperationOptions → Reference → Config → Act Problem Outcome)
      → ((x : OperationOptions) (ref : Reference) (cfg : Config)
          → Keeps (order_of n) (run x ref cfg))
      → Keeps (order_of n) (
          read_operation m args command require_ttl >>= λ (x, ref). require (passed ref) e >>= λ _.
          open_configured_state m x.config_path command >>= λ cfg.
          with_state cfg.state.path (run x ref cfg))
  unfolding require
  Keeps-grant m args command require_ttl passed e run h =
      Keeps-bind (order_of n) _ _ (Keeps-read_operation (order_of n) m args command require_ttl)
        λ (x, ref).
          Keeps-bind (order_of n) _ _ (Keeps-of_result (order_of n) _ _)
            λ _. Keeps-opened m x.config_path command (run x ref) (h x ref)
