-- ===== src/Commands/Keeps.antt =====
-- What a run of the binary keeps of the world: every relation that the operations below it keep.
pub mod Queries
pub mod Grants
pub mod Run
use ribat.Base.{
  ℤ, Bool, true, false, List, [], ◌∷◌, Option, none, some, Text, Result, ok, err, if◌then◌else◌,
  text_eq, codes, is_empty,
}
use ribat.Time.{Time}
use ribat.Image.{Reference}
use ribat.Audit.Logger.{record_event}
use ribat.Policy.{Config}
use ribat.Store.Rows.{Db, empty_db, Observation}
use ribat.Store.Overrides.{local_override, active_freeze, active_approval, active_bypass}
use ribat.Store.Observations.{get_observation, list_observations}
use ribat.Store.Overrides.Insert.{
  Grant, insert_approval, insert_freeze, insert_bypass, approve_digest, freeze_tag, bypass_tag,
  get_approval, get_freeze, get_bypass,
}
use ribat.Store.Export.{
  ExportedState, export_state, list_by_id, list_all_observations, list_approvals, list_freezes,
  list_bypasses, list_cosign_verifications,
}
use ribat.Store.Decisions.{list_decisions}
use ribat.Store.Export.Import.{import_state}
use ribat.Store.World.{World, Act, call, change, pure, raise, gets, ◌>>=◌}
use ribat.Store.World.Runs.{at}
use ribat.Store.World.Keeps.{
  Preorder, Keeps, Keeps-pure, Keeps-raise, Keeps-gets, Keeps-if, Keeps-call, Keeps-change,
  Keeps-bind, Keeps-query,
}
use ribat.Engine.Decide.Lasts.{Lasting, record_event-Keeps}
use ribat.Commands.{
  Machine, Problem, Outcome, of_result, on_error, with_state, forget, conclude, concluded,
}
use ribat.Commands.State.{open_sqlite, open_configured_state, log_operation}
use ribat.Commands.Configured.{checked_config}
use ribat.Commands.Queries.{print_observations, print_status, observations_of, status_in}

-- A relation that lasts, and for which a store in memory is as good as none.
pub record Enclosing (o : Preorder) : Type 0 where
  pub forgets :
      (w v : World) → o.rel (record w { db = empty_db }) v → o.rel w (record v { db = w.db })

module _ (o : Preorder) {E F A : Type 0} where
  pub Keeps-of_result : (f : E → F) (r : Result E A) → Keeps o (of_result f r)
  unfolding of_result
  Keeps-of_result f r = record { kept = λ w. o.same w }

  pub Keeps-on_error : (f : E → F) (m : Act E A) → Keeps o m → Keeps o (on_error f m)
  unfolding on_error
  Keeps-on_error f m h = record { kept = λ w. h.kept w }

module _ (o : Preorder) (enclosing : Enclosing o) {A : Type 0} where
  with_state-if :
      (memory : Bool) (run : Act Problem A)
      → Keeps o run
      → (w : World)
      → o.rel w (if memory then forget w.db (run (record w { db = empty_db })) else run w).1
  unfolding forget
  with_state-if true run h w = enclosing.forgets w _ (h.kept (record w { db = empty_db }))
  with_state-if false run h w = h.kept w

  pub Keeps-with_state :
      (path : Text) (run : Act Problem A) → Keeps o run → Keeps o (with_state path run)
  unfolding with_state
  Keeps-with_state path run h = record {
    kept = with_state-if (text_eq path (codes ":memory:")) run h;
  }

module _ (o : Preorder) where
  concluded-Keeps :
      {v : World} (r : Result Problem Outcome × World) → o.rel v r.1 → o.rel v (concluded r).1
  unfolding concluded
  concluded-Keeps (ok x, w) k = k
  concluded-Keeps (err p, w) k = k

  pub Keeps-conclude :
      (run : Act Problem Outcome) → Keeps o run → (w : World) → o.rel w (conclude run w).1
  unfolding conclude
  Keeps-conclude run h w = concluded-Keeps (run w) (h.kept w)

  pub Keeps-open_sqlite : (path : Text) → Keeps o (open_sqlite path)
  unfolding open_sqlite
  Keeps-open_sqlite path = Keeps-if o (is_empty path) _ _ (Keeps-raise o _) (
      Keeps-bind o _ _
        (Keeps-if o (text_eq path (codes ":memory:")) _ _ (Keeps-pure o tt) (Keeps-call o _))
        λ _. Keeps-bind o _ _ (Keeps-call o _) λ _. Keeps-call o _)

  pub Keeps-open_configured_state :
      (m : Machine) (path command : Text) → Keeps o (open_configured_state m path command)
  unfolding open_configured_state
  Keeps-open_configured_state m path command = Keeps-bind o _ _ (Keeps-of_result o _ _) λ cfg.
      Keeps-bind o _ _ (Keeps-on_error o _ _ (Keeps-open_sqlite cfg.state.path))
        λ _. Keeps-pure o cfg

  pub Keeps-local_override :
      (registry repository tag digest : Text) (now : Time)
      → Keeps o (local_override registry repository tag digest now)
  unfolding local_override active_freeze active_approval active_bypass
  Keeps-local_override registry repository tag digest now =
      Keeps-bind o _ _ (Keeps-query o _ _) λ _.
        Keeps-bind o _ _ (Keeps-query o _ _)
          λ _. Keeps-bind o _ _ (Keeps-query o _ _) λ _. Keeps-pure o _

  pub Keeps-export_state : Keeps o export_state
  unfolding export_state list_all_observations list_approvals list_freezes list_bypasses
      list_cosign_verifications list_by_id list_decisions
  Keeps-export_state = Keeps-bind o _ _ (Keeps-query o _ _) λ _.
      Keeps-bind o _ _ (Keeps-query o _ _) λ _. Keeps-bind o _ _ (Keeps-query o _ _) λ _.
        Keeps-bind o _ _ (Keeps-query o _ _) λ _.
          Keeps-bind o _ _ (Keeps-query o _ _)
            λ _. Keeps-bind o _ _ (Keeps-query o _ _) λ _. Keeps-pure o _

  -- `runStatus`, behind the opening of the state.
  pub print_observations-Keeps :
      (m : Machine) (observations : List Observation) (w : World)
      → o.rel w (print_observations m observations w).1
  unfolding print_observations
  print_observations-Keeps m [] w = o.same w
  print_observations-Keeps m (obs ∷ observations) w =
      o.after ((Keeps-local_override obs.registry obs.repository obs.tag obs.digest m.now).kept w)
        (print_observations-Keeps m observations _)

  Keeps-print_status :
      (m : Machine) (ref : Reference) (observations : List Observation)
      → Keeps o (print_status m ref observations)
  unfolding print_status
  Keeps-print_status m ref [] = record { kept = λ w. o.same w }
  Keeps-print_status m ref (obs ∷ observations) = record {
    kept = λ w. print_observations-Keeps m (obs ∷ observations) w;
  }

  pub Keeps-status_in : (m : Machine) (ref : Reference) → Keeps o (status_in m ref)
  unfolding status_in observations_of get_observation list_observations
  Keeps-status_in m ref =
      Keeps-bind o _ _
        (Keeps-on_error o _ _ (
          Keeps-if o (is_empty ref.digest) _ _ (Keeps-query o _ _)
            (Keeps-bind o _ _ (Keeps-query o _ _) λ _. Keeps-pure o _)))
        λ observations. Keeps-print_status m ref observations
