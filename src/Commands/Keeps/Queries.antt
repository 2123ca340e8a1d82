-- ===== src/Commands/Keeps/Queries.antt =====
-- What the commands that read keep of the world.
use ribat.Base.{
  Bool, true, false, List, [], ◌∷◌, Option, none, some, Text, is_empty, Result, ok, err,
  if◌then◌else◌,
}
use ribat.Policy.{Config}
use ribat.Store.World.{World, call}
use ribat.Store.World.Keeps.{
  Preorder, Keeps, Keeps-pure, Keeps-raise, Keeps-gets, Keeps-if, Keeps-call, Keeps-bind,
}
use ribat.Commands.{Machine}
use ribat.Commands.Args.{AuditOptions}
use ribat.Commands.Queries.{read_image, inspect_image, inspect, policy_check, status}
use ribat.Commands.AuditLog.{
  Filters, Printed, encoded, before, shown, passes, ended, print_events, print_lines, audit_of,
  audit,
}
use ribat.Commands.Keeps.{
  Enclosing, Keeps-of_result, Keeps-on_error, Keeps-with_state, Keeps-open_sqlite, Keeps-status_in,
}
use ribat.Audit.{Event}

module _ (o : Preorder) where
  Keeps-inspect_image : (m : Machine) (s : Text) → Keeps o (inspect_image m s)
  unfolding inspect_image read_image
  Keeps-inspect_image m s =
      Keeps-bind o _ _ (Keeps-of_result o _ _)
        λ ref. Keeps-if o ref.is_digest_pinned _ _ (Keeps-pure o _) (Keeps-of_result o _ _)

  pub Keeps-inspect : (m : Machine) (args : List Text) → Keeps o (inspect m args)
  unfolding inspect
  Keeps-inspect m [] = Keeps-raise o _
  Keeps-inspect m (s ∷ []) = Keeps-inspect_image m s
  Keeps-inspect m (s ∷ extra ∷ args) = Keeps-raise o _

  pub Keeps-policy_check : (m : Machine) (args : List Text) → Keeps o (policy_check m args)
  unfolding policy_check read_image
  Keeps-policy_check m args = Keeps-bind o _ _ (Keeps-of_result o _ _) λ x.
      Keeps-bind o _ _ (Keeps-of_result o _ _)
        λ ref. Keeps-bind o _ _ (Keeps-of_result o _ _) λ cfg. Keeps-pure o _

  pub Keeps-status : Enclosing o → (m : Machine) (args : List Text) → Keeps o (status m args)
  unfolding status read_image
  Keeps-status enclosing m args = Keeps-bind o _ _ (Keeps-of_result o _ _) λ x.
      Keeps-bind o _ _ (Keeps-of_result o _ _) λ ref.
        Keeps-bind o _ _ (Keeps-of_result o _ _) λ cfg.
          Keeps-bind o _ _ (Keeps-of_result o _ _) λ _.
            Keeps-bind o _ _ (Keeps-on_error o _ _ (Keeps-open_sqlite o cfg.state.path))
              λ _. Keeps-with_state o enclosing cfg.state.path _ (Keeps-status_in o m ref)

  encoded-Keeps :
      {v : World} (m : Machine) (f : Filters) (line : Text) (rest : World → Printed)
      (r : Result Text (Unit {0}) × World)
      → o.rel v r.1
      → ((w : World) → o.rel w (rest w).1)
      → o.rel v (encoded m f line rest r).1
  unfolding encoded before
  encoded-Keeps m f line rest (err e, w) h k = h
  encoded-Keeps m f line rest (ok x, w) h k = o.after h (k w)

  shown-if :
      (passed : Bool) (m : Machine) (f : Filters) (line : Text) (rest : World → Printed) (w : World)
      → ((w : World) → o.rel w (rest w).1)
      → o.rel w (if passed then encoded m f line rest (call [] w) else rest w).1
  shown-if true m f line rest w k = encoded-Keeps m f line rest _ ((Keeps-call o []).kept w) k
  shown-if false m f line rest w k = k w

  shown-Keeps :
      (m : Machine) (f : Filters) (rest : World → Printed) (event : Result Text Event) (w : World)
      → ((w : World) → o.rel w (rest w).1)
      → o.rel w (shown m f rest event w).1
  unfolding shown
  shown-Keeps m f rest (err e) w k = o.same w
  shown-Keeps m f rest (ok event) w k = shown-if (passes f event) m f _ rest w k

  print_events-Keeps :
      (m : Machine) (f : Filters) (lines : List Text) (broken : Option Text) (w : World)
      → o.rel w (print_events m f lines broken w).1
  unfolding print_events
  print_events-Keeps m f [] none w = o.same w
  print_events-Keeps m f [] (some e) w = o.same w
  print_events-Keeps m f (line ∷ lines) broken w =
      shown-Keeps m f _ (m.decode_event line) w λ v. print_events-Keeps m f lines broken v

  Keeps-audit_of : (m : Machine) (cfg : Config) (x : AuditOptions) → Keeps o (audit_of m cfg x)
  unfolding audit_of print_lines ended
  Keeps-audit_of m cfg x = Keeps-bind o _ _ (Keeps-gets o _) λ log.
      Keeps-bind o _ _ (Keeps-of_result o _ _) λ file.
        Keeps-bind o _ _ (Keeps-of_result o _ _)
          λ filter. record { kept = λ w. print_events-Keeps m _ file.0 file.1 w }

  pub Keeps-audit : (m : Machine) (args : List Text) → Keeps o (audit m args)
  unfolding audit
  Keeps-audit m args = Keeps-bind o _ _ (Keeps-of_result o _ _) λ x.
      Keeps-bind o _ _ (Keeps-of_result o _ _)
        λ cfg. Keeps-if o (is_empty cfg.audit.path) _ _ (Keeps-raise o _) (Keeps-audit_of m cfg x)
