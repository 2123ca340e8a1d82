-- ===== src/Commands/Keeps/Run.antt =====
-- What any command line keeps of the world, and what any sequence of them does.
use ribat.Base.{
  Bool, true, false, not, ◌||◌, List, [], ◌∷◌, ◌++◌, Option, none, some, String, Text, codes,
  text_eq, is_empty, Result, ok, err, if◌then◌else◌,
}
use ribat.Store.World.{World, Act}
use ribat.Store.World.Keeps.{Preorder, Keeps, Keeps-pure, Keeps-call, Keeps-bind}
use ribat.Engine.{Decision, EngineError}
use ribat.Engine.Decide.Lasts.{decide_lasts}
use ribat.Commands.{Machine, Problem, Outcome, new_engine}
use ribat.Commands.Grants.{
  approve_in, bypass_in, freeze_in, approve, bypass, freeze, run_approve, run_bypass, run_freeze,
}
use ribat.Commands.Queries.{
  decide_in, decide_image, command_request, decided, run_inspect, run_policy_check, run_decide,
  run_status,
}
use ribat.Commands.AuditLog.{run_audit}
use ribat.Commands.Transfer.{
  export_in, export, import_in, import, run_export_state, run_import_state,
}
use ribat.Commands.Servers.{
  Run, authz, proxy, run_authz, run_proxy, served, listen, listen_on_socket, listen_on_address,
  serve_plugin, serve_fresh,
}
use ribat.Commands.Servers.Keeps.{
  serve_plugin-Keeps, serve_fresh-Keeps, Keeps-listen, Keeps-listen_on_socket,
  Keeps-listen_on_address,
}
use ribat.Commands.Run.{
  Setting, run_policy, run_command, run, misuse, plugin_outcome, proxy_outcome,
}
use ribat.Commands.Keeps.{Keeps-of_result, Keeps-on_error, Keeps-conclude, Keeps-export_state}
use ribat.Commands.Keeps.Queries.{Keeps-inspect, Keeps-policy_check, Keeps-status, Keeps-audit}
use ribat.Commands.Keeps.Grants.{
  Enduring, order_of, Keeps-log_operation, Keeps-approve_in, Keeps-bypass_in, Keeps-freeze_in,
  Keeps-opened, Keeps-grant,
}

module _ (n : Enduring) where
  decided-Keeps :
      (m : Machine) (out : (Decision × Option EngineError) × World) {v : World}
      → (order_of n).rel v out.1
      → (order_of n).rel v (decided m out).1
  unfolding decided
  decided-Keeps m ((d, some e), w) h = h
  decided-Keeps m ((d, none), w) h = h

  Keeps-decide_image : (m : Machine) (args : List Text) → Keeps (order_of n) (decide_image m args)
  unfolding decide_image decide_in
  Keeps-decide_image m args = Keeps-bind (order_of n) _ _ (Keeps-of_result (order_of n) _ _) λ x.
      Keeps-opened n m x.config_path (codes "decide") (decide_in m x.image_ref) λ cfg. record {
        kept = λ w.
            decided-Keeps m _
              (decide_lasts n.lasting (new_engine m cfg) (command_request m x.image_ref) w);
      }

  Keeps-export : (m : Machine) (args : List Text) → Keeps (order_of n) (export m args)
  unfolding export export_in
  Keeps-export m args = Keeps-bind (order_of n) _ _ (Keeps-of_result (order_of n) _ _) λ path.
      Keeps-opened n m path (codes "export-state") (export_in m) λ cfg.
        Keeps-bind (order_of n) _ _ (Keeps-log_operation n cfg _ _ _ _ _ _) λ _.
          Keeps-bind (order_of n) _ _
            (Keeps-on_error (order_of n) _ _ (Keeps-export_state (order_of n)))
            λ st.
              Keeps-bind (order_of n) _ _
                (Keeps-on_error (order_of n) _ _ (Keeps-call (order_of n) _))
                λ _. Keeps-pure (order_of n) _

  Keeps-import : (m : Machine) (args : List Text) → Keeps (order_of n) (import m args)
  unfolding import import_in
  Keeps-import m args = Keeps-bind (order_of n) _ _ (Keeps-of_result (order_of n) _ _) λ x.
      Keeps-opened n m x.config_path (codes "import-state") (import_in m x.input_path) λ cfg.
        Keeps-bind (order_of n) _ _ (Keeps-of_result (order_of n) _ _) λ input.
          Keeps-bind (order_of n) _ _ (Keeps-of_result (order_of n) _ _) λ st.
            Keeps-bind (order_of n) _ _ (Keeps-on_error (order_of n) _ _ (n.imports m.show st)) λ _.
              Keeps-bind (order_of n) _ _ (Keeps-log_operation n cfg _ _ _ _ _ _)
                λ _. Keeps-pure (order_of n) _

  served-Keeps :
      {R : Type 0} {v : World} (r : Result Problem (Run R) × World)
      → (order_of n).rel v r.1
      → (order_of n).rel v (served r).1
  unfolding served
  served-Keeps (ok x, w) h = h
  served-Keeps (err p, w) h = h

  plugin_outcome-Keeps :
      (m : Machine) (s : Setting) (args : List Text) (w : World)
      → (order_of n).rel w (plugin_outcome m s args w).1
  unfolding plugin_outcome run_authz authz
  plugin_outcome-Keeps m s args w = served-Keeps _ (
      (Keeps-bind (order_of n) _ _ (Keeps-of_result (order_of n) _ _) λ x.
          Keeps-opened n m x.config_path (codes "authz")
            (λ cfg.
              listen (codes "ribat authz listening on " ++ x.address) (listen_on_socket x.address)
                (serve_plugin s.readers cfg s.plugin_session.visits) s.plugin_session.stopped)
            λ cfg.
              Keeps-listen (order_of n) _ _ _ _ (Keeps-listen_on_socket (order_of n) x.address)
                (serve_plugin-Keeps n.lasting s.readers cfg s.plugin_session.visits)).kept
        w)

  proxy_outcome-Keeps :
      (m : Machine) (s : Setting) (args : List Text) (w : World)
      → (order_of n).rel w (proxy_outcome m s args w).1
  unfolding proxy_outcome run_proxy proxy
  proxy_outcome-Keeps m s args w = served-Keeps _ (
      (Keeps-bind (order_of n) _ _ (Keeps-of_result (order_of n) _ _) λ x.
          Keeps-opened n m x.config_path (codes "proxy")
            (λ cfg.
              listen (codes "ribat proxy listening on " ++ x.address) (listen_on_address x.address)
                (serve_fresh cfg s.proxy_session.visits) s.proxy_session.stopped)
            λ cfg.
              Keeps-listen (order_of n) _ _ _ _ (Keeps-listen_on_address (order_of n) x.address)
                (serve_fresh-Keeps n.lasting cfg s.proxy_session.visits)).kept
        w)

  run_approve-Keeps :
      (m : Machine) (args : List Text) (w : World) → (order_of n).rel w (run_approve m args w).1
  unfolding run_approve approve
  run_approve-Keeps m args w =
      Keeps-conclude (order_of n) _
        (Keeps-grant n m args (codes "approve") false
          (λ ref. not (is_empty ref.digest || is_empty ref.tag)) _ (approve_in m)
          (Keeps-approve_in n m))
        w

  run_bypass-Keeps :
      (m : Machine) (args : List Text) (w : World) → (order_of n).rel w (run_bypass m args w).1
  unfolding run_bypass bypass
  run_bypass-Keeps m args w =
      Keeps-conclude (order_of n) _
        (Keeps-grant n m args (codes "bypass") true (λ ref. not ref.is_digest_pinned) _
          (bypass_in m) (Keeps-bypass_in n m))
        w

  run_freeze-Keeps :
      (m : Machine) (args : List Text) (w : World) → (order_of n).rel w (run_freeze m args w).1
  unfolding run_freeze freeze
  run_freeze-Keeps m args w =
      Keeps-conclude (order_of n) _
        (Keeps-grant n m args (codes "freeze") false (λ ref. not (is_empty ref.tag)) _ (freeze_in m)
          (Keeps-freeze_in n m))
        w

  if-Keeps :
      (b : Bool) (x y : Outcome × World) {v : World}
      → (order_of n).rel v x.1
      → (order_of n).rel v y.1
      → (order_of n).rel v (if b then x else y).1
  if-Keeps true x y h k = h
  if-Keeps false x y h k = k

  run_policy-Keeps :
      (m : Machine) (args : List Text) (w : World) → (order_of n).rel w (run_policy m args w).1
  unfolding run_policy misuse run_policy_check
  run_policy-Keeps m [] w = (order_of n).same w
  run_policy-Keeps m (name ∷ args) w =
      if-Keeps (text_eq name (codes "check")) _ _
        (Keeps-conclude (order_of n) _ (Keeps-policy_check (order_of n) m args) w)
        ((order_of n).same w)

module _ (n : Enduring) (m : Machine) (s : Setting) where
  run_command-Keeps :
      (name : Text) (args : List Text) (w : World)
      → (order_of n).rel w (run_command m s name args w).1
  unfolding run_command run_inspect run_decide run_audit run_export_state run_import_state
      run_status misuse
  run_command-Keeps name args w =
      let o : Preorder = order_of n in
      let is : String → Bool = λ command. text_eq name (codes command) in
      let ends = λ (run : Act Problem Outcome) (k : Keeps (order_of n) run).
        Keeps-conclude (order_of n) run k w in
      let idle : (order_of n).rel w w = (order_of n).same w in
      if-Keeps n (is "version") _ _ idle (
        if-Keeps n (is "inspect") _ _ (ends _ (Keeps-inspect o m args)) (
          if-Keeps n (is "decide") _ _ (ends _ (Keeps-decide_image n m args)) (
            if-Keeps n (is "authz") _ _ (plugin_outcome-Keeps n m s args w) (
              if-Keeps n (is "proxy") _ _ (proxy_outcome-Keeps n m s args w) (
                if-Keeps n (is "approve") _ _ (run_approve-Keeps n m args w) (
                  if-Keeps n (is "bypass") _ _ (run_bypass-Keeps n m args w) (
                    if-Keeps n (is "freeze") _ _ (run_freeze-Keeps n m args w) (
                      if-Keeps n (is "audit") _ _ (ends _ (Keeps-audit o m args)) (
                        if-Keeps n (is "export-state") _ _ (ends _ (Keeps-export n m args)) (
                          if-Keeps n (is "import-state") _ _ (ends _ (Keeps-import n m args)) (
                            if-Keeps n (is "policy") _ _ (run_policy-Keeps n m args w) (
                              if-Keeps n (is "status") _ _
                                (ends _ (Keeps-status o n.enclosing m args))
                                (if-Keeps n (is "help" || is "-h" || is "--help") _ _ idle
                                  idle)))))))))))))

  pub run-Keeps : (args : List Text) (w : World) → (order_of n).rel w (run m s args w).1
  unfolding run misuse
  run-Keeps [] w = (order_of n).same w
  run-Keeps (name ∷ args) w = run_command-Keeps name args w
