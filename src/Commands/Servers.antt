-- ===== src/Commands/Servers.antt =====
-- `runAuthz` and `runProxy` with their `ListenAndServe`, over the requests that come while they run.
pub mod Keeps
use ribat.Base.{
  ℕ, ℤ, pos, true, List, [], ◌∷◌, ◌++◌, Option, none, some, if◌then◌else◌, Text, codes, text_eq,
  is_empty, Result, ok, err,
}
use ribat.Policy.{Config}
use ribat.Store.World.{World, Act, call, pure, raise, ◌>>=◌, ◌>>◌}
use ribat.Engine.Decide.{decide}
use ribat.Authz.{Readers}
use ribat.Authz.Server.{Server, PluginRequest, PluginResponse, handle_authz_req}
use ribat.Registry.Resolver.{fetch_manifest, fetch_blob}
use ribat.Proxy.Server.{Proxy, ProxyState, HttpRequest, HttpResponse, handle_v2}
use ribat.Commands.{
  Machine, address_required, socket_required, Problem, usage_error, exit_code, server_failed,
  Outcome, success, failure, worded, of_result, on_error, new_resolver, new_engine, with_state,
}
use ribat.Commands.Args.{listen_flag, socket_flag, parse_server_args}
use ribat.Commands.State.{open_configured_state}

-- The requests of type `Q` while a server runs, each with the machine as it is at that time, and the
-- error that it stops with; there is none when it has been shut down.
pub record Session (Q : Type 0) : Type 0 where
  pub visits : List (Machine × Q)
  pub stopped : Option Text

-- What the process has written and answered when it ends.
abbrev pub Run : Type 0 → Type 0
Run R = Outcome × List R

unfoldable pub stop : Option Text → Outcome → Outcome
stop none o = o
stop (some e) o = record o { code = exit_code (server_failed e); problem = some (server_failed e) }

module _ {R : Type 0} where
  unfoldable pub served : Result Problem (Run R) × World → Run R × World
  unfolding failure
  served (ok o, w) = (o, w)
  served (err p, w) = ((failure p, []), w)

  -- The end of a server that could not listen.
  unlistened : Text → Result Text (Unit {0}) × World → (World → Run R × World) → Run R × World
  unfolding stop
  unlistened line (err e, w) rest = ((stop (some e) (success (line ∷ [])), []), w)
  unlistened line (ok x, w) rest = rest w

  running : Run R × World → Result Problem (Run R) × World
  running (o, w) = (ok o, w)

  unfoldable pub listen :
      Text → Act Text (Unit {0}) → (World → List R × World) → Option Text → Act Problem (Run R)
  unfolding unlistened running stop
  listen line bind serve stopped w = running (
      unlistened line (bind w)
        λ v. let (answers, v') = serve v in ((stop stopped (success (line ∷ [])), answers), v'))

-- The engine of the server, the store and the logger, at the time of a request.
unfoldable pub plugin_server : Config → Machine → Server
plugin_server cfg m = record {
  decide = decide (new_engine m cfg);
  has_decisions = true;
  audit = some cfg.audit.path;
  now = m.now;
}

unfoldable pub serve_plugin :
    Readers
    → Config
    → List (Machine × Result Text PluginRequest)
    → World
    → List PluginResponse × World
unfolding plugin_server
serve_plugin readers cfg [] w = ([], w)
serve_plugin readers cfg ((m, q) ∷ visits) w =
    let (answer, w') = handle_authz_req readers m.message_formats (plugin_server cfg m) q w in
    let (answers, w'') = serve_plugin readers cfg visits w' in (answer ∷ answers, w'')

-- The socket of the plugin: its directory, a stale one that goes, and the listener.
unfoldable pub listen_on_socket : Text → Act Text (Unit {0})
listen_on_socket path = if is_empty path then raise (codes "authz socket path is required") else do
  call (codes "create authz socket directory: ")
  call (codes "remove stale authz socket: ")
  call (codes "listen on authz socket: ")

unfoldable pub listen_on_address : Text → Act Text (Unit {0})
listen_on_address address =
    if is_empty address then raise (codes "proxy listen address is required") else call []

unfoldable pub proxy_on : Config → Machine → Proxy
proxy_on cfg m = record {
  decide = decide (new_engine m cfg);
  fetch_manifest = λ ref reference.
      worded m.print_registry_error (fetch_manifest (new_resolver m) ref reference []).0;
  fetch_blob = λ registry repository digest.
      worded m.print_registry_error (fetch_blob (new_resolver m) registry repository digest []).0;
  unmarshal = m.unmarshal_manifest;
  print_nat = λ n. m.show (pos n);
  print_int = m.show;
  formats = m.message_formats;
}

unfoldable pub serve_proxy :
    Config → List (Machine × HttpRequest) → ProxyState → List HttpResponse × ProxyState
unfolding proxy_on
serve_proxy cfg [] st = ([], st)
serve_proxy cfg ((m, r) ∷ visits) st =
    let (answer, st') = handle_v2 (proxy_on cfg m) r st in
    let (answers, st'') = serve_proxy cfg visits st' in (answer ∷ answers, st'')

-- `ensureState` starts with no blobs, and nothing of them is left at the end.
unfoldable pub serve_fresh :
    Config → List (Machine × HttpRequest) → World → List HttpResponse × World
unfolding serve_proxy
serve_fresh cfg visits w =
    let (answers, st) = serve_proxy cfg visits (record { world = w; allowed_blobs = [] }) in
    (answers, st.world)

module _ (m : Machine) where
  unfoldable pub authz :
      Readers → Session (Result Text PluginRequest) → List Text → Act Problem (Run PluginResponse)
  unfolding listen listen_on_socket
  authz readers session args = do
    o ← of_result usage_error (parse_server_args m args (codes "authz") socket_flag socket_required)
    cfg ← open_configured_state m o.config_path (codes "authz")
    with_state cfg.state.path (
        listen (codes "ribat authz listening on " ++ o.address) (listen_on_socket o.address)
          (serve_plugin readers cfg session.visits) session.stopped)

  unfoldable pub proxy : Session HttpRequest → List Text → Act Problem (Run HttpResponse)
  unfolding listen listen_on_address
  proxy session args = do
    o ←
        of_result usage_error
          (parse_server_args m args (codes "proxy") listen_flag address_required)
    cfg ← open_configured_state m o.config_path (codes "proxy")
    with_state cfg.state.path (
        listen (codes "ribat proxy listening on " ++ o.address) (listen_on_address o.address)
          (serve_fresh cfg session.visits) session.stopped)

  unfoldable pub run_authz :
      Readers → Session (Result Text PluginRequest) → List Text → World → Run PluginResponse × World
  unfolding authz served
  run_authz readers session args w = served (authz readers session args w)

  unfoldable pub run_proxy : Session HttpRequest → List Text → World → Run HttpResponse × World
  unfolding proxy served
  run_proxy session args w = served (proxy session args w)
