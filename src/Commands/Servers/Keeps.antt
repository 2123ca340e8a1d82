-- ===== src/Commands/Servers/Keeps.antt =====
-- What the two servers keep of the world, however many requests come.
use ribat.Base.{List, [], ◌∷◌, Option, Text, Result, ok, err, is_empty}
use ribat.Policy.{Config}
use ribat.Store.World.{World, Act}
use ribat.Store.World.Keeps.{Preorder, Keeps, Keeps-raise, Keeps-if, Keeps-call, Keeps-bind}
use ribat.Engine.Decide.Lasts.{Lasting, decide_lasts}
use ribat.Authz.{Readers}
use ribat.Authz.Server.{PluginRequest}
use ribat.Authz.Server.Keeps.{handle_authz_req-Keeps}
use ribat.Proxy.Server.{ProxyState, HttpRequest}
use ribat.Proxy.Server.Keeps.{handle_v2-world}
use ribat.Commands.{Machine, new_engine}
use ribat.Commands.Servers.{
  Run, plugin_server, serve_plugin, proxy_on, serve_proxy, serve_fresh, listen, unlistened, running,
  listen_on_socket, listen_on_address,
}

module _ (l : Lasting) where
  pub serve_plugin-Keeps :
      (readers : Readers) (cfg : Config) (visits : List (Machine × Result Text PluginRequest))
      (w : World)
      → l.stable.order.rel w (serve_plugin readers cfg visits w).1
  unfolding serve_plugin plugin_server
  serve_plugin-Keeps readers cfg [] w = l.stable.order.same w
  serve_plugin-Keeps readers cfg ((m, q) ∷ visits) w =
      l.stable.order.after
        (handle_authz_req-Keeps l readers m.message_formats (plugin_server cfg m)
          (λ req v. decide_lasts l (new_engine m cfg) req v) q w)
        (serve_plugin-Keeps readers cfg visits _)

  serve_proxy-Keeps :
      (cfg : Config) (visits : List (Machine × HttpRequest)) (st : ProxyState)
      → l.stable.order.rel st.world (serve_proxy cfg visits st).1.world
  unfolding serve_proxy proxy_on
  serve_proxy-Keeps cfg [] st = l.stable.order.same st.world
  serve_proxy-Keeps cfg ((m, r) ∷ visits) st =
      l.stable.order.after
        (handle_v2-world l.stable.order (proxy_on cfg m)
          (λ req v. decide_lasts l (new_engine m cfg) req v) r st)
        (serve_proxy-Keeps cfg visits _)

  pub serve_fresh-Keeps :
      (cfg : Config) (visits : List (Machine × HttpRequest)) (w : World)
      → l.stable.order.rel w (serve_fresh cfg visits w).1
  unfolding serve_fresh
  serve_fresh-Keeps cfg visits w =
      serve_proxy-Keeps cfg visits (record { world = w; allowed_blobs = [] })

module _ (o : Preorder) where
  unlistened-Keeps :
      {R : Type 0} {v : World} (line : Text) (r : Result Text (Unit {0}) × World)
      (rest : World → Run R × World)
      → o.rel v r.1
      → ((w : World) → o.rel w (rest w).1)
      → o.rel v (unlistened line r rest).1
  unfolding unlistened
  unlistened-Keeps line (err e, w) rest h k = h
  unlistened-Keeps line (ok x, w) rest h k = o.after h (k w)

  pub Keeps-listen :
      {R : Type 0} (line : Text) (bind : Act Text (Unit {0})) (serve : World → List R × World)
      (stopped : Option Text)
      → Keeps o bind
      → ((w : World) → o.rel w (serve w).1)
      → Keeps o (listen line bind serve stopped)
  unfolding listen running
  Keeps-listen line bind serve stopped h k = record {
    kept = λ w. unlistened-Keeps line (bind w) _ (h.kept w) (λ v. k v);
  }

  pub Keeps-listen_on_socket : (path : Text) → Keeps o (listen_on_socket path)
  unfolding listen_on_socket
  Keeps-listen_on_socket path =
      Keeps-if o (is_empty path) _ _ (Keeps-raise o _) (
        Keeps-bind o _ _ (Keeps-call o _)
          λ _. Keeps-bind o _ _ (Keeps-call o _) λ _. Keeps-call o _)

  pub Keeps-listen_on_address : (address : Text) → Keeps o (listen_on_address address)
  unfolding listen_on_address
  Keeps-listen_on_address address =
      Keeps-if o (is_empty address) _ _ (Keeps-raise o _) (Keeps-call o _)
