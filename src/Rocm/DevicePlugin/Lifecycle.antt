-- ===== src/Rocm/DevicePlugin/Lifecycle.antt =====
-- operators/fake-rocm-gpu-operator/pkg/deviceplugin/server.go: start, stop and Run. The calls of the
-- operating system and of gRPC are parameters on the world `W`.
use sims.Prelude.{String, true, false, if◌then◌else◌}
use sims.Prelude.Results.{Result, ok, err, Call}
use sims.Rocm.DevicePlugin.Server.{
  Server, RegisterRequest, register_request, plugin_socket_name, kubelet_socket_name,
}

pub data OsError : Type 0 where
  not_exist : OsError
  other : String → OsError

pub data RunError : Type 0 where
  remove_stale : String → OsError → RunError
  listen_failed : String → OsError → RunError
  register_failed : String → RunError

-- What the server calls: `remove` is os.Remove, `listen` is net.Listen of a unix socket (which binds
-- it), `serve` starts the goroutine in which the gRPC server serves the listener, `graceful_stop` ends the
-- gRPC server, `close` closes the listener, `dial_register` is the Register call on the kubelet's socket,
-- `wait_done` returns when the context is cancelled, and `join` is filepath.Join.
pub record Host (W : Type 0) : Type 0 where
  pub join : String → String → String
  pub remove : String → Call W (Result OsError (Unit {0}))
  pub listen : String → Call W (Result OsError (Unit {0}))
  pub serve : String → W → W
  pub graceful_stop : W → W
  pub close : String → W → W
  pub dial_register : String → RegisterRequest → Call W (Result String (Unit {0}))
  pub wait_done : W → W

module _ {W : Type 0} (host : Host W) (version : String) where
  unfoldable pub socket_path : Server → String
  socket_path s = host.join s.socket_dir plugin_socket_name

  abbrev pub started : Server → Server
  started s = record s { listener = true; grpc_server = true }

  abbrev pub after_listen :
      Server → Result OsError (Unit {0}) × W → Result RunError (Unit {0}) × Server × W
  after_listen s (ok _, w) = (ok tt, started s, host.serve (socket_path s) w)
  after_listen s (err e, w) = (err (listen_failed (socket_path s) e), s, w)

  abbrev pub after_remove :
      Server → Result OsError (Unit {0}) × W → Result RunError (Unit {0}) × Server × W
  after_remove s (err (other t), w) = (err (remove_stale (socket_path s) (other t)), s, w)
  after_remove s (err not_exist, w) = after_listen s (host.listen (socket_path s) w)
  after_remove s (ok _, w) = after_listen s (host.listen (socket_path s) w)

  unfoldable pub start : Server → W → Result RunError (Unit {0}) × Server × W
  unfolding socket_path
  start s w = after_remove s (host.remove (socket_path s) w)

  abbrev pub remove_if_named : String → W → W
  remove_if_named String.[] w = w
  remove_if_named (String.◌∷◌ c p) w = (host.remove (String.◌∷◌ c p) w).1

  unfoldable pub stop : Server → W → Server × W
  unfolding socket_path
  stop s w =
      let stopped = if s.grpc_server then host.graceful_stop w else w in
      let closed = if s.listener then host.close (socket_path s) stopped else stopped in
      (
        record s { stop_updates = true; grpc_server = false; listener = false },
        remove_if_named (socket_path s) closed,
      )

  unfoldable pub register : Server → Call W (Result String (Unit {0}))
  register s =
      host.dial_register (host.join s.socket_dir kubelet_socket_name) (register_request version s)

  abbrev pub after_register :
      Server → Result String (Unit {0}) × W → Result RunError (Unit {0}) × Server × W
  after_register s (err e, w) = let (s', w') = stop s w in (err (register_failed e), s', w')
  after_register s (ok _, w) = let (s', w') = stop s (host.wait_done w) in (ok tt, s', w')

  abbrev pub after_start :
      Result RunError (Unit {0}) × Server × W → Result RunError (Unit {0}) × Server × W
  after_start (err e, s, w) = (err e, s, w)
  after_start (ok _, s, w) = after_register s (register s w)

  unfoldable pub run : Server → W → Result RunError (Unit {0}) × Server × W
  unfolding start stop register
  run s w = after_start (start s w)
