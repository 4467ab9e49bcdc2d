-- ===== src/Rocm/DevicePlugin/Stopped.antt =====
-- operators/fake-rocm-gpu-operator/pkg/deviceplugin/server.go: what a run of the server leaves behind.
use sims.Prelude.{String, Bool, true, false, ◌≡◌, refl, ◌∙◌, ◌⊎◌, inl, inr}
use sims.Prelude.Results.{Result, ok, err}
use sims.Text.{is_empty}
use sims.Rocm.DevicePlugin.Server.{Server, plugin_socket_name}
use sims.Rocm.DevicePlugin.Lifecycle.{
  Host, OsError, not_exist, other, RunError, socket_path, started, after_listen, after_remove,
  after_register, after_start, remove_if_named, start, stop, register, run,
}

-- What is documented of the calls: `serving` tells whether a gRPC server serves, `listening` whether a
-- listener is open on a path, and `socket` whether a file is there. A remove succeeds, finds no file, or
-- is refused; a listen that fails has opened and bound nothing.
pub record HostLaws {W : Type 0} (host : Host W) : Type 0 where
  pub serving : W → Bool
  pub listening : W → String → Bool
  pub socket : W → String → Bool
  pub named : (dir : String) → is_empty (host.join dir plugin_socket_name) ≡ false
  pub stops : (w : W) → serving (host.graceful_stop w) ≡ false
  pub close_serving : (p : String) (w : W) → serving (host.close p w) ≡ serving w
  pub closes : (p : String) (w : W) → listening (host.close p w) p ≡ false
  pub remove_serving : (p : String) (w : W) → serving (host.remove p w).1 ≡ serving w
  pub remove_listening : (p : String) (w : W) → listening (host.remove p w).1 p ≡ listening w p
  pub removed :
      (p : String) (w : W)
      → ((t : String) × ((host.remove p w).0 ≡ err (other t)))
        ⊎ (socket (host.remove p w).1 p ≡ false)
  pub not_listening :
      (p : String) (w : W) (e : OsError)
      → (host.listen p w).0 ≡ err e
      → (serving (host.listen p w).1 ≡ serving w)
        × (listening (host.listen p w).1 p ≡ listening w p)
        × (socket (host.listen p w).1 p ≡ socket w p)

module _ {W : Type 0} (host : Host W) (laws : HostLaws host) (version : String) where
  open laws use {serving, listening, socket}

  -- At some time the system refused to remove the file.
  abbrev pub Refused : String → Type 0
  Refused p = (v : W) × (t : String) × ((host.remove p v).0 ≡ err (other t))

  -- No server serves, no listener is open on the path, and no file is there that could be removed.
  abbrev pub IsClean : String → W → Type 0
  IsClean p w = (serving w ≡ false) × (listening w p ≡ false) × ((socket w p ≡ false) ⊎ Refused p)

  removed_or_not : (p : String) (w : W) → (socket (host.remove p w).1 p ≡ false) ⊎ Refused p
  removed_or_not p w = elim (laws.removed p w) [ inl (t, e) ↦ inr (w, t, e) | inr gone ↦ inl gone ]

  remove_named :
      (p : String) (w : W)
      → is_empty p ≡ false
      → remove_if_named host version p w ≡ (host.remove p w).1
  remove_named String.[] w h = cc
  remove_named (String.◌∷◌ c p) w h = refl

  remove-IsClean :
      (p : String) (w : W)
      → serving w ≡ false
      → listening w p ≡ false
      → IsClean p (host.remove p w).1
  remove-IsClean p w s l =
      (laws.remove_serving p w ∙ s, laws.remove_listening p w ∙ l, removed_or_not p w)

  stop-IsClean :
      (s : Server) (w : W)
      → s.grpc_server ≡ true
      → s.listener ≡ true
      → IsClean (socket_path host version s) (stop host version s w).1
  unfolding stop socket_path
  stop-IsClean s w g l =
      let p = host.join s.socket_dir plugin_socket_name in
      let closed = host.close p (host.graceful_stop w) in
      rw (g, l, remove_named p closed (laws.named s.socket_dir))
        (remove-IsClean p closed (laws.close_serving p (host.graceful_stop w) ∙ laws.stops w)
          (laws.closes p (host.graceful_stop w)))

  -- What a run has done when it returns.
  abbrev pub Left : Server → Result RunError (Unit {0}) × Server × W → Type 0
  Left s (r, s', w') =
      (s'.grpc_server ≡ false)
      × (s'.listener ≡ false)
      × (s'.devices ≡ s.devices)
      × IsClean (socket_path host version s) w'

  registered-Left :
      (s : Server) (p : Result String (Unit {0}) × W)
      → Left s (after_register host version (started host version s) p)
  unfolding stop
  registered-Left s (ok u, w) =
      (refl, refl, refl, stop-IsClean (started host version s) (host.wait_done w) refl refl)
  registered-Left s (err e, w) =
      (refl, refl, refl, stop-IsClean (started host version s) w refl refl)

  listen-IsClean :
      (p : String) (w : W) (e : OsError)
      → IsClean p w
      → (host.listen p w).0 ≡ err e
      → IsClean p (host.listen p w).1
  listen-IsClean p w e (s, l, f) h =
      let (s', l', f') = laws.not_listening p w e h in rw (s', l', f') (s, l, f)

  listened-Left :
      (s : Server) (p : Result OsError (Unit {0}) × W)
      → s.grpc_server ≡ false
      → s.listener ≡ false
      → ((e : OsError) → p.0 ≡ err e → IsClean (socket_path host version s) p.1)
      → Left s (after_start host version (after_listen host version s p))
  unfolding register
  listened-Left s (err e, w) g l clean = (g, l, refl, clean e refl)
  listened-Left s (ok u, w) g l clean =
      registered-Left s
        (register host version (started host version s) (host.serve (socket_path host version s) w))

  removed-Left :
      (s : Server) (p : Result OsError (Unit {0}) × W)
      → s.grpc_server ≡ false
      → s.listener ≡ false
      → IsClean (socket_path host version s) p.1
      → Left s (after_start host version (after_remove host version s p))
  removed-Left s (err (other t), w) g l clean = (g, l, refl, clean)
  removed-Left s (err not_exist, w) g l clean =
      listened-Left s (host.listen (socket_path host version s) w) g l
        (λ e h. listen-IsClean (socket_path host version s) w e clean h)
  removed-Left s (ok u, w) g l clean =
      listened-Left s (host.listen (socket_path host version s) w) g l
        (λ e h. listen-IsClean (socket_path host version s) w e clean h)

  -- Nothing of a run is left over: after it, with an error or without, where nothing ran before, no gRPC
  -- server serves, no listener is open on the socket's path, and no file is there unless the system has
  -- refused to remove it; the server has neither a gRPC server nor a listener, and has kept its devices.
  pub run_leaves_nothing :
      (s : Server) (w : W)
      → s.grpc_server ≡ false
      → s.listener ≡ false
      → serving w ≡ false
      → listening w (socket_path host version s) ≡ false
      → Left s (run host version s w)
  unfolding run start
  run_leaves_nothing s w g l quiet shut =
      removed-Left s (host.remove (socket_path host version s) w) g l
        (remove-IsClean (socket_path host version s) w quiet shut)
