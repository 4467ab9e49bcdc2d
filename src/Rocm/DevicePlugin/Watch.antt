-- ===== src/Rocm/DevicePlugin/Watch.antt =====
-- operators/fake-rocm-gpu-operator/pkg/deviceplugin/server.go: ListAndWatch, which streams the list of
-- the devices to the kubelet. The stream is a parameter on the world `W`.
use sims.Prelude.{ℕ, zero, suc, String, List, [], ◌∷◌, none, some, ◌≡◌, ap, ◌∙◌}
use sims.Prelude.Results.{Result, ok, Call}
use sims.Prelude.Commands.{Command, ◌>>◌, done, call, next-returns, call-returns, done-Keeps}
use sims.Rocm.DevicePlugin.Server.{Device, Server, devices}

-- What the loop wakes up for, in the order in which it happens.
pub data Event : Type 0 where
  disconnected : Event
  stopped : Event
  ticked : Event

module _ {W : Type 0} (send : List Device → Call W (Result String (Unit {0}))) where
  -- The loop, which waits where no event is left.
  unfoldable pub watch : Server → List Event → Command W String (Unit {0})
  watch s [] = λ w. none
  watch s (disconnected ∷ events) = done tt
  watch s (stopped ∷ events) = done tt
  watch s (ticked ∷ events) = do call (λ (e : String). e) (send (devices s)); watch s events

  unfoldable pub list_and_watch : Server → List Event → Command W String (Unit {0})
  unfolding watch
  list_and_watch s events = do call (λ (e : String). e) (send (devices s)); watch s events

-- The ticks before the first other event.
abbrev pub ticks : List Event → ℕ
ticks [] = zero
ticks (disconnected ∷ events) = zero
ticks (stopped ∷ events) = zero
ticks (ticked ∷ events) = suc (ticks events)

-- The list `n` times, before what was sent earlier.
abbrev pub times : ℕ → List Device → List (List Device) → List (List Device)
times zero ds earlier = earlier
times (suc n) ds earlier = times n ds (ds ∷ earlier)

-- The lists that the kubelet has received, the last one first.
pub record StreamLaws {W : Type 0} (send : List Device → Call W (Result String (Unit {0})))
    : Type 0 where
  pub received : W → List (List Device)
  pub sends :
      (ds : List Device) (w : W) → (send ds w).0 ≡ ok tt → received (send ds w).1 ≡ ds ∷ received w

module _ {W : Type 0} (send : List Device → Call W (Result String (Unit {0})))
    (laws : StreamLaws send) (s : Server) where
  sent_once :
      (u : Unit {0}) (w w1 : W)
      → call (λ (e : String). e) (send (devices s)) w ≡ some (ok u, w1)
      → laws.received w1 ≡ devices s ∷ laws.received w
  sent_once u w w1 e =
      let (fine, same) = call-returns (λ (e : String). e) (send (devices s) w) e in
      ap laws.received same ∙ laws.sends (devices s) w fine

  watch_sends :
      (events : List Event) (w w' : W)
      → watch send s events w ≡ some (ok tt, w')
      → laws.received w' ≡ times (ticks events) (devices s) (laws.received w)
  unfolding watch
  watch_sends [] w w' h = cc
  watch_sends (disconnected ∷ events) w w' h = done-Keeps laws.received tt w w' (ok tt) h
  watch_sends (stopped ∷ events) w w' h = done-Keeps laws.received tt w w' (ok tt) h
  watch_sends (ticked ∷ events) w w' h =
      let (u, w1, e, rest) =
        next-returns (λ u. watch send s events) (call (λ (e : String). e) (send (devices s)) w) h in
      watch_sends events w1 w' rest ∙ ap (times (ticks events) (devices s)) (sent_once u w w1 e)

  -- The kubelet is told nothing but the list of the server's devices: a ListAndWatch that returns without
  -- an error, because the stream or the server has ended, has sent it once at the start and once more for
  -- each tick before the end.
  pub list_and_watch_sends :
      (events : List Event) (w w' : W)
      → list_and_watch send s events w ≡ some (ok tt, w')
      → laws.received w' ≡ times (suc (ticks events)) (devices s) (laws.received w)
  unfolding list_and_watch watch
  list_and_watch_sends events w w' h = watch_sends (ticked ∷ events) w w' h
