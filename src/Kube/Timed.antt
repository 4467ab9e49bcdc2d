-- ===== src/Kube/Timed.antt =====
-- pkg/kube/wait.go and deployment.go: a wait under a timeout returns.
use sims.Prelude.{
  ℕ, zero, suc, ◌≤◌, ◌<◌, String, Bool, true, false, Option, some, ◌≡◌, refl, arith, if◌then◌else◌,
}
use sims.Prelude.Results.{Result, ok, err, Call}
use sims.Kube.Wait.{WaitError, check_failed, cancelled, poll}

module _ {W : Type 0} (check : Call W (Result String Bool)) (tick : Call W Bool) where
  abbrev pub Outcome : Type 0
  Outcome = Result WaitError (Unit {0}) × W

  -- What follows a check: it ends the wait, or the rest does.
  ends_by :
      (r : Result String Bool) (w1 w2 : W) (fired : Bool) (rest : Option Outcome)
      → (fired ≡ true → (p : Outcome) × (rest ≡ some p))
      → (p : Outcome) × (elim r as (λ r. Option Outcome) [
        | err e ↦ some (err (check_failed e), w1)
        | ok b ↦ elim b as (λ b. Option Outcome) [
          | true ↦ some (ok tt, w1)
          | false ↦ if fired then rest else some (err cancelled, w2)
        ]
      ]
          ≡ some p)
  ends_by (err e) w1 w2 fired rest later = ((err (check_failed e), w1), refl)
  ends_by (ok true) w1 w2 fired rest later = ((ok tt, w1), refl)
  ends_by (ok false) w1 w2 true rest later = later refl
  ends_by (ok false) w1 w2 false rest later = ((err cancelled, w2), refl)

  -- A wait whose context has a deadline returns, whatever the checks say: where each tick that fires
  -- takes from the time that is left and no check adds to it, more fuel than there is time is enough.
  pub poll_ends :
      (left : W → ℕ) (fuel : ℕ) (w : W)
      → ((v : W) → left (check v).1 ≤ left v)
      → ((v : W) → (tick v).0 ≡ true → left (tick v).1 < left v)
      → left w < fuel
      → (p : Outcome) × (poll check tick fuel w ≡ some p)
  unfolding poll
  poll_ends left zero w calm falls enough = elim enough [ ]
  poll_ends left (suc fuel) w calm falls enough =
      ends_by (check w).0 (check w).1 (tick (check w).1).1 (tick (check w).1).0
        (poll check tick fuel (tick (check w).1).1)
        (λ fired.
          poll_ends left fuel (tick (check w).1).1 calm falls
            (omega (arith, calm w, falls (check w).1 fired)))
