-- ===== src/Kube/Wait.antt =====
-- pkg/kube/wait.go and deployment.go: the loops that poll a cluster.
use sims.Prelude.{
  ℕ, zero, suc, ◌+◌, ◌<◌, String, Bool, true, false, ◌||◌, ◌&&◌, List, [], ◌∷◌, Option, none, some,
  if◌then◌else◌, ◌==◌, ◌≡◌, refl, ap, sym, Bool-cases, inl, inr, arith, some_inj,
}
use sims.Prelude.Int.{ℤ, pos, leb_ℤ}
use sims.Prelude.Maps.{lookup}
use sims.Prelude.Results.{Result, ok, err, Call}
use sims.K8s.{ApiError, not_found, Quantities, Node}

pub data WaitError : Type 0 where
  check_failed : String → WaitError
  cancelled : WaitError

-- The loop of both waits: check, and then wait for the context or the next tick. `tick` says whether
-- the ticker fired; it does not when the context is done. The fuel is the number of checks: `none` is
-- a loop that is still waiting after them.
unfoldable pub poll :
    {W : Type 0}
    → Call W (Result String Bool)
    → Call W Bool
    → ℕ
    → W
    → Option (Result WaitError (Unit {0}) × W)
poll check tick zero w = none
poll check tick (suc fuel) w =
    let (r, w1) = check w in
    let (fired, w2) = tick w1 in
    let rest = poll check tick fuel w2 in
    elim r [
      | err e ↦ some (err (check_failed e), w1)
      | ok true ↦ some (ok tt, w1)
      | ok false ↦ if fired then rest else some (err cancelled, w2)
    ]

module _ (qs : Quantities) where
  open qs use {Q, at_least}

  -- got.Cmp(want) >= 0
  unfoldable pub has_capacity : Node Q → String → ℤ → Bool
  has_capacity n resource want = elim (lookup n.capacity resource) [
    | none ↦ false
    | some q ↦ at_least q want
  ]

  unfoldable pub count_ready : List (Node Q) → String → ℤ → ℕ
  unfolding has_capacity
  count_ready [] resource want = 0
  count_ready (n ∷ ns) resource want =
      (if has_capacity n resource want then 1 else 0) + count_ready ns resource want

  abbrev pub enough : String → ℤ → ℤ → Result String (List (Node Q)) → Result String Bool
  enough resource per_node nodes (err e) = err e
  enough resource per_node nodes (ok list) =
      ok (leb_ℤ nodes (pos (count_ready list resource per_node)))

  -- `list_labelled` lists the nodes that carry the vendor label.
  unfoldable pub wait_for_capacity :
      {W : Type 0}
      → Call W (Result String (List (Node Q)))
      → Call W Bool
      → String
      → ℤ
      → ℤ
      → ℕ
      → W
      → Option (Result WaitError (Unit {0}) × W)
  unfolding poll count_ready
  wait_for_capacity list_labelled tick resource per_node nodes fuel w =
      poll (λ w. let (r, w') = list_labelled w in (enough resource per_node nodes r, w')) tick fuel
        w

-- A condition is its type and its status.
unfoldable pub deployment_available : List (String × String) → Bool
deployment_available [] = false
deployment_available ((type, status) ∷ cs) =
    (type == "Available" && status == "True") || deployment_available cs

-- A deployment that is not there yet is waited for.
abbrev pub available : Result ApiError (List (String × String)) → Result String Bool
available (ok conditions) = ok (deployment_available conditions)
available (err not_found) = ok false
available (err ApiError.already_exists) = err "already exists"
available (err (ApiError.other t)) = err t

unfoldable pub wait_for_deployment_available :
    {W : Type 0}
    → Call W (Result ApiError (List (String × String)))
    → Call W Bool
    → ℕ
    → W
    → Option (Result WaitError (Unit {0}) × W)
unfolding poll deployment_available
wait_for_deployment_available get tick fuel w =
    poll (λ w. let (r, w') = get w in (available r, w')) tick fuel w

-- Rounds of a wait: each checks, is not ready, and is followed by a tick.
pub data Rounds {W : Type 0} (check : Call W (Result String Bool)) (tick : Call W Bool)
    : ℕ → W → W → Type 0 where
  here : (w : W) → Rounds check tick 0 w w
  round :
      (n : ℕ) (w w' : W)
      → (check w).0 ≡ ok false
      → (tick (check w).1).0 ≡ true
      → Rounds check tick n (tick (check w).1).1 w'
      → Rounds check tick (suc n) w w'

module _ {W : Type 0} (check : Call W (Result String Bool)) (tick : Call W Bool) where
  -- A wait succeeds as soon as a check is ready: where the checks of n rounds are not ready and the next
  -- one is, with ticks in between, the wait returns without an error right after that check, for any
  -- fuel above n.
  pub poll_reaches :
      (n fuel : ℕ) (w w' : W)
      → Rounds check tick n w w'
      → (check w').0 ≡ ok true
      → n < fuel
      → poll check tick fuel w ≡ some (ok tt, (check w').1)
  unfolding poll
  poll_reaches n zero w w' rounds ready less = absurd (omega arith)
  poll_reaches zero (suc fuel) w w' (here _) ready less = rw (poll, ready) refl
  poll_reaches (suc n) (suc fuel) w w' (round _ _ _ waits fired rest) ready less =
      rw (poll, waits, fired) (poll_reaches n fuel (tick (check w).1).1 w' rest ready (omega arith))

  -- A wait that returns without an error has seen a check that is ready, after rounds that were not.
  pub poll_ok :
      (fuel : ℕ) (w w2 : W)
      → poll check tick fuel w ≡ some (ok tt, w2)
      → (n : ℕ) × (w' : W) × Rounds check tick n w w'
        × ((check w').0 ≡ ok true)
        × (w2 ≡ (check w').1)
  unfolding poll
  poll_ok zero w w2 h = cc
  poll_ok (suc fuel) w w2 h =
      step (λ h'. poll_ok fuel (tick (check w).1).1 w2 h') (check w).0 refl h
    where
      cancelled_is_no_ok :
          {A : Type 0}
          → ◌≡◌ {A = Option (Result WaitError (Unit {0}) × W)}
              (some (err cancelled, (tick (check w).1).1))
              (some (ok tt, w2))
          → A
      cancelled_is_no_ok e = cc

      Seen : W → Type 0
      Seen w =
          (n : ℕ) × (w' : W) × Rounds check tick n w w'
          × ((check w').0 ≡ ok true)
          × (w2 ≡ (check w').1)

      step :
          (poll check tick fuel (tick (check w).1).1 ≡ some (ok tt, w2) → Seen (tick (check w).1).1)
          → (r : Result String Bool) → (check w).0 ≡ r
          → elim r as (λ r. Option (Result WaitError (Unit {0}) × W)) [
            | err e ↦ some (err (check_failed e), (check w).1)
            | ok b ↦ elim b as (λ b. Option (Result WaitError (Unit {0}) × W)) [
              | true ↦ some (ok tt, (check w).1)
              | false ↦
                  if (tick (check w).1).0
                  then poll check tick fuel (tick (check w).1).1
                  else some (err cancelled, (tick (check w).1).1)
            ]
          ]
            ≡ some (ok tt, w2)
          → Seen w
      step later (err e) c h = cc
      step later (ok true) c h =
          (0, w, here w, c, sym (ap (λ (p : Result WaitError (Unit {0}) × W). p.1) (some_inj h)))
      step later (ok false) c h = elim (Bool-cases (tick (check w).1).0) [
        | inl fired ↦
            let (n, w', rounds, ready, e) = later (rw fired at h) in
            (suc n, w', round n w w' c fired rounds, ready, e)
        | inr done ↦ cancelled_is_no_ok (rw done at h)
      ]
