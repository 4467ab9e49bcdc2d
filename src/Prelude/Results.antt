-- ===== src/Prelude/Results.antt =====
-- A Go function that returns a value and an error, and one that also changes the world outside.
use mathlib.Core.Path.{◌≡◌, refl, ◌∙◌}
use Prim.Native.Nat.{ℕ, zero, suc}
use mathlib.Core.Bool.{Bool, true, false}
use sims.Prelude.Tests.{if◌then◌else◌}

pub data Result (E A : Type 0) : Type 0 where
  err : E → Result E A
  ok : A → Result E A

-- `x, err := r; if err != nil { return err }`, and then the rest of the function.
infixl 5 ◌>>=◌
abbrev pub ◌>>=◌ : {E A B : Type 0} (result : Result E A) → (A → Result E B) → Result E B
err failure >>= rest = err failure
ok value >>= rest = rest value

infixl 5 ◌>>◌
abbrev pub ◌>>◌ : {E B : Type 0} (check : Result E (Unit {0})) → Result E B → Result E B
check >> rest = check >>= (λ passed. rest)

-- `if !good { return e }`
abbrev pub guard : {E : Type 0} (good : Bool) → E → Result E (Unit {0})
guard good failure = if good then ok tt else err failure

-- `if err != nil { return fmt.Errorf("…: %w", err) }`
abbrev pub wrap : {E F A : Type 0} → (E → F) → Result E A → Result F A
wrap f (ok a) = ok a
wrap f (err e) = err (f e)

-- A call that reads or changes the world `W`: what it returns, and the world after it.
abbrev pub Call : Type 0 → Type 0 → Type 0
Call W A = W → A × W

-- What the steps of a chain that succeeded have returned.
pub >>=-eq-ok :
    {E A B : Type 0} (first : Result E A) (rest : A → Result E B) {b : B}
    → (first >>= rest) ≡ ok b
    → (a : A) × (first ≡ ok a) × (rest a ≡ ok b)
>>=-eq-ok (err failure) rest h = cc
>>=-eq-ok (ok value) rest h = (value, refl, h)

pub guard-eq-ok :
    {E B : Type 0} (good : Bool) (failure : E) (rest : Result E B) {b : B}
    → (guard good failure >> rest) ≡ ok b
    → (good ≡ true) × (rest ≡ ok b)
guard-eq-ok false failure rest h = cc
guard-eq-ok true failure rest h = (refl, h)

-- A guard that passes has passed its test.
pub guard-passes :
    {E : Type 0} (good : Bool) (failure : E) → guard good failure ≡ ok tt → good ≡ true
guard-passes false failure h = cc
guard-passes true failure h = refl

-- A loop with a ticker: a first round at once, and one more at each tick until it ends.
unfoldable pub rounds : {W : Type 0} → (W → W) → ℕ → W → W
rounds round zero w = round w
rounds round (suc ticks) w = rounds round ticks (round w)

-- What each round leaves as it was, the loop does.
pub rounds_keep :
    {W T : Type 0} (view : W → T) (round : W → W)
    → ((w : W) → view (round w) ≡ view w)
    → (ticks : ℕ) (w : W) → view (rounds round ticks w) ≡ view w
unfolding rounds
rounds_keep view round keeps zero w = keeps w
rounds_keep view round keeps (suc ticks) w = rounds_keep view round keeps ticks (round w) ∙ keeps w
