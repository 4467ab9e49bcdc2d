-- ===== src/Prelude/Commands.antt =====
-- A command: a Go function that calls others, changes the world and returns a value or an error. `none`
-- is a command that still waits when its fuel is used up.
use mathlib.Core.Path.{◌≡◌, refl, sym, ap, ◌∙◌}
use mathlib.Core.Option.{Option, none, some}
use sims.Prelude.Tests.{some_inj}
use sims.Prelude.Results.{Result, ok, err, Call, wrap}

abbrev pub Command : Type 0 → Type 0 → Type 0 → Type 0
Command W E A = W → Option (Result E A × W)

-- What follows a call that may have failed.
abbrev pub next :
    {W E A B : Type 0} → (A → Command W E B) → Option (Result E A × W) → Option (Result E B × W)
next rest none = none
next rest (some (err e, w)) = some (err e, w)
next rest (some (ok a, w)) = rest a w

infixl 5 ◌>>=◌
abbrev pub ◌>>=◌ : {W E A B : Type 0} → Command W E A → (A → Command W E B) → Command W E B
◌>>=◌ first rest w = next rest (first w)

infixl 5 ◌>>◌
abbrev pub ◌>>◌ : {W E B : Type 0} → Command W E (Unit {0}) → Command W E B → Command W E B
◌>>◌ first rest = first >>= (λ passed. rest)

abbrev pub done : {W E A : Type 0} → A → Command W E A
done a w = some (ok a, w)

abbrev pub fail : {W E A : Type 0} → E → Command W E A
fail e w = some (err e, w)

-- `if err := f(); err != nil { return fmt.Errorf("…: %w", err) }`
abbrev pub call : {W E F A : Type 0} → (E → F) → Call W (Result E A) → Command W F A
call f m w = let (r, w') = m w in some (wrap f r, w')

-- A pure check in a command.
abbrev pub lift : {W E F A : Type 0} → (E → F) → Result E A → Command W F A
lift f r w = some (wrap f r, w)

abbrev pub wrapped :
    {W E F A : Type 0} → (E → F) → Option (Result E A × W) → Option (Result F A × W)
wrapped f none = none
wrapped f (some (r, w)) = some (wrap f r, w)

-- The same for a command.
abbrev pub within : {W E F A : Type 0} → (E → F) → Command W E A → Command W F A
within f m w = wrapped f (m w)

-- A call that changes the world and returns nothing that is looked at.
abbrev pub effect : {W E : Type 0} → (W → W) → Command W E (Unit {0})
effect f w = some (ok tt, f w)

abbrev pub caught :
    {W E F A : Type 0} → Option (Result E A × W) → Option (Result F (Result E A) × W)
caught none = none
caught (some (r, w)) = some (ok r, w)

-- A call whose error is handled and not returned.
abbrev pub attempt : {W E F A : Type 0} → Command W E A → Command W F (Result E A)
attempt m w = caught (m w)

abbrev pub ended : {W E A : Type 0} → (W → W) → Option (Result E A × W) → Option (Result E A × W)
ended f none = none
ended f (some (r, w)) = some (r, f w)

-- `defer f()`: what is called when the rest returns, with an error or without.
abbrev pub finally : {W E A : Type 0} → (W → W) → Command W E A → Command W E A
finally f m w = ended f (m w)

-- What a command leaves as it was.
module _ {W T : Type 0} (view : W → T) where
  abbrev pub Keeps : {E A : Type 0} → Command W E A → Type 0
  Keeps {E} {A} m = (w w' : W) (r : Result E A) → m w ≡ some (r, w') → view w' ≡ view w

  module _ {E A : Type 0} where
    pub some-Keeps :
        (w w1 : W) (r1 : Result E A)
        → view w1 ≡ view w
        → (w' : W) (r : Result E A)
        → ◌≡◌ {A = Option (Result E A × W)} (some (r1, w1)) (some (r, w'))
        → view w' ≡ view w
    some-Keeps w w1 r1 kept w' r h = ap (λ (p : Result E A × W). view p.1) (sym (some_inj h)) ∙ kept

    pub done-Keeps : (a : A) → Keeps {E = E} {A = A} (done a)
    done-Keeps a w w' r h = some-Keeps w w (ok a) refl w' r h

    pub fail-Keeps : (e : E) → Keeps {E = E} {A = A} (fail e)
    fail-Keeps e w w' r h = some-Keeps w w (err e) refl w' r h

  -- What is deferred and leaves the view alone.
  pub finally-Keeps :
      {E A : Type 0} (f : W → W) (m : Command W E A)
      → ((w : W) → view (f w) ≡ view w)
      → Keeps m
      → Keeps (finally f m)
  finally-Keeps {E} {A} f m kf km w w' r h = by_result (m w) (λ w1 r1 e. km w w1 r1 e) h
    where
      by_result :
          (o : Option (Result E A × W))
          → ((w1 : W) (r1 : Result E A) → o ≡ some (r1, w1) → view w1 ≡ view w)
          → ended f o ≡ some (r, w')
          → view w' ≡ view w
      by_result none k e = cc
      by_result (some (r1, w1)) k e = some-Keeps w (f w1) r1 (kf w1 ∙ k w1 r1 refl) w' r e

  pub effect-Keeps :
      {E : Type 0} (f : W → W)
      → ((w : W) → view (f w) ≡ view w)
      → Keeps {E = E} {A = Unit {0}} (effect f)
  effect-Keeps f kept w w' r h = some-Keeps w (f w) (ok tt) (kept w) w' r h

  pub call-Keeps :
      {E F A : Type 0} (f : E → F) (m : Call W (Result E A))
      → ((w : W) → view (m w).1 ≡ view w)
      → Keeps (call f m)
  call-Keeps f m kept w w' r h = some-Keeps w (m w).1 (wrap f (m w).0) (kept w) w' r h

  pub lift-Keeps : {E F A : Type 0} (f : E → F) (r : Result E A) → Keeps (lift f r)
  lift-Keeps f r0 w w' r h = some-Keeps w w (wrap f r0) refl w' r h

  pub within-Keeps : {E F A : Type 0} (f : E → F) (m : Command W E A) → Keeps m → Keeps (within f m)
  within-Keeps {E} {F} {A} f m kept w w' r h = by_result (m w) (λ w1 r1 e. kept w w1 r1 e) h
    where
      by_result :
          (o : Option (Result E A × W))
          → ((w1 : W) (r1 : Result E A) → o ≡ some (r1, w1) → view w1 ≡ view w)
          → wrapped f o ≡ some (r, w')
          → view w' ≡ view w
      by_result none k e = cc
      by_result (some (r1, w1)) k e = some-Keeps w w1 (wrap f r1) (k w1 r1 refl) w' r e

  pub attempt-Keeps :
      {E F A : Type 0} (m : Command W E A) → Keeps m → Keeps {E = F} {A = Result E A} (attempt m)
  attempt-Keeps {E} {F} {A} m kept w w' r h = by_result (m w) (λ w1 r1 e. kept w w1 r1 e) h
    where
      by_result :
          (o : Option (Result E A × W))
          → ((w1 : W) (r1 : Result E A) → o ≡ some (r1, w1) → view w1 ≡ view w)
          → caught {W = W} {E = E} {F = F} {A = A} o ≡ some (r, w')
          → view w' ≡ view w
      by_result none k e = cc
      by_result (some (r1, w1)) k e = some-Keeps w w1 (ok r1) (k w1 r1 refl) w' r e

  pub >>=-Keeps :
      {E A B : Type 0} (first : Command W E A) (rest : A → Command W E B)
      → Keeps first
      → ((a : A) → Keeps (rest a))
      → Keeps (first >>= rest)
  >>=-Keeps {E} {A} {B} first rest kept kept_rest w w' r h =
      by_result (first w) (λ w1 r1 e. kept w w1 r1 e) h
    where
      by_result :
          (o : Option (Result E A × W))
          → ((w1 : W) (r1 : Result E A) → o ≡ some (r1, w1) → view w1 ≡ view w)
          → next rest o ≡ some (r, w')
          → view w' ≡ view w
      by_result none k e = cc
      by_result (some (err x, w1)) k e = some-Keeps w w1 (err x) (k w1 (err x) refl) w' r e
      by_result (some (ok a, w1)) k e = kept_rest a w1 w' r e ∙ k w1 (ok a) refl

-- A command that returns from a world.
module _ {W : Type 0} where
  abbrev pub Ends : {E A : Type 0} → Command W E A → W → Type 0
  Ends {E} {A} m w = (p : Result E A × W) × (m w ≡ some p)

  pub within-Ends :
      {E F A : Type 0} (f : E → F) (m : Command W E A) (w : W) → Ends m w → Ends (within f m) w
  within-Ends f m w ((r, w'), e) = ((wrap f r, w'), rw e refl)

  pub finally-Ends :
      {E A : Type 0} (f : W → W) (m : Command W E A) (w : W) → Ends m w → Ends (finally f m) w
  finally-Ends f m w ((r, w'), e) = ((r, f w'), rw e refl)

  pub >>=-Ends :
      {E A B : Type 0} (first : Command W E A) (rest : A → Command W E B) (w : W)
      → Ends first w
      → ((a : A) (w' : W) → Ends (rest a) w')
      → Ends (first >>= rest) w
  >>=-Ends {E} {A} {B} first rest w ((r, w'), e) ends_rest = rw e (by_result r w')
    where
      by_result :
          (r : Result E A) (w' : W) → (p : Result E B × W) × (next rest (some (r, w')) ≡ some p)
      by_result (err x) w' = ((err x, w'), refl)
      by_result (ok a) w' = ends_rest a w'

-- What the steps of a command that succeeded have returned.
pub next-returns :
    {W E A B : Type 0} (rest : A → Command W E B) (o : Option (Result E A × W)) {b : B} {w' : W}
    → next rest o ≡ some (ok b, w')
    → (a : A) × (w1 : W) × (o ≡ some (ok a, w1)) × (rest a w1 ≡ some (ok b, w'))
next-returns rest none h = cc
next-returns rest (some (err e, w1)) h = cc
next-returns rest (some (ok a, w1)) h = (a, w1, refl, h)

pub call-returns :
    {W E F A : Type 0} (f : E → F) (p : Result E A × W) {a : A} {w' : W}
    → ◌≡◌ {A = Option (Result F A × W)} (some (wrap f p.0, p.1)) (some (ok a, w'))
    → (p.0 ≡ ok a) × (w' ≡ p.1)
call-returns f (ok x, w1) h = (cc, cc)
call-returns f (err e, w1) h = cc
