-- ===== src/Prelude/Maps.antt =====
-- Go's maps with text keys, as association lists. A program that ranges over a map is given the
-- entries in the list's order, so what is proved for every list holds for every order.
use sims.Prelude.Tests.{if◌then◌else◌}
use Prim.Native.String.{String}
use mathlib.Core.Path.{◌≡◌, refl}
use mathlib.Core.Option.{Option, none, some}
use mathlib.Core.List.{List, [], ◌∷◌}
use native.Mathlib.Omega.{arith}
use text.Mathlib.Text.{◌==◌}
use text.Mathlib.TextEquality.{eq_iff}
use text.Mathlib.TextPositions.{eq_refl}

abbrev pub Map {ℓ} : Type ℓ → Type ℓ
Map V = List (String × V)

module _ {ℓ} {V : Type ℓ} where
  -- v, ok := m[k]
  unfoldable pub lookup : Map V → String → Option V
  lookup [] k = none
  lookup ((j, v) ∷ m) k = if j == k then some v else lookup m k

  -- m[k] = v
  unfoldable pub insert : Map V → String → V → Map V
  insert [] k v = (k, v) ∷ []
  insert ((j, w) ∷ m) k v = if j == k then (k, v) ∷ m else (j, w) ∷ insert m k v

  -- m[k], which is the zero value on a missing key.
  abbrev pub get_or : V → Map V → String → V
  get_or zero_value m k = elim (lookup m k) [ none ↦ zero_value | some v ↦ v ]

  pub lookup-insert :
      (m : Map V) (k j : String) (v : V)
      → lookup (insert m k v) j ≡ (if k == j then some v else lookup m j)
  unfolding lookup insert
  lookup-insert [] k j v = refl
  lookup-insert ((i, w) ∷ m) k j v =
      ground (arith, eq_iff k j, eq_iff i k, eq_iff i j, lookup-insert m k j v)

  pub lookup-insert_self : (m : Map V) (k : String) (v : V) → lookup (insert m k v) k ≡ some v
  lookup-insert_self m k v = simp (lookup-insert, eq_refl)

-- m1 after `for k, v := range m2 { m1[k] = v }`.
unfoldable pub insert_all {ℓ} : {V : Type ℓ} → Map V → Map V → Map V
insert_all m [] = m
insert_all m ((k, v) ∷ r) = insert_all (insert m k v) r
