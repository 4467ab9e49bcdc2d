-- ===== src/Prelude/Lists.antt =====
-- Lists measured and indexed by native numbers, under the library's names, and predicates on them.
use Prim.Native.Nat.{ℕ, zero, suc, ◌+◌}
use mathlib.Core.Path.{◌≡◌, refl, ap, ap₂}
use mathlib.Core.Logic.{◌⊎◌, inl, inr}
use mathlib.Core.List.{List, [], ◌∷◌, ◌++◌, map}
use mathlib.Core.Option.{Option, none, some}
use native.Mathlib.Omega.{arith}

module _ {ℓ} {A : Type ℓ} where
  abbrev pub length : List A → ℕ
  length [] = 0
  length (x ∷ xs) = suc (length xs)

  abbrev pub get_elem? : List A → ℕ → Option A
  get_elem? [] i = none
  get_elem? (x ∷ xs) zero = some x
  get_elem? (x ∷ xs) (suc i) = get_elem? xs i

  pub length-append : (xs ys : List A) → length (xs ++ ys) ≡ length xs + length ys
  length-append [] ys = omega arith
  length-append (x ∷ xs) ys = omega (arith, length-append xs ys)

  abbrev pub All {κ} : (A → Type κ) → List A → Type κ
  All P [] = Unit
  All P (x ∷ xs) = P x × All P xs

module _ {A : Type 0} where
  -- Membership that keeps its witness: `x` stands at the head, or further down.
  abbrev pub In : A → List A → Type 0
  In x [] = ⊥
  In x (y ∷ ys) = (x ≡ y) ⊎ In x ys

  -- No element stands twice.
  abbrev pub Distinct : List A → Type 0
  Distinct [] = Unit
  Distinct (x ∷ xs) = ¬ (In x xs) × Distinct xs

module _ {ℓ κ} {A : Type ℓ} {B : Type κ} where
  pub length-map : (f : A → B) (xs : List A) → length (map f xs) ≡ length xs
  length-map f [] = refl
  length-map f (x ∷ xs) = ap suc (length-map f xs)

module _ {A B : Type 0} where
  pub In-map : (f : A → B) (x : A) (xs : List A) → In x xs → In (f x) (map f xs)
  In-map f x [] h = elim h [ ]
  In-map f x (y ∷ ys) (inl e) = inl (ap f e)
  In-map f x (y ∷ ys) (inr h) = inr (In-map f x ys h)

-- `for i := range n`, from `i` on.
abbrev pub range_from : ℕ → ℕ → List ℕ
range_from i zero = []
range_from i (suc n) = i ∷ range_from (suc i) n

-- `for i := range n`.
abbrev pub range : ℕ → List ℕ
range n = range_from 0 n

pub length-range_from : (i n : ℕ) → length (range_from i n) ≡ n
length-range_from i zero = refl
length-range_from i (suc n) = ap suc (length-range_from (suc i) n)

pub range_from-append : (i m n : ℕ) → range_from i (m + n) ≡ range_from i m ++ range_from (i + m) n
range_from-append i zero n = rw (zero_left, right_zero) refl
  where
    zero_left : zero + n ≡ n
    zero_left = omega arith

    right_zero : i + zero ≡ i
    right_zero = omega arith
range_from-append i (suc m) n =
    rw (suc_left, shift) (ap (λ t. i ∷ t) (range_from-append (suc i) m n))
  where
    suc_left : suc m + n ≡ suc (m + n)
    suc_left = omega arith

    shift : i + suc m ≡ suc i + m
    shift = omega arith

-- The results of a loop whose body appends a list for each element.
abbrev pub concat_map {ℓ κ} : {A : Type ℓ} {B : Type κ} → (A → List B) → List A → List B
concat_map f [] = []
concat_map f (x ∷ xs) = f x ++ concat_map f xs

module _ {ℓ κ} {A : Type ℓ} {B : Type κ} where
  pub map-append : (f : A → B) (xs ys : List A) → map f (xs ++ ys) ≡ map f xs ++ map f ys
  map-append f [] ys = refl
  map-append f (x ∷ xs) ys = ap (λ t. f x ∷ t) (map-append f xs ys)

module _ {A B C D : Type 0} where
  -- Two nested loops that make elements which show the same, show the same.
  pub map-concat_map :
      (f : C → D) {C' : Type 0} (f' : C' → D) (g : A → B → C) (g' : A → B → C') (inner : List B)
      → ((x : A) (y : B) → f (g x y) ≡ f' (g' x y))
      → (outer : List A)
      → map f (concat_map (λ x. map (g x) inner) outer)
        ≡ map f' (concat_map (λ x. map (g' x) inner) outer)
  map-concat_map f f' g g' inner e [] = refl
  map-concat_map f f' g g' inner e (x ∷ xs) =
      rw
        (
          map-append f (map (g x) inner) (concat_map (λ x. map (g x) inner) xs),
          map-append f' (map (g' x) inner) (concat_map (λ x. map (g' x) inner) xs),
          map-concat_map f f' g g' inner e xs,
          row inner,
        )
        refl
    where
      row : (ys : List B) → map f (map (g x) ys) ≡ map f' (map (g' x) ys)
      row [] = refl
      row (y ∷ ys) = ap₂ (λ (a : D) (r : List D). a ∷ r) (e x y) (row ys)
