-- ===== src/Text/Order.antt =====
-- The byte order of Go's strings, `sort.Strings`, and a set of texts kept as a map's keys.
use Prim.Native.Char.{code}
use sims.Prelude.{
  String, Bool, true, false, ◌||◌, List, [], ◌∷◌, ◌≡◌, refl, sym, ltb, if◌then◌else◌, ◌==◌, eq_iff,
  In, Distinct, ◌⊎◌, inl, inr, Bool-cases, arith, All,
}

-- The code points of Go's texts have the order of their UTF-8 bytes.
unfoldable pub str_leb : String → String → Bool
str_leb String.[] t = true
str_leb (String.◌∷◌ c s) String.[] = false
str_leb (String.◌∷◌ c s) (String.◌∷◌ d t) =
    let r = str_leb s t in
    if ltb (code c) (code d) then true else if ltb (code d) (code c) then false else r

pub str_leb_total : (s t : String) → (str_leb s t ≡ true) ⊎ (str_leb t s ≡ true)
unfolding str_leb
str_leb_total String.[] t = inl refl
str_leb_total (String.◌∷◌ c s) String.[] = inr refl
str_leb_total (String.◌∷◌ c s) (String.◌∷◌ d t) = ground (arith, str_leb_total s t)

pub str_leb_trans : (s t u : String) → str_leb s t ≡ true → str_leb t u ≡ true → str_leb s u ≡ true
unfolding str_leb
str_leb_trans String.[] t u h k = refl
str_leb_trans (String.◌∷◌ c s) String.[] u h k = cc
str_leb_trans (String.◌∷◌ c s) (String.◌∷◌ d t) String.[] h k = cc
str_leb_trans (String.◌∷◌ c s) (String.◌∷◌ d t) (String.◌∷◌ e u) h k =
    ground (arith, str_leb_trans s t u)

unfoldable pub insert_sorted : String → List String → List String
insert_sorted x [] = x ∷ []
insert_sorted x (y ∷ ys) = if str_leb x y then x ∷ y ∷ ys else y ∷ insert_sorted x ys

-- sort.Strings
unfoldable pub sort_strings : List String → List String
unfolding insert_sorted
sort_strings [] = []
sort_strings (x ∷ xs) = insert_sorted x (sort_strings xs)

unfoldable pub contains : List String → String → Bool
contains [] x = false
contains (y ∷ ys) x = y == x || contains ys x

-- seen[x] = struct{}{}
unfoldable pub add_key : String → List String → List String
unfolding contains
add_key x seen = if contains seen x then seen else x ∷ seen

-- Each text is at most the next.
abbrev pub IsSorted : List String → Type 0
IsSorted [] = Unit
IsSorted (x ∷ xs) = All (λ y. str_leb x y ≡ true) xs × IsSorted xs

All-trans :
    (x y : String) (ys : List String)
    → str_leb x y ≡ true
    → All (λ z. str_leb y z ≡ true) ys
    → All (λ z. str_leb x z ≡ true) ys
All-trans x y [] h a = tt
All-trans x y (z ∷ zs) h a = (str_leb_trans x y z h a.0, All-trans x y zs h a.1)

All-insert :
    (P : String → Type 0) (x : String) (ys : List String)
    → P x
    → All P ys
    → All P (insert_sorted x ys)
unfolding insert_sorted
All-insert P x [] h a = (h, tt)
All-insert P x (y ∷ ys) h a = elim (Bool-cases (str_leb x y)) [
  | inl le ↦ rw le (h, a)
  | inr gt ↦ rw gt (a.0, All-insert P x ys h a.1)
]

above : (x y : String) → str_leb x y ≡ false → str_leb y x ≡ true
above x y gt = elim (str_leb_total x y) [ inl le ↦ cc | inr ge ↦ ge ]

insert_sorted-IsSorted :
    (x : String) (ys : List String) → IsSorted ys → IsSorted (insert_sorted x ys)
unfolding insert_sorted
insert_sorted-IsSorted x [] s = (tt, tt)
insert_sorted-IsSorted x (y ∷ ys) s = elim (Bool-cases (str_leb x y)) [
  | inl le ↦ rw le ((le, All-trans x y ys le s.0), s)
  | inr gt ↦ rw gt (
    All-insert (λ z. str_leb y z ≡ true) x ys (above x y gt) s.0,
    insert_sorted-IsSorted x ys s.1,
  )
]

pub sort_strings-IsSorted : (xs : List String) → IsSorted (sort_strings xs)
unfolding sort_strings
sort_strings-IsSorted [] = tt
sort_strings-IsSorted (x ∷ xs) =
    insert_sorted-IsSorted x (sort_strings xs) (sort_strings-IsSorted xs)

-- Sorting keeps what stands in the list.
In-insert_sorted : (z x : String) (ys : List String) → In z (x ∷ ys) → In z (insert_sorted x ys)
unfolding insert_sorted
In-insert_sorted z x [] h = h
In-insert_sorted z x (y ∷ ys) h = elim (Bool-cases (str_leb x y)) [
  | inl le ↦ rw le h
  | inr gt ↦ rw gt (swap h (In-insert_sorted z x ys))
]
  where
    swap :
        In z (x ∷ y ∷ ys)
        → (In z (x ∷ ys) → In z (insert_sorted x ys))
        → In z (y ∷ insert_sorted x ys)
    swap (inl e) k = inr (k (inl e))
    swap (inr (inl e)) k = inl e
    swap (inr (inr m)) k = inr (k (inr m))

insert_sorted-In : (z x : String) (ys : List String) → In z (insert_sorted x ys) → In z (x ∷ ys)
unfolding insert_sorted
insert_sorted-In z x [] h = h
insert_sorted-In z x (y ∷ ys) h = elim (Bool-cases (str_leb x y)) [
  | inl le ↦ rw le at h
  | inr gt ↦ swap (rw gt at h) (insert_sorted-In z x ys)
]
  where
    swap :
        In z (y ∷ insert_sorted x ys)
        → (In z (insert_sorted x ys) → In z (x ∷ ys))
        → In z (x ∷ y ∷ ys)
    swap (inl e) k = inr (inl e)
    swap (inr m) k = elim (k m) [ inl e ↦ inl e | inr q ↦ inr (inr q) ]

In-cons : (z x : String) (xs ys : List String) → (In z xs → In z ys) → In z (x ∷ xs) → In z (x ∷ ys)
In-cons z x xs ys f (inl e) = inl e
In-cons z x xs ys f (inr m) = inr (f m)

pub In-sort_strings : (z : String) (xs : List String) → In z xs → In z (sort_strings xs)
unfolding sort_strings
In-sort_strings z [] h = h
In-sort_strings z (x ∷ xs) h =
    In-insert_sorted z x (sort_strings xs)
      (In-cons z x xs (sort_strings xs) (In-sort_strings z xs) h)

pub sort_strings-In : (z : String) (xs : List String) → In z (sort_strings xs) → In z xs
unfolding sort_strings
sort_strings-In z [] h = h
sort_strings-In z (x ∷ xs) h =
    In-cons z x (sort_strings xs) xs (sort_strings-In z xs)
      (insert_sorted-In z x (sort_strings xs) h)

-- Distinct keys stay distinct when sorted.
insert_sorted-Distinct :
    (x : String) (ys : List String) → Distinct (x ∷ ys) → Distinct (insert_sorted x ys)
unfolding insert_sorted
insert_sorted-Distinct x [] d = d
insert_sorted-Distinct x (y ∷ ys) d = elim (Bool-cases (str_leb x y)) [
  | inl le ↦ rw le d
  | inr gt ↦ rw gt (fresh, insert_sorted-Distinct x ys (λ m. d.0 (inr m), d.1.1))
]
  where
    fresh : ¬ (In y (insert_sorted x ys))
    fresh m = elim (insert_sorted-In y x ys m) [ inl e ↦ d.0 (inl (sym e)) | inr k ↦ d.1.0 k ]

pub sort_strings-Distinct : (xs : List String) → Distinct xs → Distinct (sort_strings xs)
unfolding sort_strings
sort_strings-Distinct [] d = tt
sort_strings-Distinct (x ∷ xs) d =
    insert_sorted-Distinct x (sort_strings xs)
      (λ m. d.0 (sort_strings-In x xs m), sort_strings-Distinct xs d.1)

pub contains-In : (xs : List String) (x : String) → contains xs x ≡ true → In x xs
unfolding contains
contains-In [] x h = cc
contains-In (y ∷ ys) x h = elim (Bool-cases (y == x)) [
  | inl e ↦ inl (sym ((eq_iff y x).0 e))
  | inr n ↦ inr (contains-In ys x (rw n at h))
]

pub In-contains : (xs : List String) (x : String) → In x xs → contains xs x ≡ true
unfolding contains
In-contains [] x h = elim h [ ]
In-contains (y ∷ ys) x (inl e) = rw ((eq_iff y x).1 (sym e)) refl
In-contains (y ∷ ys) x (inr m) = rw (In-contains ys x m) (ground arith)

pub add_key-Distinct : (x : String) (seen : List String) → Distinct seen → Distinct (add_key x seen)
unfolding add_key
add_key-Distinct x seen d = elim (Bool-cases (contains seen x)) [
  | inl old ↦ rw old d
  | inr new ↦ rw new (λ m. cc (In-contains seen x m), d)
]

pub In-add_key : (z x : String) (seen : List String) → In z (x ∷ seen) → In z (add_key x seen)
unfolding add_key
In-add_key z x seen h = elim (Bool-cases (contains seen x)) [
  | inl old ↦ rw old (elim h [ inl e ↦ rw e (contains-In seen x old) | inr m ↦ m ])
  | inr new ↦ rw new h
]

pub add_key-In : (z x : String) (seen : List String) → In z (add_key x seen) → In z (x ∷ seen)
unfolding add_key
add_key-In z x seen h = elim (Bool-cases (contains seen x)) [
  | inl old ↦ inr (rw old at h)
  | inr new ↦ rw new at h
]
