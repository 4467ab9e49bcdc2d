-- ===== src/Text/Split.antt =====
-- `strings.Split`, `strings.SplitN` with two pieces, and `strings.Join`, for one separating character.
use Prim.Native.Char.{Char, code}
use sims.Prelude.{
  ℕ, String, Bool, true, false, List, [], ◌∷◌, Option, none, some, ◌≡◌, refl, ap, arith, eqb,
  if◌then◌else◌, All,
}
use sims.Text.{append, AllChars}

-- The separator does not stand in the text.
abbrev pub is_not : ℕ → Char → Bool
is_not sep c = if eqb (code c) sep then false else true

abbrev cons_head : Char → List String → List String
cons_head c [] = String.◌∷◌ c "" ∷ []
cons_head c (w ∷ ws) = String.◌∷◌ c w ∷ ws

-- strings.Split and strings.SplitSeq: the pieces between the separators, at least one.
unfoldable pub split : ℕ → String → List String
split sep String.[] = "" ∷ []
split sep (String.◌∷◌ c s) =
    let r = split sep s in if eqb (code c) sep then "" ∷ r else cons_head c r

abbrev in_first : Char → Option (String × String) → Option (String × String)
in_first c none = none
in_first c (some (a, b)) = some (String.◌∷◌ c a, b)

-- strings.SplitN(s, sep, 2): the text before the first separator and the text after it, `none` where
-- it returns one piece.
unfoldable pub split_2 : ℕ → String → Option (String × String)
split_2 sep String.[] = none
split_2 sep (String.◌∷◌ c s) =
    let r = split_2 sep s in if eqb (code c) sep then some ("", s) else in_first c r

-- strings.Join
abbrev pub join : String → List String → String
join sep [] = ""
join sep (s ∷ []) = s
join sep (s ∷ t ∷ r) = append s (append sep (join sep (t ∷ r)))

module _ (sep : Char) where
  split_last : (w : String) → AllChars (is_not (code sep)) w → split (code sep) w ≡ w ∷ []
  unfolding split
  split_last String.[] h = refl
  split_last (String.◌∷◌ c s) h = rw (split_last s h.1) (unsplit (eqb (code c) (code sep)) h.0)
    where
      unsplit :
          (b : Bool)
          → (if b then false else true) ≡ true
          → (if b then "" ∷ s ∷ [] else String.◌∷◌ c s ∷ []) ≡ String.◌∷◌ c s ∷ []
      unsplit true e = cc
      unsplit false e = refl

  split_first :
      (w rest : String)
      → AllChars (is_not (code sep)) w
      → split (code sep) (append w (String.◌∷◌ sep rest)) ≡ w ∷ split (code sep) rest
  unfolding split
  split_first String.[] rest h = ground arith
  split_first (String.◌∷◌ c s) rest h =
      rw (split_first s rest h.1) (unsplit (eqb (code c) (code sep)) h.0)
    where
      unsplit :
          (b : Bool)
          → (if b then false else true) ≡ true
          → (if b then "" ∷ s ∷ split (code sep) rest else String.◌∷◌ c s ∷ split (code sep) rest)
            ≡ String.◌∷◌ c s ∷ split (code sep) rest
      unsplit true e = cc
      unsplit false e = refl

  -- What is joined is split again, where there is a piece and no piece holds the separator.
  pub split-join :
      (w : String) (ws : List String)
      → All (AllChars (is_not (code sep))) (w ∷ ws)
      → split (code sep) (join (String.◌∷◌ sep "") (w ∷ ws)) ≡ w ∷ ws
  split-join w [] h = split_last w h.0
  split-join w (v ∷ ws) h = rw (split_first w _ h.0) (ap (λ t. w ∷ t) (split-join v ws h.1))

  -- The two halves of a text with a separator between them.
  pub split_2-append :
      (w rest : String)
      → AllChars (is_not (code sep)) w
      → split_2 (code sep) (append w (String.◌∷◌ sep rest)) ≡ some (w, rest)
  unfolding split_2
  split_2-append String.[] rest h = ground arith
  split_2-append (String.◌∷◌ c s) rest h =
      rw (split_2-append s rest h.1) (unsplit (eqb (code c) (code sep)) h.0)
    where
      unsplit :
          (b : Bool)
          → (if b then false else true) ≡ true
          → if◌then◌else◌ {A = Option (String × String)} b
              (some ("", append s (String.◌∷◌ sep rest)))
              (some (String.◌∷◌ c s, rest))
            ≡ some (String.◌∷◌ c s, rest)
      unsplit true e = cc
      unsplit false e = refl
