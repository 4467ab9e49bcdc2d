-- ===== src/Text.antt =====
-- What the program uses of Go's `strings`: texts are read character by character.
pub mod Decimal
pub mod Split
pub mod Order
pub mod Flags
use Prim.Native.Char.{Char, code}
use sims.Prelude.{
  ℕ, String, Bool, true, false, ◌&&◌, ◌||◌, List, [], ◌∷◌, Option, none, some, eqb, leb,
  if◌then◌else◌, ◌≡◌, refl, ap, ◌↔◌,
}

-- `s + t`
abbrev pub append : String → String → String
append String.[] t = t
append (String.◌∷◌ c s) t = String.◌∷◌ c (append s t)

-- The parts of a `fmt.Sprintf`, put together.
abbrev pub concat : List String → String
concat [] = ""
concat (s ∷ []) = s
concat (s ∷ t ∷ r) = append s (concat (t ∷ r))

abbrev pub is_empty : String → Bool
is_empty String.[] = true
is_empty (String.◌∷◌ c s) = false

-- strings.HasPrefix
abbrev pub has_prefix : String → String → Bool
has_prefix s String.[] = true
has_prefix String.[] (String.◌∷◌ d p) = false
has_prefix (String.◌∷◌ c s) (String.◌∷◌ d p) = eqb (code c) (code d) && has_prefix s p

-- unicode.IsSpace
abbrev pub is_space : Char → Bool
is_space c =
    (leb 9 (code c) && leb (code c) 13)
    || eqb (code c) 0x20
    || eqb (code c) 0x85
    || eqb (code c) 0xA0
    || eqb (code c) 0x1680
    || (leb 0x2000 (code c) && leb (code c) 0x200A)
    || eqb (code c) 0x2028
    || eqb (code c) 0x2029
    || eqb (code c) 0x202F
    || eqb (code c) 0x205F
    || eqb (code c) 0x3000

unfoldable pub trim_left : String → String
trim_left String.[] = ""
trim_left (String.◌∷◌ c s) = if is_space c then trim_left s else String.◌∷◌ c s

unfoldable pub trim_right : String → String
trim_right String.[] = ""
trim_right (String.◌∷◌ c s) =
    let r = trim_right s in if is_empty r && is_space c then "" else String.◌∷◌ c r

-- strings.TrimSpace
unfoldable pub trim_space : String → String
unfolding trim_left trim_right
trim_space s = trim_left (trim_right s)

-- strings.ReplaceAll, where the old text is one character.
abbrev pub replace_all : String → ℕ → String → String
replace_all String.[] old new = ""
replace_all (String.◌∷◌ c s) old new =
    append (if eqb (code c) old then new else String.◌∷◌ c "") (replace_all s old new)

-- Every character of the text passes the test.
abbrev pub AllChars : (Char → Bool) → String → Type 0
AllChars p String.[] = Unit
AllChars p (String.◌∷◌ c s) = (p c ≡ true) × AllChars p s

pub append-nil : (s : String) → append s "" ≡ s
append-nil String.[] = refl
append-nil (String.◌∷◌ c s) = ap (String.◌∷◌ c) (append-nil s)

pub append_assoc : (s t u : String) → append (append s t) u ≡ append s (append t u)
append_assoc String.[] t u = refl
append_assoc (String.◌∷◌ c s) t u = ap (String.◌∷◌ c) (append_assoc s t u)

pub AllChars-append :
    (p : Char → Bool) (s t : String) → AllChars p s → AllChars p t → AllChars p (append s t)
AllChars-append p String.[] t hs ht = ht
AllChars-append p (String.◌∷◌ c s) t hs ht = (hs.0, AllChars-append p s t hs.1 ht)

pub AllChars-imp :
    (p q : Char → Bool) (s : String)
    → ((c : Char) → p c ≡ true → q c ≡ true)
    → AllChars p s
    → AllChars q s
AllChars-imp p q String.[] f h = tt
AllChars-imp p q (String.◌∷◌ c s) f h = (f c h.0, AllChars-imp p q s f h.1)

-- A text without spaces is left alone by the trims.
abbrev pub is_solid : Char → Bool
is_solid c = if is_space c then false else true

pub trim_left_solid : (s : String) → AllChars is_solid s → trim_left s ≡ s
unfolding trim_left
trim_left_solid String.[] h = refl
trim_left_solid (String.◌∷◌ c s) h = solid_head (is_space c) h.0
  where
    solid_head :
        (b : Bool)
        → (if b then false else true) ≡ true
        → (if b then trim_left s else String.◌∷◌ c s) ≡ String.◌∷◌ c s
    solid_head true e = cc
    solid_head false e = refl

pub trim_right_solid : (s : String) → AllChars is_solid s → trim_right s ≡ s
unfolding trim_right
trim_right_solid String.[] h = refl
trim_right_solid (String.◌∷◌ c s) h =
    rw (trim_right_solid s h.1) (solid_head (is_space c) (is_empty s) h.0)
  where
    solid_head :
        (b e : Bool)
        → (if b then false else true) ≡ true
        → (if e && b then "" else String.◌∷◌ c s) ≡ String.◌∷◌ c s
    solid_head true e q = cc
    solid_head false true q = refl
    solid_head false false q = refl

pub trim_space_solid : (s : String) → AllChars is_solid s → trim_space s ≡ s
unfolding trim_space
trim_space_solid s h = rw (trim_right_solid s h) (trim_left_solid s h)

pub is_empty_iff : (s : String) → (is_empty s ≡ true) ↔ (s ≡ "")
is_empty_iff String.[] = (λ h. refl, λ h. refl)
is_empty_iff (String.◌∷◌ c s) = (λ h. cc, λ h. cc)
