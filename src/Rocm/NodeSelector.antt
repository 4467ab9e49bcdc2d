-- ===== src/Rocm/NodeSelector.antt =====
-- operators/fake-rocm-gpu-operator/internal/controller/run.go: the parser of the default node selector.
use Prim.Native.Char.{Char}
use sims.Prelude.{
  String, Bool, true, false, ◌&&◌, List, [], ◌∷◌, Option, none, some, map, if◌then◌else◌, ◌≡◌, refl,
  All,
}
use sims.Prelude.Maps.{Map, insert, insert_all}
use sims.Prelude.Results.{Result, ok, err, ◌>>=◌}
use sims.Text.{
  append, is_empty, trim_space, trim_space_solid, AllChars, AllChars-append, AllChars-imp, is_solid,
}
use sims.Text.Split.{split, split_2, split-join, split_2-append, join, is_not}

pub data SelectorError : Type 0 where
  invalid_pair : String → SelectorError

-- The two parts of a pair; the key is not trimmed before the test that it is not empty.
abbrev pub add_parts :
    String → Option (String × String) → Map String → Result SelectorError (Map String)
add_parts pair none out = err (invalid_pair pair)
add_parts pair (some (key, value)) out =
    if is_empty key
    then err (invalid_pair pair)
    else ok (insert out (trim_space key) (trim_space value))

-- `for pair := range strings.SplitSeq(s, ",")`
unfoldable pub add_pairs : List String → Map String → Result SelectorError (Map String)
add_pairs [] out = ok out
add_pairs (pair ∷ pairs) out = do
  out' ← add_parts pair (split_2 b'=' (trim_space pair)) out
  add_pairs pairs out'

-- An empty text gives a nil map, which reads as an empty one.
unfoldable pub parse_node_selector : String → Result SelectorError (Map String)
unfolding add_pairs
parse_node_selector s =
    let trimmed = trim_space s in
    if is_empty trimmed then ok [] else add_pairs (split b',' trimmed) []

-- The text of a selector: "k1=v1,k2=v2".
abbrev pub pair_text : String × String → String
pair_text (k, v) = append k (String.◌∷◌ "=" v)

abbrev pub selector_text : Map String → String
selector_text m = join "," (map pair_text m)

-- Neither a space nor a comma.
abbrev pub is_plain : Char → Bool
is_plain c = is_solid c && is_not b',' c

-- A key is not empty and holds no '='; neither text holds a space or a comma.
abbrev pub IsPair : String × String → Type 0
IsPair (k, v) =
    (is_empty k ≡ false) × AllChars (is_not b'=') k × AllChars is_plain k × AllChars is_plain v

plain_solid : (c : Char) → is_plain c ≡ true → is_solid c ≡ true
plain_solid c h = and_first (is_solid c) (is_not b',' c) h
  where
    and_first : (a b : Bool) → (a && b) ≡ true → a ≡ true
    and_first true b e = refl
    and_first false b e = cc

plain_no_comma : (c : Char) → is_plain c ≡ true → is_not b',' c ≡ true
plain_no_comma c h = and_second (is_solid c) (is_not b',' c) h
  where
    and_second : (a b : Bool) → (a && b) ≡ true → b ≡ true
    and_second true b e = e
    and_second false b e = cc

pair_plain : (p : String × String) → IsPair p → AllChars is_plain (pair_text p)
pair_plain (k, v) (n, e, pk, pv) = AllChars-append is_plain k (String.◌∷◌ "=" v) pk (refl, pv)

pair_solid : (p : String × String) → IsPair p → AllChars is_solid (pair_text p)
pair_solid p h = AllChars-imp is_plain is_solid (pair_text p) plain_solid (pair_plain p h)

add_parts-pair :
    (pair k v : String) (out : Map String)
    → is_empty k ≡ false
    → trim_space k ≡ k
    → trim_space v ≡ v
    → add_parts pair (some (k, v)) out ≡ ok (insert out k v)
add_parts-pair pair k v out n tk tv = rw (n, tk, tv) refl

-- Every pair of the text is entered.
add_pairs-texts :
    (m out : Map String) → All IsPair m → add_pairs (map pair_text m) out ≡ ok (insert_all out m)
unfolding add_pairs insert_all
add_pairs-texts [] out h = refl
add_pairs-texts ((k, v) ∷ m) out (h, hs) =
    rw
      (
        trim_space_solid (pair_text (k, v)) (pair_solid (k, v) h),
        split_2-append "=" k v h.1,
        h.0,
        trim_space_solid k (AllChars-imp is_plain is_solid k plain_solid h.2),
        trim_space_solid v (AllChars-imp is_plain is_solid v plain_solid h.3),
      )
      (add_pairs-texts m (insert out k v) hs)

texts_without_comma :
    (m : Map String) → All IsPair m → All (AllChars (is_not b',')) (map pair_text m)
texts_without_comma [] h = tt
texts_without_comma (p ∷ m) (h, hs) = (
  AllChars-imp is_plain (is_not b',') (pair_text p) plain_no_comma (pair_plain p h),
  texts_without_comma m hs,
)

join_solid : (m : Map String) → All IsPair m → AllChars is_solid (selector_text m)
join_solid [] h = tt
join_solid (p ∷ []) (h, hs) = pair_solid p h
join_solid (p ∷ q ∷ m) (h, hs) =
    AllChars-append is_solid (pair_text p) (append "," (selector_text (q ∷ m))) (pair_solid p h)
      (refl, join_solid (q ∷ m) hs)

text_given :
    (p : String × String) (m : Map String) → IsPair p → is_empty (selector_text (p ∷ m)) ≡ false
text_given (String.[], v) m (n, e, a, b) = cc
text_given (String.◌∷◌ c k, v) [] h = refl
text_given (String.◌∷◌ c k, v) (q ∷ m) h = refl

-- A selector that is written as k1=v1,k2=v2 is read back: each key, not empty and without '=', and each
-- value, all without spaces and commas, are entered in the order of the text, so that the last of two
-- equal keys counts.
pub parse_node_selector-text :
    (p : String × String) (m : Map String)
    → All IsPair (p ∷ m)
    → parse_node_selector (selector_text (p ∷ m)) ≡ ok (insert_all [] (p ∷ m))
unfolding parse_node_selector
parse_node_selector-text p m h =
    rw
      (
        trim_space_solid (selector_text (p ∷ m)) (join_solid (p ∷ m) h),
        text_given p m h.0,
        split-join "," (pair_text p) (map pair_text m) (texts_without_comma (p ∷ m) h),
      )
      (add_pairs-texts (p ∷ m) [] h)
