-- ===== src/Examples/Codec.antt =====
-- A codec of topologies for the examples: tokens of escaped characters, five for a node or an assignment.
use Prim.Native.Char.{Char, code}
use sims.Prelude.{
  String, Bool, true, false, List, [], ◌∷◌, ◌++◌, if◌then◌else◌, eqb, ◌==◌, ◌≡◌, ◌≢◌, refl, ap, ◌∙◌,
}
use mathlib.Core.List.{append-nil}
use sims.Prelude.Maps.{Map}
use sims.Prelude.Results.{Result, ok, err}
use sims.Rocm.Topology.{Assignment, Topology}

abbrev pack_one : String → String → String
pack_one String.[] rest = String.◌∷◌ "." rest
pack_one (String.◌∷◌ c s) rest = String.◌∷◌ "+" (String.◌∷◌ c (pack_one s rest))

abbrev pack : List String → String
pack [] = ""
pack (s ∷ ss) = pack_one s (pack ss)

abbrev push : Char → List String → List String
push c [] = String.◌∷◌ c "" ∷ []
push c (s ∷ ss) = String.◌∷◌ c s ∷ ss

abbrev unpack : Bool → String → List String
unpack escaped String.[] = []
unpack true (String.◌∷◌ c s) = push c (unpack false s)
unpack false (String.◌∷◌ c s) = elim (eqb (code c) b'.') [
  | true ↦ "" ∷ unpack false s
  | false ↦ unpack true s
]

unpack-pack_one : (s rest : String) → unpack false (pack_one s rest) ≡ s ∷ unpack false rest
unpack-pack_one String.[] rest = refl
unpack-pack_one (String.◌∷◌ c s) rest = ap (push c) (unpack-pack_one s rest)

unpack-pack : (ss : List String) → unpack false (pack ss) ≡ ss
unpack-pack [] = refl
unpack-pack (s ∷ ss) = unpack-pack_one s (pack ss) ∙ ap (λ t. s ∷ t) (unpack-pack ss)

abbrev held_tokens : List Assignment → List String → List String
held_tokens [] rest = rest
held_tokens (a ∷ r) rest =
    "a" ∷ a.gpu_id ∷ a.pod_namespace ∷ a.pod_name ∷ a.container ∷ held_tokens r rest

abbrev tokens : Map (List Assignment) → List String
tokens [] = []
tokens ((n, held) ∷ m) = "n" ∷ n ∷ "" ∷ "" ∷ "" ∷ held_tokens held (tokens m)

-- The assignments that lead, and the nodes after them.
abbrev parse : List String → List Assignment × Map (List Assignment)
parse (t ∷ x ∷ y ∷ z ∷ u ∷ rest) =
    let (held, m) = parse rest in
    if t == "n"
    then ([], (x, held) ∷ m)
    else (record { gpu_id = x; pod_namespace = y; pod_name = z; container = u } ∷ held, m)
parse _ = ([], [])

parse-held :
    (held : List Assignment) (rest : List String)
    → parse (held_tokens held rest) ≡ (held ++ (parse rest).0, (parse rest).1)
parse-held [] rest = refl
parse-held (a ∷ r) rest =
    ap (λ (p : List Assignment × Map (List Assignment)). (a ∷ p.0, p.1)) (parse-held r rest)

parse-tokens : (m : Map (List Assignment)) → parse (tokens m) ≡ ([], m)
parse-tokens [] = refl
parse-tokens ((n, held) ∷ m) = rw (parse-held held (tokens m), parse-tokens m, append-nil held) refl

abbrev pub encode : Topology → Result String String
encode t = ok (String.◌∷◌ "-" (pack (tokens t.nodes)))

abbrev pub decode : String → Result String Topology
decode String.[] = err "empty"
decode (String.◌∷◌ c s) = ok (record { nodes = (parse (unpack false s)).1 })

pub decode-encode :
    (t : Topology) (body : String) → encode t ≡ ok body → (body ≢ "") × (decode body ≡ ok t)
decode-encode t body e = rw (← ok_inj e) (
  λ x. cc,
  ap (λ (m : Map (List Assignment)). ok (record { nodes = m }))
      (ap (λ (ss : List String). (parse ss).1) (unpack-pack (tokens t.nodes))
        ∙ ap (λ (p : List Assignment × Map (List Assignment)). p.1) (parse-tokens t.nodes)),
)
  where
    ok_inj : {a b : String} → ◌≡◌ {A = Result String String} (ok a) (ok b) → a ≡ b
    ok_inj q = cc
