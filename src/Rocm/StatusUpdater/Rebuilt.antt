-- ===== src/Rocm/StatusUpdater/Rebuilt.antt =====
-- operators/fake-rocm-gpu-operator/internal/statusupdater/run.go: the rebuilt topology lists, for each
-- node, the GPUs that the pods of that node are annotated with.
use sims.Prelude.{
  String, Bool, true, false, List, [], ◌∷◌, ◌++◌, if◌then◌else◌, ◌==◌, ◌≡◌, ◌≢◌, ◌∙◌, sym, ap, inl,
  inr, Bool-cases, eq_iff, arith,
}
use mathlib.Core.List.{append-nil, append_assoc}
use sims.Prelude.Maps.{lookup, get_or, lookup-insert}
use sims.K8s.{Quantities, Pod}
use sims.Text.{is_empty, is_empty_iff, trim_space}
use sims.Text.Split.{split}
use sims.Rocm.DevicePlugin.Annotate.{assigned_gpus_annotation}
use sims.Rocm.Topology.{Assignment, Topology, empty}
use sims.Rocm.StatusUpdater.{
  append_assignment, assignment_of, add_piece, add_pieces, add_pod, add_pods, first_gpu_container,
}

module _ (qs : Quantities) where
  -- The assignment that a piece stands for, if it is not blank.
  abbrev pub of_piece : Pod qs.Q → String → String → List Assignment
  of_piece p container piece =
      if is_empty (trim_space piece)
      then []
      else assignment_of qs p container (trim_space piece) ∷ []

  -- The assignments that the pieces of a pod's annotation stand for.
  abbrev pub of_pieces : Pod qs.Q → String → List String → List Assignment
  of_pieces p container [] = []
  of_pieces p container (piece ∷ pieces) =
      of_piece p container piece ++ of_pieces p container pieces

  -- Those of a pod, without an annotation none.
  abbrev pub of_annotation : Pod qs.Q → List Assignment
  of_annotation p =
      let assigned = get_or "" p.annotations assigned_gpus_annotation in
      if is_empty assigned
      then []
      else of_pieces p (first_gpu_container qs p.containers) (split b',' assigned)

  -- Those of the pods of one node, in the order of the pods.
  abbrev pub on_node : String → List (Pod qs.Q) → List Assignment
  on_node node [] = []
  on_node node (p ∷ ps) = (if p.node_name == node then of_annotation p else []) ++ on_node node ps

  abbrev at : Topology → String → List Assignment
  at top node = get_or [] top.nodes node

  at-append :
      (top : Topology) (node : String) (a : Assignment) (other : String)
      → at (append_assignment top node a) other
        ≡ at top other ++ (if node == other then a ∷ [] else [])
  unfolding append_assignment
  at-append top node a other = ground (
    arith,
    lookup-insert top.nodes node other (at top node ++ a ∷ []),
    eq_iff node other,
    append-nil (at top other),
  )

  at-add_piece :
      (p : Pod qs.Q) (container piece : String) (top : Topology) (node : String)
      → at (add_piece qs p container piece top) node
        ≡ at top node ++ (if p.node_name == node then of_piece p container piece else [])
  unfolding add_piece
  at-add_piece p container piece top node = elim (Bool-cases (is_empty (trim_space piece))) [
    | inl blank ↦ rw blank (nothing (p.node_name == node))
    | inr names ↦
        rw names (at-append top p.node_name (assignment_of qs p container (trim_space piece)) node)
  ]
    where
      nothing : (b : Bool) → at top node ≡ at top node ++ (if b then [] else [])
      nothing true = sym (append-nil (at top node))
      nothing false = sym (append-nil (at top node))

  both_if :
      (b : Bool) (xs ys zs : List Assignment)
      → (xs ++ (if b then ys else [])) ++ (if b then zs else [])
        ≡ xs ++ (if b then ys ++ zs else [])
  both_if true xs ys zs = append_assoc xs ys zs
  both_if false xs ys zs = append-nil (xs ++ [])

  at-add_pieces :
      (p : Pod qs.Q) (container : String) (pieces : List String) (top : Topology) (node : String)
      → at (add_pieces qs p container pieces top) node
        ≡ at top node ++ (if p.node_name == node then of_pieces p container pieces else [])
  unfolding add_pieces
  at-add_pieces p container [] top node = ground (arith, append-nil (at top node))
  at-add_pieces p container (piece ∷ pieces) top node =
      at-add_pieces p container pieces (add_piece qs p container piece top) node
      ∙ (ap (λ t. t ++ (if p.node_name == node then of_pieces p container pieces else []))
            (at-add_piece p container piece top node)
          ∙ both_if (p.node_name == node) (at top node) (of_piece p container piece)
              (of_pieces p container pieces))

  at-add_pod :
      (p : Pod qs.Q) (top : Topology) (node : String)
      → node ≢ ""
      → at (add_pod qs p top) node
        ≡ at top node ++ (if p.node_name == node then of_annotation p else [])
  unfolding add_pod
  at-add_pod p top node named = elim (Bool-cases (is_empty p.node_name)) [
    | inl unscheduled ↦ rw (unscheduled, elsewhere unscheduled) (sym (append-nil (at top node)))
    | inr scheduled ↦
        rw scheduled
          (elim (Bool-cases (is_empty (get_or "" p.annotations assigned_gpus_annotation))) [
            | inl none_given ↦ rw none_given (nothing (p.node_name == node))
            | inr given ↦ rw given (
                at-add_pieces p (first_gpu_container qs p.containers)
                  (split b',' (get_or "" p.annotations assigned_gpus_annotation)) top node)
          ])
  ]
    where
      elsewhere : is_empty p.node_name ≡ true → (p.node_name == node) ≡ false
      elsewhere e = ground (arith, eq_iff p.node_name node, is_empty_iff p.node_name)

      nothing : (b : Bool) → at top node ≡ at top node ++ (if b then [] else [])
      nothing true = sym (append-nil (at top node))
      nothing false = sym (append-nil (at top node))

  at-add_pods :
      (ps : List (Pod qs.Q)) (top : Topology) (node : String)
      → node ≢ ""
      → at (add_pods qs ps top) node ≡ at top node ++ on_node node ps
  unfolding add_pods
  at-add_pods [] top node named = sym (append-nil (at top node))
  at-add_pods (p ∷ ps) top node named =
      at-add_pods ps (add_pod qs p top) node named
      ∙ (ap (λ t. t ++ on_node node ps) (at-add_pod p top node named)
          ∙ append_assoc (at top node) (if p.node_name == node then of_annotation p else [])
              (on_node node ps))

  -- The rebuilt topology has for each named node exactly the assignments that the annotations of the
  -- node's pods list, in the order of the pods and of the lists; blank pieces are left out.
  pub rebuilt_exact :
      (ps : List (Pod qs.Q)) (node : String)
      → node ≢ ""
      → get_or [] (add_pods qs ps empty).nodes node ≡ on_node node ps
  unfolding lookup
  rebuilt_exact ps node named = at-add_pods ps empty node named
