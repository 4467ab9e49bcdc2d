-- ===== src/Rocm/StatusUpdater/RoundTrip.antt =====
-- From the annotator to the status-updater to the metrics exporter: the device names that one joins
-- into an annotation are the ones that the next reads out of it and the last finds.
use Prim.Native.Char.{Char}
use sims.Prelude.{
  ℕ, String, true, false, List, [], ◌∷◌, Option, some, none, sym, ◌∙◌, ◌⊎◌, Option-cases, ◌==◌, ◌≡◌,
  ◌≢◌, refl, ap, inl, inr, Bool-cases, eq_iff, arith, In,
}
use sims.K8s.{Quantities, Pod}
use sims.Text.{is_empty, AllChars, AllChars-imp, AllChars-append, is_solid}
use sims.Text.Decimal.{is_digit, itoa}
use sims.Text.Decimal.RoundTrip.{itoa-AllChars}
use sims.Text.Split.{is_not}
use sims.Rocm.Simulate.{gpu_id}
use sims.Rocm.Topology.{Assignment, empty, find_gpu, find_assignment}
use sims.Rocm.StatusUpdater.{add_pods, first_gpu_container}
use sims.Rocm.StatusUpdater.Rebuilt.{on_node, rebuilt_exact}

-- A device name that survives the annotation: it is not empty, and holds no comma and no space.
abbrev pub IsPlainId : String → Type 0
IsPlainId s = (is_empty s ≡ false) × AllChars is_solid s × AllChars (is_not b',') s

digit_is_solid : (c : Char) → is_digit c ≡ true → is_solid c ≡ true
digit_is_solid c h = ground arith

digit_is_no_comma : (c : Char) → is_digit c ≡ true → is_not b',' c ≡ true
digit_is_no_comma c h = ground arith

-- The names that the device plugin gives its devices are such names.
pub gpu_id-IsPlainId : (n : ℕ) → IsPlainId (gpu_id n)
gpu_id-IsPlainId n = (
  refl,
  AllChars-append is_solid "gpu-" (itoa n) (refl, (refl, (refl, (refl, tt))))
      (AllChars-imp is_digit is_solid (itoa n) digit_is_solid (itoa-AllChars n)),
  AllChars-append (is_not b',') "gpu-" (itoa n) (refl, (refl, (refl, (refl, tt))))
      (AllChars-imp is_digit (is_not b',') (itoa n) digit_is_no_comma (itoa-AllChars n)),
)

module _ (qs : Quantities) where
  -- The assignment of a device to a pod.
  abbrev pub assigned : Pod qs.Q → String → Assignment
  assigned p id = record {
    gpu_id = id;
    pod_namespace = p.namespace;
    pod_name = p.name;
    container = first_gpu_container qs p.containers;
  }

  find_gpu-In :
      (held : List Assignment) (id : String) (a : Assignment)
      → find_gpu held id ≡ some a
      → In a held × (a.gpu_id ≡ id)
  unfolding find_gpu
  find_gpu-In [] id a h = cc
  find_gpu-In (b ∷ bs) id a h = elim (Bool-cases (b.gpu_id == id)) [
    | inl here ↦ found b (rw here at h) ((eq_iff b.gpu_id id).0 here)
    | inr below ↦ let (m, e) = find_gpu-In bs id a (rw below at h) in (inr m, e)
  ]
    where
      found :
          (c : Assignment)
          → ◌≡◌ {A = Option Assignment} (some c) (some a)
          → c.gpu_id ≡ id
          → In a (c ∷ bs) × (a.gpu_id ≡ id)
      found c q e = (inl (cc), cc)

  In-find_gpu :
      (held : List Assignment) (a : Assignment)
      → In a held
      → (b : Assignment) × (find_gpu held a.gpu_id ≡ some b)
  unfolding find_gpu
  In-find_gpu [] a h = elim h [ ]
  In-find_gpu (c ∷ cs) a h = elim (Bool-cases (c.gpu_id == a.gpu_id)) [
    | inl here ↦ (c, rw here refl)
    | inr below ↦ rw below (In-find_gpu cs a (further h below))
  ]
    where
      further : In a (c ∷ cs) → (c.gpu_id == a.gpu_id) ≡ false → In a cs
      further (inl e) q =
          absurd (ground (arith, eq_iff c.gpu_id a.gpu_id, ap (λ (x : Assignment). x.gpu_id) e))
      further (inr m) q = m

  abbrev IsAbsent : List Assignment → String → Type 0
  IsAbsent held id = (a : Assignment) → In a held → ¬ (a.gpu_id ≡ id)

  find_gpu-exact :
      (held : List Assignment) (id : String)
      → ((find_gpu held id ≡ none) × IsAbsent held id)
        ⊎ ((a : Assignment) × (find_gpu held id ≡ some a) × In a held × (a.gpu_id ≡ id))
  find_gpu-exact held id = elim (Option-cases (find_gpu held id)) [
    | inl missing ↦ inl (
      missing,
      λ a i e.
          let (b, there) = In-find_gpu held a i in
          none_some (sym missing ∙ (ap (find_gpu held) (sym e) ∙ there)),
    )
    | inr (a, there) ↦
        let (listed, same) = find_gpu-In held id a there in inr (a, there, listed, same)
  ]
    where
      none_some : {b : Assignment} → ◌≡◌ {A = Option Assignment} none (some b) → ⊥
      none_some e = cc

  -- In a rebuilt topology a GPU of a named node is found exactly where it is listed: what is found is an
  -- assignment that an annotation of a pod on that node lists for this GPU, and where nothing is found
  -- none lists it.
  pub found_is_listed :
      (ps : List (Pod qs.Q)) (node id : String)
      → node ≢ ""
      → ((find_assignment (add_pods qs ps empty) node id ≡ none)
          × ((a : Assignment) → In a (on_node qs node ps) → ¬ (a.gpu_id ≡ id)))
        ⊎ ((a : Assignment) × (find_assignment (add_pods qs ps empty) node id ≡ some a)
            × In a (on_node qs node ps)
            × (a.gpu_id ≡ id))
  unfolding find_assignment
  found_is_listed ps node id named =
      rw (rebuilt_exact qs ps node named) (find_gpu-exact (on_node qs node ps) id)
