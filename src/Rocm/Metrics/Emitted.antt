-- ===== src/Rocm/Metrics/Emitted.antt =====
-- operators/fake-rocm-gpu-operator/pkg/metrics/registry.go: the metrics of a scrape and the descriptors.
use sims.Prelude.{String, List, [], ◌∷◌, ◌++◌, concat_map, map, length, All, ◌≡◌, refl, ap}
use sims.Prelude.Float.{Float64}
use sims.Rocm.Metrics.{Snapshot, Desc, Metric, label_names, all_descs, collect}

module _ (fl : Float64) where
  abbrev pub described : List String
  described = map (λ (d : Desc). d.fq_name) all_descs

  abbrev pub emitted : List (Metric fl) → List String
  emitted ms = map (λ (m : Metric fl). m.fq_name) ms

  names_emitted :
      (ss : List (Snapshot fl))
      → emitted (collect fl ss) ≡ concat_map (λ (s : Snapshot fl). described) ss
  unfolding collect all_descs
  names_emitted [] = refl
  names_emitted (s ∷ ss) = ap (λ (r : List String). described ++ r) (names_emitted ss)

  labels_emitted :
      (ss : List (Snapshot fl))
      → All (λ (m : Metric fl). length m.label_values ≡ length label_names) (collect fl ss)
  unfolding collect
  labels_emitted [] = tt
  labels_emitted (s ∷ ss) = (
    refl,
    (refl, (refl, (refl, (refl, (refl, (refl, (refl, (refl, (refl, labels_emitted ss))))))))),
  )

  -- A scrape emits for each snapshot one metric of every descriptor, in the order of the descriptors,
  -- and each metric has a value for each label name.
  pub scrape_is_described :
      (ss : List (Snapshot fl))
      → (emitted (collect fl ss) ≡ concat_map (λ (s : Snapshot fl). described) ss)
        × All (λ (m : Metric fl). length m.label_values ≡ length label_names) (collect fl ss)
  scrape_is_described ss = (names_emitted ss, labels_emitted ss)
