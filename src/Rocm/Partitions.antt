-- ===== src/Rocm/Partitions.antt =====
-- operators/fake-rocm-gpu-operator/pkg/simulate/gpu.go: how many GPUs there are, and their names.
use mathlib.Core.Path.{ap₂}
use sims.Prelude.{
  ℕ, zero, suc, ◌+◌, ◌*◌, String, List, ◌∷◌, ◌++◌, map, range, range_from, concat_map, ◌≡◌, refl,
  ◌∙◌, ap, sym, arith, map-append, range_from-append,
}
use sims.Prelude.Int.{ℤ, quot}
use sims.Rocm.Simulate.{Gpu, gpu_id, gpu_at, build_gpus, effective_mode, effective_count}

abbrev ids : List Gpu → List String
ids gs = map (λ (g : Gpu). g.id) gs

-- One card: its partitions have the next numbers in turn.
ids_of_card :
    (h p : String) (m : ℤ) (mode : String) (count phys i n : ℕ)
    → ids (map (gpu_at h p m mode count phys) (range_from i n))
      ≡ map gpu_id (range_from (phys * count + i) n)
ids_of_card h p m mode count phys i zero = refl
ids_of_card h p m mode count phys i (suc n) =
    ap (λ t. gpu_id (phys * count + i) ∷ t)
      (ids_of_card h p m mode count phys (suc i) n
        ∙ ap (λ (k : ℕ). map gpu_id (range_from k n)) next)
  where
    next : phys * count + suc i ≡ suc (phys * count + i)
    next = omega arith

-- The numbers of one card, and those of the cards after it.
join_ranges :
    (i count n : ℕ)
    → map gpu_id (range_from (i * count + 0) count)
        ++ map gpu_id (range_from (suc i * count) (n * count))
      ≡ map gpu_id (range_from (i * count) (suc n * count))
join_ranges i count n =
    ap₂ (λ (a b : ℕ). map gpu_id (range_from a count) ++ map gpu_id (range_from b (n * count)))
      first_start next_start
    ∙ (sym (
          map-append gpu_id (range_from (i * count) count)
            (range_from (i * count + count) (n * count)))
        ∙ ap (map gpu_id) (
            sym (range_from-append (i * count) count (n * count))
            ∙ ap (λ (k : ℕ). range_from (i * count) k) all_cards))
  where
    first_start : i * count + 0 ≡ i * count
    first_start = omega arith

    next_start : suc i * count ≡ i * count + count
    next_start = omega arith

    all_cards : count + n * count ≡ suc n * count
    all_cards = omega arith

ids_of_cards :
    (h p : String) (m : ℤ) (mode : String) (count i n : ℕ)
    → ids (concat_map (λ phys. map (gpu_at h p m mode count phys) (range count)) (range_from i n))
      ≡ map gpu_id (range_from (i * count) (n * count))
ids_of_cards h p m mode count i zero =
    let none_left : 0 ≡ zero * count = omega arith in
    ap (λ (k : ℕ). map gpu_id (range_from (i * count) k)) none_left
ids_of_cards h p m mode count i (suc n) =
    map-append (λ (g : Gpu). g.id) (map (gpu_at h p m mode count i) (range count)) rest
    ∙ (ap₂ (λ (a b : List String). a ++ b) (ids_of_card h p m mode count i 0 count)
          (ids_of_cards h p m mode count (suc i) n)
        ∙ join_ranges i count n)
  where
    rest : List Gpu
    rest =
        concat_map (λ phys. map (gpu_at h p m mode count phys) (range count)) (range_from (suc i) n)

-- The GPUs of the metrics exporter are numbered from 0 without a gap, across the cards and their
-- partitions: their names are those of as many consecutive numbers as there are partitions in all.
pub ids-build_gpus :
    (h p : String) (memory : ℤ) (physical : ℕ) (mode : String) (count : ℤ)
    → ids (build_gpus h p memory physical mode count)
      ≡ map gpu_id (range (physical * effective_count mode count))
unfolding build_gpus
ids-build_gpus h p memory physical mode count =
    ids_of_cards h p (quot memory c) (effective_mode mode) c 0 physical
    ∙ ap (λ (k : ℕ). map gpu_id (range_from k (physical * c))) from_zero
  where
    c : ℕ
    c = effective_count mode count

    from_zero : 0 * c ≡ 0
    from_zero = omega arith
