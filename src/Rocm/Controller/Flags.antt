-- ===== src/Rocm/Controller/Flags.antt =====
-- operators/fake-rocm-gpu-operator/pkg/controller: the flags that the two DaemonSets are started with.
use sims.Prelude.{
  ℕ, ◌*◌, ◌^◌, ◌<◌, String, false, some, ◌≡◌, refl, ap, arith, get_elem?, if◌then◌else◌, ◌==◌,
  Bool-cases, inl, inr, map,
}
use sims.Prelude.Int.{ℤ, pos, negsuc, ltb_ℤ, ◌*ℤ◌, wrap32, wrap32_in_range, to_ℕ}
use sims.Text.{append}
use sims.Text.Decimal.{itoa, itoa_ℤ}
use sims.Rocm.Simulate.{Gpu, build_gpus, effective_count}
use sims.Rocm.DevicePlugin.Server.{build_devices}
use sims.Rocm.DevicePlugin.Devices.{device_ids, plugin_and_exporter_agree}
use sims.Rocm.Controller.Objects.{DeviceConfig, Config}
use sims.Rocm.Controller.Workloads.{
  normalize_partition, partition_multiplier, device_plugin_args, metrics_exporter_args,
}

not_negative : (c : ℤ) → ltb_ℤ c (pos 1) ≡ false → c ≡ pos (to_ℕ c)
not_negative (pos n) h = refl
not_negative (negsuc n) h = absurd (ground arith)

-- The controller's reading of the mode and the count is that of the exporter.
pub normalized :
    (mode : String) (count : ℤ)
    → let (m, c) = normalize_partition (record { mode = mode; count = count }) in
      c ≡ pos (effective_count m c)
unfolding normalize_partition effective_count
normalized mode count = elim (Bool-cases (mode == "cpx")) [
  | inl cpx ↦ rw cpx (at_least_one count)
  | inr spx ↦ rw spx refl
]
  where
    at_least_one :
        (count : ℤ)
        → let (m, c) =
            if◌then◌else◌ {A = String × ℤ} (ltb_ℤ count (pos 1)) ("cpx", pos 1) ("cpx", count) in
          c ≡ pos (effective_count m c)
    at_least_one count = elim (Bool-cases (ltb_ℤ count (pos 1))) [
      | inl below ↦ rw below refl
      | inr above ↦ rw (above, above) (not_negative count above)
    ]

product_in_range :
    (g c : ℤ) (a b : ℕ) → g ≡ pos a → c ≡ pos b → a * b < 2 ^ 31 → wrap32 (g *ℤ c) ≡ pos (a * b)
product_in_range g c a b eg ec h = rw (eg, ec, times) (wrap32_in_range (a * b) h)
  where
    times : pos a *ℤ pos b ≡ pos (a * b)
    times = ground arith

-- The number that the device plugin is told.
pub advertised :
    (cfg : Config) (cr : DeviceConfig) (cards : ℕ)
    → cfg.gpus_per_node ≡ pos cards
    → (let (mode, count) = normalize_partition cr.spec.compute_partition in
        cards * effective_count mode count < 2 ^ 31)
    → let (mode, count) = normalize_partition cr.spec.compute_partition in
      wrap32 (cfg.gpus_per_node *ℤ count) ≡ pos (cards * effective_count mode count)
advertised cfg cr cards e fits =
    product_in_range cfg.gpus_per_node (normalize_partition cr.spec.compute_partition).1 cards
      (effective_count (normalize_partition cr.spec.compute_partition).0
        (normalize_partition cr.spec.compute_partition).1)
      e (normalized cr.spec.compute_partition.mode cr.spec.compute_partition.count) fits

-- Where the number of cards is not negative and the number of partitions in all fits an int32, the
-- DaemonSets of a DeviceConfig are told numbers that agree: the device plugin the product of the cards
-- and the partitions of a card, and the metrics exporter the cards, the mode and the count, which make
-- the exporter report the devices that the plugin advertises, in the same order.
pub flags_agree :
    (cfg : Config) (cr : DeviceConfig) (cards : ℕ) (hostname product : String) (memory : ℤ)
    → cfg.gpus_per_node ≡ pos cards
    → (let (mode, count) = normalize_partition cr.spec.compute_partition in
        cards * effective_count mode count < 2 ^ 31)
    → let (mode, count) = normalize_partition cr.spec.compute_partition in
      let n = cards * effective_count mode count in
      (get_elem? (device_plugin_args cfg cr) 1 ≡ some (append "--gpus-per-node=" (itoa n)))
      × (get_elem? (metrics_exporter_args cfg cr) 2 ≡ some (append "--gpus-per-node=" (itoa cards)))
      × (get_elem? (metrics_exporter_args cfg cr) 6 ≡ some (append "--partition-mode=" mode))
      × (get_elem? (metrics_exporter_args cfg cr) 7
          ≡ some (append "--partition-count=" (itoa_ℤ count)))
      × (device_ids (build_devices n)
          ≡ map (λ (g : Gpu). g.id) (build_gpus hostname product memory cards mode count))
unfolding device_plugin_args partition_multiplier metrics_exporter_args itoa_ℤ
flags_agree cfg cr cards hostname product memory e fits = (
  ap (λ (z : ℤ). some (append "--gpus-per-node=" (itoa_ℤ z))) (advertised cfg cr cards e fits),
  ap (λ (z : ℤ). some (append "--gpus-per-node=" (itoa_ℤ z))) e,
  refl,
  refl,
  plugin_and_exporter_agree hostname product memory cards
      (normalize_partition cr.spec.compute_partition).0
      (normalize_partition cr.spec.compute_partition).1,
)
