-- ===== src/Rocm/DevicePlugin/Devices.antt =====
-- operators/fake-rocm-gpu-operator: the devices that a node advertises and the GPUs that it exports.
use text.Mathlib.TextLemmas.{tail-eq_of_cons-eq as tail}
use sims.Prelude.{
  ℕ, zero, suc, ◌*◌, ◌<◌, String, List, ◌∷◌, map, range, range_from, ◌≡◌, refl, ◌∙◌, ap, sym, arith,
  In, Distinct, inl, inr, if◌then◌else◌, length, length-map, length-range_from,
}
use sims.Prelude.Int.{ℤ, pos, ltb_ℤ, to_ℕ}
use sims.Text.Decimal.RoundTrip.{itoa_inj}
use sims.Rocm.Simulate.{Gpu, gpu_id, build_gpus, effective_count}
use sims.Rocm.Partitions.{ids-build_gpus}
use sims.Rocm.DevicePlugin.Server.{Device, Options, build_devices, new}

abbrev pub device_ids : List Device → List String
device_ids ds = map (λ (d : Device). d.id) ds

pub device_ids-range_from :
    (i n : ℕ)
    → device_ids (map (λ (k : ℕ). record { id = gpu_id k; health = "Healthy" }) (range_from i n))
      ≡ map gpu_id (range_from i n)
device_ids-range_from i zero = refl
device_ids-range_from i (suc n) = ap (λ t. gpu_id i ∷ t) (device_ids-range_from (suc i) n)

pub device_ids-build_devices : (n : ℕ) → device_ids (build_devices n) ≡ map gpu_id (range n)
unfolding build_devices
device_ids-build_devices n = device_ids-range_from 0 n

gpu_id_inj : (m n : ℕ) → gpu_id m ≡ gpu_id n → m ≡ n
gpu_id_inj m n e = itoa_inj m n (tail (tail (tail (tail e))))

not_below : (i j n : ℕ) → i < j → ¬ (In (gpu_id i) (map gpu_id (range_from j n)))
not_below i j zero lt m = m
not_below i j (suc n) lt (inl e) = absurd (omega (arith, gpu_id_inj i j e))
not_below i j (suc n) lt (inr m) = not_below i (suc j) n (omega arith) m

pub ids_Distinct : (i n : ℕ) → Distinct (map gpu_id (range_from i n))
ids_Distinct i zero = tt
ids_Distinct i (suc n) = (not_below i (suc i) n (omega arith), ids_Distinct (suc i) n)

length-build_devices : (n : ℕ) → length (build_devices n) ≡ n
unfolding build_devices
length-build_devices n = length-map {B = Device} _ (range n) ∙ length-range_from 0 n

pub devices-new :
    (opts : Options) (n : ℕ) → opts.gpu_count ≡ pos n → (new opts).devices ≡ build_devices n
unfolding new
devices-new opts n e = rw e (ap (λ (c : ℤ). build_devices (to_ℕ c)) not_negative)
  where
    not_negative : (if ltb_ℤ (pos n) (pos 0) then pos 0 else pos n) ≡ pos n
    not_negative = ground arith

-- A server for n GPUs, n not negative, advertises n devices with names that differ from one another.
pub devices_Distinct :
    (opts : Options) (n : ℕ)
    → opts.gpu_count ≡ pos n
    → (length (new opts).devices ≡ n) × Distinct (device_ids (new opts).devices)
devices_Distinct opts n e =
    rw (devices-new opts n e)
      (length-build_devices n, rw (device_ids-build_devices n) (ids_Distinct 0 n))

-- The device plugin and the metrics exporter of a node agree on the names of its GPUs: told the number
-- of cards times that of the partitions, the plugin advertises the devices that the exporter reports,
-- in the same order.
pub plugin_and_exporter_agree :
    (h p : String) (memory : ℤ) (physical : ℕ) (mode : String) (count : ℤ)
    → device_ids (build_devices (physical * effective_count mode count))
      ≡ map (λ (g : Gpu). g.id) (build_gpus h p memory physical mode count)
plugin_and_exporter_agree h p memory physical mode count =
    device_ids-build_devices (physical * effective_count mode count)
    ∙ sym (ids-build_gpus h p memory physical mode count)
