-- ===== src/Simsconfig/Families.antt =====
-- pkg/simsconfig/families.go: the GPU families that the program knows, and the defaults.
use sims.Prelude.{ℕ, ◌*◌, ◌^◌, String, [], ◌∷◌, Option, none, some, if◌then◌else◌}
use sims.Prelude.Int.{ℤ, pos, leb_ℤ, is_zero}
use sims.Prelude.Maps.{Map, lookup}
use sims.Text.{is_empty}
use sims.Config.{vendor_nvidia, vendor_amd}
use sims.Simsconfig.Types.{SimsConfig, Gpu}

abbrev pub gib : ℕ
gib = 2 ^ 30

pub record FamilyInfo : Type 0 where
  pub vendor : String
  pub product_name : String
  pub memory_bytes : ℤ
  pub display_name : String

abbrev family : String → String → ℕ → String → FamilyInfo
family v p m d = record {
  vendor = v;
  product_name = p;
  memory_bytes = pos (m * gib);
  display_name = d;
}

unfoldable pub families : Map FamilyInfo
families =
    ("GB300", family vendor_nvidia "B300" 288 "NVIDIA B300 288GB HBM3e")
    ∷ ("GB200", family vendor_nvidia "B200" 192 "NVIDIA B200 192GB HBM3e")
    ∷ ("H200", family vendor_nvidia "H200" 141 "NVIDIA H200 141GB HBM3e")
    ∷ ("H100", family vendor_nvidia "H100" 80 "NVIDIA H100 80GB HBM3")
    ∷ ("A100", family vendor_nvidia "A100" 40 "NVIDIA A100 40GB HBM2e")
    ∷ ("L40S", family vendor_nvidia "L40S" 48 "NVIDIA L40S 48GB GDDR6")
    ∷ ("L40", family vendor_nvidia "L40" 48 "NVIDIA L40 48GB GDDR6")
    ∷ ("L4", family vendor_nvidia "L4" 24 "NVIDIA L4 24GB GDDR6")
    ∷ ("T4", family vendor_nvidia "Tesla T4" 16 "NVIDIA Tesla T4 16GB GDDR6")
    ∷ ("MI440X", family vendor_amd "MI440X" 432 "AMD Instinct MI440X 432GB HBM4")
    ∷ ("MI430X", family vendor_amd "MI430X" 432 "AMD Instinct MI430X 432GB HBM4")
    ∷ ("MI325X", family vendor_amd "MI325X" 256 "AMD Instinct MI325X 256GB HBM3e")
    ∷ ("MI300X", family vendor_amd "MI300X" 192 "AMD Instinct MI300X 192GB HBM3")
    ∷ ("MI300A", family vendor_amd "MI300A" 128 "AMD Instinct MI300A 128GB HBM3")
    ∷ ("MI250X", family vendor_amd "MI250X" 128 "AMD Instinct MI250X 128GB HBM2e")
    ∷ ("MI250", family vendor_amd "MI250" 128 "AMD Instinct MI250 128GB HBM2e")
    ∷ ("MI210", family vendor_amd "MI210" 64 "AMD Instinct MI210 64GB HBM2e")
    ∷ ("MI100", family vendor_amd "MI100" 32 "AMD Instinct MI100 32GB HBM2")
    ∷ []

abbrev pub at_least_one : ℤ → ℤ
at_least_one n = if leb_ℤ n (pos 0) then pos 2 else n

-- The memory of the family, where the file gives none.
abbrev default_memory : Gpu → Option FamilyInfo → ℤ
default_memory g none = g.memory_bytes
default_memory g (some fam) = if is_zero g.memory_bytes then fam.memory_bytes else g.memory_bytes

unfoldable pub apply_family_defaults : SimsConfig → SimsConfig
apply_family_defaults cfg =
    let cfg1 = record cfg { workers = at_least_one cfg.workers } in
    let cfg2 = record cfg1 {
      gpu = record cfg1.gpu { per_worker = at_least_one cfg1.gpu.per_worker };
    } in
    if is_empty cfg2.gpu.family then cfg2 else record cfg2 {
      gpu = record cfg2.gpu {
        memory_bytes = default_memory cfg2.gpu (lookup families cfg2.gpu.family);
      };
    }
