-- ===== src/Rocm/SmiMock.antt =====
-- operators/fake-rocm-gpu-operator/cmd/rocm-smi-mock/main.go: the cards that the mock of rocm-smi
-- prints. The flags, the alignment of the table and the JSON encoder are not modelled; `fixed1` is the
-- verb %.1f.
pub mod Cards
use sims.Prelude.{
  ℕ, ◌+◌, ◌*◌, String, Bool, true, false, List, [], ◌∷◌, Option, none, some, map, range, concat_map,
  if◌then◌else◌, ◌==◌,
}
use sims.Prelude.Int.{ℤ, pos, negsuc, ltb_ℤ, to_ℕ, quot}
use sims.Prelude.Float.{Float64}
use sims.Prelude.Maps.{Map, insert}
use sims.Text.{append, concat, is_empty}
use sims.Text.Decimal.{itoa, itoa_ℤ, pad2, atoi}

abbrev pub driver_version : String
driver_version = "5.7.1"

abbrev pub card_vendor : String
card_vendor = "Advanced Micro Devices, Inc."

-- An environment variable that is not set reads as the empty text.
unfoldable pub env_str : String → String → String
env_str value default = if is_empty value then default else value

-- The mock's envInt and envInt64, whose numbers are both of 64 bits.
unfoldable pub env_int : String → ℤ → ℤ
env_int value default =
    if is_empty value then default else elim (atoi value) [ none ↦ default | some i ↦ i ]

module _ (fl : Float64) where
  pub record CardInfo : Type 0 where
    pub index : ℕ
    pub uuid : String
    pub serial : String
    pub product : String
    pub temp_c : fl.F
    pub power_w : fl.F
    pub power_max_w : fl.F
    pub sclk_mhz : ℕ
    pub mclk_mhz : ℕ
    pub fan_percent : ℕ
    pub vram_used_pct : ℕ
    pub gpu_used_pct : ℕ
    pub vram_total_b : ℤ
    pub partition_mode : String
    pub partition_id : String

  abbrev pub card_at : String → ℤ → String → ℕ → ℕ → ℕ → CardInfo
  card_at product memory mode count phys part = record {
    index = phys * count + part;
    uuid = concat ("GPU-sim-" ∷ pad2 phys ∷ "-p" ∷ itoa part ∷ []);
    serial = concat ("SIM-" ∷ pad2 phys ∷ "-p" ∷ itoa part ∷ []);
    product = product;
    temp_c = fl.lit 35 0;
    power_w = fl.lit 30 0;
    power_max_w = fl.lit 750 0;
    sclk_mhz = 500;
    mclk_mhz = 1600;
    fan_percent = 0;
    vram_used_pct = 0;
    gpu_used_pct = 0;
    vram_total_b = memory;
    partition_mode = mode;
    partition_id = itoa part;
  }

  -- `if partMode != "cpx"` and then `if partCount < 1`
  abbrev pub mode_of : String → String
  mode_of mode = if mode == "cpx" then mode else "spx"

  abbrev pub count_of : String → ℤ → ℕ
  count_of mode count =
      let c = if mode == "cpx" then count else pos 1 in to_ℕ (if ltb_ℤ c (pos 1) then pos 1 else c)

  -- A negative number of cards is a negative capacity, where make panics: `none`.
  unfoldable pub build_cards : ℤ → String → ℤ → String → ℤ → Option (List CardInfo)
  build_cards (negsuc n) product memory mode count = none
  build_cards (pos physical) product memory mode count = some (
      concat_map
        (λ phys.
          map
            (card_at product (quot memory (count_of mode count)) (mode_of mode)
              (count_of mode count) phys)
            (range (count_of mode count)))
        (range physical))

  module _ (fixed1 : fl.F → String) where
    -- The cells of a row of the table.
    unfoldable pub table_row : CardInfo → List String
    table_row c =
        itoa c.index
        ∷ fixed1 c.temp_c
        ∷ append (fixed1 c.power_w) "W"
        ∷ append (itoa c.sclk_mhz) "Mhz"
        ∷ append (itoa c.mclk_mhz) "Mhz"
        ∷ append (itoa c.fan_percent) "%"
        ∷ "auto"
        ∷ append (fixed1 c.power_max_w) "W"
        ∷ append (itoa c.vram_used_pct) "%"
        ∷ append (itoa c.gpu_used_pct) "%"
        ∷ []

    unfoldable pub table_rows : List CardInfo → List (List String)
    unfolding table_row
    table_rows cards =
        ("GPU" ∷ "Temp(C)" ∷ "AvgPwr" ∷ "SCLK" ∷ "MCLK" ∷ "Fan" ∷ "Perf" ∷ "PwrCap" ∷ "VRAM%"
          ∷ "GPU%" ∷ [])
        ∷ map table_row cards

    unfoldable pub card_fields : CardInfo → Map String
    card_fields c =
        ("GUID", c.uuid)
        ∷ ("Card Series", c.product)
        ∷ ("Card Model", c.product)
        ∷ ("Card SKU", c.product)
        ∷ ("Card Vendor", card_vendor)
        ∷ ("GPU ID", "0x74a1")
        ∷ ("Subsystem ID", "0x0c34")
        ∷ ("Serial Number", c.serial)
        ∷ ("Temperature (Sensor edge) (C)", fixed1 c.temp_c)
        ∷ ("Temperature (Sensor junction) (C)", fixed1 c.temp_c)
        ∷ ("Temperature (Sensor memory) (C)", fixed1 c.temp_c)
        ∷ ("Average Graphics Package Power (W)", fixed1 c.power_w)
        ∷ ("Max Graphics Package Power (W)", fixed1 c.power_max_w)
        ∷ ("Performance Level", "auto")
        ∷ ("GPU use (%)", itoa c.gpu_used_pct)
        ∷ ("GFX Activity", itoa c.gpu_used_pct)
        ∷ ("GPU Memory Allocated (VRAM%)", itoa c.vram_used_pct)
        ∷ ("GPU Memory Read/Write Activity (%)", "0")
        ∷ ("GPU memory vendor", "HBM3")
        ∷ ("PCIe Replay Count", "0")
        ∷ ("Voltage (mV)", "800")
        ∷ ("PCI Bus", concat ("0000:00:" ∷ pad2 c.index ∷ ".0" ∷ []))
        ∷ ("VRAM Total Memory (B)", itoa_ℤ c.vram_total_b)
        ∷ ("sims.io Partition Mode", c.partition_mode)
        ∷ ("sims.io Partition ID", c.partition_id)
        ∷ []

    abbrev pub card_key : CardInfo → String
    card_key c = append "card" (itoa c.index)

    unfoldable pub add_cards : Map (Map String) → List CardInfo → Map (Map String)
    unfolding card_fields
    add_cards doc [] = doc
    add_cards doc (c ∷ cs) = add_cards (insert doc (card_key c) (card_fields c)) cs

    -- The document that the encoder is given.
    unfoldable pub json_doc : List CardInfo → Map (Map String)
    unfolding add_cards
    json_doc cards = add_cards (("system", ("Driver version", driver_version) ∷ []) ∷ []) cards
