-- ===== src/Examples/Gpus.antt =====
-- operators/fake-rocm-gpu-operator at one node of two cards, with numbers in hundredths for float64.
use sims.Prelude.{
  ℕ, suc, ◌*◌, ◌≤◌, String, List, none, some, map, range, ◌≡◌, refl, ◌∙◌, sym, ap, Bool-cases, inl,
  inr, eq_iff, ◌==◌,
}
use sims.Prelude.Int.{pos}
use sims.Prelude.Results.{ok, Call}
use sims.Text.{append, trim_space}
use sims.Text.Decimal.{atoi}
use sims.Text.Split.{split_2}
use sims.Rocm.Annotations.{parse_utilization_with_default}
use sims.Rocm.Utilization.{NaN_accepted, configured_default_accepted}
use sims.Rocm.Simulate.{Gpu, gpu_id, build_gpus, effective_count, readings}
use sims.Rocm.Loaded.{IsBelow, readings_follow_utilization}
use sims.Rocm.Partitions.{ids-build_gpus}
use sims.Rocm.SmiMock.{CardInfo, build_cards}
use sims.Rocm.SmiMock.Cards.{card_shown, gpu_shown, mock_and_exporter_agree}
use sims.Simsconfig.Load.{validate_util_range}
use sims.Examples.Floats.{hundredths, hundredths_ieee}
open hundredths use {F, lit, le}

abbrev gpu : Gpu
gpu = record {
  id = "gpu-0";
  serial_number = "SIM-node-00-p0";
  card_series = "MI300X";
  card_model = "MI300X";
  memory_total = pos 1000;
  partition_mode = "spx";
  partition_id = "0";
}

-- A generator that counts its draws.
abbrev draw : Call ℕ F
draw n = (some 50, suc n)

readings_follow_utilization_example :
    IsBelow hundredths hundredths_ieee
      (readings hundredths gpu (lit 20 0) (lit 5 1))
      (readings hundredths gpu (lit 80 0) (lit 5 1))
readings_follow_utilization_example =
    readings_follow_utilization hundredths hundredths_ieee gpu 1000 (lit 20 0) (lit 80 0) (lit 5 1)
      refl (refl, refl) (refl, refl) refl refl refl

trimmed_NaN : trim_space "NaN" ≡ "NaN"
unfolding trim_space
trimmed_NaN = refl

NaN_accepted_example :
    parse_utilization_with_default hundredths (append "NaN" (append "-" "NaN")) "5-15"
    ≡ ok (record { low = none; high = none })
NaN_accepted_example =
    NaN_accepted hundredths hundredths_ieee "NaN" "NaN" "5-15" none none (refl, (refl, (refl, tt)))
      (ap hundredths.parse_float trimmed_NaN) (ap hundredths.parse_float trimmed_NaN) refl refl

no_number : atoi "NaN" ≡ none
unfolding atoi
no_number = refl

reads_decimals :
    (s : String) (n : ℕ)
    → atoi s ≡ some (pos n)
    → n ≤ 100
    → hundredths.parse_float s ≡ some (lit n 0)
reads_decimals s n h l = elim (Bool-cases (s == "NaN")) [
  | inl nan ↦ cc (sym h ∙ (ap atoi ((eq_iff s "NaN").0 nan) ∙ no_number))
  | inr other ↦ rw (other, h) refl
]

range_accepted : validate_util_range "20-80" ≡ ok tt
unfolding validate_util_range split_2 atoi
range_accepted = refl

configured_default_accepted_example :
    (lo : ℕ) × (hi : ℕ) × (lo ≤ hi)
    × (hi ≤ 100)
    × (parse_utilization_with_default hundredths "" "20-80"
        ≡ ok (record { low = lit lo 0; high = lit hi 0 }))
configured_default_accepted_example =
    configured_default_accepted hundredths hundredths_ieee "20-80" reads_decimals range_accepted

ids-build_gpus_example :
    map (λ (g : Gpu). g.id) (build_gpus "node" "MI300X" (pos 1000) 2 "cpx" (pos 4))
    ≡ map gpu_id (range (2 * effective_count "cpx" (pos 4)))
ids-build_gpus_example = ids-build_gpus "node" "MI300X" (pos 1000) 2 "cpx" (pos 4)

mock_and_exporter_agree_example :
    (cards : List (CardInfo hundredths)) × (build_cards hundredths
        (pos 2)
        "MI300X"
        (pos 1000)
        "cpx"
        (pos 4)
      ≡ some cards)
    × (map (λ (c : CardInfo hundredths). card_shown hundredths c) cards
        ≡ map
            (λ (g : Gpu). gpu_shown hundredths g)
            (build_gpus "node" "MI300X" (pos 1000) 2 "cpx" (pos 4)))
mock_and_exporter_agree_example =
    mock_and_exporter_agree hundredths "node" "MI300X" (pos 1000) 2 "cpx" (pos 4)
