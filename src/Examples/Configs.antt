-- ===== src/Examples/Configs.antt =====
-- pkg/config and pkg/simsconfig at one kind template and one configuration file.
use sims.Prelude.{String, ◌≤◌, true, false, [], ◌∷◌, ◌≡◌, refl, ◌↔◌, arith}
use sims.Prelude.Int.{pos}
use sims.Prelude.Results.{Result, ok}
use sims.Text.{concat}
use sims.Text.Decimal.{itoa, atoi}
use sims.Text.Split.{split_2}
use sims.Prelude.Maps.{lookup}
use sims.Config.KindConfig.{Options, render}
use sims.Config.Described.{cluster_text, wanted_cluster}
use sims.Config.Rendered.{text_of, rendered_lines}
use sims.Simsconfig.Types.{SimsConfig}
use sims.Simsconfig.Load.{
  validate, validate_util_range, parse, check_family, check_features, check_utilization,
}
use sims.Simsconfig.Families.{apply_family_defaults, families}
use sims.Simsconfig.WellFormed.{IsWellFormed, validate_exact}
use sims.Simsconfig.Utilization.{util_range_exact}
use sims.Simsconfig.Defaults.{IsPositive, HasMemory, parse_ready}

abbrev options : Options
options = record { vendor = "nvidia"; name = ""; workers = pos 3; k8s_version = ""; taint = true }

rendered_lines_example : render options ≡ ok (text_of (cluster_text (wanted_cluster true options)))
rendered_lines_example = rendered_lines options

abbrev file : SimsConfig
file = record {
  api_version = "sims.io/v1";
  kind = "SimsConfig";
  vendor = "amd";
  name = "";
  workers = pos 0;
  k8s_version = "";
  taint = false;
  gpu = record {
    family = "MI300X";
    per_worker = pos 4;
    memory_bytes = pos 0;
    features = record { mig = ""; partition = record { mode = "cpx"; count = pos 8 } };
  };
  workload = record { default_utilization = "20-80" };
  monitoring = true;
}

validate_exact_example : (validate file ≡ ok tt) ↔ IsWellFormed file
validate_exact_example = validate_exact file

util_range_exact_example :
    (validate_util_range (concat (itoa 20 ∷ "-" ∷ itoa 80 ∷ [])) ≡ ok tt) ↔ ((20 ≤ 80) × (80 ≤ 100))
util_range_exact_example = util_range_exact 20 80 (omega arith) (omega arith)

file_is_valid : validate file ≡ ok tt
unfolding validate check_family check_features check_utilization validate_util_range families lookup
    split_2 atoi
file_is_valid = refl

file_parsed : parse (λ text. ok file) "" ≡ ok (apply_family_defaults file)
unfolding parse
file_parsed = rw file_is_valid refl

parse_ready_example :
    IsWellFormed (apply_family_defaults file)
    × IsPositive (apply_family_defaults file).workers
    × IsPositive (apply_family_defaults file).gpu.per_worker
    × ((c : SimsConfig) × (◌≡◌ {A = Result String SimsConfig} (ok file) (ok c))
        × HasMemory c (apply_family_defaults file))
parse_ready_example = parse_ready (λ text. ok file) "" (apply_family_defaults file) file_parsed
