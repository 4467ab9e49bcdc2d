-- ===== src/Cli/Command.antt =====
-- pkg/cli/gpu_create.go and gpu_sample.go: the create command with its flags, and the sample command. cobra
-- is a library: `changed` tells which flags were given.
use sims.Prelude.{String, Bool, false, if◌then◌else◌, ◌==◌}
use sims.Prelude.Int.{pos}
use sims.Prelude.Commands.{Command, ◌>>=◌, ◌>>◌, lift, effect}
use sims.K8s.{Quantities}
use sims.Simsconfig.Load.{load}
use sims.Cli.Host.{Host, CliError}
use sims.Cli.Values.{CreateOpts}
use sims.Cli.Create.{apply_config, run_create, validate_vendor}

-- The options before the flags are read.
abbrev pub default_opts : CreateOpts
default_opts = record {
  vendor = "";
  name = "";
  workers = pos 2;
  gpus_per_worker = pos 2;
  k8s_version = "v1.31.0";
  with_monitoring = false;
  taint = false;
  config_path = "";
  product_name = "";
  gpu_memory_bytes = pos 0;
  mig_profile = "";
  partition_mode = "";
  partition_count = pos 0;
  default_utilization = "";
}

module _ {qs : Quantities} {W : Type 0} (host : Host qs W) where
  -- RunE of the create command, on the options after the flags are read.
  unfoldable pub create : (String → Bool) → CreateOpts → Command W CliError (Unit {0})
  unfolding apply_config load run_create
  create changed o = do
    o' ←
        lift (λ (e : CliError). e)
          (apply_config changed (load host.unmarshal_strict host.read_file) o)
    run_create host o'

abbrev pub sample_nvidia : String
sample_nvidia =
    "apiVersion: v1\nkind: Pod\nmetadata:\n  name: sims-nvidia-sample\n  annotations:\n    run.ai/simulated-gpu-utilization: \"30-50\"\nspec:\n  restartPolicy: Never\n  containers:\n    - name: payload\n      image: busybox\n      command: [\"sh\", \"-c\", \"echo 'sims NVIDIA sample running'; sleep 3600\"]\n      resources:\n        limits:\n          nvidia.com/gpu: 1\n"

abbrev pub sample_amd : String
sample_amd =
    "apiVersion: v1\nkind: Pod\nmetadata:\n  name: sims-amd-sample\n  annotations:\n    sims.io/simulated-gpu-utilization: \"30-50\"\nspec:\n  restartPolicy: Never\n  containers:\n    - name: payload\n      image: busybox\n      command: [\"sh\", \"-c\", \"echo 'sims AMD sample running'; sleep 3600\"]\n      resources:\n        limits:\n          amd.com/gpu: 1\n"

-- RunE of the sample command; a vendor that passes the check is one of the two.
unfoldable pub sample : {W : Type 0} → (String → W → W) → String → Command W CliError (Unit {0})
unfolding validate_vendor
sample print vendor = do
  lift (λ (e : CliError). e) (validate_vendor vendor)
  effect (print (if vendor == "nvidia" then sample_nvidia else sample_amd))
