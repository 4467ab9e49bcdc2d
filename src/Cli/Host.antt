-- ===== src/Cli/Host.antt =====
-- pkg/cli: what the commands call, and the errors that they return.
use sims.Prelude.{ℕ, String, List}
use sims.Prelude.Results.{Result, Call}
use sims.K8s.{Quantities}
use sims.Cluster.{Kind, ClusterError}
use sims.Config.KindConfig.{RenderError}
use sims.Helm.Client.{TempFiles, NewError}
use sims.Helm.Actions.{HelmLib, HelmError}
use sims.Kube.Clients.{Clientset, Timers, KubeError}
use sims.Simsconfig.Types.{SimsConfig}
use sims.Simsconfig.Load.{ConfigError}

-- kind, the file system, Helm, the Kubernetes clients, the clock, standard output and filepath.Join. The
-- fuel is the number of checks that a wait may make.
pub record Host (qs : Quantities) (W : Type 0) : Type 1 where
  pub kind : Kind W
  pub files : TempFiles W
  pub helm : HelmLib W
  pub connect : String → Result String (Clientset qs W)
  pub timers : Timers W
  pub fuel : ℕ
  pub print : String → Call W (Result String (Unit {0}))
  pub join : String → String → String
  pub read_file : String → Result String String
  pub unmarshal_strict : String → Result String SimsConfig

pub data CliError : Type 0 where
  vendor_or_config_required : CliError
  load_failed : ConfigError → CliError
  invalid_vendor : String → CliError
  render_failed : RenderError → CliError
  cluster_failed : ClusterError → CliError
  client_failed : NewError → CliError
  helm_failed : HelmError → CliError
  kube_failed : KubeError → CliError
  no_cluster : CliError
  several_clusters : List String → CliError
  cluster_not_found : String → CliError
  print_failed : String → CliError
