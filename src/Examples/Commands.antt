-- ===== src/Examples/Commands.antt =====
-- pkg/cli at a small machine.
use mathlib.Core.Path.{subst}
use sims.Prelude.{
  inl, ℕ, zero, suc, ◌<◌, String, Bool, true, false, List, [], ◌∷◌, some, ◌≡◌, refl, ap, ◌⊎◌, In,
  arith, ◌↔◌,
}
use sims.Prelude.Int.{pos}
use sims.Prelude.Results.{Result, ok}
use sims.Prelude.Commands.{Keeps, Ends}
use sims.Cluster.{list, kube_config, delete}
use sims.Helm.Client.{new, close}
use sims.Helm.Actions.{uninstall, action_config}
use sims.Kube.Clients.{Clientset}
use sims.Simsconfig.Types.{SimsConfig}
use sims.Cli.Select.{resolve_name, resolve_and_check, filter_sims_clusters, contains_name}
use sims.Cli.Resolved.{resolvers_agree, resolved_exact, IsOnly}
use sims.Cli.Values.{build_amd_values, build_nvidia_values}
use sims.Cli.Create.{run_create, configured}
use sims.Cli.Reached.{config_reaches_charts, at, given, product_of}
use sims.Cli.Monitoring.{run_monitoring_enable, run_monitoring_disable}
use sims.Cli.Delete.{run_delete, target, uninstall_known_releases}
use sims.Cli.Deleted.{Deleted}
use sims.Cli.Refines.{ClusterLaws, run_delete_refines}
use sims.Cli.Ends.{IsTimely, run_create-Ends}
use sims.Cli.Disk.{outstanding}
use sims.Cli.Cleaned.{commands_leave_no_file}
use sims.Cli.Doctor.{Environment, run_doctor}
use sims.Cli.Diagnosed.{table, doctor_exact}
use sims.Examples.Machine.{
  on_host, World, counts, succeeds, kind, clientset, ticked, host, helm_keeps, disk, opts,
}

resolvers_agree_example : resolve_name "" on_host ≡ resolve_and_check "" on_host
resolvers_agree_example = resolvers_agree "" on_host

only_amd : resolve_name "" on_host ≡ ok "sims-amd"
unfolding resolve_name filter_sims_clusters
only_amd = refl

resolved_exact_example :
    ((let name : String = "" in name ≡ "") × IsOnly "sims-amd" on_host)
    ⊎ (In "sims-amd" on_host × (let name : String = "sims-amd" in name ≡ ""))
resolved_exact_example = resolved_exact "" on_host "sims-amd" (inl only_amd)

commands_leave_no_file_example :
    Keeps (λ (w : World). outstanding w.temps []) (run_create host opts)
    × Keeps (λ (w : World). outstanding w.temps []) (run_delete host "")
    × Keeps (λ (w : World). outstanding w.temps []) (run_monitoring_enable host "")
    × Keeps (λ (w : World). outstanding w.temps []) (run_monitoring_disable host "")
commands_leave_no_file_example = commands_leave_no_file host disk opts ""

abbrev before : World
before = record { clusters = on_host; temps = []; seconds = 0 }

abbrev after : World
after = record { clusters = "kind" ∷ []; temps = []; seconds = 0 }

abbrev cluster_laws : ClusterLaws host
cluster_laws = record {
  clusters = λ w. w.clusters;
  listed = λ w names e. cc;
  list_keeps = λ w. refl;
  deletes = λ n w e. refl;
  kube_config_keeps = λ n w. refl;
  files = record {
    create_temp = λ w. refl;
    write = λ p t w. refl;
    close = λ p w. refl;
    remove = λ p w. refl;
    registry = λ w. refl;
  };
  helm = helm_keeps (λ w. w.clusters);
  print = λ t w. refl;
}

deleted : run_delete host "" before ≡ some (ok tt, after)
unfolding run_delete target uninstall_known_releases filter_sims_clusters contains_name list
    kube_config delete new close uninstall action_config
deleted = refl

run_delete_refines_example : Deleted "" on_host ("kind" ∷ [])
run_delete_refines_example = run_delete_refines host cluster_laws "" before after deleted

falls : (n : ℕ) (w : World) → (ticked n w).0 ≡ true → (ticked n w).1.seconds < n
falls zero w h = cc
falls (suc n) w h = omega arith

clientset_time :
    (cs : Clientset counts World)
    → ◌≡◌ {A = Result String (Clientset counts World)} (ok clientset) (ok cs)
    → (w : World)
    → ((cs.list_labelled w).1 ≡ w) × ((n d : String) → (cs.get_deployment n d w).1 ≡ w)
clientset_time cs e w =
    let same : clientset ≡ cs = cc in
    subst
      (λ (c : Clientset counts World).
        ((c.list_labelled w).1 ≡ w) × ((n d : String) → (c.get_deployment n d w).1 ≡ w))
      same (refl, λ n d. refl)

abbrev timely : IsTimely host
timely = record {
  left = λ w. w.seconds;
  starts = λ n w. omega arith;
  ticks = λ w h. falls w.seconds w h;
  lists =
      λ kubeconfig cs e w. omega (arith, ap (λ (v : World). v.seconds) (clientset_time cs e w).0);
  gets = λ kubeconfig cs e n d w.
      omega (arith, ap (λ (v : World). v.seconds) ((clientset_time cs e w).1 n d));
  enough = omega arith;
}

run_create-Ends_example : Ends (run_create host opts) before
run_create-Ends_example = run_create-Ends host timely opts before

abbrev file : SimsConfig
file = record {
  api_version = "sims.io/v1";
  kind = "SimsConfig";
  vendor = "amd";
  name = "";
  workers = pos 3;
  k8s_version = "";
  taint = false;
  gpu = record {
    family = "MI300X";
    per_worker = pos 4;
    memory_bytes = pos 1000;
    features = record { mig = ""; partition = record { mode = "cpx"; count = pos 4 } };
  };
  workload = record { default_utilization = "20-80" };
  monitoring = false;
}

abbrev unchanged : String → Bool
unchanged flag = false

config_reaches_charts_example :
    let o' = configured unchanged file opts in
    let amd = build_amd_values o' in
    let nvidia = build_nvidia_values o' in
    let rocm = λ (keys : List String). at amd ("fake-rocm-gpu-operator" ∷ keys) in
    (rocm ("productName" ∷ []) ≡ given (product_of file))
    × (rocm ("computePartition" ∷ "mode" ∷ []) ≡ given "cpx")
    × (rocm ("defaultUtilization" ∷ []) ≡ given "20-80")
    × (rocm ("gpusPerNode" ∷ []) ≡ at amd ("gpusPerNode" ∷ []))
    × (at nvidia ("fake-dcgm-extras" ∷ "productName" ∷ []) ≡ given (product_of file))
    × (at nvidia ("fake-dcgm-extras" ∷ "migProfile" ∷ []) ≡ given "")
    × (at nvidia ("fake-gpu-operator" ∷ "topology" ∷ "nodePools" ∷ "default" ∷ "gpuCount" ∷ [])
        ≡ at nvidia ("gpusPerNode" ∷ []))
config_reaches_charts_example = config_reaches_charts unchanged file opts refl

abbrev environment : Environment World
environment = record {
  docker_version = λ w. (ok "27.0", w);
  get_ghcr = λ w. (ok 503, w);
  error_text = λ e. "";
  flush = λ rows. succeeds;
}

doctor_exact_example :
    let (r, w4) =
      environment.flush (table environment kind (ok "27.0") (ok on_host) (ok 503)) before in
    ((run_doctor environment kind before).1 ≡ w4)
    × (((run_doctor environment kind before).0 ≡ ok tt)
        ↔ (((t : String) × (◌≡◌ {A = Result String String} (ok "27.0") (ok t))) × (r ≡ ok tt)))
unfolding sims.Cluster.list
doctor_exact_example = doctor_exact environment kind before
