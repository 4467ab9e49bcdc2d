-- ===== src/Examples/Making.antt =====
-- pkg/cli/gpu_create.go: a create that succeeds, at a machine whose state is its kind clusters.
use mathlib.Core.Path.{subst}
use sims.Prelude.{ℕ, String, true, false, List, [], ◌∷◌, none, some, ◌≡◌, refl}
use sims.Prelude.Int.{pos}
use sims.Prelude.Results.{Result, ok, err, Call}
use sims.K8s.{not_found, Node}
use sims.Prelude.Maps.{lookup}
use sims.Text.Decimal.{itoa, itoa_ℤ}
use sims.Config.KindConfig.{render, build_template_data, with_defaults, template_lines}
use sims.Cluster.{create, kube_config}
use sims.Helm.Client.{new, close}
use sims.Helm.Actions.{ensure_dependencies, install, action_config, locate_and_load}
use sims.Kube.Clients.{Clientset, ensure, await_capacity, await_deployment}
use sims.Kube.Namespace.{ensure_namespace, merge_labels}
use sims.Kube.Wait.{
  wait_for_capacity, wait_for_deployment_available, poll, count_ready, has_capacity,
  deployment_available,
}
use sims.Kube.Kept.{ClientsetKeeps}
use sims.Cli.Host.{Host}
use sims.Cli.Values.{CreateOpts}
use sims.Cli.Create.{
  run_create, cluster_name, validate_vendor, vendor_wiring, install_chart, install_monitoring,
}
use sims.Cli.Made.{asked_name, asked_options, MakingLaws, run_create_makes}
use sims.Examples.Machine.{counts}

-- The clusters with their configurations.
abbrev Clusters : Type 0
Clusters = List (String × String)

abbrev passes : Call Clusters (Result String (Unit {0}))
passes w = (ok tt, w)

abbrev worker : Node ℕ
worker = record {
  name = "sims-amd-worker";
  labels = ("sims.io/gpu-vendor", "amd") ∷ [];
  kubelet_version = "v1.31.0";
  capacity = ("amd.com/gpu", 2) ∷ [];
}

abbrev clientset : Clientset counts Clusters
clientset = record {
  namespaces = record {
    get = λ n w. (err not_found, w);
    create = λ n l w. (ok tt, w);
    update = λ n l w. (ok tt, w);
    delete = λ n w. (ok tt, w);
  };
  list_nodes = λ w. (ok (worker ∷ []), w);
  list_labelled = λ w. (ok (worker ∷ []), w);
  list_pods = λ w. (ok [], w);
  get_deployment = λ n d w. (ok (("Available", "True") ∷ []), w);
}

abbrev host : Host counts Clusters
host = record {
  kind = record {
    ctx_err = λ w. none;
    create = λ n c w. (ok tt, (n, c) ∷ w);
    delete = λ n. passes;
    list = λ w. (ok [], w);
    kube_config = λ n w. (ok "kubeconfig", w);
  };
  files = record {
    create_temp = λ w. (ok "/tmp/sims", w);
    write = λ p t. passes;
    close = λ p. passes;
    remove = λ p w. (ok tt, w);
    new_registry = passes;
  };
  helm = record {
    Chart = Unit {0};
    Config = Unit {0};
    getenv = λ k w. "";
    ctx_err = λ w. none;
    init = λ p n d. passes;
    locate_chart = λ r w. (ok r, w);
    load_chart = λ p. passes;
    run_install = λ c i ch v. passes;
    run_upgrade = λ c n r ch v. passes;
    run_uninstall = λ c r. passes;
    build_dependencies = λ c p. passes;
  };
  connect = λ kubeconfig. ok clientset;
  timers = record { with_timeout = λ n w. w; cancel = λ w. w; tick = λ w. (true, w) };
  fuel = 1;
  print = λ t. passes;
  join = λ a b. b;
  read_file = λ p. err "no file";
  unmarshal_strict = λ t. err "no yaml";
}

clientset_keeps :
    (cs : Clientset counts Clusters)
    → ◌≡◌ {A = Result String (Clientset counts Clusters)} (ok clientset) (ok cs)
    → ClientsetKeeps Clusters (λ w. w) counts cs
clientset_keeps cs e =
    let same : clientset ≡ cs = cc in
    subst (λ (c : Clientset counts Clusters). ClientsetKeeps Clusters (λ w. w) counts c) same
      (record {
        get = λ n w. refl;
        create = λ n l w. refl;
        update = λ n l w. refl;
        delete = λ n w. refl;
        list_labelled = λ w. refl;
        get_deployment = λ n d w. refl;
      })

abbrev laws : MakingLaws host
laws = record {
  clusters = λ w. w;
  creates = λ n c w e. refl;
  files = record {
    create_temp = λ w. refl;
    write = λ p t w. refl;
    close = λ p w. refl;
    remove = λ p w. refl;
    registry = λ w. refl;
  };
  helm = record {
    init = λ p n d w. refl;
    locate = λ r w. refl;
    load = λ p w. refl;
    install = λ c i ch v w. refl;
    uninstall = λ c r w. refl;
    build = λ c p w. refl;
  };
  clients = λ kubeconfig cs e. clientset_keeps cs e;
  kube_config = λ n w. refl;
  print = λ t w. refl;
  timeout = λ n w. refl;
  cancel = λ w. refl;
  tick = λ w. refl;
}

-- One worker with two GPUs, and the monitoring.
abbrev opts : CreateOpts
opts = record {
  vendor = "amd";
  name = "";
  workers = pos 1;
  gpus_per_worker = pos 2;
  k8s_version = "v1.31.0";
  with_monitoring = true;
  taint = false;
  config_path = "";
  product_name = "";
  gpu_memory_bytes = pos 0;
  mig_profile = "";
  partition_mode = "";
  partition_count = pos 0;
  default_utilization = "";
}

abbrev text_of : {E : Type 0} → Result E String → String
text_of (ok text) = text
text_of (err e) = ""

abbrev made : Clusters
made = ("sims-amd", text_of (render (asked_options opts))) ∷ ("kind", "") ∷ []

created : run_create host opts (("kind", "") ∷ []) ≡ some (ok tt, made)
unfolding run_create validate_vendor vendor_wiring cluster_name render build_template_data
    with_defaults template_lines create kube_config ensure ensure_namespace new close install_chart
    install_monitoring ensure_dependencies install action_config locate_and_load await_capacity
    await_deployment wait_for_capacity wait_for_deployment_available poll count_ready has_capacity
    deployment_available lookup merge_labels itoa_ℤ itoa
created = refl

run_create_makes_example :
    (raw : String) × (render (asked_options opts) ≡ ok raw)
    × (made ≡ (asked_name opts, raw) ∷ ("kind", "") ∷ [])
run_create_makes_example = run_create_makes host laws opts (("kind", "") ∷ []) made created
