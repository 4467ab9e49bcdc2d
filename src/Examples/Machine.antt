-- ===== src/Examples/Machine.antt =====
-- pkg/cli: a small machine with kind clusters, Helm and temporary files, and what its calls do.
use mathlib.Core.Path.{subst}
use sims.Prelude.{
  ℕ, zero, suc, String, Bool, true, false, List, [], ◌∷◌, none, some, ◌≡◌, refl, eqb,
}
use sims.Prelude.Int.{pos, leb_ℤ}
use sims.Prelude.Results.{Result, ok, err, Call}
use sims.K8s.{not_found, Quantities}
use sims.Cluster.{Kind}
use sims.Helm.Client.{TempFiles}
use sims.Helm.Actions.{HelmLib}
use sims.Helm.Kept.{HelmKeeps}
use sims.Kube.Clients.{Clientset, Timers}
use sims.Kube.Kept.{ClientsetKeeps}
use sims.Cli.Host.{Host}
use sims.Cli.Values.{CreateOpts}
use sims.Cli.Deleted.{without}
use sims.Cli.Disk.{DiskLaws, IsSame, without_first}

abbrev pub on_host : List String
on_host = "kind" ∷ "sims-amd" ∷ []

pub record World : Type 0 where
  pub clusters : List String
  pub temps : List String
  pub seconds : ℕ

abbrev pub counts : Quantities
counts = record {
  Q = ℕ;
  is_zero = λ n. eqb n 0;
  as_int64 = λ n. some (pos n);
  at_least = λ n z. leb_ℤ z (pos n);
}

abbrev pub succeeds : Call World (Result String (Unit {0}))
succeeds w = (ok tt, w)

abbrev pub kind : Kind World
kind = record {
  ctx_err = λ w. none;
  create = λ n c w. (ok tt, record w { clusters = n ∷ w.clusters });
  delete = λ n w. (ok tt, record w { clusters = without n w.clusters });
  list = λ w. (ok w.clusters, w);
  kube_config = λ n w. (ok "kubeconfig", w);
}

abbrev pub files : TempFiles World
files = record {
  create_temp = λ w. (ok "/tmp/sims", record w { temps = "/tmp/sims" ∷ w.temps });
  write = λ p t. succeeds;
  close = λ p. succeeds;
  remove = λ p w. (ok tt, record w { temps = without_first p w.temps });
  new_registry = succeeds;
}

abbrev pub helm : HelmLib World
helm = record {
  Chart = Unit {0};
  Config = Unit {0};
  getenv = λ k w. "";
  ctx_err = λ w. none;
  init = λ p n d. succeeds;
  locate_chart = λ r w. (ok r, w);
  load_chart = λ p. succeeds;
  run_install = λ c i ch v. succeeds;
  run_upgrade = λ c n r ch v. succeeds;
  run_uninstall = λ c r w. (err "release: not found", w);
  build_dependencies = λ c p. succeeds;
}

-- A cluster whose workers never have GPUs.
abbrev pub clientset : Clientset counts World
clientset = record {
  namespaces = record {
    get = λ n w. (err not_found, w);
    create = λ n l w. (ok tt, w);
    update = λ n l w. (ok tt, w);
    delete = λ n w. (ok tt, w);
  };
  list_nodes = λ w. (ok [], w);
  list_labelled = λ w. (ok [], w);
  list_pods = λ w. (ok [], w);
  get_deployment = λ n d w. (ok (("Available", "True") ∷ []), w);
}

abbrev pub ticked : ℕ → World → Bool × World
ticked zero w = (false, w)
ticked (suc n) w = (true, record w { seconds = n })

abbrev timers : Timers World
timers = record {
  with_timeout = λ n w. record w { seconds = n };
  cancel = λ w. w;
  tick = λ w. ticked w.seconds w;
}

abbrev pub host : Host counts World
host = record {
  kind = kind;
  files = files;
  helm = helm;
  connect = λ kubeconfig. ok clientset;
  timers = timers;
  fuel = 241;
  print = λ t. succeeds;
  join = λ a b. b;
  read_file = λ p. err "no file";
  unmarshal_strict = λ t. err "no yaml";
}

pub helm_keeps : {T : Type 0} (view : World → T) → HelmKeeps T view helm
helm_keeps view = record {
  init = λ p n d w. refl;
  locate = λ r w. refl;
  load = λ p w. refl;
  install = λ c i ch v w. refl;
  uninstall = λ c r w. refl;
  build = λ c p w. refl;
}

pub clientset_keeps :
    {T : Type 0} (view : World → T) (cs : Clientset counts World)
    → ◌≡◌ {A = Result String (Clientset counts World)} (ok clientset) (ok cs)
    → ClientsetKeeps T view counts cs
clientset_keeps {T} view cs e =
    let same : clientset ≡ cs = cc in
    subst (λ (c : Clientset counts World). ClientsetKeeps T view counts c) same
      (record {
        get = λ n w. refl;
        create = λ n l w. refl;
        update = λ n l w. refl;
        delete = λ n w. refl;
        list_labelled = λ w. refl;
        get_deployment = λ n d w. refl;
      })

pub ticked_temps : (n : ℕ) (w : World) → (ticked n w).1.temps ≡ w.temps
ticked_temps zero w = refl
ticked_temps (suc n) w = refl

pub ticked_left :
    (n : ℕ) (w : World) → IsSame (λ (v : World). v.temps) (λ (v : World). []) w (ticked n w).1
ticked_left zero w = refl
ticked_left (suc n) w = refl

-- Every file is removed.
abbrev pub disk : DiskLaws host
disk = record {
  temps = λ w. w.temps;
  refused = λ w. [];
  named = λ w p e. let same : "/tmp/sims" ≡ p = cc in rw (← same) refl;
  created = λ w p e. let same : "/tmp/sims" ≡ p = cc in rw (← same) (refl, refl, λ i. i);
  not_created = λ w e h. cc;
  removed = λ p w h. (refl, refl);
  missing = λ p w h. cc;
  refuses = λ p t w h. cc;
  write = λ p t w. refl;
  close = λ p w. refl;
  registry = λ w. refl;
  helm = helm_keeps (λ w. (w.temps, []));
  clients = λ kubeconfig cs e. clientset_keeps (λ w. (w.temps, [])) cs e;
  kind_create = λ n c w. refl;
  kind_delete = λ n w. refl;
  kind_list = λ w. refl;
  kind_kube_config = λ n w. refl;
  print = λ t w. refl;
  timeout = λ n w. refl;
  cancel = λ w. refl;
  tick = λ w. ticked_left w.seconds w;
}

abbrev pub opts : CreateOpts
opts = record {
  vendor = "amd";
  name = "";
  workers = pos 2;
  gpus_per_worker = pos 2;
  k8s_version = "v1.31.0";
  with_monitoring = true;
  taint = false;
  config_path = "";
  product_name = "";
  gpu_memory_bytes = pos 0;
  mig_profile = "";
  partition_mode = "";
  partition_count = pos 0;
  default_utilization = "";
}
