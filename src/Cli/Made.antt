-- ===== src/Cli/Made.antt =====
-- pkg/cli/gpu_create.go: the clusters of the host after a create.
use sims.Prelude.{ℕ, String, List, ◌∷◌, ◌≡◌, refl, ap, ◌∙◌, Option, some, none, if◌then◌else◌}
use sims.Prelude.Results.{Result, ok, err, wrap}
use sims.Prelude.Commands.{
  Command, ◌>>=◌, Keeps, call-Keeps, >>=-Keeps, finally-Keeps, call, lift, finally, next-returns,
  call-returns,
}
use sims.K8s.{Quantities}
use sims.Text.{append, is_empty}
use sims.Config.KindConfig.{Options, render}
use sims.Cluster.{create, create_failed, unless_cancelled}
use sims.Helm.Client.{Client, new}
use sims.Helm.Frames.{FilesKeep, new_keeps, close_keeps}
use sims.Helm.Kept.{HelmKeeps}
use sims.Kube.Clients.{Clientset}
use sims.Kube.Kept.{ClientsetKeeps}
use sims.Cli.Host.{Host, CliError, client_failed, cluster_failed, render_failed}
use sims.Cli.Values.{CreateOpts}
use sims.Cli.Create.{
  run_create, validate_vendor, render_options, cluster_name, chart_namespace, psa_privileged_labels,
}
use sims.Cli.Create as Creating
use sims.Cli.Leaves.{HostKeeps, equipped-Keeps}

-- The name and the configuration that the options ask for.
abbrev pub asked_name : CreateOpts → String
asked_name o = if is_empty o.name then append "sims-" o.vendor else o.name

abbrev pub asked_options : CreateOpts → Options
asked_options o = record {
  vendor = o.vendor;
  name = asked_name o;
  workers = o.workers;
  k8s_version = o.k8s_version;
  taint = o.taint;
}

-- The kind clusters of the host, each with its configuration, the newest first: a create that succeeds adds
-- the one that it is told, and nothing else of a create changes them.
pub record MakingLaws {qs : Quantities} {W : Type 0} (host : Host qs W) : Type 0 where
  pub clusters : W → List (String × String)
  pub creates :
      (n c : String) (w : W)
      → (host.kind.create n c w).0 ≡ ok tt
      → clusters (host.kind.create n c w).1 ≡ (n, c) ∷ clusters w
  pub files : FilesKeep (List (String × String)) clusters host.files
  pub helm : HelmKeeps (List (String × String)) clusters host.helm
  pub clients :
      (kubeconfig : String) (cs : Clientset qs W)
      → host.connect kubeconfig ≡ ok cs
      → ClientsetKeeps (List (String × String)) clusters qs cs
  pub kube_config : (n : String) (w : W) → clusters (host.kind.kube_config n w).1 ≡ clusters w
  pub print : (t : String) (w : W) → clusters (host.print t w).1 ≡ clusters w
  pub timeout : (n : ℕ) (w : W) → clusters (host.timers.with_timeout n w) ≡ clusters w
  pub cancel : (w : W) → clusters (host.timers.cancel w) ≡ clusters w
  pub tick : (w : W) → clusters (host.timers.tick w).1 ≡ clusters w

module _ {qs : Quantities} {W : Type 0} (host : Host qs W) (laws : MakingLaws host) where
  open laws use {clusters}

  client-Keeps :
      {A : Type 0} (kubeconfig namespace : String) (body : Client → Command W CliError A)
      → ((c : Client) → Keeps clusters (body c))
      → Keeps clusters (
          call client_failed (new host.files kubeconfig namespace)
          >>= (λ c. finally (Creating.closed host c) (body c)))
  client-Keeps kubeconfig namespace body kept =
      >>=-Keeps clusters (call client_failed (new host.files kubeconfig namespace)) _
        (call-Keeps clusters client_failed (new host.files kubeconfig namespace)
          (new_keeps clusters host.files laws.files kubeconfig namespace))
        (λ c.
          finally-Keeps clusters (Creating.closed host c) (body c)
            (close_keeps clusters host.files laws.files c) (kept c))

  making_keeps : HostKeeps (List (String × String)) clusters host
  making_keeps = record {
    helm = laws.helm;
    clients = laws.clients;
    kube_config = laws.kube_config;
    print = laws.print;
    timeout = laws.timeout;
    cancel = laws.cancel;
    tick = laws.tick;
    bracket = client-Keeps;
  }

  -- A guarded create of kind that succeeds.
  made :
      (n c : String) (w : W)
      → (create host.kind n c w).0 ≡ ok tt
      → clusters (create host.kind n c w).1 ≡ (n, c) ∷ clusters w
  unfolding create
  made n c w h = by_context (host.kind.ctx_err w) h
    where
      unwrapped : (r : Result String (Unit {0})) → wrap (create_failed n) r ≡ ok tt → r ≡ ok tt
      unwrapped (ok u) e = refl
      unwrapped (err x) e = cc

      by_context :
          (o : Option String)
          → (unless_cancelled host.kind (create_failed n) (host.kind.create n c) o w).0 ≡ ok tt
          → clusters (unless_cancelled host.kind (create_failed n) (host.kind.create n c) o w).1
            ≡ (n, c) ∷ clusters w
      by_context none e = laws.creates n c w (unwrapped (host.kind.create n c w).0 e)
      by_context (some x) e = cc

  -- A create that returns no error has made exactly one cluster: under the name of the options, or
  -- without one under "sims-" and the vendor, from the configuration that renders for this name and for
  -- the vendor, the workers, the version and the taint of the options; the other
  -- clusters are still there.
  pub run_create_makes :
      (o : CreateOpts) (w w' : W)
      → run_create host o w ≡ some (ok tt, w')
      → (raw : String) × (render (asked_options o) ≡ ok raw)
        × (clusters w' ≡ (asked_name o, raw) ∷ clusters w)
  unfolding run_create cluster_name
  run_create_makes o w w' h =
      let (u, w1, e1, h1) =
        next-returns _ (lift (λ (e : CliError). e) (validate_vendor o.vendor) w) h in
      let (raw, w2, e2, h2) =
        next-returns _ (lift render_failed (render (render_options o)) w1) h1 in
      let (v, w3, e3, h3) =
        next-returns _ (call cluster_failed (create host.kind (cluster_name o) raw) w2) h2 in
      let (valid, s1) = call-returns (λ (e : CliError). e) (validate_vendor o.vendor, w) e1 in
      let (rendered, s2) = call-returns render_failed (render (render_options o), w1) e2 in
      let (fine, s3) = call-returns cluster_failed (create host.kind (cluster_name o) raw w2) e3 in
      (
        raw,
        rendered,
        equipped-Keeps clusters host making_keeps o w3 w' (ok tt) h3
            ∙ (ap clusters s3
                ∙ (made (cluster_name o) raw w2 fine
                    ∙ ap (λ (x : W). (cluster_name o, raw) ∷ clusters x) (s2 ∙ s1))),
      )
