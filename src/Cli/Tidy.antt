-- ===== src/Cli/Tidy.antt =====
-- pkg/cli: no command leaves a kubeconfig file behind.
use sims.Prelude.{
  ℕ, String, false, List, ◌∷◌, Option, none, some, ◌≡◌, refl, sym, ap, ◌∙◌, some_inj,
}
use sims.Prelude.Results.{Result, ok, err, wrap}
use sims.Prelude.Commands.{Command, ◌>>=◌, Keeps, some-Keeps, next, ended, finally, call}
use sims.K8s.{Quantities}
use sims.Text.{is_empty}
use sims.Helm.Client.{Client, NewError, new}
use sims.Helm.Kept.{HelmKeeps, TempLaws, Opened, new-Opened, close-temps}
use sims.Kube.Clients.{Clientset}
use sims.Kube.Kept.{ClientsetKeeps}
use sims.Cli.Host.{Host, CliError, client_failed}
use sims.Cli.Create as Creating
use sims.Cli.Leaves.{HostKeeps}

-- All that the commands call, but the file system, leaves the temporary kubeconfig files alone.
pub record IsTidy {qs : Quantities} {W : Type 0} (host : Host qs W) : Type 0 where
  pub files : TempLaws host.files
  pub helm : HelmKeeps (List String) files.temps host.helm
  pub clients :
      (kubeconfig : String) (cs : Clientset qs W)
      → host.connect kubeconfig ≡ ok cs
      → ClientsetKeeps (List String) files.temps qs cs
  pub kind_create : (n c : String) (w : W) → files.temps (host.kind.create n c w).1 ≡ files.temps w
  pub kind_delete : (n : String) (w : W) → files.temps (host.kind.delete n w).1 ≡ files.temps w
  pub kind_list : (w : W) → files.temps (host.kind.list w).1 ≡ files.temps w
  pub kind_kube_config :
      (n : String) (w : W) → files.temps (host.kind.kube_config n w).1 ≡ files.temps w
  pub print : (t : String) (w : W) → files.temps (host.print t w).1 ≡ files.temps w
  pub timeout : (n : ℕ) (w : W) → files.temps (host.timers.with_timeout n w) ≡ files.temps w
  pub cancel : (w : W) → files.temps (host.timers.cancel w) ≡ files.temps w
  pub tick : (w : W) → files.temps (host.timers.tick w).1 ≡ files.temps w

module _ {qs : Quantities} {W : Type 0} (host : Host qs W) (tidy : IsTidy host) where
  -- The client's file is there while the body runs, and is removed when it returns.
  closed_after :
      {A : Type 0} (c : Client) (body : Command W CliError A) (old : List String) (w1 : W)
      → tidy.files.temps w1 ≡ c.kubeconfig_path ∷ old
      → is_empty c.kubeconfig_path ≡ false
      → Keeps tidy.files.temps body
      → (w' : W) (r : Result CliError A) → ended (Creating.closed host c) (body w1) ≡ some (r, w')
      → tidy.files.temps w' ≡ old
  closed_after {A} c body old w1 h n kept w' r e =
      by_result (body w1) (λ w2 r2 d. kept w1 w2 r2 d) e
    where
      by_result :
          (o : Option (Result CliError A × W))
          → ((w2 : W) (r2 : Result CliError A)
              → o ≡ some (r2, w2)
              → tidy.files.temps w2 ≡ tidy.files.temps w1)
          → ended (Creating.closed host c) o ≡ some (r, w')
          → tidy.files.temps w' ≡ old
      by_result none k d = cc
      by_result (some (r2, w2)) k d =
          ap (λ (p : Result CliError A × W). tidy.files.temps p.1) (sym (some_inj d))
          ∙ close-temps host.files tidy.files c old w2 (k w2 r2 refl ∙ h) n

  pub client-Keeps :
      {A : Type 0} (kubeconfig namespace : String) (body : Client → Command W CliError A)
      → ((c : Client) → Keeps tidy.files.temps (body c))
      → Keeps tidy.files.temps (
          call client_failed (new host.files kubeconfig namespace)
          >>= (λ c. finally (Creating.closed host c) (body c)))
  client-Keeps {A} kubeconfig namespace body kept w w' r h =
      by_new (new host.files kubeconfig namespace w)
        (new-Opened host.files tidy.files kubeconfig namespace w) h
    where
      by_new :
          (p : Result NewError Client × W)
          → Opened host.files tidy.files (tidy.files.temps w) p
          → next
              (λ c. finally (Creating.closed host c) (body c))
              (some (wrap client_failed p.0, p.1))
            ≡ some (r, w')
          → tidy.files.temps w' ≡ tidy.files.temps w
      by_new (err e, w1) opened d = some-Keeps tidy.files.temps w w1 _ opened w' r d
      by_new (ok c, w1) opened d =
          closed_after c (body c) (tidy.files.temps w) w1 opened.0 opened.1 (kept c) w' r d

  -- What a create calls, but kind, leaves the temporary files alone in the end.
  pub tidy_keeps : HostKeeps (List String) tidy.files.temps host
  tidy_keeps = record {
    helm = tidy.helm;
    clients = tidy.clients;
    kube_config = tidy.kind_kube_config;
    print = tidy.print;
    timeout = tidy.timeout;
    cancel = tidy.cancel;
    tick = tidy.tick;
    bracket = client-Keeps;
  }
