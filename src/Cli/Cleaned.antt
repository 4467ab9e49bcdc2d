-- ===== src/Cli/Cleaned.antt =====
-- pkg/cli: what gpu_delete.go and gpu_monitoring.go leave of their Helm clients.
use sims.Prelude.{String, false, List, [], ◌∷◌, Option, none, some, ◌≡◌, refl, ◌∙◌}
use sims.Prelude.Results.{Result, ok, err, wrap}
use sims.Prelude.Commands.{
  Command, ◌>>=◌, ◌>>◌, Keeps, some-Keeps, done-Keeps, call-Keeps, lift-Keeps, within-Keeps,
  attempt-Keeps, >>=-Keeps, next, call, attempt, within, effect, lift, caught,
}
use sims.K8s.{Quantities}
use sims.Text.{is_empty}
use sims.Cluster.{guarded_keeps, delete, list, kube_config, delete_failed, list_failed}
use sims.Helm.Client.{Client, NewError, new}
use sims.Helm.Actions.{uninstall}
use sims.Helm.Kept.{Opened, new-Opened, close-temps, uninstall-Keeps}
use sims.Kube.Clients.{vendor_in, remove}
use sims.Kube.Kept.{remove-Keeps, vendor_in-Keeps}
use sims.Cli.Host.{Host, CliError, cluster_failed, helm_failed, kube_failed}
use sims.Cli.Select.{resolve_cluster_and_kubeconfig, resolve_and_check}
use sims.Cli.Values.{CreateOpts}
use sims.Cli.Create.{run_create, install_monitoring, monitoring_namespace, monitoring_release}
use sims.Cli.Monitoring.{
  run_monitoring_enable, run_monitoring_disable, disable, enabled_text, disabled_text,
}
use sims.Cli.Delete.{
  run_delete, uninstall_known_releases, uninstall_with, delete_target, deleted_text, target,
  with_client, known_releases, closed,
}
use sims.Cli.Disk.{DiskLaws, outstanding, tidy_of}
use sims.Cli.Tidy.{IsTidy, client-Keeps, tidy_keeps}
use sims.Cli.Leaves.{kube_config-Keeps, install_monitoring-Keeps, print-Keeps}
use sims.Cli.Clean.{shown, run_create-Keeps}

module _ {qs : Quantities} {W : Type 0} (host : Host qs W) (tidy : IsTidy host) where
  abbrev files_of : W → List String
  files_of = shown host tidy

  list-Keeps : Keeps files_of (call cluster_failed (list host.kind))
  unfolding list
  list-Keeps = call-Keeps files_of cluster_failed (list host.kind) (λ w.
      guarded_keeps host.kind files_of list_failed host.kind.list tidy.kind_list
        (host.kind.ctx_err w) w)

  delete-Keeps : (name : String) → Keeps files_of (call cluster_failed (delete host.kind name))
  unfolding delete
  delete-Keeps name = call-Keeps files_of cluster_failed (delete host.kind name) (λ w.
      guarded_keeps host.kind files_of (delete_failed name) (host.kind.delete name)
        (tidy.kind_delete name) (host.kind.ctx_err w) w)

  resolve-Keeps : (name : String) → Keeps files_of (resolve_cluster_and_kubeconfig host.kind name)
  unfolding resolve_cluster_and_kubeconfig
  resolve-Keeps name =
      >>=-Keeps files_of (call cluster_failed (list host.kind)) _ list-Keeps (λ all.
        >>=-Keeps files_of (lift (λ (e : CliError). e) (resolve_and_check name all)) _
          (lift-Keeps files_of (λ (e : CliError). e) (resolve_and_check name all))
          (λ resolved.
            >>=-Keeps files_of (call cluster_failed (kube_config host.kind resolved)) _
              (kube_config-Keeps files_of host (tidy_keeps host tidy) resolved)
              (λ kubeconfig. done-Keeps files_of (resolved, kubeconfig))))

  uninstalled-Keeps :
      (c : Client) (release : String)
      → Keeps files_of (attempt {F = CliError} (within helm_failed (uninstall host.helm c release)))
  uninstalled-Keeps c release =
      attempt-Keeps files_of (within helm_failed (uninstall host.helm c release)) (
        within-Keeps files_of helm_failed (uninstall host.helm c release)
          (uninstall-Keeps files_of host.helm tidy.helm c release))

  -- One release: the client that is made for it is closed again.
  release-Keeps :
      (kubeconfig namespace release : String)
      → Keeps files_of (
          attempt (call (λ (e : NewError). e) (new host.files kubeconfig namespace))
          >>= with_client host release)
  release-Keeps kubeconfig namespace release w w' r h =
      by_new (new host.files kubeconfig namespace w)
        (new-Opened host.files tidy.files kubeconfig namespace w) h
    where
      shut :
          (c : Client) (w1 w2 : W) (old : List String)
          → tidy.files.temps w2 ≡ tidy.files.temps w1
          → tidy.files.temps w1 ≡ c.kubeconfig_path ∷ old
          → is_empty c.kubeconfig_path ≡ false
          → tidy.files.temps (closed host c w2) ≡ old
      shut c w1 w2 old k o n = close-temps host.files tidy.files c old w2 (k ∙ o) n

      by_uninstall :
          (c : Client) (w1 : W)
          → Opened host.files tidy.files (tidy.files.temps w) (ok c, w1)
          → (o : Option (Result CliError (Unit {0}) × W))
          → ((w2 : W) (q : Result CliError (Result CliError (Unit {0})))
              → caught o ≡ some (q, w2)
              → tidy.files.temps w2 ≡ tidy.files.temps w1)
          → next (λ _. effect (closed host c)) (caught o) ≡ some (r, w')
          → tidy.files.temps w' ≡ tidy.files.temps w
      by_uninstall c w1 opened none k d = cc
      by_uninstall c w1 opened (some (q, w2)) k d =
          some-Keeps files_of w (closed host c w2) (ok tt)
            (shut c w1 w2 (tidy.files.temps w) (k w2 (ok q) refl) opened.0 opened.1) w' r d

      by_new :
          (p : Result NewError Client × W)
          → Opened host.files tidy.files (tidy.files.temps w) p
          → with_client host release (wrap (λ (e : NewError). e) p.0) p.1 ≡ some (r, w')
          → tidy.files.temps w' ≡ tidy.files.temps w
      by_new (err e, w1) opened d = some-Keeps files_of w w1 (ok tt) opened w' r d
      by_new (ok c, w1) opened d =
          by_uninstall c w1 opened (within helm_failed (uninstall host.helm c release) w1)
            (λ w2 q e. uninstalled-Keeps c release w1 w2 q e) d

  releases-Keeps :
      (releases : List (String × String)) (kubeconfig : String)
      → Keeps files_of (uninstall_known_releases host releases kubeconfig)
  unfolding uninstall_known_releases
  releases-Keeps [] kubeconfig w w' r h = done-Keeps files_of tt w w' r h
  releases-Keeps ((release, namespace) ∷ rest) kubeconfig w w' r h =
      by_first (first w) (λ w1 q e. release-Keeps kubeconfig namespace release w w1 q e)
        (λ w1 q e. releases-Keeps rest kubeconfig w1 w' q e) (split (first_new w) h)
    where
      first_new : Command W CliError (Result NewError Client)
      first_new = attempt (call (λ (e : NewError). e) (new host.files kubeconfig namespace))

      first : Command W CliError (Unit {0})
      first = first_new >>= with_client host release

      split :
          (o : Option (Result CliError (Result NewError Client) × W))
          → next
              (λ c. with_client host release c >> uninstall_known_releases host rest kubeconfig)
              o
            ≡ some (r, w')
          → next
              (λ _. uninstall_known_releases host rest kubeconfig)
              (next (with_client host release) o)
            ≡ some (r, w')
      split none d = d
      split (some (err e, w1)) d = d
      split (some (ok c, w1)) d = d

      by_first :
          (o : Option (Result CliError (Unit {0}) × W))
          → ((w1 : W) (q : Result CliError (Unit {0}))
              → o ≡ some (q, w1)
              → tidy.files.temps w1 ≡ tidy.files.temps w)
          → ((w1 : W) (q : Result CliError (Unit {0}))
              → uninstall_known_releases host rest kubeconfig w1 ≡ some (q, w')
              → tidy.files.temps w' ≡ tidy.files.temps w1)
          → next (λ _. uninstall_known_releases host rest kubeconfig) o ≡ some (r, w')
          → tidy.files.temps w' ≡ tidy.files.temps w
      by_first none k l d = cc
      by_first (some (err e, w1)) k l d =
          some-Keeps files_of w w1 (err e) (k w1 (err e) refl) w' r d
      by_first (some (ok u, w1)) k l d = l w1 r d ∙ k w1 (ok u) refl

  known-Keeps : (r : Result CliError String) → Keeps files_of (uninstall_with host r)
  known-Keeps (err e) = done-Keeps files_of tt
  known-Keeps (ok kubeconfig) = releases-Keeps known_releases kubeconfig

  target-Keeps : (o : Option String) → Keeps files_of (delete_target host o)
  target-Keeps none = done-Keeps files_of tt
  target-Keeps (some name) =
      >>=-Keeps files_of (attempt (call cluster_failed (kube_config host.kind name))) _
        (attempt-Keeps files_of (call cluster_failed (kube_config host.kind name))
          (kube_config-Keeps files_of host (tidy_keeps host tidy) name))
        (λ r. >>=-Keeps files_of (uninstall_with host r) _ (known-Keeps r) (λ _.
          >>=-Keeps files_of (call cluster_failed (delete host.kind name)) _ (delete-Keeps name)
            (λ _. print-Keeps files_of host (tidy_keeps host tidy) (deleted_text host name))))

  run_delete-Keeps : (name : String) → Keeps files_of (run_delete host name)
  unfolding run_delete
  run_delete-Keeps name =
      >>=-Keeps files_of (call cluster_failed (list host.kind)) _ list-Keeps (λ all.
        >>=-Keeps files_of (lift (λ (e : CliError). e) (target name all)) _
          (lift-Keeps files_of (λ (e : CliError). e) (target name all))
          (λ chosen. target-Keeps chosen))

  run_monitoring_enable-Keeps : (name : String) → Keeps files_of (run_monitoring_enable host name)
  unfolding run_monitoring_enable
  run_monitoring_enable-Keeps name =
      >>=-Keeps files_of (resolve_cluster_and_kubeconfig host.kind name) _ (resolve-Keeps name)
        (λ resolved.
          >>=-Keeps files_of (within kube_failed (vendor_in qs host.connect resolved.1)) _
            (within-Keeps files_of kube_failed (vendor_in qs host.connect resolved.1)
              (vendor_in-Keeps files_of qs host.connect tidy.clients resolved.1))
            (λ vendor.
              >>=-Keeps files_of (install_monitoring host resolved.1 vendor) _
                (install_monitoring-Keeps files_of host (tidy_keeps host tidy) resolved.1 vendor)
                (λ _.
                  print-Keeps files_of host (tidy_keeps host tidy) (enabled_text host resolved.0))))

  disable-Keeps :
      (name kubeconfig : String) (c : Client) → Keeps files_of (disable host name kubeconfig c)
  disable-Keeps name kubeconfig c =
      >>=-Keeps files_of (attempt (within helm_failed (uninstall host.helm c monitoring_release))) _
        (uninstalled-Keeps c monitoring_release)
        (λ r.
          >>=-Keeps files_of
            (within kube_failed (remove qs host.connect kubeconfig monitoring_namespace)) _
            (within-Keeps files_of kube_failed
              (remove qs host.connect kubeconfig monitoring_namespace)
              (remove-Keeps files_of qs host.connect tidy.clients kubeconfig monitoring_namespace))
            (λ _. print-Keeps files_of host (tidy_keeps host tidy) (disabled_text host name)))

  run_monitoring_disable-Keeps : (name : String) → Keeps files_of (run_monitoring_disable host name)
  unfolding run_monitoring_disable
  run_monitoring_disable-Keeps name =
      >>=-Keeps files_of (resolve_cluster_and_kubeconfig host.kind name) _ (resolve-Keeps name)
        (λ resolved.
          client-Keeps host tidy resolved.1 monitoring_namespace
            (disable host resolved.0 resolved.1) (disable-Keeps resolved.0 resolved.1))

-- No command leaves a kubeconfig file behind that the system lets it remove: whether a create, a delete, or
-- the enabling or disabling of the monitoring succeeds or fails, and wherever it fails, the temporary
-- kubeconfig files after it, but for those whose removal has failed, are those that were there before.
pub commands_leave_no_file :
    {qs : Quantities} {W : Type 0} (host : Host qs W) (disk : DiskLaws host) (o : CreateOpts)
    (name : String)
    → let left : W → List String = λ w. outstanding (disk.temps w) (disk.refused w) in
      Keeps left (run_create host o)
      × Keeps left (run_delete host name)
      × Keeps left (run_monitoring_enable host name)
      × Keeps left (run_monitoring_disable host name)
commands_leave_no_file host disk o name = (
  run_create-Keeps host (tidy_of host disk) o,
  run_delete-Keeps host (tidy_of host disk) name,
  run_monitoring_enable-Keeps host (tidy_of host disk) name,
  run_monitoring_disable-Keeps host (tidy_of host disk) name,
)
