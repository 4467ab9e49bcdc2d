-- ===== src/Cli/Clean.antt =====
-- pkg/cli/gpu_create.go: a create and the kubeconfig files that it leaves.
use sims.Prelude.{String, List}
use sims.Prelude.Commands.{Keeps, call-Keeps, lift-Keeps, >>=-Keeps, call, lift}
use sims.K8s.{Quantities}
use sims.Config.KindConfig.{render}
use sims.Cluster.{guarded_keeps, create, create_failed}
use sims.Cli.Host.{Host, CliError, cluster_failed, render_failed}
use sims.Cli.Values.{CreateOpts}
use sims.Cli.Create.{run_create, validate_vendor, render_options, cluster_name}
use sims.Cli.Tidy.{IsTidy, tidy_keeps}
use sims.Cli.Leaves.{equipped-Keeps}

module _ {qs : Quantities} {W : Type 0} (host : Host qs W) (tidy : IsTidy host) where
  -- The view of this file: the temporary kubeconfig files.
  abbrev pub shown : W → List String
  shown = tidy.files.temps

  create-Keeps : (name raw : String) → Keeps shown (call cluster_failed (create host.kind name raw))
  unfolding create
  create-Keeps name raw = call-Keeps shown cluster_failed (create host.kind name raw) (λ w.
      guarded_keeps host.kind shown (create_failed name) (host.kind.create name raw)
        (tidy.kind_create name raw) (host.kind.ctx_err w) w)

  pub run_create-Keeps : (o : CreateOpts) → Keeps shown (run_create host o)
  unfolding run_create
  run_create-Keeps o =
      >>=-Keeps shown (lift (λ (e : CliError). e) (validate_vendor o.vendor)) _
        (lift-Keeps shown (λ (e : CliError). e) (validate_vendor o.vendor))
        (λ _.
          >>=-Keeps shown (lift render_failed (render (render_options o))) _
            (lift-Keeps shown render_failed (render (render_options o)))
            (λ raw.
              >>=-Keeps shown (call cluster_failed (create host.kind (cluster_name o) raw)) _
                (create-Keeps (cluster_name o) raw)
                (λ _. equipped-Keeps shown host (tidy_keeps host tidy) o)))
