-- ===== src/Helm/Actions.antt =====
-- pkg/helm/install.go and dependency.go: the actions of a client. Helm is a parameter on the world `W`,
-- with the charts and the configurations that it makes.
use sims.Prelude.{String, Bool, true, false, ◌||◌, List, [], ◌∷◌, Option, none, some, if◌then◌else◌}
use sims.Prelude.Int.{ℤ}
use sims.Prelude.Results.{Result, ok, err, Call}
use sims.Prelude.Commands.{Command, ◌>>=◌, call, fail}
use sims.Text.{has_prefix}
use sims.Helm.Client.{Client}

-- The values of a chart: Go's map[string]any, as far as it is used.
mutual
  pub data Value : Type 0 where
    str : String → Value
    num : ℤ → Value
    tree : Fields → Value

  pub data Fields : Type 0 where
    end : Fields
    field : String → Value → Fields → Fields

pub record InstallAction : Type 0 where
  pub release_name : String
  pub namespace : String
  pub create_namespace : Bool

-- What the client calls: os.Getenv, Init of an action.Configuration (which is made from the kubeconfig's
-- path, the namespace and the storage driver), LocateChart, loader.Load, and the runs of the actions.
pub record HelmLib (W : Type 0) : Type 1 where
  pub Chart : Type 0
  pub Config : Type 0
  pub getenv : String → W → String
  pub ctx_err : W → Option String
  pub init : String → String → String → Call W (Result String Config)
  pub locate_chart : String → Call W (Result String String)
  pub load_chart : String → Call W (Result String Chart)
  pub run_install : Config → InstallAction → Chart → Value → Call W (Result String (Unit {0}))
  pub run_upgrade : Config → String → String → Chart → Value → Call W (Result String (Unit {0}))
  pub run_uninstall : Config → String → Call W (Result String (Unit {0}))
  pub build_dependencies : Client → String → Call W (Result String (Unit {0}))

pub data HelmError : Type 0 where
  cancelled : String → HelmError
  init_failed : String → HelmError
  locate_failed : String → String → HelmError
  load_failed : String → String → String → HelmError
  install_failed : String → String → HelmError
  upgrade_failed : String → String → HelmError
  uninstall_failed : String → String → HelmError
  dependencies_failed : String → String → HelmError

-- strings.Contains
abbrev pub contains : String → String → Bool
contains String.[] part = has_prefix "" part
contains (String.◌∷◌ c s) part = has_prefix (String.◌∷◌ c s) part || contains s part

abbrev pub without_create_namespace : InstallAction → InstallAction
without_create_namespace i = record i { create_namespace = false }

-- `for _, opt := range opts { opt(install) }`
abbrev pub apply_options : List (InstallAction → InstallAction) → InstallAction → InstallAction
apply_options [] i = i
apply_options (opt ∷ opts) i = apply_options opts (opt i)

module _ {W : Type 0} (lib : HelmLib W) where
  open lib use {Chart, Config}

  unfoldable pub action_config : Client → Command W HelmError Config
  action_config c w =
      call init_failed (lib.init c.kubeconfig_path c.namespace (lib.getenv "HELM_DRIVER" w)) w

  unfoldable pub locate_and_load : String → Command W HelmError Chart
  locate_and_load chart_ref = do
    path ← call (locate_failed chart_ref) (lib.locate_chart chart_ref)
    call (load_failed chart_ref path) (lib.load_chart path)

  unfoldable pub install :
      Client
      → String
      → String
      → Value
      → List (InstallAction → InstallAction)
      → Command W HelmError (Unit {0})
  unfolding action_config locate_and_load
  install c release chart_ref values opts = do
    cfg ← action_config c
    chart ← locate_and_load chart_ref
    call (install_failed release) (
        lib.run_install cfg
          (apply_options opts
            (record { release_name = release; namespace = c.namespace; create_namespace = true }))
          chart values)

  unfoldable pub upgrade : Client → String → String → Value → Command W HelmError (Unit {0})
  unfolding action_config locate_and_load
  upgrade c release chart_ref values = do
    cfg ← action_config c
    chart ← locate_and_load chart_ref
    call (upgrade_failed release) (lib.run_upgrade cfg c.namespace release chart values)

  -- A release that is gone already is no error.
  abbrev pub uninstalled :
      String → Result String (Unit {0}) × W → Option (Result HelmError (Unit {0}) × W)
  uninstalled release (ok _, w) = some (ok tt, w)
  uninstalled release (err e, w) =
      if contains e "not found" then some (ok tt, w) else some (err (uninstall_failed release e), w)

  unfoldable pub uninstall : Client → String → Command W HelmError (Unit {0})
  unfolding action_config
  uninstall c release = do
    cfg ← action_config c
    λ w. uninstalled release (lib.run_uninstall cfg release w)

  abbrev pub unless_cancelled : Client → String → Option String → Command W HelmError (Unit {0})
  unless_cancelled c chart_path (some e) = fail (cancelled e)
  unless_cancelled c chart_path none =
      call (dependencies_failed chart_path) (lib.build_dependencies c chart_path)

  unfoldable pub ensure_dependencies : Client → String → Command W HelmError (Unit {0})
  ensure_dependencies c chart_path w = unless_cancelled c chart_path (lib.ctx_err w) w
