-- ===== src/Cli/Dashboard.antt =====
-- pkg/cli/gpu_dashboard.go: the port-forward to Grafana, which runs in the background and is known by a
-- file that holds its process id. The operating system is a parameter on the world `W`.
use sims.Prelude.{String, Bool, true, false, List, [], ◌∷◌, Option, none, some, if◌then◌else◌, ◌==◌}
use sims.Prelude.Int.{ℤ, pos, leb_ℤ}
use sims.Prelude.Results.{Result, ok, err, Call}
use sims.Prelude.Commands.{Command, ◌>>=◌, ◌>>◌, call, effect, done, fail}
use sims.Text.{append, concat, trim_space}
use sims.Text.Decimal.{itoa_ℤ, atoi}
use sims.Cluster.{Kind}
use sims.Cli.Host.{CliError}
use sims.Cli.Select.{resolve_cluster_name}
use sims.Cli.Create.{monitoring_namespace}

abbrev pub grafana_service : String
grafana_service = "sims-monitoring-grafana"

abbrev pub grafana_url : String
grafana_url = "http://localhost:3000"

-- os.IsNotExist, and the ESRCH of a signal to a process that is gone, tell the first from all others.
pub data OsError : Type 0 where
  missing : OsError
  other : String → OsError

pub data Signal : Type 0 where
  probe : Signal
  terminate : Signal

-- os.UserCacheDir, MkdirAll, ReadFile, WriteFile and Remove, syscall.Kill, the start of a command with its
-- process id, Process.Release, a pause, runtime.GOOS, standard output and filepath.Join.
pub record Processes (W : Type 0) : Type 0 where
  pub user_cache_dir : Call W (Result String String)
  pub mkdir_all : String → Call W (Result String (Unit {0}))
  pub read_file : String → Call W (Result OsError String)
  pub write_file : String → String → Call W (Result String (Unit {0}))
  pub remove : String → Call W (Result OsError (Unit {0}))
  pub kill : ℤ → Signal → Call W (Result OsError (Unit {0}))
  pub start : String → List String → Call W (Result String ℤ)
  pub release : ℤ → Call W (Result String (Unit {0}))
  pub sleep : W → W
  pub goos : String
  pub print : String → W → W
  pub join : String → String → String

pub record DashboardOpts : Type 0 where
  pub name : String
  pub open_url : Bool
  pub stop : Bool

pub data DashboardError : Type 0 where
  no_cache_dir : String → DashboardError
  mkdir_failed : String → DashboardError
  start_failed : String → DashboardError
  release_failed : String → DashboardError
  write_failed : String → DashboardError
  read_failed : OsError → DashboardError
  kill_failed : ℤ → OsError → DashboardError
  browser_unsupported : String → DashboardError
  browser_failed : String → DashboardError
  not_resolved : CliError → DashboardError

module _ {W : Type 0} (os : Processes W) where
  -- `err != nil || pid <= 0` after Atoi
  abbrev pub usable : Option ℤ → Option ℤ
  usable none = none
  usable (some pid) = if leb_ℤ pid (pos 0) then none else some pid

  unfoldable pub recorded : String → Option ℤ
  recorded text = usable (atoi (trim_space text))

  abbrev pub probed : ℤ → Result OsError (Unit {0}) × W → (ℤ × Bool) × W
  probed pid (ok _, w) = ((pid, true), w)
  probed pid (err e, w) = ((pid, false), w)

  abbrev pub probe_recorded : Option ℤ → W → (ℤ × Bool) × W
  probe_recorded none w = ((pos 0, false), w)
  probe_recorded (some pid) w = probed pid (os.kill pid probe w)

  abbrev pub after_read : Result OsError String × W → (ℤ × Bool) × W
  after_read (err e, w) = ((pos 0, false), w)
  after_read (ok text, w) = probe_recorded (recorded text) w

  unfoldable pub read_running_pid : String → W → (ℤ × Bool) × W
  unfolding recorded
  read_running_pid path w = after_read (os.read_file path w)

  abbrev pub kubectl_args : String → List String
  kubectl_args cluster =
      "--context"
      ∷ append "kind-" cluster
      ∷ "port-forward"
      ∷ "-n"
      ∷ monitoring_namespace
      ∷ append "svc/" grafana_service
      ∷ "3000:80"
      ∷ []

  unfoldable pub start_forward : String → String → Command W DashboardError ℤ
  start_forward cluster pid_path = do
    pid ← call start_failed (os.start "kubectl" (kubectl_args cluster))
    call release_failed (os.release pid)
    call write_failed (os.write_file pid_path (itoa_ℤ pid))
    done pid

  abbrev pub stopped_text : ℤ → String
  stopped_text pid = concat ("Grafana port-forward stopped (pid=" ∷ itoa_ℤ pid ∷ ")\n" ∷ [])

  -- A process that is gone already is no error.
  abbrev pub after_kill :
      String → ℤ → Result OsError (Unit {0}) × W → Option (Result DashboardError (Unit {0}) × W)
  after_kill path pid (err (other t), w) = some (err (kill_failed pid (other t)), w)
  after_kill path pid (err missing, w) =
      some (ok tt, os.print (stopped_text pid) (os.remove path w).1)
  after_kill path pid (ok _, w) = some (ok tt, os.print (stopped_text pid) (os.remove path w).1)

  -- A file without a usable process id is removed, which is no error.
  abbrev pub stop_recorded : String → Option ℤ → Command W DashboardError (Unit {0})
  stop_recorded path none w =
      some (ok tt, os.print "PID file was unusable; removed\n" (os.remove path w).1)
  stop_recorded path (some pid) w = after_kill path pid (os.kill pid terminate w)

  abbrev pub stop_read :
      String → Result OsError String × W → Option (Result DashboardError (Unit {0}) × W)
  stop_read path (err missing, w) =
      some (ok tt, os.print "no port-forward PID file found; nothing to stop\n" w)
  stop_read path (err (other t), w) = some (err (read_failed (other t)), w)
  stop_read path (ok text, w) = stop_recorded path (recorded text) w

  unfoldable pub stop_forward : String → Command W DashboardError (Unit {0})
  unfolding recorded
  stop_forward path w = stop_read path (os.read_file path w)

  abbrev pub browse : String → String → Command W DashboardError (Unit {0})
  browse program url = do
    pid ← call browser_failed (os.start program (url ∷ []))
    call browser_failed (os.release pid)

  unfoldable pub open_browser : String → Command W DashboardError (Unit {0})
  open_browser url =
      if os.goos == "darwin"
      then browse "open" url
      else if os.goos == "linux"
      then browse "xdg-open" url
      else fail (browser_unsupported os.goos)

  abbrev pub opened : Bool → Command W DashboardError (Unit {0})
  opened true = open_browser grafana_url
  opened false = done tt

  -- After a start the browser is opened when kubectl has had half a second.
  abbrev pub opened_later : Bool → Command W DashboardError (Unit {0})
  opened_later true = do effect os.sleep; open_browser grafana_url
  opened_later false = done tt

  abbrev pub running_text : ℤ → String
  running_text pid = concat (
      "Grafana port-forward already running on " ∷ grafana_url ∷ " (pid=" ∷ itoa_ℤ pid ∷ ")\n" ∷ [])

  abbrev pub started_text : ℤ → String
  started_text pid = concat (
      "Grafana available at "
      ∷ grafana_url
      ∷ " (user=admin, pass=prom-operator, pid="
      ∷ itoa_ℤ pid
      ∷ ")\nstop with: sims gpu dashboard --stop\n"
      ∷ [])

  abbrev pub start_unless :
      DashboardOpts → String → String → (ℤ × Bool) → Command W DashboardError (Unit {0})
  start_unless o cluster path (pid, true) = do
    effect (os.print (running_text pid))
    opened o.open_url
  start_unless o cluster path (pid, false) = do
    started ← start_forward cluster path
    effect (os.print (started_text started))
    opened_later o.open_url

  -- From the file of the cluster on.
  unfoldable pub toggle : DashboardOpts → String → String → Command W DashboardError (Unit {0})
  unfolding start_forward stop_forward read_running_pid open_browser
  toggle o cluster path w =
      let (found, w1) = read_running_pid path w in
      if o.stop then stop_forward path w else start_unless o cluster path found w1

  unfoldable pub grafana_pid_path : String → Command W DashboardError String
  grafana_pid_path cluster = do
    cache ← call no_cache_dir os.user_cache_dir
    let dir = os.join (os.join cache "sims") cluster
    call mkdir_failed (os.mkdir_all dir)
    done (os.join dir "grafana.pid")

  module _ (kind : Kind W) where
    abbrev pub resolved_or :
        Option (Result CliError String × W) → Option (Result DashboardError String × W)
    resolved_or none = none
    resolved_or (some (ok name, w)) = some (ok name, w)
    resolved_or (some (err e, w)) = some (err (not_resolved e), w)

    unfoldable pub run_dashboard : DashboardOpts → Command W DashboardError (Unit {0})
    unfolding toggle grafana_pid_path
    run_dashboard o = do
      cluster ← λ w. resolved_or (resolve_cluster_name kind o.name w)
      path ← grafana_pid_path cluster
      toggle o cluster path
