-- ===== src/Examples/Dashboards.antt =====
-- pkg/cli/gpu_dashboard.go at a small operating system, which has one file and at most one process.
use sims.Prelude.{
  String, Bool, true, false, Option, none, some, ◌≡◌, refl, sym, arith, inl, if◌then◌else◌,
}
use sims.Prelude.Int.{pos}
use sims.Prelude.Results.{Result, ok, err}
use sims.Text.Decimal.{itoa_ℤ}
use sims.Cli.Dashboard.{
  Processes, OsError, missing, Signal, probe, terminate, DashboardOpts, toggle, read_running_pid,
  start_forward,
}
use sims.Cli.Forwarded.{ProcessLaws, read_of, Toggled}
use sims.Cli.Toggles.{toggle_refines}

record Machine : Type 0 where
  text : Option String
  live : Bool

abbrev killed : Signal → Machine → Result OsError (Unit {0}) × Machine
killed probe m = (if m.live then ok tt else err missing, m)
killed terminate m = (if m.live then ok tt else err missing, record m { live = false })

abbrev os : Processes Machine
os = record {
  user_cache_dir = λ m. (ok "cache", m);
  mkdir_all = λ p m. (ok tt, m);
  read_file = λ p m. (read_of m.text, m);
  write_file = λ p t m. (ok tt, record m { text = some t });
  remove = λ p m. (ok tt, record m { text = none });
  kill = λ pid s m. killed s m;
  start = λ c args m. (ok (pos 7), record m { live = true });
  release = λ pid m. (ok tt, m);
  sleep = λ m. m;
  goos = "linux";
  print = λ t m. m;
  join = λ a b. b;
}

abbrev process_laws : ProcessLaws os
process_laws = record {
  files = λ m p. m.text;
  spared = λ m pid. m.live;
  reads = λ p m. inl refl;
  read_keeps = λ p m. (refl, refl);
  probe_keeps = λ pid m. (refl, refl);
  terminated = λ pid m h. refl;
  removes = λ p m. inl refl;
  remove_spared = λ p m. refl;
  starts = λ c args m pid e. let same : pos 7 ≡ pid = cc in (6, sym same, omega arith, refl);
  start_files = λ c args m. refl;
  start_spared = λ c args m q h. refl;
  release_keeps = λ pid m. (refl, refl);
  writes = λ p t m h. refl;
  write_spared = λ p t m. refl;
  print_keeps = λ t m. (refl, refl);
  sleep_keeps = λ m. (refl, refl);
}

abbrev start_it : DashboardOpts
start_it = record { name = ""; open_url = false; stop = false }

abbrev stopped : Machine
stopped = record { text = none; live = false }

abbrev running : Machine
running = record { text = some "7"; live = true }

started : toggle os start_it "sims-amd" "grafana.pid" stopped ≡ some (ok tt, running)
unfolding toggle read_running_pid start_forward itoa_ℤ
started = refl

toggle_refines_example : Toggled os process_laws false "sims-amd" "grafana.pid" stopped running
toggle_refines_example =
    toggle_refines os process_laws start_it "sims-amd" "grafana.pid" stopped running started
