-- ===== src/Cli/Doctor.antt =====
-- pkg/cli/gpu_doctor.go: the checks of the environment, and the exit of the command. The alignment of
-- the table is left out: a row is its cells.
use sims.Prelude.{ℕ, String, Bool, true, false, not, ◌&&◌, ◌||◌, List, [], ◌∷◌, if◌then◌else◌, eqb}
use sims.Prelude.Results.{Result, ok, err, Call}
use sims.Text.{append, concat, is_empty, trim_space}
use sims.Text.Split.{join}
use sims.Text.Decimal.{itoa}
use sims.Cluster.{Kind, ClusterError, list}
use sims.Cli.Select.{filter_sims_clusters}

pub data Severity : Type 0 where
  critical : Severity
  warn : Severity
  info : Severity

abbrev pub label : Severity → String
label critical = "critical"
label warn = "warn"
label info = "info"

-- What a check answers: whether it is fine, a hint and a detail.
pub record Answer : Type 0 where
  pub fine : Bool
  pub hint : String
  pub detail : String

abbrev pub answer : Bool → String → String → Answer
answer fine hint detail = record { fine = fine; hint = hint; detail = detail }

pub record Check (W : Type 0) : Type 0 where
  pub name : String
  pub severity : Severity
  pub run : Call W Answer

-- `docker version`, the GET of ghcr.io with its status, the text of an error of kind, and the flush of the
-- table to standard output.
pub record Environment (W : Type 0) : Type 0 where
  pub docker_version : Call W (Result String String)
  pub get_ghcr : Call W (Result String ℕ)
  pub error_text : ClusterError → String
  pub flush : List (List String) → Call W (Result String (Unit {0}))

pub data DoctorError : Type 0 where
  flush_failed : String → DoctorError
  critical_failed : DoctorError

-- `row := detail`, with the hint of a check that fails.
abbrev pub with_hint : Answer → String
with_hint a =
    if not a.fine && not (is_empty a.hint)
    then (if is_empty a.detail then a.hint else concat (a.detail ∷ " — " ∷ a.hint ∷ []))
    else a.detail

abbrev pub result_of : Severity → Bool → String
result_of info fine = "info"
result_of critical fine = if fine then "ok" else "fail"
result_of warn fine = if fine then "ok" else "fail"

abbrev pub row : String → Severity → Answer → List String
row name severity a = name ∷ label severity ∷ result_of severity a.fine ∷ with_hint a ∷ []

abbrev pub fails : Severity → Bool → Bool
fails critical fine = not fine
fails warn fine = false
fails info fine = false

module _ {W : Type 0} where
  -- The loop over the checks: the rows, and whether a critical check has failed.
  unfoldable pub run_checks : List (Check W) → W → (List (List String) × Bool) × W
  run_checks [] w = (([], false), w)
  run_checks (c ∷ cs) w =
      let (a, w1) = c.run w in
      let ((rows, failed), w2) = run_checks cs w1 in
      ((row c.name c.severity a ∷ rows, fails c.severity a.fine || failed), w2)

  module _ (env : Environment W) (kind : Kind W) where
    abbrev pub docker_answer : Result String String → Answer
    docker_answer (err e) =
        answer false "start Docker Desktop, or `systemctl start docker` on Linux" ""
    docker_answer (ok out) = answer true "" (append "server " (trim_space out))

    abbrev pub clusters_answer : Result ClusterError (List String) → Answer
    clusters_answer (err e) = answer false "kind not reachable" (env.error_text e)
    clusters_answer (ok all) =
        answer true ""
          (elim (filter_sims_clusters all) [ [] ↦ "(none)" | n ∷ ns ↦ join ", " (n ∷ ns) ])

    abbrev pub ghcr_answer : Result String ℕ → Answer
    ghcr_answer (err e) =
        answer false "check network / proxy; `sims gpu create` pulls fake-gpu-operator from OCI" e
    ghcr_answer (ok status) =
        if eqb status 200 || eqb status 401
        then answer true "" (append "HTTP " (itoa status))
        else answer false "unexpected status from ghcr.io" (append "HTTP " (itoa status))

    unfoldable pub check_docker_daemon : Call W Answer
    check_docker_daemon w = let (r, w') = env.docker_version w in (docker_answer r, w')

    unfoldable pub check_sims_clusters : Call W Answer
    unfolding filter_sims_clusters
    check_sims_clusters w = let (r, w') = list kind w in (clusters_answer r, w')

    unfoldable pub check_ghcr : Call W Answer
    check_ghcr w = let (r, w') = env.get_ghcr w in (ghcr_answer r, w')

    unfoldable pub default_checks : List (Check W)
    unfolding check_docker_daemon check_sims_clusters check_ghcr
    default_checks =
        record { name = "docker daemon"; severity = critical; run = check_docker_daemon }
        ∷ record { name = "sims clusters"; severity = info; run = check_sims_clusters }
        ∷ record { name = "ghcr.io reachable"; severity = warn; run = check_ghcr }
        ∷ []

    abbrev pub exit_of : Bool → Result String (Unit {0}) → Result DoctorError (Unit {0})
    exit_of failed (err e) = err (flush_failed e)
    exit_of true (ok _) = err critical_failed
    exit_of false (ok _) = ok tt

    unfoldable pub run_doctor : Call W (Result DoctorError (Unit {0}))
    unfolding run_checks default_checks
    run_doctor w =
        let ((rows, failed), w1) = run_checks default_checks w in
        let (r, w2) = env.flush (("CHECK" ∷ "SEVERITY" ∷ "RESULT" ∷ "DETAIL" ∷ []) ∷ rows) w1 in
        (exit_of failed r, w2)
