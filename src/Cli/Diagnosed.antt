-- ===== src/Cli/Diagnosed.antt =====
-- pkg/cli/gpu_doctor.go: the table that the doctor writes, and its exit.
use sims.Prelude.{
  ℕ, String, false, ◌||◌, List, [], ◌∷◌, if◌then◌else◌, eqb, ◌≡◌, refl, ◌↔◌, inl, inr, Bool-cases,
}
use sims.Prelude.Results.{Result, ok, err}
use sims.Text.{append, concat, is_empty, trim_space}
use sims.Text.Split.{join}
use sims.Text.Decimal.{itoa}
use sims.Cluster.{Kind, ClusterError, list}
use sims.Cli.Select.{filter_sims_clusters}
use sims.Cli.Doctor.{
  Environment, critical, warn, info, fails, row, docker_answer, clusters_answer, ghcr_answer,
  exit_of, run_doctor,
}

module _ {W : Type 0} (env : Environment W) (kind : Kind W) where
  -- The lines of the table for each answer.
  abbrev pub docker_line : Result String String → List String
  docker_line (ok out) =
      "docker daemon" ∷ "critical" ∷ "ok" ∷ append "server " (trim_space out) ∷ []
  docker_line (err e) =
      "docker daemon" ∷ "critical" ∷ "fail"
      ∷ "start Docker Desktop, or `systemctl start docker` on Linux" ∷ []

  abbrev pub clusters_line : Result ClusterError (List String) → List String
  clusters_line (ok all) =
      "sims clusters"
      ∷ "info"
      ∷ "info"
      ∷ elim (filter_sims_clusters all) [ [] ↦ "(none)" | n ∷ ns ↦ join ", " (n ∷ ns) ]
      ∷ []
  clusters_line (err e) =
      "sims clusters"
      ∷ "info"
      ∷ "info"
      ∷ (if is_empty (env.error_text e)
          then "kind not reachable"
          else concat (env.error_text e ∷ " — kind not reachable" ∷ []))
      ∷ []

  abbrev pub ghcr_line : Result String ℕ → List String
  ghcr_line (ok status) =
      if eqb status 200 || eqb status 401
      then "ghcr.io reachable" ∷ "warn" ∷ "ok" ∷ append "HTTP " (itoa status) ∷ []
      else "ghcr.io reachable"
        ∷ "warn"
        ∷ "fail"
        ∷ concat ("HTTP " ∷ itoa status ∷ " — unexpected status from ghcr.io" ∷ [])
        ∷ []
  ghcr_line (err e) =
      "ghcr.io reachable"
      ∷ "warn"
      ∷ "fail"
      ∷ (if is_empty e
          then "check network / proxy; `sims gpu create` pulls fake-gpu-operator from OCI"
          else concat (
              e ∷ " — check network / proxy; `sims gpu create` pulls fake-gpu-operator from OCI"
              ∷ []))
      ∷ []

  abbrev pub table :
      Result String String
      → Result ClusterError (List String)
      → Result String ℕ
      → List (List String)
  table d c g =
      ("CHECK" ∷ "SEVERITY" ∷ "RESULT" ∷ "DETAIL" ∷ [])
      ∷ docker_line d
      ∷ clusters_line c
      ∷ ghcr_line g
      ∷ []

  docker_row :
      (d : Result String String)
      → row "docker daemon" critical (docker_answer env kind d) ≡ docker_line d
  docker_row (ok out) = refl
  docker_row (err e) = refl

  clusters_row :
      (c : Result ClusterError (List String))
      → row "sims clusters" info (clusters_answer env kind c) ≡ clusters_line c
  clusters_row (ok all) = refl
  clusters_row (err e) = elim (Bool-cases (is_empty (env.error_text e))) [
    | inl blank ↦ rw blank refl
    | inr detail ↦ rw detail refl
  ]

  ghcr_row :
      (g : Result String ℕ) → row "ghcr.io reachable" warn (ghcr_answer env kind g) ≡ ghcr_line g
  ghcr_row (ok status) = elim (Bool-cases (eqb status 200 || eqb status 401)) [
    | inl expected ↦ rw expected refl
    | inr other ↦ rw other refl
  ]
  ghcr_row (err e) = elim (Bool-cases (is_empty e)) [
    | inl blank ↦ rw blank refl
    | inr detail ↦ rw detail refl
  ]

  exit_exact :
      (d : Result String String) (r : Result String (Unit {0}))
      → (exit_of env kind
            (fails critical (docker_answer env kind d).fine || (false || (false || false)))
            r
          ≡ ok tt)
        ↔ (((t : String) × (d ≡ ok t)) × (r ≡ ok tt))
  exit_exact (ok t) (ok u) = (λ h. ((t, refl), refl), λ h. refl)
  exit_exact (err e) (ok u) = (λ h. cc, λ ((t, h), p). cc)
  exit_exact d (err x) = (λ h. cc, λ (t, h). cc)

  -- The doctor asks Docker, then kind, then the registry, and writes one table: its header and a line
  -- for each of the three, with what was answered or with the hint. It ends without an error exactly
  -- when Docker has answered and the table could be written; what kind and the registry answer does
  -- not change the exit.
  pub doctor_exact :
      (w : W)
      → let (d, w1) = env.docker_version w in
        let (c, w2) = list kind w1 in
        let (g, w3) = env.get_ghcr w2 in
        let (r, w4) = env.flush (table d c g) w3 in
        ((run_doctor env kind w).1 ≡ w4)
        × (((run_doctor env kind w).0 ≡ ok tt) ↔ (((t : String) × (d ≡ ok t)) × (r ≡ ok tt)))
  unfolding run_doctor
  doctor_exact w =
      let (d, w1) = env.docker_version w in
      let (c, w2) = list kind w1 in
      let (g, w3) = env.get_ghcr w2 in
      rw (← docker_row d, ← clusters_row c, ← ghcr_row g) (refl, exit_exact d _)
