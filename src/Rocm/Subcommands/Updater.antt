-- ===== src/Rocm/Subcommands/Updater.antt =====
-- operators/fake-rocm-gpu-operator/internal/statusupdater/run.go: the status-updater, from its flags
-- through its rounds. The log is left out.
use sims.Prelude.{ℕ, String, List, ◌∷◌, [], Option}
use sims.Prelude.Int.{ℤ, pos}
use sims.Prelude.Maps.{Map}
use sims.Prelude.Results.{rounds, Result, ok, wrap, ◌>>=◌}
use sims.Text.Flags.{
  FlagSet, FlagError, Numbers, parse, any_text, a_duration, text_of, duration_of, after_flags,
}

pub data UpdaterError : Type 0 where
  flags_failed : FlagError → UpdaterError
  no_client : String → UpdaterError

-- The namespace of the topology, and the interval of the rounds in nanoseconds.
pub record Updater : Type 0 where
  pub namespace : String
  pub interval : ℤ

module _ (numbers : Numbers) where
  abbrev pub updater_flags : FlagSet
  updater_flags = ("topology-namespace", any_text) ∷ ("reconcile-interval", a_duration numbers) ∷ []

  abbrev pub updater_of : Result String (Unit {0}) → Map String → Result UpdaterError Updater
  updater_of client values = wrap no_client client >>= (λ u. ok (record {
    namespace = text_of values "topology-namespace" "gpu-operator";
    interval = duration_of numbers values "reconcile-interval" (pos 5000000000);
  }))

  -- `client` is newInClusterClientset.
  unfoldable pub start_updater :
      Result String (Unit {0}) → List String → Result UpdaterError (Option Updater)
  unfolding parse
  start_updater client args =
      after_flags flags_failed (updater_of client) (parse updater_flags args [])

-- Run of the status-updater after its start: `round` is reconcile, and the context is done after `ticks`
-- ticks.
unfoldable pub run_updater : {W : Type 0} → (String → W → W) → Updater → ℕ → W → W
unfolding rounds
run_updater round u ticks w = rounds (round u.namespace) ticks w
