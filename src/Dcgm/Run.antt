-- ===== src/Dcgm/Run.antt =====
-- operators/fake-dcgm-extras/internal/exporter/run.go: the sidecar, from its flags to what it serves. The
-- HTTP server is a library, and the log is left out.
use sims.Prelude.{String, Bool, List, ◌∷◌, [], Option, none, some, if◌then◌else◌}
use sims.Prelude.Int.{ℤ, pos, ltb_ℤ, to_ℕ}
use sims.Prelude.Float.{Float64}
use sims.Prelude.Maps.{Map}
use sims.Prelude.Results.{Result, ok, err, Call, ◌>>=◌, wrap}
use sims.Text.{is_empty}
use sims.Text.Flags.{
  FlagSet, FlagError, Numbers, parse, any_text, a_number, a_duration, text_of, number_of,
  duration_of, after_flags,
}
use sims.Dcgm.Registry.{Snapshot}
use sims.Dcgm.Cache.{Cache, new_cache}
use sims.Dcgm.Sample.{GpuIdentity, build_gpus, idle_only, sampler}

pub data SidecarError : Type 0 where
  flags_failed : FlagError → SidecarError
  negative_gpus : ℤ → SidecarError
  no_hostname : String → SidecarError

-- What serves the scrapes: the slots, and the cache where there is a client of the cluster.
pub record Sidecar : Type 0 where
  pub listen : String
  pub hostname : String
  pub gpus : List GpuIdentity
  pub cache : Option Cache
  pub refresh_interval : ℤ

-- NODE_NAME, or else what os.Hostname returns.
abbrev pub hostname_of : String → Result String String → Result SidecarError String
hostname_of node_name host = if is_empty node_name then wrap no_hostname host else ok node_name

module _ (numbers : Numbers) where
  abbrev pub sidecar_flags : FlagSet
  sidecar_flags =
      ("listen", any_text)
      ∷ ("gpus-per-node", a_number numbers)
      ∷ ("product-name", any_text)
      ∷ ("mig-profile", any_text)
      ∷ ("refresh-interval", a_duration numbers)
      ∷ []

  abbrev pub sidecar_on : Bool → Map String → ℤ → String → Result SidecarError Sidecar
  sidecar_on in_cluster values gpus hostname = ok (record {
    listen = text_of values "listen" ":9401";
    hostname = hostname;
    gpus =
        build_gpus hostname (text_of values "product-name" "Tesla T4")
          (text_of values "mig-profile" "") (to_ℕ gpus);
    cache = if in_cluster then some (new_cache hostname) else none;
    refresh_interval = duration_of numbers values "refresh-interval" (pos 5000000000);
  })

  abbrev pub sidecar_for :
      Bool → String → Result String String → Map String → ℤ → Result SidecarError Sidecar
  sidecar_for in_cluster node_name host values gpus =
      if ltb_ℤ gpus (pos 0)
      then err (negative_gpus gpus)
      else hostname_of node_name host >>= sidecar_on in_cluster values gpus

  abbrev pub sidecar_of :
      Bool → String → Result String String → Map String → Result SidecarError Sidecar
  sidecar_of in_cluster node_name host values =
      sidecar_for in_cluster node_name host values
        (number_of numbers values "gpus-per-node" (pos 2))

  unfoldable pub start_sidecar :
      Bool → String → Result String String → List String → Result SidecarError (Option Sidecar)
  unfolding parse build_gpus new_cache
  start_sidecar in_cluster node_name host args =
      after_flags flags_failed (sidecar_of in_cluster node_name host) (parse sidecar_flags args [])

-- A scrape: the sampler that buildSamplerOrIdle has chosen, on the cache as it is by then.
unfoldable pub scrape :
    (fl : Float64) → {R : Type 0} → Call R fl.F → Sidecar → R → List (Snapshot fl)
unfolding idle_only sampler
scrape fl draw e rng = elim e.cache [
  | none ↦ idle_only fl e.gpus e.hostname
  | some c ↦ sampler fl draw c.assignments e.gpus e.hostname rng
]
