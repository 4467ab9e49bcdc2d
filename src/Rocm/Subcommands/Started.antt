-- ===== src/Rocm/Subcommands/Started.antt =====
-- operators/fake-rocm-gpu-operator/internal: the device plugin and the metrics exporter, started with the
-- arguments that a DaemonSet gives them.
use sims.Prelude.{
  ℕ, ◌^◌, ◌<◌, String, true, [], ◌∷◌, some, ◌≡◌, refl, arith, ◌∙◌, ap, if◌then◌else◌, false,
}
use sims.Prelude.Float.{Float64}
use sims.Prelude.Int.{pos, ltb_ℤ}
use sims.Prelude.Results.{Result, ok, err, ◌>>=◌}
use sims.Text.{append, is_empty}
use sims.Prelude.Maps.{Map, lookup, insert}
use sims.Text.Split.{split_2}
use sims.Text.Decimal.{itoa}
use sims.Text.Flags.{Numbers, ReadsDecimals, parse, after_flags, number_of}
use sims.Rocm.Simulate.{build_gpus}
use sims.Rocm.DevicePlugin.Server.{build_devices, new, default_resource_name}
use sims.Rocm.DevicePlugin.Devices.{devices-new}
use sims.Rocm.Exporter.{new_cache}
use sims.Rocm.Subcommands.Plugin.{
  plugin_of, plugin_for, device_plugin_flags, flags_failed, Plugin, PluginError, start_plugin,
}
use sims.Rocm.Subcommands.Exporter.{
  exporter_of, exporter_for, exporter_on, hostname_of, exporter_flags,
  flags_failed as exporter_flags_failed, Exporter, ExporterError, start_exporter,
}

-- A number that is not negative passes the guard.
guarded :
    {E A : Type 0} (n : ℕ) (e : E) (r : Result E A)
    → (if ltb_ℤ (pos n) (pos 0) then err e else r) ≡ r
guarded n e r = ground arith

module _ (numbers : Numbers) (reads : ReadsDecimals numbers) where
  -- The device plugin, started on the arguments after its name.
  pub plugin_started :
      (n : ℕ) (resource dir socket : String)
      → n < 2 ^ 63
      → (plugin : Plugin) × (start_plugin numbers true (
            append "--gpus-per-node=" (itoa n)
            ∷ append "--resource-name=" resource
            ∷ append "--kubelet-socket-dir=" dir
            ∷ append "--pod-resources-socket=" socket
            ∷ [])
          ≡ ok (some plugin))
        × (plugin.server.devices ≡ build_devices n)
        × (plugin.server.resource_name
            ≡ (if is_empty resource then default_resource_name else resource))
  unfolding start_plugin parse new lookup insert split_2
  plugin_started n resource dir socket h = (
    _,
    ap (after_flags flags_failed (plugin_of numbers true)) parsed
        ∙ ap (λ (r : Result PluginError Plugin). r >>= (λ p. ok (some p)))
            (ap (plugin_for numbers true values) number ∙ guarded n _ _),
    devices-new (record { resource_name = resource; socket_dir = dir; gpu_count = pos n }) n refl,
    refl,
  )
    where
      values : Map String
      values =
          ("gpus-per-node", itoa n)
          ∷ ("resource-name", resource)
          ∷ ("kubelet-socket-dir", dir)
          ∷ ("pod-resources-socket", socket)
          ∷ []

      parsed :
          parse
            (device_plugin_flags numbers)
            (append "--gpus-per-node=" (itoa n)
              ∷ append "--resource-name=" resource
              ∷ append "--kubelet-socket-dir=" dir
              ∷ append "--pod-resources-socket=" socket
              ∷ [])
            []
          ≡ ok values
      parsed = rw (reads n h) refl

      number : number_of numbers values "gpus-per-node" (pos 2) ≡ pos n
      number = rw (reads n h) refl

  -- The metrics exporter, started on the arguments after its name.
  pub exporter_started :
      (fl : Float64) (node_name : String) (host : Result String String) (cards bytes count : ℕ)
      (product namespace mode util : String)
      → is_empty node_name ≡ false
      → cards < 2 ^ 63
      → bytes < 2 ^ 63
      → count < 2 ^ 63
      → (exporter : Exporter fl numbers) × (start_exporter fl numbers true node_name host (
            "--listen=:5000"
            ∷ append "--gpus-per-node=" (itoa cards)
            ∷ append "--product-name=" product
            ∷ append "--memory-bytes=" (itoa bytes)
            ∷ append "--topology-namespace=" namespace
            ∷ append "--partition-mode=" mode
            ∷ append "--partition-count=" (itoa count)
            ∷ append "--default-utilization=" util
            ∷ [])
          ≡ ok (some exporter))
        × (exporter.gpus ≡ build_gpus node_name product (pos bytes) cards mode (pos count))
        × (exporter.cache ≡ some (new_cache fl namespace node_name util))
  unfolding start_exporter parse new_cache build_gpus lookup insert split_2
  exporter_started fl node_name host cards bytes count product namespace mode util named hc hb hk =
      (
        _,
        ap (after_flags exporter_flags_failed (exporter_of fl numbers true node_name host)) parsed
            ∙ ap (λ (r : Result ExporterError (Exporter fl numbers)). r >>= (λ e. ok (some e)))
                (ap (exporter_for fl numbers true node_name host values) number
                  ∙ (guarded cards _ _
                      ∙ ap
                          (λ (r : Result ExporterError String).
                            r >>= exporter_on fl numbers true values (pos cards))
                          host_named)),
        rw (reads bytes hb, reads count hk) refl,
        refl,
      )
    where
      values : Map String
      values =
          ("listen", ":5000")
          ∷ ("gpus-per-node", itoa cards)
          ∷ ("product-name", product)
          ∷ ("memory-bytes", itoa bytes)
          ∷ ("topology-namespace", namespace)
          ∷ ("partition-mode", mode)
          ∷ ("partition-count", itoa count)
          ∷ ("default-utilization", util)
          ∷ []

      parsed :
          parse
            (exporter_flags fl numbers)
            ("--listen=:5000"
              ∷ append "--gpus-per-node=" (itoa cards)
              ∷ append "--product-name=" product
              ∷ append "--memory-bytes=" (itoa bytes)
              ∷ append "--topology-namespace=" namespace
              ∷ append "--partition-mode=" mode
              ∷ append "--partition-count=" (itoa count)
              ∷ append "--default-utilization=" util
              ∷ [])
            []
          ≡ ok values
      parsed = rw (reads cards hc, reads bytes hb, reads count hk) refl

      number : number_of numbers values "gpus-per-node" (pos 2) ≡ pos cards
      number = rw (reads cards hc) refl

      host_named : hostname_of node_name host ≡ ok node_name
      host_named = rw named refl
