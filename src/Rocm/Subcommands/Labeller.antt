-- ===== src/Rocm/Subcommands/Labeller.antt =====
-- operators/fake-rocm-gpu-operator/internal/nodelabeller/run.go: the flags of the node labeller.
use sims.Prelude.{String, List, ◌∷◌, [], Option}
use sims.Prelude.Maps.{Map}
use sims.Prelude.Results.{Result, ok}
use sims.Text.Flags.{
  FlagSet, FlagError, Numbers, parse, any_text, a_number, text_of, number_of, after_flags,
}
use sims.Rocm.NodeLabeller.{LabellerFlags, default_flags}

module _ (numbers : Numbers) where
  abbrev pub labeller_flags : FlagSet
  labeller_flags =
      ("product-name", any_text)
      ∷ ("cu-count", a_number numbers)
      ∷ ("simd-count", a_number numbers)
      ∷ ("device-id", any_text)
      ∷ ("family", any_text)
      ∷ ("vram", any_text)
      ∷ []

  abbrev pub flags_of : Map String → LabellerFlags
  flags_of values = record {
    product = text_of values "product-name" default_flags.product;
    cu_count = number_of numbers values "cu-count" default_flags.cu_count;
    simd_count = number_of numbers values "simd-count" default_flags.simd_count;
    device_id = text_of values "device-id" default_flags.device_id;
    family = text_of values "family" default_flags.family;
    vram = text_of values "vram" default_flags.vram;
  }

  -- The flags that are given to `run` of the node labeller.
  unfoldable pub read_flags : List String → Result FlagError (Option LabellerFlags)
  unfolding parse
  read_flags args =
      after_flags (λ (e : FlagError). e) (λ values. ok (flags_of values))
        (parse labeller_flags args [])
