-- ===== src/Config.antt =====
-- pkg/config: the vendors, and the kind cluster that is rendered for one.
pub mod KindConfig
pub mod Described
pub mod Rendered
use sims.Prelude.{String}

abbrev pub vendor_nvidia : String
vendor_nvidia = "nvidia"

abbrev pub vendor_amd : String
vendor_amd = "amd"
