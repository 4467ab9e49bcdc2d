-- ===== src/Simsconfig/Types.antt =====
-- pkg/simsconfig/types.go
use sims.Prelude.{String, Bool}
use sims.Prelude.Int.{ℤ}

abbrev pub api_version_v1 : String
api_version_v1 = "sims.io/v1"

abbrev pub kind_config : String
kind_config = "SimsConfig"

pub record Partition : Type 0 where
  pub mode : String
  pub count : ℤ

pub record Features : Type 0 where
  pub mig : String
  pub partition : Partition

pub record Gpu : Type 0 where
  pub family : String
  pub per_worker : ℤ
  pub memory_bytes : ℤ
  pub features : Features

pub record Workload : Type 0 where
  pub default_utilization : String

pub record SimsConfig : Type 0 where
  pub api_version : String
  pub kind : String
  pub vendor : String
  pub name : String
  pub workers : ℤ
  pub k8s_version : String
  pub taint : Bool
  pub gpu : Gpu
  pub workload : Workload
  pub monitoring : Bool
