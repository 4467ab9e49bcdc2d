-- ===== src/K8s.antt =====
-- The parts of the Kubernetes API objects that the program reads and writes. The API itself, and the
-- arithmetic of resource quantities, are parameters of the models that use them.
use sims.Prelude.{String, Bool, List, Option}
use sims.Prelude.Int.{ℤ}
use sims.Prelude.Maps.{Map}

-- apierrors.IsNotFound and apierrors.IsAlreadyExists tell the first two from all others.
pub data ApiError : Type 0 where
  not_found : ApiError
  already_exists : ApiError
  other : String → ApiError

-- resource.Quantity: IsZero, AsInt64, and `q.Cmp(of n) >= 0`.
pub record Quantities : Type 1 where
  pub Q : Type 0
  pub is_zero : Q → Bool
  pub as_int64 : Q → Option ℤ
  pub at_least : Q → ℤ → Bool

module _ (Q : Type 0) where
  pub record Container : Type 0 where
    pub name : String
    pub limits : Map Q
    pub requests : Map Q

  pub record Pod : Type 0 where
    pub namespace : String
    pub name : String
    pub node_name : String
    pub phase : String
    pub annotations : Map String
    pub containers : List Container

  pub record Node : Type 0 where
    pub name : String
    pub labels : Map String
    pub capacity : Map Q
    pub kubelet_version : String
