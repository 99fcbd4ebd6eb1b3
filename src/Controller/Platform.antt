-- ===== src/Controller/Platform.antt =====
-- What the controller calls and does not implement: Kubernetes' quantities, the typed client of
-- controller-runtime with its helpers, and the cluster behind it.
pub mod View
pub mod Kept
pub mod Untouched
use resourcelimiter.Prelude.{String, Bool, Option, List, Map}
use resourcelimiter.Api.V1beta2.{ResourceLimiter}
use resourcelimiter.Controller.Exec.{Exec, Outcome}

-- `k8sresource.Quantity`: `MustParse` panics where `parse` has no result.
pub record Quantities : Type 1 where
  pub Quantity : Type 0
  pub parse : String → Option Quantity
  pub show : Quantity → String
  pub zero_quantity : Quantity

-- `k8stypes.NamespacedName`
pub record NamespacedName : Type 0 where
  pub namespace : String
  pub name : String

abbrev pub named : String → String → NamespacedName
named namespace name = record { namespace = namespace; name = name }

-- The parts of `corev1.Namespace` and `corev1.ResourceQuota` that the controller reads or writes.
pub record Namespace : Type 0 where
  pub name : String
  pub labels : Map String

pub record ResourceQuota (Quantity : Type 0) : Type 0 where
  pub namespace : String
  pub name : String
  pub owner : Option String
  pub hard : Map Quantity
  pub used : Map Quantity

-- `client.Client`, `controllerutil` and the scheme.
pub record Client (Quantity : Type 0) : Type 1 where
  pub State : Type 0
  pub get_limiter : NamespacedName → Exec State ResourceLimiter
  -- `Patch` with the difference of the second object from the first.
  pub patch_limiter : ResourceLimiter → ResourceLimiter → Exec State (Unit {0})
  pub update_status : ResourceLimiter → Exec State (Unit {0})
  pub get_namespace : NamespacedName → Exec State Namespace
  pub update_namespace : Namespace → Exec State (Unit {0})
  pub get_quota : NamespacedName → Exec State (ResourceQuota Quantity)
  pub create_quota : ResourceQuota Quantity → Exec State (Unit {0})
  pub update_quota : ResourceQuota Quantity → Exec State (Unit {0})
  pub delete_quota : ResourceQuota Quantity → Exec State (Unit {0})
  pub set_controller_reference :
      ResourceLimiter → ResourceQuota Quantity → Outcome (ResourceQuota Quantity)
  pub contains_finalizer : List String → String → Bool
  pub add_finalizer : List String → String → List String
  pub remove_finalizer : List String → String → List String
