-- ===== src/Api/V1beta1.antt =====
-- api/v1beta1/resourcelimiter_types.go. `ResourceLimiterNamespace` and `ResourceLimiterType` are
-- renamings of `string`. The list kind is in `DeepCopy.V1beta1`.
use resourcelimiter.Prelude.{String, Bool, List, Map}
use resourcelimiter.Api.Meta.{TypeMeta, ObjectMeta}

pub record ResourceLimiterSpec : Type 0 where
  pub targets : List String
  pub types : Map String
  pub applied : Bool

pub record ResourceLimiterQuotas : Type 0 where
  pub namespace : String
  pub cpu_requests : String
  pub mem_requests : String
  pub cpu_limits : String
  pub mem_limits : String

pub record ResourceLimiterStatus : Type 0 where
  pub state : String
  pub quotas : Map ResourceLimiterQuotas

pub record ResourceLimiter : Type 0 where
  pub type_meta : TypeMeta
  pub object_meta : ObjectMeta
  pub spec : ResourceLimiterSpec
  pub status : ResourceLimiterStatus
