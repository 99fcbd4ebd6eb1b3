-- ===== src/Api/V1beta2.antt =====
-- api/v1beta2/resourcelimiter_types.go. The list kind is in `DeepCopy.V1beta2`.
use resourcelimiter.Prelude.{String, Bool, false, none, List, []}
use resourcelimiter.Api.Meta.{TypeMeta, ObjectMeta}

pub record ResourceLimiterQuota : Type 0 where
  pub namespace_name : String
  pub cpu_request : String
  pub mem_request : String
  pub cpu_limit : String
  pub mem_limit : String

pub record ResourceLimiterSpec : Type 0 where
  pub quotas : List ResourceLimiterQuota
  pub applied : Bool

pub record ResourceLimiterStatus : Type 0 where
  pub state : String
  pub quotas : List ResourceLimiterQuota

pub record ResourceLimiter : Type 0 where
  pub type_meta : TypeMeta
  pub object_meta : ObjectMeta
  pub spec : ResourceLimiterSpec
  pub status : ResourceLimiterStatus

-- The zero values of the structs.
abbrev pub zero_quota : ResourceLimiterQuota
zero_quota = record {
  namespace_name = "";
  cpu_request = "";
  mem_request = "";
  cpu_limit = "";
  mem_limit = "";
}

abbrev pub zero_limiter : ResourceLimiter
zero_limiter = record {
  type_meta = record { kind = ""; api_version = "" };
  object_meta = record { name = ""; finalizers = []; deletion_timestamp = none };
  spec = record { quotas = []; applied = false };
  status = record { state = ""; quotas = [] };
}
