-- ===== src/Api/Conversion.antt =====
-- api/v1beta1/resourcelimiter_conversion.go: the conversion of v1beta1 objects to and from the hub
-- version v1beta2. Each function returns the object that it fills and its error.
pub mod Laws
pub mod RoundTrip
pub mod Growth
use resourcelimiter.Prelude.{
  String, Option, none, some, List, [], ◌∷◌, ◌++◌, map, replicate, length, is_empty, Map, insert,
  at_key, if◌then◌else◌,
}
use resourcelimiter.Api.V1beta1
use resourcelimiter.Api.V1beta2
use resourcelimiter.Api.V1beta2.{ResourceLimiterQuota, zero_quota}

-- `conversion.Hub`: the hub type of this module, or another implementation of the interface.
pub data Hub : Type 0 where
  limiter : V1beta2.ResourceLimiter → Hub
  other : Hub

-- The quota that `ConvertTo` makes of a target.
abbrev pub quota_of : Map String → String → ResourceLimiterQuota
quota_of types ns = record {
  namespace_name = ns;
  cpu_request = at_key "" "requests.cpu" types;
  mem_request = at_key "" "requests.memory" types;
  cpu_limit = at_key "" "limits.cpu" types;
  mem_limit = at_key "" "limits.memory" types;
}

-- The loop over the targets: it appends to the quotas that it is given.
pub append_targets :
    Map String → List String → List ResourceLimiterQuota → List ResourceLimiterQuota
append_targets types [] quotas = quotas
append_targets types (ns ∷ targets) quotas =
    append_targets types targets (quotas ++ (quota_of types ns ∷ []))

-- `make([]T, len(targets))` has that many zero values, to which the loop appends.
unfoldable pub convert_to : V1beta1.ResourceLimiter → Hub → Hub × Option String
unfolding append_targets
convert_to src other = (other, some "the dst type is wroong")
convert_to src (limiter dst) =
    let quotas =
      append_targets src.spec.types src.spec.targets
        (replicate (length src.spec.targets) zero_quota) in
    (
      limiter (record dst {
        spec = record { quotas = quotas; applied = src.spec.applied };
        object_meta = record dst.object_meta { name = src.object_meta.name };
      }),
      none,
    )

abbrev pub set_types : ResourceLimiterQuota → Map String → Map String
set_types v types = insert "requests.memory" v.mem_request (
    insert "limits.memory" v.mem_limit
      (insert "requests.cpu" v.cpu_request (insert "limits.cpu" v.cpu_limit types)))

-- The loop over the quotas: targets are appended, and the last quota's values stay.
pub collect_quotas :
    List ResourceLimiterQuota → V1beta1.ResourceLimiterSpec → V1beta1.ResourceLimiterSpec
collect_quotas [] spec = spec
collect_quotas (v ∷ quotas) spec = collect_quotas quotas (record spec {
  targets = spec.targets ++ (v.namespace_name ∷ []);
  types = set_types v spec.types;
})

-- The receiver's spec is reset before the test on the quotas, also where that fails.
unfoldable pub convert_from :
    V1beta1.ResourceLimiter → Hub → V1beta1.ResourceLimiter × Option String
unfolding collect_quotas
convert_from dst other = (dst, some "the dst type is wroong")
convert_from dst (limiter src) =
    let reset : V1beta1.ResourceLimiterSpec = record {
      targets = [];
      types = [];
      applied = src.spec.applied;
    } in
    if is_empty src.spec.quotas
    then (record dst { spec = reset }, some "the quotas field is 0")
    else (record dst { spec = collect_quotas src.spec.quotas reset }, none)
