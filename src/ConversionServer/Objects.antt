-- ===== src/ConversionServer/Objects.antt =====
-- How `doConversion` reads the spec of an object out of its decoded fields.
pub mod Encoding
pub mod Reading
pub mod Lands
use resourcelimiter.Prelude.{String, Bool, List, [], ◌∷◌, Map, insert}
use resourcelimiter.Api.V1beta1
use resourcelimiter.Api.V1beta2
use resourcelimiter.Api.V1beta2.{ResourceLimiterQuota, zero_limiter}
use resourcelimiter.ConversionServer.Json.{
  Value, Items, done, item, Fields, end, field, value_at, Attempt, value, ◌>>=◌, as_bool, as_string,
  as_array, as_object,
}

-- The object that is converted has the spec alone.
abbrev pub with_spec_v1beta1 : V1beta1.ResourceLimiterSpec → V1beta1.ResourceLimiter
with_spec_v1beta1 spec = record {
  type_meta = zero_limiter.type_meta;
  object_meta = zero_limiter.object_meta;
  spec = spec;
  status = record { state = ""; quotas = [] };
}

abbrev pub with_spec_v1beta2 : V1beta2.ResourceLimiterSpec → V1beta2.ResourceLimiter
with_spec_v1beta2 spec = record zero_limiter { spec = spec }

module _ {Response : Type 0} where
  -- The loop over the targets of a v1beta1 object.
  unfoldable pub read_targets : Items → Attempt Response (List String)
  read_targets done = value []
  read_targets (item v items) = do
    target ← as_string v
    targets ← read_targets items
    value (target ∷ targets)

  -- The loop over its types, from the map that is filled.
  unfoldable pub read_types : Fields → Map String → Attempt Response (Map String)
  read_types end types = value types
  read_types (field k v fields) types = do
    held ← as_string v
    read_types fields (insert k held types)

  -- The loop over the quotas of a v1beta2 object, which are encoded as its targets.
  unfoldable pub read_quotas : Items → Attempt Response (List ResourceLimiterQuota)
  read_quotas done = value []
  read_quotas (item v items) = do
    fields ← as_object v
    namespace_name ← as_string (value_at "name" fields)
    cpu_request ← as_string (value_at "cpu_requests" fields)
    cpu_limit ← as_string (value_at "cpu_limits" fields)
    mem_request ← as_string (value_at "mem_requests" fields)
    mem_limit ← as_string (value_at "mem_limits" fields)
    quotas ← read_quotas items
    value (
        record {
          namespace_name = namespace_name;
          cpu_request = cpu_request;
          mem_request = mem_request;
          cpu_limit = cpu_limit;
          mem_limit = mem_limit;
        }
        ∷ quotas)

  unfoldable pub read_v1beta1 : Fields → Attempt Response V1beta1.ResourceLimiter
  unfolding read_targets read_types value_at
  read_v1beta1 object = do
    spec_object ← as_object (value_at "spec" object)
    target_items ← as_array (value_at "targets" spec_object)
    targets ← read_targets target_items
    type_fields ← as_object (value_at "types" spec_object)
    types ← read_types type_fields []
    applied ← as_bool (value_at "applied" spec_object)
    value (with_spec_v1beta1 (record { targets = targets; types = types; applied = applied }))

  unfoldable pub read_v1beta2 : Fields → Attempt Response V1beta2.ResourceLimiter
  unfolding read_quotas value_at
  read_v1beta2 object = do
    spec_object ← as_object (value_at "spec" object)
    quota_items ← as_array (value_at "targets" spec_object)
    quotas ← read_quotas quota_items
    applied ← as_bool (value_at "applied" spec_object)
    value (with_spec_v1beta2 (record { quotas = quotas; applied = applied }))
