-- ===== src/Webhook/Mutate.antt =====
-- `mutate` of pkg/cmd/webhook.go.
use resourcelimiter.Prelude.{String, ◌<>◌, true, none, some, [], ◌∷◌, map, ◌==◌, if◌then◌else◌}
use resourcelimiter.Api.Constants.{
  retrain_type_limits_cpu, retrain_type_limits_memory, retrain_type_requests_cpu,
  retrain_type_requests_memory,
}
use resourcelimiter.Api.V1beta1
use resourcelimiter.Api.V1beta2
use resourcelimiter.Api.V1beta2.{ResourceLimiterQuota, zero_quota, zero_limiter}
use resourcelimiter.Webhook.Admission.{
  AdmissionRequest, AdmissionResponse, refused, Codec, Result, malformed, value,
}
use resourcelimiter.Webhook.Patch.{create_patch_v1beta1, create_patch_v1beta2}

-- What a v1beta1 object is filled up from; its other fields are zero.
abbrev pub desired_v1beta1 : V1beta1.ResourceLimiter
desired_v1beta1 = record {
  type_meta = zero_limiter.type_meta;
  object_meta = zero_limiter.object_meta;
  spec = record {
    targets = "default" ∷ [];
    types =
        (retrain_type_limits_cpu, "2")
        ∷ (retrain_type_limits_memory, "200Mi")
        ∷ (retrain_type_requests_cpu, "1")
        ∷ (retrain_type_requests_memory, "150Mi")
        ∷ [];
    applied = zero_limiter.spec.applied;
  };
  status = record { state = ""; quotas = [] };
}

abbrev pub desired_quota : ResourceLimiterQuota → ResourceLimiterQuota
desired_quota item = record zero_quota { namespace_name = item.namespace_name }

-- The desired object has a quota with no values for each of the quotas.
abbrev pub desired_v1beta2 : V1beta2.ResourceLimiter → V1beta2.ResourceLimiter
desired_v1beta2 rl = record zero_limiter {
  spec = record zero_limiter.spec { quotas = map desired_quota rl.spec.quotas };
}

module _ {Quantity : Type 0} (J : Codec Quantity) where
  open J use {unmarshal_v1beta1, unmarshal_v1beta2, marshal_patch}

  -- The response with a patch, or with the error of its encoding.
  abbrev pub patched_with : Result String → AdmissionResponse
  patched_with (malformed message) = refused message
  patched_with (value bytes) = record {
    uid = "";
    allowed = true;
    message = none;
    patch = some bytes;
    patch_type = some "JSONPatch";
  }

  abbrev pub mutate_v1beta1 : Result V1beta1.ResourceLimiter → AdmissionResponse
  mutate_v1beta1 (malformed message) = refused message
  mutate_v1beta1 (value rl) = patched_with (marshal_patch (create_patch_v1beta1 rl desired_v1beta1))

  abbrev pub mutate_v1beta2 : Result V1beta2.ResourceLimiter → AdmissionResponse
  mutate_v1beta2 (malformed message) = refused message
  mutate_v1beta2 (value rl) =
      patched_with (marshal_patch (create_patch_v1beta2 rl (desired_v1beta2 rl)))

  unfoldable pub mutate : AdmissionRequest → AdmissionResponse
  unfolding create_patch_v1beta1 create_patch_v1beta2
  mutate req =
      if req.version == "v1beta1"
      then mutate_v1beta1 (unmarshal_v1beta1 req.raw)
      else if req.version == "v1beta2"
      then mutate_v1beta2 (unmarshal_v1beta2 req.raw)
      else refused ("Unsupported version " <> req.version)
