-- ===== src/Tests/ConversionRuns.antt =====
-- The conversion between the two versions on concrete objects.
use resourcelimiter.Prelude.{String, ◌≡◌, refl, true, none, [], ◌∷◌, lookup, length, ◌*◌, ◌^◌}
use resourcelimiter.Api.V1beta1
use resourcelimiter.Api.V1beta2
use resourcelimiter.Api.V1beta2.{ResourceLimiterQuota, zero_quota, zero_limiter}
use resourcelimiter.Api.Conversion.{limiter, quota_of, convert_to, convert_from}
use resourcelimiter.Api.Conversion.Laws.{converted, convert_to-eq}
use resourcelimiter.Api.Conversion.Growth.{repeated, length-repeated}
use resourcelimiter.Api.Conversion.RoundTrip.{
  levelled, convert_to-convert_from, convert_from-convert_to,
}

abbrev pub old_version : V1beta1.ResourceLimiter
old_version = record {
  type_meta = record { kind = "ResourceLimiter"; api_version = "" };
  object_meta = record { name = "rl"; finalizers = []; deletion_timestamp = none };
  spec = record {
    targets = "default" ∷ "fixtures" ∷ [];
    types = ("limits.cpu", "200m") ∷ ("requests.cpu", "150m") ∷ ("limits.memory", "1Gi") ∷ [];
    applied = true;
  };
  status = record { state = ""; quotas = [] };
}

abbrev web_quota : ResourceLimiterQuota
web_quota = record {
  namespace_name = "default";
  cpu_request = "1";
  mem_request = "150Mi";
  cpu_limit = "2";
  mem_limit = "200Mi";
}

abbrev pub new_version : V1beta2.ResourceLimiter
new_version = record zero_limiter {
  spec = record {
    quotas = web_quota ∷ record web_quota { namespace_name = "web"; cpu_limit = "3" } ∷ [];
    applied = true;
  };
}

-- Two targets become four quotas.
doubled : convert_to old_version (limiter zero_limiter) ≡ (
  limiter (record zero_limiter {
    object_meta = record { name = "rl"; finalizers = []; deletion_timestamp = none };
    spec = record {
      quotas =
          zero_quota
          ∷ zero_quota
          ∷ record {
            namespace_name = "default";
            cpu_request = "150m";
            mem_request = "";
            cpu_limit = "200m";
            mem_limit = "1Gi";
          }
          ∷ record {
            namespace_name = "fixtures";
            cpu_request = "150m";
            mem_request = "";
            cpu_limit = "200m";
            mem_limit = "1Gi";
          }
          ∷ [];
      applied = true;
    };
  }),
  none,
)
unfolding convert_to lookup
doubled = refl

convert_to-eq_example : convert_to old_version (limiter zero_limiter) ≡ (
  limiter (record zero_limiter {
    spec = record { quotas = converted old_version.spec; applied = true };
    object_meta = record { name = "rl"; finalizers = []; deletion_timestamp = none };
  }),
  none,
)
convert_to-eq_example = convert_to-eq old_version zero_limiter

convert_to-convert_from_example :
    convert_to (convert_from old_version (limiter new_version)).0 (limiter zero_limiter) ≡ (
      limiter (record zero_limiter {
        spec = record {
          quotas =
              levelled web_quota
                (record web_quota { namespace_name = "web"; cpu_limit = "3" } ∷ []);
          applied = true;
        };
        object_meta = record { name = "rl"; finalizers = []; deletion_timestamp = none };
      }),
      none,
    )
convert_to-convert_from_example = convert_to-convert_from new_version zero_limiter old_version refl

convert_from-convert_to_example :
    let (back, err) = convert_from old_version (convert_to old_version (limiter zero_limiter)).0 in
    (err ≡ none)
    × (back.spec.applied ≡ true)
    × (back.spec.targets ≡ "" ∷ "" ∷ "default" ∷ "fixtures" ∷ [])
    × ((ns : String) → quota_of back.spec.types ns ≡ quota_of old_version.spec.types ns)
convert_from-convert_to_example = convert_from-convert_to old_version old_version zero_limiter refl

length-repeated_example :
    length (repeated old_version zero_limiter 5 new_version).spec.quotas ≡ 2 ^ 5 * 2
length-repeated_example =
    length-repeated old_version zero_limiter 5 new_version web_quota
      (record web_quota { namespace_name = "web"; cpu_limit = "3" } ∷ []) refl
