-- ===== src/ConversionServer/Objects/Encoding.antt =====
-- The JSON encoding of the two specs by the tags of their structs, api/v1beta1/resourcelimiter_types.go
-- and api/v1beta2/resourcelimiter_types.go.
use resourcelimiter.Prelude.{
  String, ◌≡◌, Bool, true, false, ◌&&◌, not, List, [], ◌∷◌, Map, All, is_empty, ◌==◌, if◌then◌else◌,
}
use resourcelimiter.Api.V1beta1
use resourcelimiter.Api.V1beta2
use resourcelimiter.Api.V1beta2.{ResourceLimiterQuota}
use resourcelimiter.ConversionServer.Json.{
  Value, text, boolean, array, object, Items, done, item, Fields, end, field,
}

-- A field with the tag `omitempty`.
abbrev pub omit_if : Bool → String → Value → Fields → Fields
omit_if empty name v fields = if empty then fields else field name v fields

abbrev pub encode_targets : List String → Items
encode_targets [] = done
encode_targets (target ∷ targets) = item (text target) (encode_targets targets)

abbrev pub encode_types : Map String → Fields
encode_types [] = end
encode_types ((k, v) ∷ types) = field k (text v) (encode_types types)

abbrev pub encode_quota : ResourceLimiterQuota → Value
encode_quota q = object (
    field "name" (text q.namespace_name) (
      omit_if (q.cpu_request == "") "cpu_requests" (text q.cpu_request) (
        omit_if (q.mem_request == "") "mem_requests" (text q.mem_request) (
          omit_if (q.cpu_limit == "") "cpu_limits" (text q.cpu_limit)
            (omit_if (q.mem_limit == "") "mem_limits" (text q.mem_limit) end)))))

abbrev pub encode_quotas : List ResourceLimiterQuota → Items
encode_quotas [] = done
encode_quotas (q ∷ quotas) = item (encode_quota q) (encode_quotas quotas)

unfoldable pub encode_v1beta1 : V1beta1.ResourceLimiterSpec → Fields
encode_v1beta1 spec =
    omit_if (is_empty spec.targets) "targets" (array (encode_targets spec.targets)) (
      omit_if (is_empty spec.types) "types" (object (encode_types spec.types))
        (omit_if (not spec.applied) "applied" (boolean spec.applied) end))

unfoldable pub encode_v1beta2 : V1beta2.ResourceLimiterSpec → Fields
encode_v1beta2 spec =
    omit_if (is_empty spec.quotas) "targets" (array (encode_quotas spec.quotas))
      (omit_if (not spec.applied) "applied" (boolean spec.applied) end)

-- Nothing that `doConversion` looks up is left out.
abbrev pub is_complete_v1beta1 : V1beta1.ResourceLimiterSpec → Bool
is_complete_v1beta1 spec =
    not (is_empty spec.targets) && (not (is_empty spec.types) && spec.applied)

abbrev pub is_complete_quota : ResourceLimiterQuota → Bool
is_complete_quota q =
    not (q.cpu_request == "")
    && (not (q.cpu_limit == "") && (not (q.mem_request == "") && not (q.mem_limit == "")))

abbrev pub all_complete : List ResourceLimiterQuota → Bool
all_complete [] = true
all_complete (q ∷ quotas) = is_complete_quota q && all_complete quotas

abbrev pub is_complete_v1beta2 : V1beta2.ResourceLimiterSpec → Bool
is_complete_v1beta2 spec = not (is_empty spec.quotas) && (all_complete spec.quotas && spec.applied)

-- No key stands twice: what an association list is that stands for a map.
abbrev pub IsFree : String → Map String → Type 0
IsFree key = All (λ entry. (key == entry.0) ≡ false)

abbrev pub IsMap : Map String → Type 0
IsMap [] = Unit
IsMap ((k, v) ∷ types) = All (λ entry. (entry.0 == k) ≡ false) types × IsMap types
