-- ===== src/Webhook/Patch.antt =====
-- The patches of pkg/cmd/webhook.go: what a mutation adds to a resource limiter.

pub mod Laws
use resourcelimiter.Prelude.{
  String, Bool, true, false, ◌||◌, ◌&&◌, Option, none, some, List, [], ◌∷◌, ◌++◌, is_empty, Map,
  lookup, insert, ◌==◌, if◌then◌else◌,
}
use resourcelimiter.Api.Constants.{
  retrain_type_limits_cpu, retrain_type_limits_memory, retrain_type_requests_cpu,
  retrain_type_requests_memory,
}
use resourcelimiter.Api.V1beta1
use resourcelimiter.Api.V1beta2
use resourcelimiter.Api.V1beta2.{ResourceLimiterQuota}
use resourcelimiter.Webhook.Admission.{
  PatchOperation, types_value, targets_value, target_value, quotas_value, quota_value,
}

unfoldable pub is_missing : {V : Type 0} → Option V → Bool
is_missing none = true
is_missing (some v) = false

-- The types, and the targets, have to be patched.
unfoldable pub mutation_required_v1beta1 : V1beta1.ResourceLimiterSpec → Bool × Bool
unfolding is_missing
mutation_required_v1beta1 spec = (
  is_empty spec.types
      || is_missing (lookup retrain_type_limits_cpu spec.types)
      || is_missing (lookup retrain_type_limits_memory spec.types)
      || is_missing (lookup retrain_type_requests_cpu spec.types)
      || is_missing (lookup retrain_type_requests_memory spec.types),
  is_empty spec.targets,
)

abbrev pub update_types_v1beta1 : Map String → List PatchOperation
update_types_v1beta1 added =
    record { op = "add"; path = "/spec/types"; value = types_value added } ∷ []

-- The loop over the added targets; an empty `target` is replaced by an empty slice.
unfoldable pub update_targets_v1beta1 : List String → List String → List PatchOperation
update_targets_v1beta1 present [] = []
update_targets_v1beta1 present (item ∷ added) =
    (if is_empty present
      then record { op = "add"; path = "/spec/targets"; value = targets_value (item ∷ []) }
      else record { op = "add"; path = "/spec/targets/-"; value = target_value item })
    ∷ update_targets_v1beta1 (if is_empty present then [] else present) added

-- The operations that `createPatchV1beta1` encodes.
unfoldable pub create_patch_v1beta1 :
    V1beta1.ResourceLimiter → V1beta1.ResourceLimiter → List PatchOperation
unfolding mutation_required_v1beta1 update_targets_v1beta1
create_patch_v1beta1 rl desired =
    let (required_types, required_targets) = mutation_required_v1beta1 rl.spec in
    (if required_types then update_types_v1beta1 desired.spec.types else [])
    ++ (if required_targets
        then update_targets_v1beta1 rl.spec.targets desired.spec.targets
        else [])

incomplete : ResourceLimiterQuota → Bool
incomplete v = v.cpu_limit == "" || v.cpu_request == "" || v.mem_limit == "" || v.mem_request == ""

require_incomplete : List ResourceLimiterQuota → Map Bool → Map Bool
require_incomplete [] required = required
require_incomplete (v ∷ quotas) required =
    require_incomplete quotas
      (if incomplete v then insert v.namespace_name true required else required)

-- The namespaces whose quotas have to be patched.
unfoldable pub mutation_required_v1beta2 : V1beta2.ResourceLimiter → Map Bool
unfolding require_incomplete incomplete
mutation_required_v1beta2 rl =
    if is_empty rl.spec.quotas then ("default", true) ∷ [] else require_incomplete rl.spec.quotas []

unfoldable pub update_quotas_v1beta2 :
    List ResourceLimiterQuota → List ResourceLimiterQuota → List PatchOperation
update_quotas_v1beta2 present [] = []
update_quotas_v1beta2 present (item ∷ added) =
    (if is_empty present
      then record { op = "add"; path = "/spec/targets"; value = quotas_value (item ∷ []) }
      else record { op = "add"; path = "/spec/targets/-"; value = quota_value item })
    ∷ update_quotas_v1beta2 (if is_empty present then [] else present) added

-- The values that a quota is given.
abbrev pub default_quota : String → ResourceLimiterQuota
default_quota ns = record {
  namespace_name = ns;
  cpu_request = "1";
  mem_request = "150Mi";
  cpu_limit = "2";
  mem_limit = "200Mi";
}

-- The loop over the desired quotas, for one required namespace.
unfoldable pub patch_for :
    List ResourceLimiterQuota → String → Bool → List ResourceLimiterQuota → List PatchOperation
patch_for present k v [] = []
patch_for present k v (q ∷ desired) =
    (if v && k == q.namespace_name
      then update_quotas_v1beta2 present (default_quota q.namespace_name ∷ [])
      else [])
    ++ patch_for present k v desired

-- The loop over the required namespaces.
unfoldable pub patch_required :
    List ResourceLimiterQuota → Map Bool → List ResourceLimiterQuota → List PatchOperation
patch_required present [] desired = []
patch_required present ((k, v) ∷ required) desired =
    patch_for present k v desired ++ patch_required present required desired

-- The operations that `createPatchV1beta2` encodes. It empties the quotas of `rl` first.
unfoldable pub create_patch_v1beta2 :
    V1beta2.ResourceLimiter → V1beta2.ResourceLimiter → List PatchOperation
unfolding mutation_required_v1beta2 patch_required patch_for update_quotas_v1beta2
create_patch_v1beta2 rl desired =
    let emptied : V1beta2.ResourceLimiter = record rl { spec = record rl.spec { quotas = [] } } in
    patch_required emptied.spec.quotas (mutation_required_v1beta2 emptied) desired.spec.quotas
