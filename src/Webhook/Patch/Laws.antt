-- ===== src/Webhook/Patch/Laws.antt =====
-- What the patches of pkg/cmd/webhook.go make of a resource limiter, by the meaning of JSON patches.
use resourcelimiter.Prelude.{
  String, suc, ◌≡◌, ◌≢◌, refl, sym, ◌∙◌, ap, ℕ, Bool, true, false, Option, none, some, List, [],
  ◌∷◌, ◌++◌, map, replicate, is_empty, Map, lookup, ◌==◌, if◌then◌else◌, Bool-cases, inl, inr,
  eq_iff,
}
use mathlib.Core.List.{append-nil}
use resourcelimiter.Api.Constants.{
  retrain_type_limits_cpu, retrain_type_limits_memory, retrain_type_requests_cpu,
  retrain_type_requests_memory,
}
use resourcelimiter.Api.V1beta1
use resourcelimiter.Api.V1beta2
use resourcelimiter.Api.V1beta2.{ResourceLimiterQuota}
use resourcelimiter.Webhook.Admission.{
  PatchOperation, PatchValue, types_value, targets_value, target_value, quotas_value, quota_value,
}
use resourcelimiter.Webhook.Patch.{
  mutation_required_v1beta1, create_patch_v1beta2, default_quota, update_targets_v1beta1,
  mutation_required_v1beta2, update_quotas_v1beta2, patch_for, patch_required,
}
use resourcelimiter.Webhook.Mutate.{desired_v1beta1, desired_v1beta2, desired_quota}

-- RFC 6902 on the member "spec" of a v1beta1 object, which may be missing: `add` sets a member of
-- a value that is there, and appends to a list that is there. An empty list is not encoded, so it is
-- not there. Nothing else has a meaning here.
unfoldable pub add_in :
    String → PatchValue → V1beta1.ResourceLimiterSpec → Option V1beta1.ResourceLimiterSpec
add_in path (types_value m) spec =
    if path == "/spec/types" then some (record spec { types = m }) else none
add_in path (targets_value ts) spec =
    if path == "/spec/targets" then some (record spec { targets = ts }) else none
add_in path (target_value t) spec =
    if is_empty spec.targets
    then none
    else if path == "/spec/targets/-"
    then some (record spec { targets = spec.targets ++ (t ∷ []) })
    else none
add_in path (quotas_value q) spec = none
add_in path (quota_value q) spec = none

-- The paths of all the operations lie below "/spec", so this must be there.
unfoldable pub add_at :
    String → PatchValue → Option V1beta1.ResourceLimiterSpec → Option V1beta1.ResourceLimiterSpec
unfolding add_in
add_at path value none = none
add_at path value (some spec) = add_in path value spec

unfoldable pub apply_patch :
    List PatchOperation
    → Option V1beta1.ResourceLimiterSpec
    → Option (Option V1beta1.ResourceLimiterSpec)
unfolding add_at
apply_patch [] document = some document
apply_patch (operation ∷ patch) document =
    elim (if operation.op == "add" then add_at operation.path operation.value document else none) [
      | none ↦ none
      | some new ↦ apply_patch patch (some new)
    ]

-- What an object without a spec is decoded to.
abbrev pub zero_spec : V1beta1.ResourceLimiterSpec
zero_spec = record { targets = []; types = []; applied = false }

-- All four types are there.
pub record HasTypes (m : Map String) : Type 0 where
  pub limits_cpu : lookup retrain_type_limits_cpu m ≢ none
  pub limits_memory : lookup retrain_type_limits_memory m ≢ none
  pub requests_cpu : lookup retrain_type_requests_cpu m ≢ none
  pub requests_memory : lookup retrain_type_requests_memory m ≢ none

-- The object that a mutation leaves: types that are not all there are replaced together.
abbrev pub filled : V1beta1.ResourceLimiterSpec → V1beta1.ResourceLimiterSpec
filled spec =
    let (required_types, required_targets) = mutation_required_v1beta1 spec in
    record spec {
      types = if required_types then desired_v1beta1.spec.types else spec.types;
      targets = if required_targets then desired_v1beta1.spec.targets else spec.targets;
    }

abbrev spec_of : List String → Map String → Bool → V1beta1.ResourceLimiterSpec
spec_of ts m applied = record { targets = ts; types = m; applied = applied }

abbrev patch_of : Bool → List String → List PatchOperation
patch_of b ts =
    (if b
      then record {
        op = "add";
        path = "/spec/types";
        value = types_value desired_v1beta1.spec.types;
      }
        ∷ []
      else [])
    ++ (if is_empty ts then update_targets_v1beta1 ts desired_v1beta1.spec.targets else [])

abbrev fill : Bool → V1beta1.ResourceLimiterSpec → V1beta1.ResourceLimiterSpec
fill b spec = record spec {
  types = if b then desired_v1beta1.spec.types else spec.types;
  targets = if is_empty spec.targets then desired_v1beta1.spec.targets else spec.targets;
}

-- The operation that `createPatchV1beta2` has for a quota of the namespace "default".
abbrev pub add_default : PatchOperation
add_default = record {
  op = "add";
  path = "/spec/targets";
  value = quotas_value (default_quota "default" ∷ []);
}

-- The number of quotas for a namespace.
unfoldable pub count : String → List ResourceLimiterQuota → ℕ
count ns [] = 0
count ns (q ∷ quotas) = if ns == q.namespace_name then suc (count ns quotas) else count ns quotas

patch_for-eq :
    (quotas : List ResourceLimiterQuota)
    → patch_for [] "default" true (map desired_quota quotas)
      ≡ replicate (count "default" quotas) add_default
unfolding patch_for count update_quotas_v1beta2
patch_for-eq [] = refl
patch_for-eq (q ∷ quotas) = elim (Bool-cases ("default" == q.namespace_name)) [
  | inl e ↦
      rw (e, patch_for-eq quotas)
        (ap
          (λ ns.
            record add_default { value = quotas_value (default_quota ns ∷ []) }
            ∷ replicate (count "default" quotas) add_default)
          (sym ((eq_iff "default" q.namespace_name).0 e)))
  | inr e ↦ rw e (patch_for-eq quotas)
]

-- The patch of a mutated v1beta2 object replaces "/spec/targets", once for every quota of the
-- namespace "default" whatever its values are; the quotas of other namespaces are not looked at.
pub create_patch_v1beta2-eq :
    (rl : V1beta2.ResourceLimiter)
    → create_patch_v1beta2 rl (desired_v1beta2 rl)
      ≡ replicate (count "default" rl.spec.quotas) add_default
unfolding create_patch_v1beta2 mutation_required_v1beta2 patch_required
create_patch_v1beta2-eq rl = append-nil _ ∙ patch_for-eq rl.spec.quotas
