-- ===== src/Controller/Reconcile.antt =====
-- The reconciliation of a resource limiter that is not being deleted: `reconcile`, `setHard` and
-- `updateStatus` of controllers/resourcelimiter_controller.go. Logging is left out.
pub mod Spec
pub mod Steps
pub mod Rounds
pub mod Round
pub mod Targets
pub mod Results
pub mod Loop
pub mod Withdrawal
pub mod Converted
pub mod Announces
pub mod Untouched
use resourcelimiter.Prelude.{
  String, ◌<>◌, Bool, true, false, ◌||◌, Option, none, some, List, [], ◌∷◌, ◌++◌, Map, lookup,
  insert, at_key, ◌==◌, if◌then◌else◌,
}
use resourcelimiter.Api.Constants.{
  ignore_kube_system, ignore_kube_public, mutate_namespace_label, validate_namespace_label, ready,
  stopped, retrain_type_limits_cpu, retrain_type_limits_memory, retrain_type_requests_cpu,
  retrain_type_requests_memory,
}
use resourcelimiter.Api.V1beta2.{ResourceLimiter, ResourceLimiterQuota, ResourceLimiterStatus}
use resourcelimiter.Controller.Exec.{
  Error, not_found, failure, Outcome, Exec, pure, raise, panic, lift, handle, ◌>>=◌, ◌>>◌,
}
use resourcelimiter.Controller.Platform.{
  Quantities, Namespace, ResourceQuota, Client, NamespacedName, named,
}

-- The namespaces that the loop skips.
abbrev pub is_ignored : String → Bool
is_ignored ns = ns == ignore_kube_system || ns == ignore_kube_public

abbrev pub quota_name : String → String
quota_name ns = "rl-quota-" <> ns

abbrev pub quota_key : String → NamespacedName
quota_key ns = named ns (quota_name ns)

is_enabled : Option String → Bool
is_enabled none = false
is_enabled (some val) = val == "enabled"

-- `if val, ok := labels[k]; !ok || val != "enabled" { labels[k] = "enabled" }`
enable : String → Map String → Map String
enable k labels = if is_enabled (lookup k labels) then labels else insert k "enabled" labels

unfoldable pub set_labels : Map String → Map String
unfolding enable is_enabled
set_labels labels = enable validate_namespace_label (enable mutate_namespace_label labels)

-- How a round of the loop ends: with the status lines so far, or with `return`.
pub data Flow : Type 0 where
  next : List ResourceLimiterQuota → Flow
  return : Flow

module _ (Q : Quantities) where
  open Q use {Quantity, parse, show, zero_quantity}

  abbrev parsed : {S : Type 0} → Option Quantity → Exec S Quantity
  parsed none = panic
  parsed (some x) = pure x

  -- `k8sresource.MustParse`
  abbrev must_parse : {S : Type 0} → String → Exec S Quantity
  must_parse text = parsed (parse text)

  -- The assignments go to the map that the quota has.
  unfoldable pub set_hard :
      {S : Type 0} → ResourceQuota Quantity → ResourceLimiterQuota → Exec S (ResourceQuota Quantity)
  set_hard resource_quota quota = do
    cpu_limit ← must_parse quota.cpu_limit
    cpu_request ← must_parse quota.cpu_request
    mem_limit ← must_parse quota.mem_limit
    mem_request ← must_parse quota.mem_request
    pure (record resource_quota {
      hard = insert "requests.memory" mem_request (
          insert "limits.memory" mem_limit (
            insert "requests.cpu" cpu_request (insert "limits.cpu" cpu_limit resource_quota.hard)));
    })

  -- The line of the status for a quota that exists: what is used of each limit.
  pub usage_line : ResourceQuota Quantity → ResourceLimiterQuota → ResourceLimiterQuota
  usage_line currl quota = record {
    namespace_name = currl.name;
    cpu_limit =
        show (at_key zero_quantity retrain_type_limits_cpu currl.used) <> "/" <> quota.cpu_limit;
    cpu_request =
        show (at_key zero_quantity retrain_type_requests_cpu currl.used)
        <> "/"
        <> quota.cpu_request;
    mem_limit =
        show (at_key zero_quantity retrain_type_limits_memory currl.used) <> "/" <> quota.mem_limit;
    mem_request =
        show (at_key zero_quantity retrain_type_requests_memory currl.used)
        <> "/"
        <> quota.mem_request;
  }

  module _ (C : Client Quantity) where
    open C use {
      State, get_namespace, update_namespace, get_quota, create_quota, update_quota, delete_quota,
      set_controller_reference,
    }

    -- The quota does not exist. The line that the code appends to the status here is lost, since
    -- it returns after the call.
    pub create_missing : ResourceLimiter → ResourceLimiterQuota → Exec State Flow
    create_missing rl quota = do
      owned ← lift (
          set_controller_reference rl (record {
            namespace = quota.namespace_name;
            name = quota_name quota.namespace_name;
            owner = none;
            hard = [];
            used = [];
          }))
      resource_quota ← set_hard (record owned { hard = [] }) quota
      create_quota resource_quota
      pure return

    pub update_existing :
        ResourceLimiterQuota → List ResourceLimiterQuota → ResourceQuota Quantity → Exec State Flow
    update_existing quota rlquotas found = do
      resource_quota ← set_hard (record found { hard = [] }) quota
      update_quota resource_quota
      pure (next (rlquotas ++ (usage_line found quota ∷ [])))

    create_if : ResourceLimiter → ResourceLimiterQuota → Error → Exec State Flow
    create_if rl quota not_found = create_missing rl quota
    create_if rl quota (failure m) = raise (failure m)

    -- The branch where `Applied` is set.
    pub create_or_update :
        ResourceLimiter → ResourceLimiterQuota → List ResourceLimiterQuota → Exec State Flow
    unfolding create_if
    create_or_update rl quota rlquotas =
        handle (get_quota (quota_key quota.namespace_name)) (update_existing quota rlquotas)
          (create_if rl quota)

    continue_if : List ResourceLimiterQuota → Error → Exec State Flow
    continue_if rlquotas not_found = pure (next rlquotas)
    continue_if rlquotas (failure m) = raise (failure m)

    -- The branch where it is not.
    pub withdraw : ResourceLimiterQuota → List ResourceLimiterQuota → Exec State Flow
    unfolding continue_if
    withdraw quota rlquotas =
        handle (get_quota (quota_key quota.namespace_name))
          (λ resource_quota. do delete_quota resource_quota; pure (next rlquotas))
          (continue_if rlquotas)

    -- The namespace must exist, and gets its labels.
    pub mark_namespace : String → Exec State (Unit {0})
    mark_namespace ns = do
      namespace ← get_namespace (named ns ns)
      update_namespace (record namespace { labels = set_labels namespace.labels })

    -- One round of the loop over the quotas.
    pub reconcile_quota :
        ResourceLimiter → ResourceLimiterQuota → List ResourceLimiterQuota → Exec State Flow
    reconcile_quota rl quota rlquotas =
        if is_ignored quota.namespace_name then pure (next rlquotas) else do
          mark_namespace quota.namespace_name
          if rl.spec.applied then create_or_update rl quota rlquotas else withdraw quota rlquotas

    pub update_status : ResourceLimiter → ResourceLimiterStatus → Exec State (Unit {0})
    update_status rl status =
        C.update_status
          (record rl { status = record { state = status.state; quotas = [] ++ status.quotas } })

    -- What follows the loop.
    pub finish : ResourceLimiter → List ResourceLimiterQuota → Exec State (Unit {0})
    finish rl rlquotas =
        if rl.spec.applied
        then update_status rl (record { state = ready; quotas = rlquotas })
        else update_status rl (record { state = stopped; quotas = [] })

    pub reconcile_loop :
        ResourceLimiter
        → List ResourceLimiterQuota
        → List ResourceLimiterQuota
        → Exec State (Unit {0})
    reconcile_loop rl [] rlquotas = finish rl rlquotas
    reconcile_loop rl (quota ∷ quotas) rlquotas = reconcile_quota rl quota rlquotas >>= λ flow.
        elim flow [ next rlquotas' ↦ reconcile_loop rl quotas rlquotas' | return ↦ pure tt ]

    unfoldable pub reconcile : ResourceLimiter → Exec State (Unit {0})
    unfolding reconcile_loop reconcile_quota mark_namespace create_or_update withdraw create_missing
        update_existing finish update_status set_hard set_labels usage_line
    reconcile rl = reconcile_loop rl rl.spec.quotas []
