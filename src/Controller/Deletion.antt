-- ===== src/Controller/Deletion.antt =====
-- `reconcileDelete` of controllers/resourcelimiter_controller.go. Logging is left out.
pub mod Labels
pub mod Success
pub mod Complete
pub mod Stuck
pub mod Orphans
pub mod Untouched
use resourcelimiter.Prelude.{String, ◌<>◌, ◌||◌, List, [], ◌∷◌, Map, erase, ◌==◌, if◌then◌else◌}
use resourcelimiter.Api.Constants.{
  mutate_namespace_label, validate_namespace_label, default_finalizer, stopped,
}
use resourcelimiter.Api.V1beta2.{ResourceLimiter, ResourceLimiterQuota}
use resourcelimiter.Controller.Exec.{
  Error, not_found, failure, Exec, pure, raise, handle, ◌>>=◌, ◌>>◌,
}
use resourcelimiter.Controller.Platform.{Client, named}
use resourcelimiter.Controller.Reconcile.{quota_key}

-- `for k := range labels { if k == … || k == … { delete(copy, k) } }`
unfoldable pub strip_labels : Map String → Map String → Map String
strip_labels [] copy = copy
strip_labels ((k, _) ∷ labels) copy =
    strip_labels labels
      (if k == mutate_namespace_label || k == validate_namespace_label then erase k copy else copy)

unfoldable pub remove_labels : Map String → Map String
unfolding strip_labels
remove_labels labels = strip_labels labels labels

module _ {Quantity : Type 0} (C : Client Quantity) where
  open C use {
    State, get_namespace, update_namespace, get_quota, delete_quota, patch_limiter,
    contains_finalizer, remove_finalizer,
  }

  -- What a round does for a namespace that exists.
  pub release_namespace : String → Exec State (Unit {0})
  release_namespace ns = do
    resource_quota ← get_quota (quota_key ns)
    delete_quota resource_quota
    namespace ← get_namespace (named ns ns)
    update_namespace (record namespace { labels = remove_labels namespace.labels })

  skip_if : Error → Exec State (Unit {0})
  skip_if not_found = pure tt
  skip_if (failure m) = raise (failure m)

  -- One round of the loop over the quotas.
  pub release_quota : ResourceLimiterQuota → Exec State (Unit {0})
  unfolding skip_if
  release_quota quota =
      handle (get_namespace (named "" quota.namespace_name))
        (λ namespace. release_namespace quota.namespace_name) skip_if

  pub release_loop : List ResourceLimiterQuota → Exec State (Unit {0})
  release_loop [] = pure tt
  release_loop (quota ∷ quotas) = release_quota quota >> release_loop quotas

  abbrev pub without_finalizer : ResourceLimiter → ResourceLimiter
  without_finalizer rl = record rl {
    object_meta = record rl.object_meta {
      finalizers = remove_finalizer rl.object_meta.finalizers default_finalizer;
    };
  }

  -- The patch is taken against a copy of its own.
  unfoldable pub reconcile_delete : ResourceLimiter → Exec State (Unit {0})
  unfolding release_loop release_quota release_namespace remove_labels
  reconcile_delete rl =
      if contains_finalizer rl.object_meta.finalizers default_finalizer
      then (do
        if rl.status.state == stopped then pure tt else release_loop rl.spec.quotas
        patch_limiter rl (without_finalizer rl))
      else raise
          (failure ("no finalizer found on " <> rl.object_meta.name <> " resourcelimiter CR"))
