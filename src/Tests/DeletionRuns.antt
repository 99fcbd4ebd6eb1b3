-- ===== src/Tests/DeletionRuns.antt =====
-- The deletion and the withdrawal on a small cluster.
use resourcelimiter.Controller.Deletion.Orphans.{deleted, IsOrphaned, reconcile-IsOrphaned}
use resourcelimiter.Controller.Reconcile.Targets.{Blocked}
use resourcelimiter.Prelude.{
  false, String, ◌⊎◌, ◌≡◌, refl, true, none, some, [], ◌∷◌, ◌==◌, inl, inr, eq_iff, arith,
  if◌then◌else◌,
}
use resourcelimiter.Api.Constants.{default_finalizer}
use resourcelimiter.Api.V1beta2.{ResourceLimiter}
use resourcelimiter.Controller.Exec.{Post, ◌>>◌}
use resourcelimiter.Controller.Platform.{named}
use resourcelimiter.Controller.Platform.View.{View, put_limiter}
use resourcelimiter.Controller.Reconcile.{reconcile_loop, reconcile}
use resourcelimiter.Controller.Reconcile.Results.{Stopped}
use resourcelimiter.Controller.Reconcile.Withdrawal.{Withdrew, reconcile_loop-Withdrew}
use resourcelimiter.Controller.Deletion.{reconcile_delete}
use resourcelimiter.Controller.Deletion.Stuck.{IsStuck, reconcile_delete-IsStuck}
use resourcelimiter.Controller.Deletion.Complete.{IsDeleted, reconcile_delete-IsDeleted}
use resourcelimiter.Controller.Entry.{ensure_finalizer}
use resourcelimiter.Controller.Entry.Unregistered.{ensure_finalizer-same}
use resourcelimiter.Tests.Memory.{texts, memory, memory_lawful}
use resourcelimiter.Tests.ControllerRuns.{quota_for, limiter}

abbrev deleted_limiter : ResourceLimiter
deleted_limiter = record {
  type_meta = record { kind = "ResourceLimiter"; api_version = "" };
  object_meta = record {
    name = "rl";
    finalizers = default_finalizer ∷ [];
    deletion_timestamp = some "now";
  };
  spec = record { quotas = quota_for "web" ∷ quota_for "gone" ∷ []; applied = true };
  status = record { state = "ready"; quotas = [] };
}

abbrev served_cluster : View String
served_cluster = record {
  namespaces = λ n.
      if n == "web"
      then some (("resourcelimiter-mutate", "enabled") ∷ ("team", "a") ∷ [])
      else none;
  quotas = λ k. if k.namespace == "web" then some [] else none;
  limiters = λ n. if n == "rl" then some deleted_limiter else none;
}

reconcile_delete-IsDeleted_example :
    Post
      (λ _ t. IsDeleted texts memory memory_lawful deleted_limiter refl served_cluster t)
      (λ _ _. ⊥)
      (reconcile_delete memory deleted_limiter served_cluster)
reconcile_delete-IsDeleted_example =
    reconcile_delete-IsDeleted texts memory memory_lawful deleted_limiter refl served_cluster refl
      refl ((ground (arith, eq_iff "gone" "web"), tt), (tt, tt)) (inr ([], refl), (inl refl, tt))

-- The same limiter with a quota for kube-system, for which the reconciliation creates nothing.
abbrev stuck_limiter : ResourceLimiter
stuck_limiter = record deleted_limiter {
  spec = record { quotas = quota_for "web" ∷ quota_for "kube-system" ∷ []; applied = true };
}

abbrev stuck_cluster : View String
stuck_cluster = record served_cluster {
  namespaces = λ n. some [];
  limiters = λ n. if n == "rl" then some stuck_limiter else none;
}

stuck_cluster-IsStuck : IsStuck "kube-system" stuck_cluster.limiters stuck_cluster
stuck_cluster-IsStuck = record { labels = []; exists = refl; lost = refl; kept = refl }

reconcile_delete-IsStuck_example :
    Post
      (λ _ t. ⊥)
      (λ _ t. IsStuck "kube-system" stuck_cluster.limiters t)
      (reconcile_delete memory stuck_limiter stuck_cluster)
reconcile_delete-IsStuck_example =
    reconcile_delete-IsStuck memory memory_lawful "kube-system" stuck_cluster.limiters stuck_limiter
      stuck_cluster refl (inr (inl refl)) stuck_cluster-IsStuck

abbrev new_limiter : ResourceLimiter
new_limiter = record deleted_limiter {
  object_meta = record { name = "rl"; finalizers = []; deletion_timestamp = none };
}

abbrev new_cluster : View String
new_cluster = record served_cluster { limiters = λ n. if n == "rl" then some new_limiter else none }

ensure_finalizer-same_example :
    Post
      (λ r t. (t ≡ new_cluster) × (r ≡ new_limiter))
      (λ _ t. t ≡ new_cluster)
      (ensure_finalizer texts memory (named "" "rl") new_limiter new_cluster)
ensure_finalizer-same_example =
    ensure_finalizer-same texts memory memory_lawful (named "" "rl") new_limiter refl new_cluster
      refl refl

abbrev stopped_limiter : ResourceLimiter
stopped_limiter = record new_limiter {
  spec = record { quotas = quota_for "web" ∷ quota_for "kube-system" ∷ []; applied = false };
}

abbrev stopped_cluster : View String
stopped_cluster = record served_cluster {
  limiters = λ n. if n == "rl" then some stopped_limiter else none;
}

reconcile_loop-Withdrew_example :
    Post
      (λ _ t. Withdrew "rl" stopped_limiter stopped_limiter.spec.quotas stopped_cluster t)
      (λ _ t. Stopped texts "rl" stopped_limiter ⊥ stopped_limiter.spec.quotas stopped_cluster t)
      (reconcile_loop texts memory stopped_limiter stopped_limiter.spec.quotas [] stopped_cluster)
reconcile_loop-Withdrew_example =
    reconcile_loop-Withdrew texts memory memory_lawful stopped_limiter stopped_limiter refl
      stopped_limiter.spec.quotas [] stopped_cluster ((inl refl, tt), (tt, tt)) refl

abbrev orphan_limiter : ResourceLimiter
orphan_limiter = record limiter { spec = stopped_limiter.spec }

abbrev orphan_cluster : View String
orphan_cluster = record served_cluster {
  limiters = λ n. if n == "rl" then some orphan_limiter else none;
}

abbrev orphan_deleted : ResourceLimiter
orphan_deleted = deleted texts memory memory_lawful orphan_limiter "2022-11-01"

reconcile-IsOrphaned_example :
    Post
      (λ _ u. IsOrphaned texts memory memory_lawful orphan_limiter "2022-11-01" u)
      (λ _ _. ⊥ ⊎ Blocked texts orphan_cluster orphan_limiter.spec.quotas)
      ((reconcile texts memory orphan_limiter >> λ t.
          reconcile_delete memory orphan_deleted (put_limiter "rl" (some orphan_deleted) t))
        orphan_cluster)
reconcile-IsOrphaned_example =
    reconcile-IsOrphaned texts memory memory_lawful orphan_limiter "2022-11-01" refl
      (put_limiter "rl" (some orphan_deleted)) (λ t. refl) orphan_cluster refl
      ((inl refl, tt), (tt, tt)) refl
