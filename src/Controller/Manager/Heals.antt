-- ===== src/Controller/Manager/Heals.antt =====
-- A resource quota that somebody deletes is restored.
use resourcelimiter.Prelude.{
  String, ◌+◌, ◌≤◌, ◌≡◌, sym, subst, true, Option, none, some, List, [], ◌∷◌, inl, inr, ◌==◌,
  eq_iff, Bool-cases, arith,
}
use resourcelimiter.Api.V1beta2.{ResourceLimiter, ResourceLimiterQuota}
use resourcelimiter.Controller.Platform.{Quantities, Client}
use resourcelimiter.Controller.Platform.View.{View, put_hard, IsLawful}
use resourcelimiter.Controller.Platform.Kept.{Confined-put_hard}
use resourcelimiter.Controller.Reconcile.{is_ignored, quota_key}
use resourcelimiter.Controller.Reconcile.Targets.{
  Apart, Distinct, one_if_none, missing, missing-kept, Blocked, not-Blocked, missing-Served,
}
use resourcelimiter.Controller.Entry.Pass.{IsActive}
use resourcelimiter.Controller.Entry.Converges.{IsOpen, IsConverged}
use resourcelimiter.Controller.Manager.{Event, deleted, update_func, Runtime, Manager, rounds}
use resourcelimiter.Controller.Manager.Watch.{Has, deletion_of, request, IsWatched, IsRuntime}
use resourcelimiter.Controller.Manager.Queue.{deliver-told}
use resourcelimiter.Controller.Manager.Converges.{Lives, IsSettled, rounds-IsSettled}

module _ {Quantity : Type 0} (ns : String) (v : View Quantity) where
  abbrev w : View Quantity
  w = put_hard (quota_key ns) none v

  one_at_most : {X : Type 0} (o : Option X) → one_if_none o ≤ 1
  one_at_most none = omega arith
  one_at_most (some x) = omega arith

  missing-here :
      (q : ResourceLimiterQuota) (qs : List ResourceLimiterQuota)
      → (ns == q.namespace_name) ≡ true
      → Apart q.namespace_name qs
      → missing w qs ≡ missing v qs
  missing-here q qs e apart =
      missing-kept q.namespace_name v w qs apart
        (Confined-put_hard (quota_key ns) none v ((eq_iff ns q.namespace_name).0 e))

  -- At most one more resource quota is missing.
  missing-put_hard :
      (qs : List ResourceLimiterQuota) → Distinct qs → missing w qs ≤ missing v qs + 1
  missing-put_hard [] d = omega arith
  missing-put_hard (q ∷ qs) (apart, d) =
      let ih = missing-put_hard qs d in
      elim (Bool-cases (is_ignored q.namespace_name)) [
        | inl i ↦ rw i (omega (arith, ih))
        | inr i ↦ elim (Bool-cases (ns == q.namespace_name)) [
          | inl e ↦ rw i (
              omega (
                arith,
                missing-here q qs e apart,
                one_at_most (w.quotas (quota_key q.namespace_name)),
              ))
          | inr e ↦ rw (i, e) (omega (arith, ih))
        ]
      ]

module _ (Q : Quantities) (ns : String) (v : View Q.Quantity) where
  Blocked-put_hard :
      (qs : List ResourceLimiterQuota)
      → Blocked Q (put_hard (quota_key ns) none v) qs
      → Blocked Q v qs
  Blocked-put_hard [] b = b
  Blocked-put_hard (q ∷ qs) (inl o) = inl o
  Blocked-put_hard (q ∷ qs) (inr b) = inr (Blocked-put_hard qs b)

module _ (Q : Quantities) (C : Client Q.Quantity) (L : IsLawful C ⊥) (rl : ResourceLimiter)
    (active : IsActive C (request rl.object_meta.name) rl) (take : C.State → List Event × C.State)
    (watched : IsWatched C L rl.object_meta.name take) (R : Runtime) (runs : IsRuntime R) where
  open Q use {Quantity}
  open C use {State}
  open L use {view}

  abbrev Settled : Manager R State → Type 0
  Settled = IsSettled Q C L rl active take watched R runs

  robbed-IsOpen :
      (ns : String) (v : View Quantity)
      → IsConverged Q C L (request rl.object_meta.name) rl active v
      → IsOpen Q C L (request rl.object_meta.name) rl active (put_hard (quota_key ns) none v)
  robbed-IsOpen ns v c = record {
    status = c.status;
    stored = c.stored;
    unblocked =
        λ b. not-Blocked Q v rl.spec.quotas c.served (Blocked-put_hard Q ns v rl.spec.quotas b);
  }

  robbed-missing :
      (ns : String) (v : View Quantity)
      → IsConverged Q C L (request rl.object_meta.name) rl active v
      → missing (put_hard (quota_key ns) none v) rl.spec.quotas ≤ 1
  robbed-missing ns v c = omega (
    arith,
    missing-put_hard ns v rl.spec.quotas active.distinct,
    missing-Served Q v rl.spec.quotas c.served,
  )

  -- With a client that does not fail, informers and a controller-runtime that behave as documented,
  -- and one resource limiter in the cluster, which is applied, has its finalizer and is not being
  -- deleted, and whose quotas name no namespace twice: if every quota of the spec that is not
  -- ignored is enforced and no request waits, and then the resource quota of some namespace is
  -- deleted and the event of it is pending, then after two rounds of the worker this holds again:
  -- every quota of the spec that is not ignored is enforced, the status is "ready" with a line for
  -- each, and no request waits.
  pub deletion-IsSettled :
      (ns : String) (m : Manager R State) (t : State)
      → Settled m
      → view t ≡ put_hard (quota_key ns) none (view m.cluster)
      → Has (deletion_of (some rl.object_meta.name)) (watched.pending t)
      → Lives Settled (rounds R Q C take 2 (record { cluster = t; queue = m.queue }))
  deletion-IsSettled ns m t (c, empty) gone told =
      rounds-IsSettled Q C L rl active take watched R runs 1
        (record { cluster = t; queue = m.queue })
        (subst (IsOpen Q C L (request rl.object_meta.name) rl active) (sym gone)
          (robbed-IsOpen ns (view m.cluster) c))
        (deliver-told R runs rl.object_meta.name deleted (watched.pending t) m.queue
          (runs.deleted_law update_func) (watched.sole t) (inl empty) told)
        (subst (λ v. missing v rl.spec.quotas ≤ 1) (sym gone)
          (robbed-missing ns (view m.cluster) c))
