-- ===== src/Controller/Entry/Converges.antt =====
-- Requests one after the other: the cluster reaches the state that the spec asks for, and stays.
use resourcelimiter.Prelude.{
  ℕ, zero, suc, ◌≤◌, ◌≡◌, refl, ap, ◌∙◌, some, [], ◌⊎◌, inl, inr, All, arith, eq_refl,
}
use resourcelimiter.Api.Constants.{ready}
use resourcelimiter.Api.V1beta2.{ResourceLimiter, ResourceLimiterStatus}
use resourcelimiter.Controller.Exec.{Exec, pure, ◌>>◌, Post, Post-imp, Post-bind}
use resourcelimiter.Controller.Platform.{Quantities, Client, NamespacedName}
use resourcelimiter.Controller.Platform.View.{View, IsLawful}
use resourcelimiter.Controller.Reconcile.Targets.{
  covered, missing, Served, Blocked, not-Blocked, missing-Served,
}
use resourcelimiter.Controller.Reconcile.Results.{names, Passed, Stopped, Done}
use resourcelimiter.Controller.Entry.{reconcile_request}
use resourcelimiter.Controller.Entry.Pass.{IsActive, reconcile_request-Post}

module _ (Q : Quantities) (C : Client Q.Quantity) where
  -- So many requests in a row, each of which succeeds.
  pub requests : ℕ → NamespacedName → Exec C.State (Unit {0})
  requests zero req = pure tt
  requests (suc n) req = reconcile_request Q C req >> requests n req

module _ (Q : Quantities) (C : Client Q.Quantity) (L : IsLawful C ⊥) where
  open Q use {Quantity}
  open C use {State}
  open L use {view}

  module _ (req : NamespacedName) (rl : ResourceLimiter) (active : IsActive C req rl) where
    abbrev with_status : ResourceLimiterStatus → ResourceLimiter
    with_status status = record rl { status = status }

    -- The cluster holds the limiter, with some status, and nothing blocks its quotas.
    pub record IsOpen (v : View Quantity) : Type 0 where
      pub status : ResourceLimiterStatus
      pub stored : v.limiters req.name ≡ some (with_status status)
      pub unblocked : ¬ Blocked Q v rl.spec.quotas

    -- Each quota of the spec is enforced, and the status is "ready" with a line for each.
    pub record IsConverged (v : View Quantity) : Type 0 where
      pub status : ResourceLimiterStatus
      pub stored : v.limiters req.name ≡ some (with_status status)
      pub state : status.state ≡ ready
      pub lines : names status.quotas ≡ covered rl.spec.quotas
      pub served : All (Served Q v) rl.spec.quotas

    pub IsActive-status : (status : ResourceLimiterStatus) → IsActive C req (with_status status)
    IsActive-status status = record {
      called = active.called;
      registered = active.registered;
      alive = active.alive;
      applied = active.applied;
      distinct = active.distinct;
    }

    IsConverged-Done :
        (status : ResourceLimiterStatus) (v w : View Quantity)
        → Done Q rl.object_meta.name (with_status status) rl.spec.quotas [] v w
        → IsConverged w
    IsConverged-Done status v w d = record {
      status = record { state = ready; quotas = d.lines };
      stored = ap (λ f. f req.name) d.limiters ∙ rw (active.called, eq_refl req.name);
      state = refl;
      lines = d.line_names;
      served = d.served;
    }

    IsConverged-IsOpen : (v : View Quantity) → IsConverged v → IsOpen v
    IsConverged-IsOpen v c = record {
      status = c.status;
      stored = c.stored;
      unblocked = not-Blocked Q v rl.spec.quotas c.served;
    }

    -- What a request makes of an open cluster in which so many resource quotas are missing.
    abbrev pub Closer : ℕ → View Quantity → Type 0
    Closer n w = IsConverged w ⊎ (IsOpen w × (suc (missing w rl.spec.quotas) ≡ n))

    pub request-Closer :
        (s : State)
        → IsOpen (view s)
        → Post
            (λ _ t. Closer (missing (view s) rl.spec.quotas) (view t))
            (λ _ t. ⊥)
            (reconcile_request Q C req s)
    request-Closer s o =
        Post-imp
          (λ _ t.
            Passed Q rl.object_meta.name (with_status o.status) rl.spec.quotas [] (view s) (view t))
          _
          (λ _ t.
            Stopped Q rl.object_meta.name (with_status o.status) ⊥ rl.spec.quotas (view s) (view t))
          _ (reconcile_request Q C req s) (λ _ t. closer t) (λ _ t. refused t)
          (reconcile_request-Post Q C L req (with_status o.status) (IsActive-status o.status) s
            o.stored)
      where
        closer :
            (t : State)
            → Passed Q rl.object_meta.name
                (with_status o.status)
                rl.spec.quotas
                []
                (view s)
                (view t)
            → Closer (missing (view s) rl.spec.quotas) (view t)
        closer t (f, inl d) = inl (IsConverged-Done o.status (view s) (view t) d)
        closer t (f, inr p) = inr (
          record {
            status = o.status;
            stored = ap (λ l. l req.name) p.limiters ∙ o.stored;
            unblocked = λ b. o.unblocked (p.unblocked b);
          },
          p.one_less,
        )

        refused :
            (t : State)
            → Stopped Q rl.object_meta.name
                (with_status o.status)
                ⊥
                rl.spec.quotas
                (view s)
                (view t)
            → ⊥
        refused t (f, inl x) = x
        refused t (f, inr b) = o.unblocked b

    -- A request on a converged cluster leaves it so.
    pub request-IsConverged :
        (s : State)
        → IsConverged (view s)
        → Post (λ _ t. IsConverged (view t)) (λ _ t. ⊥) (reconcile_request Q C req s)
    request-IsConverged s c =
        Post-imp (λ _ t. Closer (missing (view s) rl.spec.quotas) (view t)) _ (λ _ t. ⊥) (λ _ t. ⊥)
          (reconcile_request Q C req s)
          (λ _ t k. elim k [
            | inl d ↦ d
            | inr (o, e) ↦
                absurd (omega (arith, e, missing-Served Q (view s) rl.spec.quotas c.served))
          ])
          (λ _ t x. x) (request-Closer s (IsConverged-IsOpen (view s) c))

    requests-keep :
        (n : ℕ) (s : State)
        → IsConverged (view s)
        → Post (λ _ t. IsConverged (view t)) (λ _ t. ⊥) (requests Q C n req s)
    unfolding requests
    requests-keep zero s c = c
    requests-keep (suc n) s c =
        Post-bind (λ _ t. IsConverged (view t)) _ _ (reconcile_request Q C req)
          (λ _. requests Q C n req) s (request-IsConverged s c) (λ _ t d. requests-keep n t d)

    -- With a client that does not fail, a limiter that is applied, has its finalizer and is not
    -- being deleted, whose quotas name no namespace twice, and for each quota that is not ignored
    -- the namespace exists and the values parse: once more requests have run than resource quotas
    -- were missing, every request has succeeded, every quota of the spec that is not ignored is
    -- enforced, and the status is "ready" with a line for each.
    pub requests-IsConverged :
        (n : ℕ) (s : State)
        → IsOpen (view s)
        → missing (view s) rl.spec.quotas ≤ n
        → Post (λ _ t. IsConverged (view t)) (λ _ t. ⊥) (requests Q C (suc n) req s)
    unfolding requests
    requests-IsConverged zero s o enough =
        Post-bind (λ _ t. Closer (missing (view s) rl.spec.quotas) (view t)) _ _
          (reconcile_request Q C req) (λ _. requests Q C zero req) s (request-Closer s o)
          (λ _ t k. elim k [
            | inl c ↦ requests-keep zero t c
            | inr (o', e) ↦ absurd (omega (arith, e, enough))
          ])
    requests-IsConverged (suc n) s o enough =
        Post-bind (λ _ t. Closer (missing (view s) rl.spec.quotas) (view t)) _ _
          (reconcile_request Q C req) (λ _. requests Q C (suc n) req) s (request-Closer s o)
          (λ _ t k. elim k [
            | inl c ↦ requests-keep (suc n) t c
            | inr (o', e) ↦ requests-IsConverged n t o' (omega (arith, e, enough))
          ])
