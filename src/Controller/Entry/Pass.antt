-- ===== src/Controller/Entry/Pass.antt =====
-- One request for a resource limiter that is applied, has its finalizer and is not being deleted.
use resourcelimiter.Prelude.{◌≡◌, sym, ap, ◌∙◌, subst, true, none, some, [], ◌⊎◌, inl, inr}
use mathlib.Core.Option.{some-injective}
use resourcelimiter.Api.Constants.{default_finalizer}
use resourcelimiter.Api.V1beta2.{ResourceLimiter}
use resourcelimiter.Controller.Exec.{Fault, Outcome, handle, ◌>>=◌, Post, Post-imp, Post-bind}
use resourcelimiter.Controller.Platform.{Quantities, Client, NamespacedName}
use resourcelimiter.Controller.Platform.View.{View, ReadFault, IsLawful}
use resourcelimiter.Controller.Platform.Kept.{ReadFault-same, ReadFault-reason}
use resourcelimiter.Controller.Reconcile.{reconcile}
use resourcelimiter.Controller.Reconcile.Targets.{Distinct}
use resourcelimiter.Controller.Reconcile.Results.{Framed, Framed-refl, Passed, Stopped}
use resourcelimiter.Controller.Reconcile.Loop.{reconcile_loop-Post}
use resourcelimiter.Controller.Entry.{ensure_finalizer, dispatch, reconcile_request}

-- What the limiter must be like for a request to enforce its quotas.
pub record IsActive {Quantity : Type 0} (C : Client Quantity) (req : NamespacedName)
    (rl : ResourceLimiter) : Type 0 where
  pub called : rl.object_meta.name ≡ req.name
  pub registered : C.contains_finalizer rl.object_meta.finalizers default_finalizer ≡ true
  pub alive : rl.object_meta.deletion_timestamp ≡ none
  pub applied : rl.spec.applied ≡ true
  pub distinct : Distinct rl.spec.quotas

module _ (Q : Quantities) (C : Client Q.Quantity) {Flaky : Type 0} (L : IsLawful C Flaky) where
  open Q use {Quantity}
  open C use {State}
  open L use {view}

  module _ (req : NamespacedName) (rl : ResourceLimiter) (active : IsActive C req rl) where
    abbrev Request : View Quantity → Outcome (Unit {0}) × State → Type 0
    Request v =
        Post (λ _ t. Passed Q rl.object_meta.name rl rl.spec.quotas [] v (view t))
          (λ _ t. Stopped Q rl.object_meta.name rl Flaky rl.spec.quotas v (view t))

    dispatch-Post :
        (t : State)
        → (view t).limiters req.name ≡ some rl
        → Request (view t) (dispatch Q C rl.object_meta.deletion_timestamp rl t)
    unfolding reconcile
    dispatch-Post t stored =
        subst (λ d. Request (view t) (dispatch Q C d rl t)) (sym active.alive)
          (reconcile_loop-Post Q C L rl rl active.applied rl.spec.quotas [] t active.distinct
            (ap (view t).limiters active.called ∙ stored))

    found-Post :
        (v : View Quantity) (t : State)
        → view t ≡ v
        → v.limiters req.name ≡ some rl
        → Request v (
            (ensure_finalizer Q C req rl >>= λ r. dispatch Q C r.object_meta.deletion_timestamp r)
              t)
    unfolding ensure_finalizer handle
    found-Post v t same stored = rw active.registered (
        subst (λ x. Request x (dispatch Q C rl.object_meta.deletion_timestamp rl t)) same
          (dispatch-Post t (ap (λ x. x.limiters req.name) same ∙ stored)))

    -- One request for a limiter that the cluster holds, that is applied, has its finalizer and is
    -- not being deleted, and whose quotas name no namespace twice, either finds every resource
    -- quota and leaves every quota that is not ignored enforced and the status "ready" with a line
    -- for each, or creates one missing resource quota and changes no limiter; it fails only where
    -- the client does or where a namespace is missing or a quantity malformed, and namespaces that
    -- the spec does not name are as before in every case.
    pub reconcile_request-Post :
        (s : State)
        → (view s).limiters req.name ≡ some rl
        → Request (view s) (reconcile_request Q C req s)
    unfolding reconcile_request
    reconcile_request-Post s stored =
        Post-bind (λ r t. (view t ≡ view s) × ((view s).limiters req.name ≡ some r)) _ _
          (C.get_limiter req) _ s
          (Post-imp _ _ _ _ (C.get_limiter req s) (λ r t h. h) unread (L.get_limiter_law req s))
          (λ r t (same, read).
            subst
              (λ r'. Request (view s) (
                (ensure_finalizer Q C req r' >>= λ x.
                dispatch Q C x.object_meta.deletion_timestamp x)
                  t))
              (some-injective rl r (sym stored ∙ read)) (found-Post (view s) t same stored))
      where
        unread :
            (e : Fault) (t : State)
            → ReadFault Flaky (view s) ((view s).limiters req.name) (view t) e
            → Stopped Q rl.object_meta.name rl Flaky rl.spec.quotas (view s) (view t)
        unread e t f = (
          subst (Framed rl.spec.quotas (view s))
              (sym (ReadFault-same Flaky (view s) _ (view t) e f))
              (Framed-refl rl.spec.quotas (view s)),
          inl (flaky (ReadFault-reason Flaky (view s) _ (view t) e f)),
        )
          where
            flaky : Flaky ⊎ ((view s).limiters req.name ≡ none) → Flaky
            flaky (inl x) = x
            flaky (inr n) = cc (sym n ∙ stored)
