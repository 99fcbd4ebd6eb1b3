-- ===== src/Controller/Entry/Announces.antt =====
-- A request that creates a resource quota for its limiter tells so.
use resourcelimiter.Prelude.{◌≡◌, sym, ◌∙◌, subst, some, []}
use mathlib.Core.Option.{some-injective}
use resourcelimiter.Api.V1beta2.{ResourceLimiter}
use resourcelimiter.Controller.Exec.{ok, handle, ◌>>=◌, Outcome, Post, Post-imp, Post-bind}
use resourcelimiter.Controller.Platform.{Quantities, Client, ResourceQuota, NamespacedName}
use resourcelimiter.Controller.Platform.View.{View, ReadFault, IsLawful}
use resourcelimiter.Controller.Reconcile.{reconcile}
use resourcelimiter.Controller.Reconcile.Announces.{Anything, Announces, reconcile_loop-Announces}
use resourcelimiter.Controller.Entry.{ensure_finalizer, dispatch, reconcile_request}
use resourcelimiter.Controller.Entry.Pass.{IsActive}

module _ (Q : Quantities) (C : Client Q.Quantity) {Flaky : Type 0} (L : IsLawful C Flaky)
    (req : NamespacedName) (rl : ResourceLimiter) (active : IsActive C req rl)
    (Told : C.State → Type 0)
    (owner_law : (q r : ResourceQuota Q.Quantity)
      → C.set_controller_reference rl q ≡ ok r
      → r.owner ≡ some rl.object_meta.name)
    (creation_law : (q : ResourceQuota Q.Quantity) (s : C.State)
      → q.owner ≡ some rl.object_meta.name
      → Post (λ _ t. Told t) (λ _ _. Unit {0}) (C.create_quota q s)) where
  open Q use {Quantity}
  open C use {State}
  open L use {view}

  abbrev Tidings : View Quantity → Outcome (Unit {0}) × State → Type 0
  Tidings v =
      Post (λ _ t. Announces Q C L rl Told owner_law creation_law v rl.spec.quotas t) Anything

  dispatch-Tidings :
      (t : State) → Tidings (view t) (dispatch Q C rl.object_meta.deletion_timestamp rl t)
  unfolding reconcile
  dispatch-Tidings t =
      subst (λ d. Tidings (view t) (dispatch Q C d rl t)) (sym active.alive)
        (reconcile_loop-Announces Q C L rl Told owner_law creation_law active.applied rl.spec.quotas
          [] t active.distinct)

  found-Tidings :
      (v : View Quantity) (t : State)
      → view t ≡ v
      → Tidings v
          ((ensure_finalizer Q C req rl >>= λ r. dispatch Q C r.object_meta.deletion_timestamp r) t)
  unfolding ensure_finalizer handle
  found-Tidings v t same = rw active.registered (
      subst (λ x. Tidings x (dispatch Q C rl.object_meta.deletion_timestamp rl t)) same
        (dispatch-Tidings t))

  -- A request that leaves resource quotas missing has created one.
  pub reconcile_request-Announces :
      (s : State)
      → (view s).limiters req.name ≡ some rl
      → Tidings (view s) (reconcile_request Q C req s)
  unfolding reconcile_request
  reconcile_request-Announces s stored =
      Post-bind (λ r t. (view t ≡ view s) × ((view s).limiters req.name ≡ some r)) _ Anything
        (C.get_limiter req) _ s
        (Post-imp _ _ (λ e t. ReadFault Flaky (view s) ((view s).limiters req.name) (view t) e)
          Anything (C.get_limiter req s) (λ r t h. h) (λ _ _ _. tt) (L.get_limiter_law req s))
        (λ r t (same, read).
          subst
            (λ r'. Tidings (view s) (
              (ensure_finalizer Q C req r' >>= λ x. dispatch Q C x.object_meta.deletion_timestamp x)
                t))
            (some-injective rl r (sym stored ∙ read)) (found-Tidings (view s) t same))
