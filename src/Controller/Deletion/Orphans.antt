-- ===== src/Controller/Deletion/Orphans.antt =====
-- The deletion of a limiter that was not applied: its state is "stopped", and the labels stay.
use resourcelimiter.Prelude.{
  String, ◌≡◌, refl, sym, ap, ◌∙◌, subst, true, false, some, List, [], ◌∷◌, ◌⊎◌, inl, inr, All,
  ◌==◌, eq_refl,
}
use resourcelimiter.Api.Constants.{default_finalizer, stopped}
use resourcelimiter.Api.V1beta2.{ResourceLimiter, ResourceLimiterQuota}
use resourcelimiter.Controller.Exec.{Post, Post-imp, Post-bind, handle, ◌>>◌}
use resourcelimiter.Controller.Platform.{Quantities, Client}
use resourcelimiter.Controller.Platform.View.{View, put_limiter, IsLawful}
use resourcelimiter.Controller.Platform.Kept.{WriteFault-reason}
use resourcelimiter.Controller.Reconcile.{is_ignored, quota_key, reconcile_loop, reconcile}
use resourcelimiter.Controller.Reconcile.Targets.{Distinct, Blocked}
use resourcelimiter.Controller.Reconcile.Results.{Stopped}
use resourcelimiter.Controller.Reconcile.Withdrawal.{IsWithdrawn, Withdrew, reconcile_loop-Withdrew}
use resourcelimiter.Controller.Deletion.{reconcile_delete, without_finalizer}
use resourcelimiter.Controller.Deletion.Success.{only_flaky}
use resourcelimiter.Controller.Deletion.Complete.{IsLetGo, IsLetGo-patched_at}

module _ (Q : Quantities) (C : Client Q.Quantity) {Flaky : Type 0} (L : IsLawful C Flaky) where
  open Q use {Quantity}
  open C use {State}
  open L use {view}

  -- The deletion of a limiter in the state "stopped" changes nothing but the limiter.
  reconcile_delete-put_limiter :
      (rl : ResourceLimiter) (s : State)
      → C.contains_finalizer rl.object_meta.finalizers default_finalizer ≡ true
      → (rl.status.state == stopped) ≡ true
      → (view s).limiters rl.object_meta.name ≡ some rl
      → Post
          (λ _ t.
            view t
            ≡ put_limiter rl.object_meta.name (L.patched rl (without_finalizer C rl) rl) (view s))
          (λ _ _. Flaky)
          (reconcile_delete C rl s)
  unfolding reconcile_delete handle
  reconcile_delete-put_limiter rl s held halted stored =
      rw (held, halted)
        (Post-imp _ _ _ _ (C.patch_limiter rl (without_finalizer C rl) s) (λ _ t e. e)
          (λ e t w.
            only_flaky Q C L ((view s).limiters rl.object_meta.name) rl stored
              (WriteFault-reason Flaky (view s) _ _ (view t) e w))
          (L.patch_limiter_law rl (without_finalizer C rl) s rl stored))

  module _ (rl : ResourceLimiter) (when : String) where
    abbrev name : String
    name = rl.object_meta.name

    -- The limiter in the state "stopped", once somebody has asked for its deletion.
    abbrev pub deleted : ResourceLimiter
    deleted = record rl {
      object_meta = record rl.object_meta { deletion_timestamp = some when };
      status = record { state = stopped; quotas = [] };
    }

    -- The limiter is let go, and every namespace of the spec is still marked, without a quota.
    abbrev pub IsOrphaned : View Quantity → Type 0
    IsOrphaned v =
        IsLetGo Q C L (v.limiters name)
        × All (λ q. (is_ignored q.namespace_name ≡ true) ⊎ IsWithdrawn v q) rl.spec.quotas

    IsWithdrawn-after :
        (v w : View Quantity) (qs : List ResourceLimiterQuota)
        → w.namespaces ≡ v.namespaces
        → w.quotas ≡ v.quotas
        → All (λ q. (is_ignored q.namespace_name ≡ true) ⊎ IsWithdrawn v q) qs
        → All (λ q. (is_ignored q.namespace_name ≡ true) ⊎ IsWithdrawn w q) qs
    IsWithdrawn-after v w [] n h a = tt
    IsWithdrawn-after v w (q ∷ qs) n h (inl i, a) = (inl i, IsWithdrawn-after v w qs n h a)
    IsWithdrawn-after v w (q ∷ qs) n h (inr d, a) = (
      inr (record {
        labels = d.labels;
        labelled = ap (λ f. f q.namespace_name) n ∙ d.labelled;
        marked = d.marked;
        gone = ap (λ f. f (quota_key q.namespace_name)) h ∙ d.gone;
      }),
      IsWithdrawn-after v w qs n h a,
    )

    module _ (held : C.contains_finalizer rl.object_meta.finalizers default_finalizer ≡ true)
        (delete : State → State)
        (delete_law : (t : State)
          → view (delete t) ≡ put_limiter name (some deleted) (view t)) where
      let_go_later :
          (t u : State)
          → view u
            ≡ put_limiter name
                (L.patched deleted (without_finalizer C deleted) deleted)
                (view (delete t))
          → All (λ q. (is_ignored q.namespace_name ≡ true) ⊎ IsWithdrawn (view t) q) rl.spec.quotas
          → IsOrphaned (view u)
      let_go_later t u e a = (
        subst (IsLetGo Q C L) (sym (ap (λ v. v.limiters name) e ∙ rw (eq_refl name) refl)) (
            IsLetGo-patched_at Q C L deleted
              (L.patched deleted (without_finalizer C deleted) deleted) held refl),
        IsWithdrawn-after (view t) (view u) rl.spec.quotas
            (ap (λ v. v.namespaces) e ∙ ap (λ v. v.namespaces) (delete_law t))
            (ap (λ v. v.quotas) e ∙ ap (λ v. v.quotas) (delete_law t)) a,
      )

      -- A limiter that the cluster holds, which is not applied, has its finalizer and whose quotas
      -- name no namespace twice, is reconciled, then somebody asks for its deletion, and the
      -- deletion is carried out: this fails only where the client does, or where a namespace is
      -- missing or a quantity is malformed. Otherwise the limiter is gone or left without the
      -- finalizer, and every namespace of its spec that is not ignored still has both labels, with
      -- no resource quota.
      pub reconcile-IsOrphaned :
          (s : State)
          → rl.spec.applied ≡ false
          → Distinct rl.spec.quotas
          → (view s).limiters name ≡ some rl
          → Post
              (λ _ u. IsOrphaned (view u))
              (λ _ _. Flaky ⊎ Blocked Q (view s) rl.spec.quotas)
              ((reconcile Q C rl >> λ t. reconcile_delete C deleted (delete t)) s)
      unfolding reconcile
      reconcile-IsOrphaned s unapplied distinct stored =
          Post-bind (λ _ t. Withdrew name rl rl.spec.quotas (view s) (view t)) _ _
            (reconcile_loop Q C rl rl.spec.quotas []) (λ _ t. reconcile_delete C deleted (delete t))
            s
            (Post-imp _ _ (λ _ t. Stopped Q name rl Flaky rl.spec.quotas (view s) (view t)) _
              (reconcile_loop Q C rl rl.spec.quotas [] s) (λ _ _ d. d) (λ _ _ f. f.1)
              (reconcile_loop-Withdrew Q C L rl rl unapplied rl.spec.quotas [] s distinct stored))
            (λ _ t d.
              Post-imp _ _ (λ _ _. Flaky) _ (reconcile_delete C deleted (delete t))
                (λ _ u e. let_go_later t u e d.withdrawn) (λ _ _ f. inl f)
                (reconcile_delete-put_limiter deleted (delete t) held (eq_refl stopped)
                  (ap (λ v. v.limiters name) (delete_law t) ∙ rw (eq_refl name) refl)))
