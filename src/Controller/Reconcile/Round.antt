-- ===== src/Controller/Reconcile/Round.antt =====
-- A whole round of the loop for a namespace that is not ignored: labels first, then the quota.
use resourcelimiter.Prelude.{
  String, ◌≡◌, refl, sym, ap, ◌∙◌, subst, Bool, true, false, none, some, List, Map, eq_refl, ◌⊎◌,
  inl, inr, if◌then◌else◌,
}
use resourcelimiter.Api.V1beta2.{ResourceLimiter, ResourceLimiterQuota}
use resourcelimiter.Controller.Exec.{Exec, Post, Post-imp, Post-bind}
use resourcelimiter.Controller.Platform.{Quantities, Client}
use resourcelimiter.Controller.Platform.View.{View, IsLawful}
use resourcelimiter.Controller.Platform.Kept.{
  Confined, Confined-eq, Confined-trans, Confined-put_labels, Confined-put_hard,
}
use resourcelimiter.Controller.Reconcile.{
  Flow, next, is_ignored, set_labels, quota_key, mark_namespace, create_or_update, withdraw,
  reconcile_quota,
}
use resourcelimiter.Controller.Reconcile.Spec.{IsMarked, set_labels-IsMarked, IsEnforced, Obstacle}
use resourcelimiter.Controller.Reconcile.Steps.{
  Failed, Marks, Applies, FailedQuota, mark_namespace-Post,
}
use resourcelimiter.Controller.Reconcile.Rounds.{
  Ends, Withdraws, create_or_update-Post, withdraw-Post,
}

module _ {Quantity : Type 0} {ns : String} {v w : View Quantity} where
  -- A namespace that has just been labelled.
  pub Marks-Confined : Marks ns v w → Confined ns v w
  Marks-Confined m = Confined-eq (Confined-put_labels ns (set_labels m.labels) v refl) m.after

  pub Marks-labelled : (m : Marks ns v w) → w.namespaces ns ≡ some (set_labels m.labels)
  Marks-labelled m = ap (λ x. x.namespaces ns) m.after ∙ rw (eq_refl ns)

  pub Marks-quotas : Marks ns v w → w.quotas ≡ v.quotas
  Marks-quotas m = ap (λ x. x.quotas) m.after

module _ (Q : Quantities) (C : Client Q.Quantity) {Flaky : Type 0} (L : IsLawful C Flaky) where
  open Q use {Quantity}
  open C use {State}
  open L use {view}

  -- The round has enforced the quota.
  pub record Enforces (quota : ResourceLimiterQuota) (v w : View Quantity) : Type 0 where
    pub enforced : IsEnforced Q w quota
    pub confined : Confined quota.namespace_name v w

  Enforces-after :
      (quota : ResourceLimiterQuota) (v u w : View Quantity)
      → Marks quota.namespace_name v u
      → Applies Q C L quota u w
      → Enforces quota v w
  Enforces-after quota v u w m a = record {
    enforced = record {
      labels = set_labels m.labels;
      labelled = ap (λ x. x.namespaces quota.namespace_name) a.limits ∙ Marks-labelled m;
      marked = set_labels-IsMarked m.labels;
      hard = a.hard;
      asked = a.asked;
      limited =
          ap (λ x. x.quotas (quota_key quota.namespace_name)) a.limits
          ∙ rw (eq_refl quota.namespace_name, eq_refl (quota_key quota.namespace_name).name);
    };
    confined = Confined-trans (Marks-Confined m) (
        Confined-eq (Confined-put_hard (quota_key quota.namespace_name) (some a.hard) u refl)
          a.limits);
  }

  FailedQuota-after :
      (quota : ResourceLimiterQuota) (v u w : View Quantity)
      → Marks quota.namespace_name v u
      → FailedQuota Q C L quota u w
      → FailedQuota Q C L quota v w
  FailedQuota-after quota v u w m f = record {
    confined = Confined-trans (Marks-Confined m) f.confined;
    reason = reason f.reason;
  }
    where
      is_some : {X : Type 0} {x : X} → none ≡ some x → ⊥
      is_some h = cc

      reason : Flaky ⊎ Obstacle Q u quota → Flaky ⊎ Obstacle Q v quota
      reason (inl f) = inl f
      reason (inr (inl e)) = absurd (is_some (sym e ∙ Marks-labelled m))
      reason (inr (inr e)) = inr (inr e)

  module _ (rl : ResourceLimiter) (quota : ResourceLimiterQuota)
      (rlquotas : List ResourceLimiterQuota)
      (noticed : is_ignored quota.namespace_name ≡ false) where
    abbrev ns : String
    ns = quota.namespace_name

    abbrev choose : Bool → Exec State Flow
    choose applied =
        if applied then create_or_update Q C rl quota rlquotas else withdraw Q C quota rlquotas

    absent :
        (v w : View Quantity)
        → Failed ns (Flaky ⊎ (v.namespaces ns ≡ none)) v w
        → FailedQuota Q C L quota v w
    absent v w f = record { confined = f.confined; reason = reason f.reason }
      where
        reason : Flaky ⊎ (v.namespaces ns ≡ none) → Flaky ⊎ Obstacle Q v quota
        reason (inl x) = inl x
        reason (inr e) = inr (inl e)

    marked_first :
        (R : View Quantity → Flow → View Quantity → Type 0) (s : State) (b : Bool)
        → rl.spec.applied ≡ b
        → ((t : State)
            → Marks ns (view s) (view t)
            → Post
                (λ flow u. R (view s) flow (view u))
                (λ _ u. FailedQuota Q C L quota (view s) (view u))
                (choose b t))
        → Post
            (λ flow u. R (view s) flow (view u))
            (λ _ u. FailedQuota Q C L quota (view s) (view u))
            (reconcile_quota Q C rl quota rlquotas s)
    unfolding reconcile_quota
    marked_first R s b applied rest = rw noticed (
        Post-bind (λ _ t. Marks ns (view s) (view t)) _ _ (mark_namespace Q C ns)
          (λ _. choose rl.spec.applied) s
          (Post-imp _ _ _ _ (mark_namespace Q C ns s) (λ _ t m. m) (λ _ t. absent (view s) (view t))
            (mark_namespace-Post Q C L ns s))
          (λ _ t m.
            subst
              (λ c.
                Post (λ flow u. R (view s) flow (view u))
                  (λ _ u. FailedQuota Q C L quota (view s) (view u)) (choose c t))
              (sym applied) (rest t m)))

    -- With `Applied`, a round enforces the quota, or fails for a reason.
    pub reconcile_quota-Enforces :
        (s : State)
        → rl.spec.applied ≡ true
        → Post
            (λ flow u.
              Ends quota rlquotas ((view s).quotas (quota_key ns)) flow
              × Enforces quota (view s) (view u))
            (λ _ u. FailedQuota Q C L quota (view s) (view u))
            (reconcile_quota Q C rl quota rlquotas s)
    reconcile_quota-Enforces s applied =
        marked_first
          (λ v flow w. Ends quota rlquotas (v.quotas (quota_key ns)) flow × Enforces quota v w) s
          true applied
          λ t m.
            Post-imp _ _ _ _ (create_or_update Q C rl quota rlquotas t)
              (λ flow u (ends, a). (
                subst (λ q. Ends quota rlquotas (q (quota_key ns)) flow) (Marks-quotas m) ends,
                Enforces-after quota (view s) (view t) (view u) m a,
              ))
              (λ _ u. FailedQuota-after quota (view s) (view t) (view u) m)
              (create_or_update-Post Q C L rl quota rlquotas t)

    -- The round has labelled the namespace and removed its quota.
    pub record Releases (v w : View Quantity) : Type 0 where
      pub labels : Map String
      pub labelled : w.namespaces ns ≡ some labels
      pub marked : IsMarked labels
      pub gone : w.quotas (quota_key ns) ≡ none
      pub confined : Confined ns v w

    Releases-after :
        (v u w : View Quantity)
        → Marks ns v u
        → Withdraws Q C L rl quota rlquotas u w
        → Releases v w
    Releases-after v u w m a = record {
      labels = set_labels m.labels;
      labelled = ap (λ f. f ns) a.same_labels ∙ Marks-labelled m;
      marked = set_labels-IsMarked m.labels;
      gone = a.gone;
      confined = Confined-trans (Marks-Confined m) a.confined;
    }

    -- Without `Applied`, a round removes the quota, or fails for a reason.
    pub reconcile_quota-Releases :
        (s : State)
        → rl.spec.applied ≡ false
        → Post
            (λ flow u. (flow ≡ next rlquotas) × Releases (view s) (view u))
            (λ _ u. FailedQuota Q C L quota (view s) (view u))
            (reconcile_quota Q C rl quota rlquotas s)
    reconcile_quota-Releases s applied =
        marked_first (λ v flow w. (flow ≡ next rlquotas) × Releases v w) s false applied
          λ t m.
            Post-imp _ _ _ _ (withdraw Q C quota rlquotas t)
              (λ flow u (ends, a). (ends, Releases-after (view s) (view t) (view u) m a))
              (λ _ u f. record {
                confined = Confined-trans (Marks-Confined m) f.confined;
                reason = inl f.reason;
              })
              (withdraw-Post Q C L rl quota rlquotas t)
