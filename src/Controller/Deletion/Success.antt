-- ===== src/Controller/Deletion/Success.antt =====
-- A deletion that completes: what it takes of the cluster, and what one round of it leaves.
use resourcelimiter.Prelude.{
  String, ◌≡◌, ◌≢◌, refl, sym, ap, ◌∙◌, subst, Option, none, some, List, [], ◌∷◌, Map, All, lookup,
  ◌⊎◌, inl, inr, eq_refl, if◌then◌else◌,
}
use resourcelimiter.Api.V1beta2.{ResourceLimiterQuota}
use resourcelimiter.Controller.Exec.{
  Error, not_found, failure, Fault, error, Post, Post-imp, Post-handle, raise, ◌>>=◌,
}
use resourcelimiter.Controller.Platform.{Quantities, Client, named}
use resourcelimiter.Controller.Platform.View.{View, put_hard, ReadFault, IsLawful}
use resourcelimiter.Controller.Platform.Kept.{
  Kept, Confined, Confined-refl, Confined-trans, Confined-eq, Confined-put_hard,
  Confined-put_labels, ReadFault-reason,
}
use resourcelimiter.Controller.Reconcile.{quota_key, quota_name}
use resourcelimiter.Controller.Reconcile.Steps.{Failed, Relabels, relabel-Post, delete_quota-Post}
use resourcelimiter.Controller.Deletion.{remove_labels, release_namespace, skip_if, release_quota}
use resourcelimiter.Controller.Deletion.Labels.{is_own, lookup-remove_labels}

-- The namespace had these labels, and has them without the two of the controller; its resource
-- quota is gone.
pub record Released {Quantity : Type 0} (ns : String) (v w : View Quantity) : Type 0 where
  pub old : Map String
  pub labels : Map String
  pub before : v.namespaces ns ≡ some old
  pub after : w.namespaces ns ≡ some labels
  pub unmarked : (k : String) → lookup k labels ≡ (if is_own k then none else lookup k old)
  pub freed : w.quotas (quota_key ns) ≡ none

abbrev pub Others : String → List ResourceLimiterQuota → Type 0
Others ns = All (λ q. q.namespace_name ≢ ns)

-- No two quotas are for the same namespace.
abbrev pub Separate : List ResourceLimiterQuota → Type 0
Separate [] = Unit
Separate (q ∷ qs) = Others q.namespace_name qs × Separate qs

module _ {Quantity : Type 0} where
  -- The namespace was and is missing, or it has been released.
  abbrev pub Clean : String → View Quantity → View Quantity → Type 0
  Clean ns v w = (w.namespaces ns ≡ none) ⊎ Released ns v w

  -- The namespace is missing, or has its resource quota.
  abbrev pub Releasable : View Quantity → ResourceLimiterQuota → Type 0
  Releasable v q =
      (v.namespaces q.namespace_name ≡ none)
      ⊎ ((h : Map Quantity) × (v.quotas (quota_key q.namespace_name) ≡ some h))

  pub Releasable-Confined :
      (ns : String) (v w : View Quantity) (qs : List ResourceLimiterQuota)
      → Others ns qs
      → Confined ns v w
      → All (Releasable v) qs
      → All (Releasable w) qs
  Releasable-Confined ns v w [] o c a = tt
  Releasable-Confined ns v w (q ∷ qs) (ne, o) c (a, rest) =
      (moved a, Releasable-Confined ns v w qs o c rest)
    where
      kept : Kept q.namespace_name v w
      kept = c.others q.namespace_name (λ e. ne (sym e))

      moved : Releasable v q → Releasable w q
      moved (inl e) = inl (kept.labels ∙ e)
      moved (inr (h, e)) = inr (h, kept.hard (quota_name q.namespace_name) ∙ e)

  -- What is clean stays so while the namespace is kept.
  pub Clean-after :
      (ns : String) (v w x : View Quantity) → Clean ns v w → Kept ns w x → Clean ns v x
  Clean-after ns v w x (inl e) k = inl (k.labels ∙ e)
  Clean-after ns v w x (inr r) k = inr (record {
    old = r.old;
    labels = r.labels;
    before = r.before;
    after = k.labels ∙ r.after;
    unmarked = r.unmarked;
    freed = k.hard (quota_name ns) ∙ r.freed;
  })

  pub Clean-before :
      (ns : String) (u v w : View Quantity) → Kept ns u v → Clean ns v w → Clean ns u w
  Clean-before ns u v w k (inl e) = inl e
  Clean-before ns u v w k (inr r) = inr (record {
    old = r.old;
    labels = r.labels;
    before = sym k.labels ∙ r.before;
    after = r.after;
    unmarked = r.unmarked;
    freed = r.freed;
  })

  pub All-Clean :
      (ns : String) (u v w : View Quantity) (qs : List ResourceLimiterQuota)
      → Others ns qs
      → Confined ns u v
      → All (λ q. Clean q.namespace_name v w) qs
      → All (λ q. Clean q.namespace_name u w) qs
  All-Clean ns u v w [] o c a = tt
  All-Clean ns u v w (q ∷ qs) (ne, o) c (a, rest) = (
    Clean-before q.namespace_name u v w (c.others q.namespace_name (λ e. ne (sym e))) a,
    All-Clean ns u v w qs o c rest,
  )

module _ (Q : Quantities) (C : Client Q.Quantity) {Flaky : Type 0} (L : IsLawful C Flaky) where
  open Q use {Quantity}
  open C use {State}
  open L use {view}

  -- A call that fails only if the client does.
  abbrev pub Fails : Fault → State → Type 0
  Fails _ _ = Flaky

  pub only_flaky : {X : Type 0} (o : Option X) (x : X) → o ≡ some x → Flaky ⊎ (o ≡ none) → Flaky
  only_flaky o x e (inl f) = f
  only_flaky o x e (inr h) = cc

  abbrev pub Frees : String → View Quantity → View Quantity → Type 0
  Frees ns v w = Confined ns v w × Clean ns v w

  relabelled :
      (ns : String) (v u w : View Quantity)
      → u ≡ put_hard (quota_key ns) none v
      → Relabels remove_labels ns u w
      → Frees ns v w
  relabelled ns v u w d r = (
    Confined-eq
        (Confined-trans (Confined-eq (Confined-put_hard (quota_key ns) none v refl) d)
          (Confined-put_labels ns (remove_labels r.labels) u refl))
        r.after,
    inr (record {
      old = r.labels;
      labels = remove_labels r.labels;
      before = ap (λ x. x.namespaces ns) (sym d) ∙ r.before;
      after = ap (λ x. x.namespaces ns) r.after ∙ rw (eq_refl ns) refl;
      unmarked = λ k. lookup-remove_labels k r.labels;
      freed =
          ap (λ x. x.quotas (quota_key ns)) r.after
          ∙ ap (λ x. x.quotas (quota_key ns)) d
          ∙ rw (eq_refl ns, eq_refl (quota_name ns)) refl;
    }),
  )

  module _ (ns : String) (s : State) (labels : Map String)
      (exists : (view s).namespaces ns ≡ some labels) where
    unlabelled :
        (u : State)
        → view u ≡ put_hard (quota_key ns) none (view s)
        → Post
            (λ _ w. Frees ns (view s) (view w))
            Fails
            ((C.get_namespace (named ns ns) >>= λ n.
                C.update_namespace (record n { labels = remove_labels n.labels }))
              u)
    unlabelled u d =
        Post-imp (λ _ w. Relabels remove_labels ns (view u) (view w))
          (λ _ w. Frees ns (view s) (view w))
          (λ e w. Failed ns (Flaky ⊎ ((view u).namespaces ns ≡ none)) (view u) (view w)) Fails _
          (λ _ w r. relabelled ns (view s) (view u) (view w) d r)
          (λ e w f.
            only_flaky ((view u).namespaces ns) labels (ap (λ x. x.namespaces ns) d ∙ exists)
              f.reason)
          (relabel-Post Q C L remove_labels ns u)

    pub release_namespace-Frees :
        (h : Map Quantity)
        → (view s).quotas (quota_key ns) ≡ some h
        → Post (λ _ w. Frees ns (view s) (view w)) Fails (release_namespace C ns s)
    unfolding release_namespace
    release_namespace-Frees h limited =
        Post-handle _ _ (λ _ w. Frees ns (view s) (view w)) Fails (C.get_quota (quota_key ns)) _
          raise s (L.get_quota_law (quota_key ns) s)
          (λ q t r.
            Post-handle (λ _ u. view u ≡ put_hard (quota_key ns) none (view s))
              (λ _ u. Failed ns Flaky (view s) (view u)) (λ _ w. Frees ns (view s) (view w)) Fails
              (C.delete_quota q) _ raise t (delete_quota-Post Q C L ns (view s) q t r.0 r.1 r.2 r.3)
              (λ _ u d. unlabelled u d) (λ e u f. f.reason) (λ u f. f.reason))
          (λ e t f. only_flaky _ h limited (ReadFault-reason Flaky (view s) _ (view t) (error e) f))
          (λ t f. absurd f)

  skipped-Frees :
      (ns : String) (s : State) (e : Error) (t : State)
      → ReadFault Flaky (view s) ((view s).namespaces ns) (view t) (error e)
      → Post (λ _ w. Frees ns (view s) (view w)) Fails (skip_if C e t)
  unfolding skip_if
  skipped-Frees ns s not_found t (same, gone) =
      (Confined-eq (Confined-refl (view s)) same, inl (ap (λ x. x.namespaces ns) same ∙ gone))
  skipped-Frees ns s (failure m) t (same, flaky) = flaky

  limited_of :
      (quota : ResourceLimiterQuota) (v : View Quantity) (labels : Map String)
      → Releasable v quota
      → v.namespaces quota.namespace_name ≡ some labels
      → (h : Map Quantity) × (v.quotas (quota_key quota.namespace_name) ≡ some h)
  limited_of quota v labels (inl e) p = cc
  limited_of quota v labels (inr h) p = h

  pub release_quota-Frees :
      (quota : ResourceLimiterQuota) (s : State)
      → Releasable (view s) quota
      → Post (λ _ w. Frees quota.namespace_name (view s) (view w)) Fails (release_quota C quota s)
  unfolding release_quota
  release_quota-Frees quota s ready =
      let ns = quota.namespace_name in
      Post-handle _ _ (λ _ w. Frees ns (view s) (view w)) Fails (C.get_namespace (named "" ns)) _
        (skip_if C) s (L.get_namespace_law (named "" ns) s)
        (λ x t (same, called, present).
          let (h, limited) = limited_of quota (view s) x.labels ready present in
          subst (λ v. Post (λ _ w. Frees ns v (view w)) Fails (release_namespace C ns t)) same
            (release_namespace-Frees ns t x.labels (ap (λ v. v.namespaces ns) same ∙ present) h
              (ap (λ v. v.quotas (quota_key ns)) same ∙ limited)))
        (λ e t f. skipped-Frees ns s e t f) (λ t f. absurd f)
