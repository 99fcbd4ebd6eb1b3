-- ===== src/Controller/Reconcile/Steps.antt =====
-- What each part of a round does to the cluster, where it succeeds and where it fails.
use resourcelimiter.Prelude.{
  String, ◌≡◌, refl, sym, ap, ◌∙◌, subst, Option, none, some, [], Map, ◌⊎◌, inl, inr,
}
use resourcelimiter.Api.V1beta2.{ResourceLimiterQuota}
use resourcelimiter.Controller.Exec.{
  Fault, error, panicked, Outcome, Post, Post-imp, Post-handle, ◌>>=◌, raise, pure, Exec,
}
use resourcelimiter.Controller.Platform.{Quantities, named, ResourceQuota, Client}
use resourcelimiter.Controller.Platform.View.{View, put_labels, put_hard, WriteFault, IsLawful}
use resourcelimiter.Controller.Platform.Kept.{
  Confined, Confined-refl, Confined-eq, Confined-change, Confined-put_labels, Confined-put_hard,
  ReadFault-same, ReadFault-reason, WriteFault-change, WriteFault-reason,
}
use resourcelimiter.Controller.Reconcile.{
  Flow, set_labels, set_hard, quota_name, quota_key, mark_namespace,
}
use resourcelimiter.Controller.Reconcile.Spec.{hard_of, with_hard, set_hard_lem, Obstacle}

-- A step that failed: its change is confined to the namespace, and there is a reason.
pub record Failed {Quantity : Type 0} (ns : String) (Reason : Type 0) (v w : View Quantity)
    : Type 0 where
  pub confined : Confined ns v w
  pub reason : Reason

-- The namespace existed, and its labels have been changed in this way.
pub record Relabels {Quantity : Type 0} (f : Map String → Map String) (ns : String)
    (v w : View Quantity) : Type 0 where
  pub labels : Map String
  pub before : v.namespaces ns ≡ some labels
  pub after : w ≡ put_labels ns (f labels) v

-- It has got the labels of the controller.
abbrev pub Marks : {Quantity : Type 0} → String → View Quantity → View Quantity → Type 0
Marks = Relabels set_labels

-- The resource quota of the namespace has got these limits, or is gone.
abbrev pub Limits :
    {Quantity : Type 0} → String → Option (Map Quantity) → View Quantity → View Quantity → Type 0
Limits ns hard v w = w ≡ put_hard (quota_key ns) hard v

module _ (Q : Quantities) (C : Client Q.Quantity) {Flaky : Type 0} (L : IsLawful C Flaky) where
  open Q use {Quantity}
  open C use {State}
  open L use {view}

  -- A write that failed, in a namespace on which only confined changes were made before.
  pub Failed-write :
      {X : Type 0} (ns : String) (v new w : View Quantity) (o : Option X) (e : Fault)
      → Confined ns v new
      → WriteFault Flaky v o new w e
      → Failed ns (Flaky ⊎ (o ≡ none)) v w
  Failed-write ns v new w o e c f = record {
    confined = Confined-change (Confined-refl v) c (WriteFault-change Flaky v o new w e f);
    reason = WriteFault-reason Flaky v o new w e f;
  }

  module _ (f : Map String → Map String) (ns : String) (s : State) where
    -- A namespace is read, and written with other labels.
    pub relabel-Post :
        Post
          (λ _ t. Relabels f ns (view s) (view t))
          (λ e t. Failed ns (Flaky ⊎ ((view s).namespaces ns ≡ none)) (view s) (view t))
          ((C.get_namespace (named ns ns) >>= λ n.
              C.update_namespace (record n { labels = f n.labels }))
            s)
    relabel-Post =
        Post-handle _ _ _ _ (C.get_namespace (named ns ns)) _ raise s
          (L.get_namespace_law (named ns ns) s)
          (λ n t r.
            let labels = f n.labels in
            let moved =
              ap (λ x. put_labels x labels (view t)) r.1 ∙ ap (put_labels ns labels) r.0 in
            Post-imp _ _ _ _ (C.update_namespace (record n { labels = labels }) t)
              (λ _ u q. record { labels = n.labels; before = r.2; after = q ∙ moved })
              (λ e u f.
                subst (λ v. Failed ns (Flaky ⊎ (v.namespaces ns ≡ none)) v (view u)) r.0
                  (subst (λ x. Failed ns (Flaky ⊎ ((view t).namespaces x ≡ none)) (view t) (view u))
                    r.1
                    (Failed-write ns (view t) _ (view u) _ e
                      (Confined-put_labels n.name labels (view t) r.1) f)))
              (L.update_namespace_law (record n { labels = labels }) t))
          (λ e t f. record {
            confined =
                Confined-eq (Confined-refl (view s))
                  (ReadFault-same Flaky (view s) _ (view t) (error e) f);
            reason = ReadFault-reason Flaky (view s) _ (view t) (error e) f;
          })
          (λ t f. absurd f)

  pub mark_namespace-Post :
      (ns : String) (s : State)
      → Post
          (λ _ t. Marks ns (view s) (view t))
          (λ e t. Failed ns (Flaky ⊎ ((view s).namespaces ns ≡ none)) (view s) (view t))
          (mark_namespace Q C ns s)
  unfolding mark_namespace
  mark_namespace-Post ns s = relabel-Post set_labels ns s

  set_hard-Post_at :
      (q : ResourceQuota Quantity) (o : Option (Map Quantity)) (t : State)
      → Post
          (λ r u. (u ≡ t) × (h : Map Quantity) × (o ≡ some h) × (r ≡ record q { hard = h }))
          (λ _ u. (u ≡ t) × (o ≡ none))
          (with_hard Q q o, t)
  set_hard-Post_at q none t = (refl, refl)
  set_hard-Post_at q (some h) t = (refl, h, refl, refl)

  -- The limits that `setHard` gives a quota, or its panic.
  pub set_hard-Post :
      (q : ResourceQuota Quantity) (quota : ResourceLimiterQuota) (t : State)
      → Post
          (λ r u.
            (u ≡ t) × (h : Map Quantity) × (hard_of Q quota ≡ some h) × (r ≡ record q { hard = h }))
          (λ _ u. (u ≡ t) × (hard_of Q quota ≡ none))
          (set_hard Q (record q { hard = [] }) quota t)
  set_hard-Post q quota t = rw (set_hard_lem Q q quota t) (set_hard-Post_at q (hard_of Q quota) t)

  -- The resource quota of the spec's quota has the limits that it asks for.
  pub record Applies (quota : ResourceLimiterQuota) (v w : View Quantity) : Type 0 where
    pub hard : Map Quantity
    pub asked : hard_of Q quota ≡ some hard
    pub limits : Limits quota.namespace_name (some hard) v w

  abbrev pub FailedQuota : ResourceLimiterQuota → View Quantity → View Quantity → Type 0
  FailedQuota quota v w = Failed quota.namespace_name (Flaky ⊎ Obstacle Q v quota) v w

  module _ (quota : ResourceLimiterQuota) (v : View Quantity) (q : ResourceQuota Quantity)
      (t : State) (placed : q.namespace ≡ quota.namespace_name)
      (called : q.name ≡ quota_name quota.namespace_name) (same : view t ≡ v) where
    at_key_of :
        (h : Map Quantity)
        → put_hard (named q.namespace q.name) (some h) (view t)
          ≡ put_hard (quota_key quota.namespace_name) (some h) v
    at_key_of h i = put_hard (named (placed i) (called i)) (some h) (same i)

    module _ {X : Type 0} (write : ResourceQuota Quantity → Exec State (Unit {0})) (o : Option X)
        (flow : Flow)
        (law : (h : Map Quantity)
          → let new = put_hard (named q.namespace q.name) (some h) (view t) in
            Post
              (λ _ u. view u ≡ new)
              (λ e u. WriteFault Flaky (view t) o new (view u) e)
              (write (record q { hard = h }) t))
        (obstacle : o ≡ none → Obstacle Q v quota) where
      abbrev pub Written : Outcome Flow × State → Type 0
      Written =
          Post (λ fl u. (fl ≡ flow) × Applies quota v (view u))
            (λ _ u. FailedQuota quota v (view u))

      failed_reason : Flaky ⊎ (o ≡ none) → Flaky ⊎ Obstacle Q v quota
      failed_reason (inl f) = inl f
      failed_reason (inr e) = inr (obstacle e)

      write-Post :
          (h : Map Quantity)
          → hard_of Q quota ≡ some h
          → Written ((write (record q { hard = h }) >>= λ _. pure flow) t)
      write-Post h asked =
          Post-handle _ _ _ _ (write (record q { hard = h })) _ raise t (law h)
            (λ _ u q'. (refl, record { hard = h; asked = asked; limits = q' ∙ at_key_of h }))
            (λ e u. failed u (error e)) (λ u. failed u panicked)
        where
          failed :
              (u : State) (e : Fault)
              → WriteFault Flaky
                  (view t)
                  o
                  (put_hard (named q.namespace q.name) (some h) (view t))
                  (view u)
                  e
              → FailedQuota quota v (view u)
          failed u e f =
              let w =
                Failed-write quota.namespace_name (view t) _ (view u) o e
                  (Confined-put_hard (named q.namespace q.name) (some h) (view t) placed) f in
              record {
                confined = subst (λ x. Confined quota.namespace_name x (view u)) same w.confined;
                reason = failed_reason w.reason;
              }

      unparsed : (u : State) → u ≡ t → hard_of Q quota ≡ none → FailedQuota quota v (view u)
      unparsed u unchanged none_asked = record {
        confined = Confined-eq (Confined-refl v) (ap view unchanged ∙ same);
        reason = inr (inr none_asked);
      }

      -- The limits are set on `q`, which is then written.
      pub set_and_write :
          Written
            ((set_hard Q (record q { hard = [] }) quota >>= λ r. write r >>= λ _. pure flow) t)
      set_and_write =
          Post-handle _ _ _ _ (set_hard Q (record q { hard = [] }) quota) _ raise t
            (set_hard-Post q quota t)
            (λ r u (unchanged, h, asked, made).
              subst (λ x. Written ((write r >>= λ _. pure flow) x)) (sym unchanged)
                (subst (λ r'. Written ((write r' >>= λ _. pure flow) t)) (sym made)
                  (write-Post h asked)))
            (λ e u f. unparsed u f.0 f.1) (λ u f. unparsed u f.0 f.1)

  module _ (ns : String) (v : View Quantity) (found : ResourceQuota Quantity) (t : State)
      (same : view t ≡ v) (placed : found.namespace ≡ ns) (called : found.name ≡ quota_name ns)
      (present : v.quotas (quota_key ns) ≡ some found.hard) where
    key : named found.namespace found.name ≡ quota_key ns
    key i = named (placed i) (called i)

    moved :
        put_hard (named found.namespace found.name) none (view t) ≡ put_hard (quota_key ns) none v
    moved i = put_hard (named (placed i) (called i)) none (same i)

    still : (view t).quotas (named found.namespace found.name) ≡ v.quotas (quota_key ns)
    still i = (same i).quotas (named (placed i) (called i))

    only_flaky : Flaky ⊎ ((view t).quotas (named found.namespace found.name) ≡ none) → Flaky
    only_flaky (inl f) = f
    only_flaky (inr e) = cc (sym e ∙ still ∙ present)

    not_deleted :
        (u : State) (e : Fault)
        → WriteFault Flaky
            (view t)
            ((view t).quotas (named found.namespace found.name))
            (put_hard (named found.namespace found.name) none (view t))
            (view u)
            e
        → Failed ns Flaky v (view u)
    not_deleted u e f =
        let w =
          Failed-write ns (view t) _ (view u) _ e
            (Confined-put_hard (named found.namespace found.name) none (view t) placed) f in
        record {
          confined = subst (λ x. Confined ns x (view u)) same w.confined;
          reason = only_flaky w.reason;
        }

    -- A resource quota that has been read is deleted, unless the client fails.
    pub delete_quota-Post :
        Post
          (λ _ u. view u ≡ put_hard (quota_key ns) none v)
          (λ _ u. Failed ns Flaky v (view u))
          (C.delete_quota found t)
    delete_quota-Post =
        Post-imp _ _ _ _ (C.delete_quota found t) (λ _ u q. q ∙ moved) (λ e u. not_deleted u e)
          (L.delete_quota_law found t)
