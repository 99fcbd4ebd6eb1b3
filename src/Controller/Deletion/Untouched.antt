-- ===== src/Controller/Deletion/Untouched.antt =====
-- A deletion does not touch a namespace without a resource quota.
use resourcelimiter.Prelude.{
  String, ◌<>◌, ◌≡◌, refl, ap, ◌∙◌, subst, Bool, true, false, Option, none, some, List, [], ◌∷◌,
  Map, ◌⊎◌, inl, inr, ◌==◌, if◌then◌else◌,
}
use resourcelimiter.Api.Constants.{default_finalizer, stopped}
use resourcelimiter.Api.V1beta2.{ResourceLimiter, ResourceLimiterQuota}
use resourcelimiter.Controller.Exec.{
  Error, not_found, failure, error, Outcome, Exec, pure, raise, ◌>>=◌, ◌>>◌, Post, Post-imp,
  Post-handle, Post-bind,
}
use resourcelimiter.Controller.Platform.{Quantities, Client, named}
use resourcelimiter.Controller.Platform.View.{View, put_hard, ReadFault, IsLawful}
use resourcelimiter.Controller.Platform.Kept.{
  Confined, Confined-eq, Confined-trans, Confined-put_hard, Confined-put_labels, ReadFault-same,
  WriteFault-change,
}
use resourcelimiter.Controller.Platform.Untouched.{
  IsUntouched, IsUntouched-put_limiter, IsUntouched-Changed, Changed, Changed-limiters,
}
use resourcelimiter.Controller.Reconcile.{quota_key}
use resourcelimiter.Controller.Reconcile.Steps.{Failed, Relabels, relabel-Post, delete_quota-Post}
use resourcelimiter.Controller.Deletion.{
  remove_labels, release_namespace, skip_if, release_quota, release_loop, reconcile_delete,
  without_finalizer,
}

module _ (Q : Quantities) (C : Client Q.Quantity) {Flaky : Type 0} (L : IsLawful C Flaky) where
  open Q use {Quantity}
  open C use {State}
  open L use {view}

  abbrev Changes : String → View Quantity → {A : Type 0} → Outcome A × State → Type 0
  Changes n v = Post (λ _ t. Changed n v (view t)) (λ _ t. Changed n v (view t))

  relabelled-Confined :
      (n : String) (v : View Quantity) (u : State)
      → Confined n v (view u)
      → Post
          (λ _ t. Confined n v (view t))
          (λ _ t. Confined n v (view t))
          ((C.get_namespace (named n n) >>= λ x.
              C.update_namespace (record x { labels = remove_labels x.labels }))
            u)
  relabelled-Confined n v u c =
      Post-imp (λ _ t. Relabels remove_labels n (view u) (view t)) (λ _ t. Confined n v (view t))
        (λ e t. Failed n (Flaky ⊎ ((view u).namespaces n ≡ none)) (view u) (view t))
        (λ _ t. Confined n v (view t)) _
        (λ _ t r.
          Confined-eq
            (Confined-trans c (Confined-put_labels n (remove_labels r.labels) (view u) refl))
            r.after)
        (λ e t f. Confined-trans c f.confined) (relabel-Post Q C L remove_labels n u)

  release_namespace-Changed :
      (n : String) (s : State) → Changes n (view s) (release_namespace C n s)
  unfolding release_namespace
  release_namespace-Changed n s =
      let T : State → Type 0 = λ t. Changed n (view s) (view t) in
      Post-handle _ _ (λ _ t. T t) (λ _ t. T t) (C.get_quota (quota_key n)) _ raise s
        (L.get_quota_law (quota_key n) s)
        (λ q t r.
          let touch : (u : State) → Confined n (view s) (view u) → T u =
            λ u c. inr (record { hard = q.hard; limited = r.3; confined = c }) in
          Post-handle (λ _ u. view u ≡ put_hard (quota_key n) none (view s))
            (λ _ u. Failed n Flaky (view s) (view u)) (λ _ u. T u) (λ _ u. T u) (C.delete_quota q) _
            raise t (delete_quota-Post Q C L n (view s) q t r.0 r.1 r.2 r.3)
            (λ _ u d.
              Post-imp _ _ _ _ _ (λ _ w c. touch w c) (λ _ w c. touch w c)
                (relabelled-Confined n (view s) u
                  (Confined-eq (Confined-put_hard (quota_key n) none (view s) refl) d)))
            (λ e u f. touch u f.confined) (λ u f. touch u f.confined))
        (λ e t f. inl (ReadFault-same Flaky (view s) _ (view t) (error e) f)) (λ t f. absurd f)

  skipped-Changed :
      (n : String) (s : State) (e : Error) (t : State)
      → ReadFault Flaky (view s) ((view s).namespaces n) (view t) (error e)
      → Changes n (view s) (skip_if C e t)
  unfolding skip_if
  skipped-Changed n s not_found t f = inl f.0
  skipped-Changed n s (failure m) t f = inl f.0

  release_quota-Changed :
      (q : ResourceLimiterQuota) (s : State)
      → Changes q.namespace_name (view s) (release_quota C q s)
  unfolding release_quota
  release_quota-Changed q s =
      let n = q.namespace_name in
      let T : State → Type 0 = λ t. Changed n (view s) (view t) in
      Post-handle _ _ (λ _ t. T t) (λ _ t. T t) (C.get_namespace (named "" n)) _ (skip_if C) s
        (L.get_namespace_law (named "" n) s)
        (λ x t r.
          subst (λ v. Changes n v (release_namespace C n t)) r.0 (release_namespace-Changed n t))
        (λ e t f. skipped-Changed n s e t f) (λ t f. absurd f)

  module _ (ns : String) (labels : Option (Map String)) (rl old : ResourceLimiter) where
    abbrev Untouched : State → Type 0
    Untouched t = IsUntouched ns labels (view t)

    abbrev Stored : State → Type 0
    Stored t = (view t).limiters rl.object_meta.name ≡ some old

    release_loop-IsUntouched :
        (qs : List ResourceLimiterQuota) (s : State)
        → Stored s
        → Untouched s
        → Post (λ _ t. Untouched t × Stored t) (λ _ t. Untouched t) (release_loop C qs s)
    unfolding release_loop
    release_loop-IsUntouched [] s stored u = (u, stored)
    release_loop-IsUntouched (q ∷ qs) s stored u =
        let n = q.namespace_name in
        Post-bind (λ _ t. Untouched t × Stored t) (λ _ t. Untouched t × Stored t)
          (λ _ t. Untouched t) (release_quota C q) (λ _. release_loop C qs) s
          (Post-imp _ _ _ _ (release_quota C q s)
            (λ _ t c. (
              IsUntouched-Changed ns labels n (view s) (view t) c u,
              ap (λ l. l rl.object_meta.name) (Changed-limiters n (view s) (view t) c) ∙ stored,
            ))
            (λ _ t c. IsUntouched-Changed ns labels n (view s) (view t) c u)
            (release_quota-Changed q s))
          (λ _ t (v, kept). release_loop-IsUntouched qs t kept v)

    patched-IsUntouched :
        (s : State)
        → Stored s
        → Untouched s
        → Post
            (λ _ t. Untouched t)
            (λ _ t. Untouched t)
            (C.patch_limiter rl (without_finalizer C rl) s)
    patched-IsUntouched s stored u =
        Post-imp _ _ _ _ (C.patch_limiter rl (without_finalizer C rl) s)
          (λ _ t e. IsUntouched-put_limiter ns labels _ _ (view s) (view t) (inr e) u)
          (λ e t f.
            IsUntouched-put_limiter ns labels _ _ (view s) (view t)
              (WriteFault-change Flaky (view s) _ _ (view t) e f) u)
          (L.patch_limiter_law rl (without_finalizer C rl) s old stored)

    -- The deletion of a limiter that the cluster holds.
    pub reconcile_delete-IsUntouched :
        (s : State)
        → Stored s
        → Untouched s
        → Post (λ _ t. Untouched t) (λ _ t. Untouched t) (reconcile_delete C rl s)
    unfolding reconcile_delete
    reconcile_delete-IsUntouched s stored u =
        either (C.contains_finalizer rl.object_meta.finalizers default_finalizer)
          (rl.status.state == stopped)
      where
        patch : Exec State (Unit {0})
        patch = C.patch_limiter rl (without_finalizer C rl)

        Kept : Outcome (Unit {0}) × State → Type 0
        Kept = Post (λ _ t. Untouched t) (λ _ t. Untouched t)

        either :
            (b c : Bool)
            → Kept (
                (if b
                    then ((if c then pure tt else release_loop C rl.spec.quotas) >> patch)
                    else raise (
                        failure (
                          "no finalizer found on " <> rl.object_meta.name
                          <> " resourcelimiter CR")))
                  s)
        either true true =
            Post-bind (λ _ t. Untouched t × Stored t) (λ _ t. Untouched t) (λ _ t. Untouched t)
              (pure tt) (λ _. patch) s (u, stored) (λ _ t (v, kept). patched-IsUntouched t kept v)
        either true false =
            Post-bind (λ _ t. Untouched t × Stored t) (λ _ t. Untouched t) (λ _ t. Untouched t)
              (release_loop C rl.spec.quotas) (λ _. patch) s
              (release_loop-IsUntouched rl.spec.quotas s stored u)
              (λ _ t (v, kept). patched-IsUntouched t kept v)
        either false c = u
