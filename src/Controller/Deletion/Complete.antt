-- ===== src/Controller/Deletion/Complete.antt =====
-- The whole deletion, where it can complete.
use resourcelimiter.Prelude.{
  String, ◌≡◌, ◌≢◌, refl, sym, ap, ◌∙◌, subst, true, false, Option, none, some, List, [], ◌∷◌, All,
  ◌==◌, eq_refl,
}
use resourcelimiter.Api.Constants.{default_finalizer, stopped}
use resourcelimiter.Api.V1beta2.{ResourceLimiter, ResourceLimiterQuota}
use resourcelimiter.Controller.Exec.{Post, Post-imp, Post-bind}
use resourcelimiter.Controller.Platform.{Quantities, Client}
use resourcelimiter.Controller.Platform.View.{View, put_limiter, IsLawful}
use resourcelimiter.Controller.Platform.Kept.{
  Kept, Kept-refl, Kept-trans, Kept-put_limiter, WriteFault-reason,
}
use resourcelimiter.Controller.Deletion.{
  release_quota, release_loop, reconcile_delete, without_finalizer,
}
use resourcelimiter.Controller.Deletion.Success.{
  Clean, Clean-after, All-Clean, Releasable, Releasable-Confined, Others, Separate, Fails, Frees,
  release_quota-Frees, only_flaky,
}

-- What the loop does to the cluster: it cleans each namespace, keeps the others and the limiters.
pub record FreesAll {Quantity : Type 0} (quotas : List ResourceLimiterQuota) (v w : View Quantity)
    : Type 0 where
  pub clean : All (λ q. Clean q.namespace_name v w) quotas
  pub others : (r : String) → Others r quotas → Kept r v w
  pub limiters : w.limiters ≡ v.limiters

module _ (Q : Quantities) (C : Client Q.Quantity) {Flaky : Type 0} (L : IsLawful C Flaky) where
  open Q use {Quantity}
  open C use {State}
  open L use {view}

  FreesAll-cons :
      (q : ResourceLimiterQuota) (qs : List ResourceLimiterQuota) (u v w : View Quantity)
      → Others q.namespace_name qs
      → Frees Q C L q.namespace_name u v
      → FreesAll qs v w
      → FreesAll (q ∷ qs) u w
  FreesAll-cons q qs u v w apart (confined, clean) rest = record {
    clean = (
      Clean-after q.namespace_name u v w clean (rest.others q.namespace_name apart),
      All-Clean q.namespace_name u v w qs apart confined rest.clean,
    );
    others = λ r (ne, o). Kept-trans (confined.others r ne) (rest.others r o);
    limiters = rest.limiters ∙ confined.limiters;
  }

  pub release_loop-FreesAll :
      (quotas : List ResourceLimiterQuota) (s : State)
      → Separate quotas
      → All (Releasable (view s)) quotas
      → Post (λ _ t. FreesAll quotas (view s) (view t)) (Fails Q C L) (release_loop C quotas s)
  unfolding release_loop
  release_loop-FreesAll [] s d a = record {
    clean = tt;
    others = λ r o. Kept-refl (view s);
    limiters = refl;
  }
  release_loop-FreesAll (q ∷ qs) s (apart, d) (a, rest) =
      Post-bind (λ _ t. Frees Q C L q.namespace_name (view s) (view t))
        (λ _ t. FreesAll (q ∷ qs) (view s) (view t)) (Fails Q C L) (release_quota C q)
        (λ _. release_loop C qs) s (release_quota-Frees Q C L q s a)
        (λ _ t (confined, clean).
          Post-imp (λ _ u. FreesAll qs (view t) (view u))
            (λ _ u. FreesAll (q ∷ qs) (view s) (view u)) (Fails Q C L) (Fails Q C L)
            (release_loop C qs t)
            (λ _ u f. FreesAll-cons q qs (view s) (view t) (view u) apart (confined, clean) f)
            (λ e u f. f)
            (release_loop-FreesAll qs t d
              (Releasable-Confined q.namespace_name (view s) (view t) qs apart confined rest)))

  -- The limiter is gone, or it is left without the finalizer.
  abbrev pub IsLetGo : Option ResourceLimiter → Type 0
  IsLetGo none = Unit
  IsLetGo (some rl) = C.contains_finalizer rl.object_meta.finalizers default_finalizer ≡ false

  removed :
      (fs : _)
      → C.contains_finalizer (C.remove_finalizer fs default_finalizer) default_finalizer ≡ false
  removed fs = L.contains-remove fs default_finalizer default_finalizer

  pub IsLetGo-patched_at :
      (rl : ResourceLimiter) (o : Option ResourceLimiter)
      → C.contains_finalizer rl.object_meta.finalizers default_finalizer ≡ true
      → L.patched rl (without_finalizer C rl) rl ≡ o
      → IsLetGo o
  IsLetGo-patched_at rl none held e = tt
  IsLetGo-patched_at rl (some new) held e =
      ap (λ fs. C.contains_finalizer fs default_finalizer)
        (L.patched_finalizers rl (without_finalizer C rl) rl new changed e)
      ∙ removed rl.object_meta.finalizers
    where
      changed :
          rl.object_meta.finalizers ≢ C.remove_finalizer rl.object_meta.finalizers default_finalizer
      changed same = cc (
          sym held
          ∙ ap (λ fs. C.contains_finalizer fs default_finalizer) same
          ∙ removed rl.object_meta.finalizers)

  module _ (rl : ResourceLimiter)
      (held : C.contains_finalizer rl.object_meta.finalizers default_finalizer ≡ true) where
    -- After the deletion: every namespace of the spec is clean, and the limiter is let go.
    pub record IsDeleted (v w : View Quantity) : Type 0 where
      pub clean : All (λ q. Clean q.namespace_name v w) rl.spec.quotas
      pub others : (r : String) → Others r rl.spec.quotas → Kept r v w
      pub let_go : IsLetGo (w.limiters rl.object_meta.name)

    All-Clean_after :
        (v w x : View Quantity) (qs : List ResourceLimiterQuota)
        → ((r : String) → Kept r w x)
        → All (λ q. Clean q.namespace_name v w) qs
        → All (λ q. Clean q.namespace_name v x) qs
    All-Clean_after v w x [] k a = tt
    All-Clean_after v w x (q ∷ qs) k (a, rest) =
        (Clean-after q.namespace_name v w x a (k q.namespace_name), All-Clean_after v w x qs k rest)

    let_go_after :
        (v w x : View Quantity)
        → FreesAll rl.spec.quotas v w
        → x ≡ put_limiter rl.object_meta.name (L.patched rl (without_finalizer C rl) rl) w
        → IsDeleted v x
    let_go_after v w x f e =
        let name = rl.object_meta.name in
        let o = L.patched rl (without_finalizer C rl) rl in
        let kept : (r : String) → Kept r w x =
          λ r. subst (Kept r w) (sym e) (Kept-put_limiter name o w) in
        record {
          clean = All-Clean_after v w x rl.spec.quotas kept f.clean;
          others = λ r apart. Kept-trans (f.others r apart) (kept r);
          let_go =
              subst IsLetGo (sym (ap (λ y. y.limiters name) e ∙ rw (eq_refl name) refl))
                (IsLetGo-patched_at rl o held refl);
        }

    -- A limiter that the cluster holds, with its finalizer, not in the state "stopped" and with
    -- quotas for different namespaces, each of which is missing or has its resource quota: the
    -- deletion fails only if the client does. Otherwise the resource quotas and both labels of
    -- these namespaces are gone, their other labels and all other namespaces are as before, and the
    -- limiter is gone or left without the finalizer.
    pub reconcile_delete-IsDeleted :
        (s : State)
        → (view s).limiters rl.object_meta.name ≡ some rl
        → (rl.status.state == stopped) ≡ false
        → Separate rl.spec.quotas
        → All (Releasable (view s)) rl.spec.quotas
        → Post (λ _ t. IsDeleted (view s) (view t)) (λ _ _. Flaky) (reconcile_delete C rl s)
    unfolding reconcile_delete
    reconcile_delete-IsDeleted s stored running d a =
        rw (held, running)
          (Post-bind (λ _ t. FreesAll rl.spec.quotas (view s) (view t))
            (λ _ t. IsDeleted (view s) (view t)) (λ _ _. Flaky) (release_loop C rl.spec.quotas)
            (λ _. C.patch_limiter rl (without_finalizer C rl)) s
            (release_loop-FreesAll rl.spec.quotas s d a)
            (λ _ t f.
              let here = ap (λ l. l rl.object_meta.name) f.limiters ∙ stored in
              Post-imp _ _ _ _ (C.patch_limiter rl (without_finalizer C rl) t)
                (λ _ u e. let_go_after (view s) (view t) (view u) f e)
                (λ e u w.
                  only_flaky Q C L ((view t).limiters rl.object_meta.name) rl here
                    (WriteFault-reason Flaky (view t) _ _ (view u) e w))
                (L.patch_limiter_law rl (without_finalizer C rl) t rl here)))
