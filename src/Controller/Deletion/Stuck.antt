-- ===== src/Controller/Deletion/Stuck.antt =====
-- A deletion that cannot complete: the namespace of a quota exists, and its resource quota does not.
use resourcelimiter.Prelude.{
  String, Bool-cases, ◌≡◌, refl, sym, ap, ◌∙◌, subst, Bool, true, false, Option, none, some, List,
  [], ◌∷◌, Map, ◌⊎◌, inl, inr, ◌==◌, if◌then◌else◌,
}
use resourcelimiter.Api.Constants.{default_finalizer, stopped}
use resourcelimiter.Api.V1beta2.{ResourceLimiter, ResourceLimiterQuota}
use resourcelimiter.Controller.Exec.{
  Exec, Error, not_found, failure, Fault, error, Post, Post-imp, Post-handle, Post-bind, raise,
  ◌>>=◌,
}
use resourcelimiter.Controller.Platform.{Client, NamespacedName, named}
use resourcelimiter.Controller.Platform.View.{
  View, put_labels, put_hard, ReadFault, IsLawful, same_key,
}
use resourcelimiter.Controller.Platform.Kept.{ReadFault-same, WriteFault-change}
use resourcelimiter.Controller.Reconcile.{quota_key}
use resourcelimiter.Controller.Deletion.{
  remove_labels, release_namespace, skip_if, release_quota, release_loop, reconcile_delete,
}

-- The namespace exists without a resource quota, and the limiters are these.
pub record IsStuck {Quantity : Type 0} (ns : String) (limiters : String → Option ResourceLimiter)
    (v : View Quantity) : Type 0 where
  pub labels : Map String
  pub exists : v.namespaces ns ≡ some labels
  pub lost : v.quotas (quota_key ns) ≡ none
  pub kept : v.limiters ≡ limiters

-- Some quota is for the namespace.
abbrev pub Names : String → List ResourceLimiterQuota → Type 0
Names ns [] = ⊥
Names ns (q ∷ qs) = (q.namespace_name ≡ ns) ⊎ Names ns qs

some_either :
    (b : Bool) (labels : Map String) (o : Option (Map String)) (held : Map String)
    → o ≡ some held
    → (l : Map String) × ((if b then some labels else o) ≡ some l)
some_either true labels o held e = (labels, refl)
some_either false labels o held e = (held, e)

module _ {Quantity : Type 0} (ns : String) (limiters : String → Option ResourceLimiter) where
  abbrev Stuck : View Quantity → Type 0
  Stuck = IsStuck ns limiters

  IsStuck-put_labels :
      (n : String) (labels : Map String) (v : View Quantity)
      → Stuck v
      → Stuck (put_labels n labels v)
  IsStuck-put_labels n labels v s =
      let (l, e) = some_either (n == ns) labels (v.namespaces ns) s.labels s.exists in
      record { labels = l; exists = e; lost = s.lost; kept = s.kept }

  none_either : (b : Bool) (o : Option (Map Quantity)) → o ≡ none → (if b then none else o) ≡ none
  none_either true o e = refl
  none_either false o e = e

  IsStuck-put_hard : (k : NamespacedName) (v : View Quantity) → Stuck v → Stuck (put_hard k none v)
  IsStuck-put_hard k v s = record {
    labels = s.labels;
    exists = s.exists;
    lost = none_either (same_key k (quota_key ns)) (v.quotas (quota_key ns)) s.lost;
    kept = s.kept;
  }

  IsStuck-eq : {v w : View Quantity} → Stuck v → w ≡ v → Stuck w
  IsStuck-eq s e = subst Stuck (sym e) s

  IsStuck-either : {v new w : View Quantity} → Stuck v → Stuck new → (w ≡ v) ⊎ (w ≡ new) → Stuck w
  IsStuck-either s t (inl e) = IsStuck-eq s e
  IsStuck-either s t (inr e) = IsStuck-eq t e

module _ {Quantity : Type 0} (C : Client Quantity) {Flaky : Type 0} (L : IsLawful C Flaky)
    (ns : String) (limiters : String → Option ResourceLimiter) where
  open C use {State}
  open L use {view}

  abbrev StuckAt : State → Type 0
  StuckAt t = IsStuck ns limiters (view t)

  -- A step that succeeds only if it is not about the namespace.
  abbrev Halts : Fault → State → Type 0
  Halts _ t = StuckAt t

  abbrev Passes : Type 0 → State → Type 0
  Passes About t = StuckAt t × ¬ About

  abbrev relabel : String → Exec State (Unit {0})
  relabel n = C.get_namespace (named n n) >>= λ namespace.
      C.update_namespace (record namespace { labels = remove_labels namespace.labels })

  relabelled-IsStuck :
      (n : String) (s : State) → StuckAt s → Post (λ _ t. StuckAt t) Halts (relabel n s)
  relabelled-IsStuck n s stuck =
      Post-handle _ _ _ _ (C.get_namespace (named n n)) _ raise s
        (L.get_namespace_law (named n n) s)
        (λ x t r.
          let here = IsStuck-eq ns limiters stuck r.0 in
          let new = record x { labels = remove_labels x.labels } in
          let there = IsStuck-put_labels ns limiters x.name new.labels (view t) here in
          Post-imp _ _ _ _ (C.update_namespace new t) (λ _ u q. IsStuck-eq ns limiters there q)
            (λ e u f.
              IsStuck-either ns limiters here there
                (WriteFault-change Flaky (view t) _ _ (view u) e f))
            (L.update_namespace_law new t))
        (λ e t f.
          IsStuck-eq ns limiters stuck (ReadFault-same Flaky (view s) _ (view t) (error e) f))
        (λ t f. absurd f)

  pub release_namespace-IsStuck :
      (n : String) (s : State)
      → StuckAt s
      → Post (λ _ t. Passes (n ≡ ns) t) (λ _ t. StuckAt t) (release_namespace C n s)
  unfolding release_namespace
  release_namespace-IsStuck n s stuck =
      Post-handle _ _ _ _ (C.get_quota (quota_key n)) _ raise s (L.get_quota_law (quota_key n) s)
        (λ q t r.
          let here = IsStuck-eq ns limiters stuck r.0 in
          let there = IsStuck-put_hard ns limiters (named q.namespace q.name) (view t) here in
          Post-handle _ _ _ _ (C.delete_quota q) _ raise t (L.delete_quota_law q t)
            (λ _ u d.
              Post-imp (λ _ w. StuckAt w) (λ _ w. Passes (n ≡ ns) w) Halts Halts (relabel n u)
                (λ _ w h.
                  (h, λ e. cc (sym r.3 ∙ ap (λ x. (view s).quotas (quota_key x)) e ∙ stuck.lost)))
                (λ _ w h. h) (relabelled-IsStuck n u (IsStuck-eq ns limiters there d)))
            (λ e u f.
              IsStuck-either ns limiters here there
                (WriteFault-change Flaky (view t) _ _ (view u) (error e) f))
            (λ u f. absurd f))
        (λ e t f.
          IsStuck-eq ns limiters stuck (ReadFault-same Flaky (view s) _ (view t) (error e) f))
        (λ t f. absurd f)

  skipped-IsStuck :
      (n : String) (s : State) (e : Error) (t : State)
      → StuckAt s
      → ReadFault Flaky (view s) ((view s).namespaces n) (view t) (error e)
      → Post (λ _ u. Passes (n ≡ ns) u) Halts (skip_if C e t)
  unfolding skip_if
  skipped-IsStuck n s not_found t stuck (same, gone) = (
    IsStuck-eq ns limiters stuck same,
    λ e. cc (sym gone ∙ ap (view s).namespaces e ∙ stuck.exists),
  )
  skipped-IsStuck n s (failure m) t stuck (same, flaky) = IsStuck-eq ns limiters stuck same

  release_quota-IsStuck :
      (quota : ResourceLimiterQuota) (s : State)
      → StuckAt s
      → Post (λ _ t. Passes (quota.namespace_name ≡ ns) t) Halts (release_quota C quota s)
  unfolding release_quota
  release_quota-IsStuck quota s stuck =
      Post-handle _ _ _ _ (C.get_namespace (named "" quota.namespace_name)) _ (skip_if C) s
        (L.get_namespace_law (named "" quota.namespace_name) s)
        (λ x t r.
          release_namespace-IsStuck quota.namespace_name t (IsStuck-eq ns limiters stuck r.0))
        (λ e t f. skipped-IsStuck quota.namespace_name s e t stuck f) (λ t f. absurd f)

  neither : {A B : Type 0} → ¬ A → ¬ B → ¬ (A ⊎ B)
  neither f g (inl a) = f a
  neither f g (inr b) = g b

  release_loop-IsStuck :
      (quotas : List ResourceLimiterQuota) (s : State)
      → StuckAt s
      → Post (λ _ t. Passes (Names ns quotas) t) Halts (release_loop C quotas s)
  unfolding release_loop
  release_loop-IsStuck [] s stuck = (stuck, λ e. e)
  release_loop-IsStuck (quota ∷ quotas) s stuck =
      Post-bind (λ _ t. Passes (quota.namespace_name ≡ ns) t)
        (λ _ t. Passes (Names ns (quota ∷ quotas)) t) Halts (release_quota C quota)
        (λ _. release_loop C quotas) s (release_quota-IsStuck quota s stuck)
        (λ _ t (here, apart).
          Post-imp (λ _ u. Passes (Names ns quotas) u) (λ _ u. Passes (Names ns (quota ∷ quotas)) u)
            Halts Halts (release_loop C quotas t)
            (λ _ u (there, others). (there, neither apart others)) (λ _ u h. h)
            (release_loop-IsStuck quotas t here))

  -- A limiter that has not the state "stopped" and has a quota for a namespace that exists without
  -- its resource quota: its deletion does not succeed. The namespace still exists without a
  -- resource quota then, and no limiter has changed, so that a later attempt does not succeed
  -- either.
  pub reconcile_delete-IsStuck :
      (rl : ResourceLimiter) (s : State)
      → (rl.status.state == stopped) ≡ false
      → Names ns rl.spec.quotas
      → IsStuck ns limiters (view s)
      → Post (λ _ t. ⊥) (λ _ t. IsStuck ns limiters (view t)) (reconcile_delete C rl s)
  unfolding reconcile_delete
  reconcile_delete-IsStuck rl s running named_here stuck =
      elim (Bool-cases (C.contains_finalizer rl.object_meta.finalizers default_finalizer)) [
        | inl e ↦
            rw (e, running)
              (Post-bind (λ _ t. Passes (Names ns rl.spec.quotas) t) (λ _ t. ⊥) Halts
                (release_loop C rl.spec.quotas) _ s (release_loop-IsStuck rl.spec.quotas s stuck)
                (λ _ t (here, apart). absurd (apart named_here)))
        | inr e ↦ rw e stuck
      ]
