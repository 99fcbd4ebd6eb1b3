-- ===== src/Controller/Reconcile/Announces.antt =====
-- A pass that creates a resource quota for its limiter tells so.
use resourcelimiter.Prelude.{
  ◌≡◌, refl, sym, ap, ◌∙◌, subst, Bool-cases, true, false, Option-cases, none, some, List, [], ◌∷◌,
  ◌⊎◌, inl, inr, Map, if◌then◌else◌, arith,
}
use resourcelimiter.Api.V1beta2.{ResourceLimiter, ResourceLimiterQuota}
use resourcelimiter.Controller.Exec.{
  Error, not_found, failure, error, panicked, Fault, Outcome, ok, fail, pure, raise, lift, handle,
  ◌>>=◌, Post, Post-imp, Post-and, Post-handle, Post-bind,
}
use resourcelimiter.Controller.Platform.{Quantities, Client, ResourceQuota}
use resourcelimiter.Controller.Platform.View.{View, IsLawful}
use resourcelimiter.Controller.Reconcile.{
  Flow, next, return, is_ignored, quota_key, set_hard, create_missing, update_existing,
  create_or_update, create_if, mark_namespace, withdraw, reconcile_quota, reconcile_loop, finish,
}
use resourcelimiter.Controller.Reconcile.Rounds.{Ends}
use resourcelimiter.Controller.Reconcile.Round.{Enforces, reconcile_quota-Enforces}
use resourcelimiter.Controller.Reconcile.Targets.{Apart, Distinct, missing, missing-kept}
use resourcelimiter.Controller.Reconcile.Loop.{after, reconcile_loop-ignored}
use resourcelimiter.Controller.Reconcile.Steps.{FailedQuota, set_hard-Post}

module _ {S : Type 0} where
  abbrev pub Anything : Fault → S → Type 0
  Anything e t = Unit

  -- Nothing is known of a run.
  pub ever : {A : Type 0} (r : Outcome A × S) → Post (λ _ _. Unit {0}) Anything r
  ever (ok a, s) = tt
  ever (fail e, s) = tt

module _ {Quantity : Type 0} (v : View Quantity) (q : ResourceLimiterQuota)
    (qs : List ResourceLimiterQuota) where
  missing-ignored : is_ignored q.namespace_name ≡ true → missing v (q ∷ qs) ≡ missing v qs
  missing-ignored e = rw e (omega arith)

  missing-present :
      (h : Map Quantity)
      → is_ignored q.namespace_name ≡ false
      → v.quotas (quota_key q.namespace_name) ≡ some h
      → missing v (q ∷ qs) ≡ missing v qs
  missing-present h noticed e = rw (noticed, e) (omega arith)

module _ (Q : Quantities) (C : Client Q.Quantity) {Flaky : Type 0} (L : IsLawful C Flaky)
    (rl : ResourceLimiter) (Told : C.State → Type 0)
    (owner_law : (q r : ResourceQuota Q.Quantity)
      → C.set_controller_reference rl q ≡ ok r
      → r.owner ≡ some rl.object_meta.name)
    (creation_law : (q : ResourceQuota Q.Quantity) (s : C.State)
      → q.owner ≡ some rl.object_meta.name
      → Post (λ _ t. Told t) (λ _ _. Unit {0}) (C.create_quota q s)) where
  open Q use {Quantity}
  open C use {State}
  open L use {view}

  abbrev Tells : Flow → State → Type 0
  Tells (next acc) t = Unit
  Tells return t = Told t

  hardened-Tells :
      (quota : ResourceLimiterQuota) (owned : ResourceQuota Quantity) (s : State)
      → owned.owner ≡ some rl.object_meta.name
      → Post Tells Anything (
          (set_hard Q (record owned { hard = [] }) quota >>= λ r.
          C.create_quota r >>= λ _. pure return)
            s)
  hardened-Tells quota owned s e =
      Post-handle _ _ Tells Anything (set_hard Q (record owned { hard = [] }) quota) _ raise s
        (set_hard-Post Q C L owned quota s)
        (λ r t (same, h, asked, made).
          Post-bind (λ _ u. Told u) Tells Anything (C.create_quota r) (λ _. pure return) t
            (creation_law r t (ap (λ q. q.owner) made ∙ e)) (λ _ u told. told))
        (λ e t f. tt) (λ t f. tt)

  owned-Tells :
      (quota : ResourceLimiterQuota) (q : ResourceQuota Quantity)
      (o : Outcome (ResourceQuota Quantity)) (s : State)
      → C.set_controller_reference rl q ≡ o
      → Post Tells Anything (
          (lift o >>= λ owned. set_hard Q (record owned { hard = [] }) quota >>= λ r.
          C.create_quota r >>= λ _. pure return)
            s)
  unfolding handle
  owned-Tells quota q (ok owned) s e = hardened-Tells quota owned s (owner_law q owned e)
  owned-Tells quota q (fail (error x)) s e = tt
  owned-Tells quota q (fail panicked) s e = tt

  create_missing-Tells :
      (quota : ResourceLimiterQuota) (s : State)
      → Post Tells Anything (create_missing Q C rl quota s)
  unfolding create_missing
  create_missing-Tells quota s = owned-Tells quota _ _ s refl

  update_existing-Tells :
      (quota : ResourceLimiterQuota) (acc : List ResourceLimiterQuota)
      (found : ResourceQuota Quantity) (s : State)
      → Post Tells Anything (update_existing Q C quota acc found s)
  unfolding update_existing
  update_existing-Tells quota acc found s =
      Post-bind (λ _ _. Unit {0}) Tells Anything (set_hard Q (record found { hard = [] }) quota) _ s
        (ever _)
        (λ r t _.
          Post-bind (λ _ _. Unit {0}) Tells Anything (C.update_quota r) _ t (ever _) (λ _ u _. tt))

  create_if-Tells :
      (quota : ResourceLimiterQuota) (e : Error) (s : State)
      → Post Tells Anything (create_if Q C rl quota e s)
  unfolding create_if
  create_if-Tells quota not_found s = create_missing-Tells quota s
  create_if-Tells quota (failure m) s = tt

  create_or_update-Tells :
      (quota : ResourceLimiterQuota) (acc : List ResourceLimiterQuota) (s : State)
      → Post Tells Anything (create_or_update Q C rl quota acc s)
  unfolding create_or_update
  create_or_update-Tells quota acc s =
      Post-handle (λ _ _. Unit {0}) Anything Tells Anything
        (C.get_quota (quota_key quota.namespace_name)) (update_existing Q C quota acc)
        (create_if Q C rl quota) s (ever _) (λ q t _. update_existing-Tells quota acc q t)
        (λ e t _. create_if-Tells quota e t) (λ t _. tt)

  -- Told, or no resource quota was missing.
  abbrev pub Announces : View Quantity → List ResourceLimiterQuota → State → Type 0
  Announces v qs t = Told t ⊎ (missing v qs ≡ 0)

  module _ (applied : rl.spec.applied ≡ true) where
    reconcile_quota-Tells :
        (quota : ResourceLimiterQuota) (acc : List ResourceLimiterQuota) (s : State)
        → is_ignored quota.namespace_name ≡ false
        → Post Tells Anything (reconcile_quota Q C rl quota acc s)
    unfolding reconcile_quota
    reconcile_quota-Tells quota acc s noticed = rw noticed (
        Post-bind (λ _ _. Unit {0}) Tells Anything (mark_namespace Q C quota.namespace_name) _ s
          (ever _)
          (λ _ t _.
            subst
              (λ b.
                Post Tells Anything
                  ((if b then create_or_update Q C rl quota acc else withdraw Q C quota acc) t))
              (sym applied) (create_or_update-Tells quota acc t)))

    module _ (q : ResourceLimiterQuota) (qs acc : List ResourceLimiterQuota) (s : State)
        (noticed : is_ignored q.namespace_name ≡ false) (apart : Apart q.namespace_name qs)
        (ih : (acc' : List ResourceLimiterQuota) (t : State)
          → Post (λ _ u. Announces (view t) qs u) Anything (reconcile_loop Q C rl qs acc' t)) where
      later :
          (t u : State) (h : Map Quantity)
          → Enforces Q C L q (view s) (view t)
          → (view s).quotas (quota_key q.namespace_name) ≡ some h
          → Announces (view t) qs u
          → Announces (view s) (q ∷ qs) u
      later t u h en present (inl told) = inl told
      later t u h en present (inr e) = inr (
          missing-present (view s) q qs h noticed present
          ∙ sym (missing-kept q.namespace_name (view s) (view t) qs apart en.confined)
          ∙ e)

      continued :
          (flow : Flow) (t : State)
          → ((view s).quotas (quota_key q.namespace_name) ≡ none)
            ⊎ ((h : Map Quantity) × ((view s).quotas (quota_key q.namespace_name) ≡ some h))
          → Ends q acc ((view s).quotas (quota_key q.namespace_name)) flow
          → Enforces Q C L q (view s) (view t)
          → Tells flow t
          → Post (λ _ u. Announces (view s) (q ∷ qs) u) Anything (after Q C L rl rl qs flow t)
      continued return t c ends en told = inl told
      continued (next l) t (inl lacking) ends en told =
          absurd (subst (λ o. Ends q acc o (next l)) lacking ends)
      continued (next l) t (inr (h, present)) ends en told =
          Post-imp _ _ Anything Anything (reconcile_loop Q C rl qs l t)
            (λ _ u. later t u h en present) (λ _ u x. x) (ih l t)

    -- A pass that leaves resource quotas missing has created one.
    pub reconcile_loop-Announces :
        (qs acc : List ResourceLimiterQuota) (s : State)
        → Distinct qs
        → Post (λ _ t. Announces (view s) qs t) Anything (reconcile_loop Q C rl qs acc s)
    unfolding reconcile_loop
    reconcile_loop-Announces [] acc s distinct =
        Post-imp (λ _ _. Unit {0}) _ Anything Anything (finish Q C rl acc s) (λ _ _ _. inr refl)
          (λ _ _ x. x) (ever _)
    reconcile_loop-Announces (q ∷ qs) acc s (apart, distinct) =
        let ih =
          λ (a : List ResourceLimiterQuota) (t : State). reconcile_loop-Announces qs a t distinct in
        elim (Bool-cases (is_ignored q.namespace_name)) [
          | inl ignored ↦
              subst (Post (λ _ t. Announces (view s) (q ∷ qs) t) Anything)
                (sym (reconcile_loop-ignored Q C L rl rl q qs acc s ignored))
                (subst
                  (λ n. Post (λ _ t. Told t ⊎ (n ≡ 0)) Anything (reconcile_loop Q C rl qs acc s))
                  (sym (missing-ignored (view s) q qs ignored)) (ih acc s))
          | inr noticed ↦
              Post-bind
                (λ flow t.
                  Tells flow t
                  × (Ends q acc ((view s).quotas (quota_key q.namespace_name)) flow
                      × Enforces Q C L q (view s) (view t)))
                _ Anything (reconcile_quota Q C rl q acc) (after Q C L rl rl qs) s
                (Post-imp _ _ (λ e t. Unit × FailedQuota Q C L q (view s) (view t)) Anything
                  (reconcile_quota Q C rl q acc s) (λ _ _ x. x) (λ _ _ x. tt)
                  (Post-and Tells _ Anything _ (reconcile_quota Q C rl q acc s)
                    (reconcile_quota-Tells q acc s noticed)
                    (reconcile_quota-Enforces Q C L rl q acc noticed s applied)))
                (λ flow t (told, (ends, en)).
                  continued q qs acc s noticed apart ih flow t (Option-cases _) ends en told)
        ]
