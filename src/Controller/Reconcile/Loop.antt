-- ===== src/Controller/Reconcile/Loop.antt =====
-- The loop over the quotas with `Applied`, and the method `reconcile`.
use resourcelimiter.Prelude.{
  String, ◌≡◌, refl, sym, ap, ◌∙◌, subst, true, false, Option, none, some, List, [], ◌∷◌, ◌⊎◌, inl,
  inr, Bool-cases, Option-cases, Map, if◌then◌else◌,
}
use mathlib.Core.List.{append-nil}
use resourcelimiter.Api.Constants.{ready, stopped}
use resourcelimiter.Api.V1beta2.{ResourceLimiter, ResourceLimiterQuota}
use resourcelimiter.Controller.Exec.{Exec, Outcome, handle, pure, Post, Post-imp, Post-bind}
use resourcelimiter.Controller.Platform.{Quantities, Client}
use resourcelimiter.Controller.Platform.View.{View, put_limiter, IsLawful}
use resourcelimiter.Controller.Platform.Kept.{
  Kept-put_limiter, WriteFault-change, WriteFault-reason,
}
use resourcelimiter.Controller.Reconcile.{
  Flow, next, return, is_ignored, quota_key, finish, update_status, reconcile_quota, reconcile_loop,
}
use resourcelimiter.Controller.Reconcile.Spec.{Obstacle}
use resourcelimiter.Controller.Reconcile.Steps.{FailedQuota}
use resourcelimiter.Controller.Reconcile.Rounds.{Ends}
use resourcelimiter.Controller.Reconcile.Round.{Enforces, reconcile_quota-Enforces}
use resourcelimiter.Controller.Reconcile.Targets.{Apart, Distinct, Blocked}
use resourcelimiter.Controller.Reconcile.Results.{
  Framed, Framed-refl, Framed-cons, Passed, Stopped, Passed-ignored, Stopped-ignored, Stopped-later,
  Passed-created, Passed-updated,
}

module _ (Q : Quantities) (C : Client Q.Quantity) {Flaky : Type 0} (L : IsLawful C Flaky) where
  open Q use {Quantity}
  open C use {State}
  open L use {view}

  -- A write of the status changes no namespace.
  pub limiter_change :
      (name : String) (new : Option ResourceLimiter) (v w : View Quantity)
      → (w ≡ v) ⊎ (w ≡ put_limiter name new v)
      → Framed [] v w
  limiter_change name new v w (inl e) = subst (Framed [] v) (sym e) (Framed-refl [] v)
  limiter_change name new v w (inr e) =
      subst (Framed [] v) (sym e) (record { others = λ r a. Kept-put_limiter name new v })

  module _ (rl old : ResourceLimiter) where
    abbrev name : String
    name = rl.object_meta.name

    pub only_flaky : (o : Option ResourceLimiter) → o ≡ some old → Flaky ⊎ (o ≡ none) → Flaky
    only_flaky o e (inl f) = f
    only_flaky o e (inr n) = absurd (not_none (sym n ∙ e))
      where
        not_none : none ≡ some old → ⊥
        not_none h = cc

    abbrev Loop :
        List ResourceLimiterQuota
        → List ResourceLimiterQuota
        → View Quantity
        → Outcome (Unit {0}) × State
        → Type 0
    Loop qs acc v =
        Post (λ _ t. Passed Q name old qs acc v (view t))
          (λ _ t. Stopped Q name old Flaky qs v (view t))

    -- After the loop the status is written.
    finish-Post :
        (acc : List ResourceLimiterQuota) (s : State)
        → rl.spec.applied ≡ true
        → (view s).limiters name ≡ some old
        → Loop [] acc (view s) (finish Q C rl acc s)
    unfolding finish update_status
    finish-Post acc s applied stored =
        subst
          (λ b. Loop [] acc (view s) (
            (if b
                then update_status Q C rl (record { state = ready; quotas = acc })
                else update_status Q C rl (record { state = stopped; quotas = [] }))
              s))
          (sym applied)
          (Post-imp _ _ _ _
            (C.update_status (record rl { status = record { state = ready; quotas = acc } }) s)
            (λ _ t q. (
              limiter_change name _ (view s) (view t) (inr q),
              inl (record {
                served = tt;
                none_missing = refl;
                lines = acc;
                line_names = sym (append-nil _);
                limiters = ap (λ x. x.limiters) q;
              }),
            ))
            (λ e t f. (
              limiter_change name _ (view s) (view t)
                  (WriteFault-change Flaky (view s) _ _ (view t) e f),
              inl (only_flaky _ stored (WriteFault-reason Flaky (view s) _ _ (view t) e f)),
            ))
            (L.update_status_law (record rl { status = record { state = ready; quotas = acc } }) s
              old stored))

    pub blocked :
        (v w : View Quantity) (q : ResourceLimiterQuota) (qs : List ResourceLimiterQuota)
        → is_ignored q.namespace_name ≡ false
        → FailedQuota Q C L q v w
        → Stopped Q name old Flaky (q ∷ qs) v w
    blocked v w q qs noticed f =
        (Framed-cons q qs noticed f.confined (Framed-refl qs w), reason f.reason)
      where
        reason : Flaky ⊎ Obstacle Q v q → Flaky ⊎ Blocked Q v (q ∷ qs)
        reason (inl x) = inl x
        reason (inr o) = inr (inl (noticed, o))

    abbrev pub after : List ResourceLimiterQuota → Flow → Exec State (Unit {0})
    after qs flow = elim flow [ next acc ↦ reconcile_loop Q C rl qs acc | return ↦ pure tt ]

    module _ (q : ResourceLimiterQuota) (qs acc : List ResourceLimiterQuota) (s : State)
        (noticed : is_ignored q.namespace_name ≡ false) (apart : Apart q.namespace_name qs)
        (stored : (view s).limiters name ≡ some old)
        (ih : (acc' : List ResourceLimiterQuota) (t : State)
          → (view t).limiters name ≡ some old
          → Loop qs acc' (view t) (reconcile_loop Q C rl qs acc' t)) where
      continued :
          (flow : Flow) (t : State)
          → Ends q acc ((view s).quotas (quota_key q.namespace_name)) flow
          → Enforces Q C L q (view s) (view t)
          → Loop (q ∷ qs) acc (view s) (after qs flow t)
      continued flow t ends en =
          by_cases flow (Option-cases ((view s).quotas (quota_key q.namespace_name))) ends
        where
          by_cases :
              (flow : Flow)
              → ((view s).quotas (quota_key q.namespace_name) ≡ none)
                ⊎ ((h : Map Quantity) × ((view s).quotas (quota_key q.namespace_name) ≡ some h))
              → Ends q acc ((view s).quotas (quota_key q.namespace_name)) flow
              → Loop (q ∷ qs) acc (view s) (after qs flow t)
          by_cases return (inl lacking) ends =
              Passed-created Q name old q qs acc (view s) (view t) noticed apart en.confined
                en.enforced lacking
          by_cases (next l) (inl lacking) ends =
              absurd (subst (λ o. Ends q acc o (next l)) lacking ends)
          by_cases return (inr (h, present)) ends =
              absurd (subst (λ o. Ends q acc o return) present ends)
          by_cases (next l) (inr (h, present)) ends =
              let (line, grown, called) = subst (λ o. Ends q acc o (next l)) present ends in
              Post-imp (λ _ u. Passed Q name old qs l (view t) (view u)) _
                (λ _ u. Stopped Q name old Flaky qs (view t) (view u)) _
                (reconcile_loop Q C rl qs l t)
                (λ _ u p.
                  Passed-updated Q name old q qs acc (view s) (view t) noticed apart en.confined
                    en.enforced line (view u) present called
                    (subst (λ a. Passed Q name old qs a (view t) (view u)) grown p))
                (λ _ u.
                  Stopped-later Q name old q qs acc (view s) (view t) noticed apart en.confined
                    Flaky (view u))
                (ih l t (ap (λ f. f name) en.confined.limiters ∙ stored))

    pub reconcile_loop-ignored :
        (q : ResourceLimiterQuota) (qs acc : List ResourceLimiterQuota) (s : State)
        → is_ignored q.namespace_name ≡ true
        → reconcile_loop Q C rl (q ∷ qs) acc s ≡ reconcile_loop Q C rl qs acc s
    unfolding reconcile_loop reconcile_quota handle
    reconcile_loop-ignored q qs acc s e = rw e

    -- One pass over quotas that name no namespace twice.
    pub reconcile_loop-Post :
        rl.spec.applied ≡ true
        → (qs acc : List ResourceLimiterQuota) (s : State) → Distinct qs
        → (view s).limiters name ≡ some old
        → Loop qs acc (view s) (reconcile_loop Q C rl qs acc s)
    unfolding reconcile_loop
    reconcile_loop-Post applied [] acc s distinct stored = finish-Post acc s applied stored
    reconcile_loop-Post applied (q ∷ qs) acc s (apart, distinct) stored =
        let ih = λ (a : List ResourceLimiterQuota) (t : State).
          reconcile_loop-Post applied qs a t distinct in
        elim (Bool-cases (is_ignored q.namespace_name)) [
          | inl ignored ↦
              subst (Loop (q ∷ qs) acc (view s)) (sym (reconcile_loop-ignored q qs acc s ignored)) (
                Post-imp (λ _ t. Passed Q name old qs acc (view s) (view t)) _
                  (λ _ t. Stopped Q name old Flaky qs (view s) (view t)) _
                  (reconcile_loop Q C rl qs acc s)
                  (λ _ t. Passed-ignored Q name old q qs acc (view s) (view t) ignored)
                  (λ _ t. Stopped-ignored Q name old q qs acc Flaky (view s) (view t))
                  (ih acc s stored))
          | inr noticed ↦
              Post-bind
                (λ flow t.
                  Ends q acc ((view s).quotas (quota_key q.namespace_name)) flow
                  × Enforces Q C L q (view s) (view t))
                _ _ (reconcile_quota Q C rl q acc) (after qs) s
                (Post-imp _ _ (λ _ t. FailedQuota Q C L q (view s) (view t)) _
                  (reconcile_quota Q C rl q acc s) (λ flow t r. r)
                  (λ _ t. blocked (view s) (view t) q qs noticed)
                  (reconcile_quota-Enforces Q C L rl q acc noticed s applied))
                (λ flow t r. continued q qs acc s noticed apart stored ih flow t r.0 r.1)
        ]
