-- ===== src/Controller/Reconcile/Withdrawal.antt =====
-- The loop for a limiter that is not applied: what it leaves of the quotas.
use resourcelimiter.Prelude.{
  String, ◌≡◌, sym, ap, ◌∙◌, subst, Bool-cases, true, false, none, some, List, [], ◌∷◌, Map, ◌⊎◌,
  inl, inr, All, if◌then◌else◌,
}
use resourcelimiter.Api.Constants.{ready, stopped}
use resourcelimiter.Api.V1beta2.{ResourceLimiter, ResourceLimiterQuota}
use resourcelimiter.Controller.Exec.{Outcome, Post, Post-imp, Post-bind}
use resourcelimiter.Controller.Platform.{Quantities, Client}
use resourcelimiter.Controller.Platform.View.{View, put_limiter, IsLawful}
use resourcelimiter.Controller.Platform.Kept.{Kept, Confined, WriteFault-change, WriteFault-reason}
use resourcelimiter.Controller.Reconcile.{
  next, is_ignored, quota_key, quota_name, finish, update_status, reconcile_quota, reconcile_loop,
}
use resourcelimiter.Controller.Reconcile.Spec.{IsMarked}
use resourcelimiter.Controller.Reconcile.Steps.{FailedQuota}
use resourcelimiter.Controller.Reconcile.Round.{Releases, reconcile_quota-Releases}
use resourcelimiter.Controller.Reconcile.Targets.{Apart, Distinct}
use resourcelimiter.Controller.Reconcile.Results.{
  Framed, Framed-cons, Stopped, Stopped-ignored, Stopped-later,
}
use resourcelimiter.Controller.Reconcile.Loop.{
  limiter_change, only_flaky, blocked, after, reconcile_loop-ignored,
}

-- The namespace is marked, and has no resource quota.
pub record IsWithdrawn {Quantity : Type 0} (v : View Quantity) (q : ResourceLimiterQuota)
    : Type 0 where
  pub labels : Map String
  pub labelled : v.namespaces q.namespace_name ≡ some labels
  pub marked : IsMarked labels
  pub gone : v.quotas (quota_key q.namespace_name) ≡ none

module _ {Quantity : Type 0} (name : String) (old : ResourceLimiter) where
  -- All quotas that are not ignored are withdrawn, and the status is "stopped" with no lines.
  pub record Withdrew (qs : List ResourceLimiterQuota) (v w : View Quantity) : Type 0 where
    pub framed : Framed qs v w
    pub withdrawn : All (λ q. (is_ignored q.namespace_name ≡ true) ⊎ IsWithdrawn w q) qs
    pub limiters :
        w.limiters
        ≡ (put_limiter name
            (some (record old { status = record { state = stopped; quotas = [] } }))
            v).limiters

  Withdrew-ignored :
      (q : ResourceLimiterQuota) (qs : List ResourceLimiterQuota) (v w : View Quantity)
      → is_ignored q.namespace_name ≡ true
      → Withdrew qs v w
      → Withdrew (q ∷ qs) v w
  Withdrew-ignored q qs v w e d = record {
    framed = record { others = λ r a. d.framed.others r a.1 };
    withdrawn = (inl e, d.withdrawn);
    limiters = d.limiters;
  }

  IsWithdrawn-Kept :
      (v w : View Quantity) (q : ResourceLimiterQuota)
      → Kept q.namespace_name v w
      → IsWithdrawn v q
      → IsWithdrawn w q
  IsWithdrawn-Kept v w q k e = record {
    labels = e.labels;
    labelled = k.labels ∙ e.labelled;
    marked = e.marked;
    gone = k.hard (quota_name q.namespace_name) ∙ e.gone;
  }

  Withdrew-cons :
      (q : ResourceLimiterQuota) (qs : List ResourceLimiterQuota) (v u w : View Quantity)
      → is_ignored q.namespace_name ≡ false
      → Apart q.namespace_name qs
      → Confined q.namespace_name v u
      → IsWithdrawn u q
      → Withdrew qs u w
      → Withdrew (q ∷ qs) v w
  Withdrew-cons q qs v u w noticed apart c e d = record {
    framed = Framed-cons q qs noticed c d.framed;
    withdrawn =
        (inr (IsWithdrawn-Kept u w q (d.framed.others q.namespace_name apart) e), d.withdrawn);
    limiters =
        d.limiters
        ∙ ap
            (λ l.
              (put_limiter name
                (some (record old { status = record { state = stopped; quotas = [] } }))
                (record v { limiters = l })).limiters)
            c.limiters;
  }

module _ (Q : Quantities) (C : Client Q.Quantity) {Flaky : Type 0} (L : IsLawful C Flaky)
    (rl old : ResourceLimiter) (applied : rl.spec.applied ≡ false) where
  open Q use {Quantity}
  open C use {State}
  open L use {view}

  abbrev name : String
  name = rl.object_meta.name

  abbrev Loop : List ResourceLimiterQuota → View Quantity → Outcome (Unit {0}) × State → Type 0
  Loop qs v =
      Post (λ _ t. Withdrew name old qs v (view t)) (λ _ t. Stopped Q name old Flaky qs v (view t))

  finish-Withdrew :
      (acc : List ResourceLimiterQuota) (s : State)
      → (view s).limiters name ≡ some old
      → Loop [] (view s) (finish Q C rl acc s)
  unfolding finish update_status
  finish-Withdrew acc s stored =
      subst
        (λ b. Loop [] (view s) (
          (if b
              then update_status Q C rl (record { state = ready; quotas = acc })
              else update_status Q C rl (record { state = stopped; quotas = [] }))
            s))
        (sym applied)
        (Post-imp _ _ _ _
          (C.update_status (record rl { status = record { state = stopped; quotas = [] } }) s)
          (λ _ t q. record {
            framed = limiter_change Q C L name _ (view s) (view t) (inr q);
            withdrawn = tt;
            limiters = ap (λ x. x.limiters) q;
          })
          (λ e t f. (
            limiter_change Q C L name _ (view s) (view t)
                (WriteFault-change Flaky (view s) _ _ (view t) e f),
            inl (
                only_flaky Q C L rl old _ stored
                  (WriteFault-reason Flaky (view s) _ _ (view t) e f)),
          ))
          (L.update_status_law (record rl { status = record { state = stopped; quotas = [] } }) s
            old stored))

  -- For a limiter that is not applied, which the cluster holds with its old status and whose quotas
  -- name no namespace twice, the loop leaves every namespace that is not ignored marked and without
  -- a resource quota, and the status "stopped" with no lines, whatever lines it was given. It fails
  -- only where the client does, or where a namespace is missing or a quantity is malformed. In
  -- every case the namespaces that the spec does not name are as before.
  pub reconcile_loop-Withdrew :
      (qs acc : List ResourceLimiterQuota) (s : State)
      → Distinct qs
      → (view s).limiters name ≡ some old
      → Loop qs (view s) (reconcile_loop Q C rl qs acc s)
  unfolding reconcile_loop
  reconcile_loop-Withdrew [] acc s distinct stored = finish-Withdrew acc s stored
  reconcile_loop-Withdrew (q ∷ qs) acc s (apart, distinct) stored =
      let ih = λ (t : State). reconcile_loop-Withdrew qs acc t distinct in
      elim (Bool-cases (is_ignored q.namespace_name)) [
        | inl ignored ↦
            subst (Loop (q ∷ qs) (view s))
              (sym (reconcile_loop-ignored Q C L rl old q qs acc s ignored))
              (Post-imp (λ _ t. Withdrew name old qs (view s) (view t)) _
                (λ _ t. Stopped Q name old Flaky qs (view s) (view t)) _
                (reconcile_loop Q C rl qs acc s)
                (λ _ t. Withdrew-ignored name old q qs (view s) (view t) ignored)
                (λ _ t. Stopped-ignored Q name old q qs acc Flaky (view s) (view t)) (ih s stored))
        | inr noticed ↦
            Post-bind
              (λ flow t. (flow ≡ next acc) × Releases Q C L rl q acc noticed (view s) (view t)) _ _
              (reconcile_quota Q C rl q acc) (after Q C L rl old qs) s
              (Post-imp _ _ (λ _ t. FailedQuota Q C L q (view s) (view t)) _
                (reconcile_quota Q C rl q acc s) (λ flow t r. r)
                (λ _ t. blocked Q C L rl old (view s) (view t) q qs noticed)
                (reconcile_quota-Releases Q C L rl q acc noticed s applied))
              (λ flow t (ends, r).
                subst (λ fl. Loop (q ∷ qs) (view s) (after Q C L rl old qs fl t)) (sym ends)
                  (Post-imp (λ _ u. Withdrew name old qs (view t) (view u)) _
                    (λ _ u. Stopped Q name old Flaky qs (view t) (view u)) _
                    (reconcile_loop Q C rl qs acc t)
                    (λ _ u.
                      Withdrew-cons name old q qs (view s) (view t) (view u) noticed apart
                        r.confined
                        (record {
                          labels = r.labels;
                          labelled = r.labelled;
                          marked = r.marked;
                          gone = r.gone;
                        }))
                    (λ _ u.
                      Stopped-later Q name old q qs acc (view s) (view t) noticed apart r.confined
                        Flaky (view u))
                    (ih t (ap (λ f. f name) r.confined.limiters ∙ stored))))
      ]
