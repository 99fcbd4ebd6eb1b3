-- ===== src/Controller/Reconcile/Untouched.antt =====
-- A reconciliation does not touch the namespaces that its loop skips.
use resourcelimiter.Prelude.{
  String, ◌≡◌, sym, ap, ◌∙◌, subst, Bool, Bool-cases, true, false, Option, some, List, [], ◌∷◌, Map,
  inl, inr, if◌then◌else◌,
}
use resourcelimiter.Api.Constants.{ready, stopped}
use resourcelimiter.Api.V1beta2.{ResourceLimiter, ResourceLimiterQuota, ResourceLimiterStatus}
use resourcelimiter.Controller.Exec.{Outcome, Post, Post-imp, Post-bind}
use resourcelimiter.Controller.Platform.{Quantities, Client}
use resourcelimiter.Controller.Platform.View.{IsLawful}
use resourcelimiter.Controller.Platform.Kept.{Confined, WriteFault-change}
use resourcelimiter.Controller.Platform.Untouched.{
  IsUntouched, IsUntouched-Kept, IsUntouched-put_limiter,
}
use resourcelimiter.Controller.Reconcile.{
  Flow, next, return, is_ignored, finish, update_status, reconcile_quota, reconcile_loop,
}
use resourcelimiter.Controller.Reconcile.Round.{reconcile_quota-Enforces, reconcile_quota-Releases}
use resourcelimiter.Controller.Reconcile.Loop.{reconcile_loop-ignored, after}

module _ (Q : Quantities) (C : Client Q.Quantity) {Flaky : Type 0} (L : IsLawful C Flaky)
    (ns : String) (labels : Option (Map String)) (skipped : is_ignored ns ≡ true)
    (rl old : ResourceLimiter) where
  open Q use {Quantity}
  open C use {State}
  open L use {view}

  abbrev Untouched : State → Type 0
  Untouched t = IsUntouched ns labels (view t)

  abbrev Stored : State → Type 0
  Stored t = (view t).limiters rl.object_meta.name ≡ some old

  abbrev Keeps : {A : Type 0} → Outcome A × State → Type 0
  Keeps = Post (λ _ t. Untouched t) (λ _ t. Untouched t)

  reconcile_quota-Confined :
      (q : ResourceLimiterQuota) (acc : List ResourceLimiterQuota) (s : State)
      → is_ignored q.namespace_name ≡ false
      → Post
          (λ _ t. Confined q.namespace_name (view s) (view t))
          (λ _ t. Confined q.namespace_name (view s) (view t))
          (reconcile_quota Q C rl q acc s)
  reconcile_quota-Confined q acc s noticed = elim (Bool-cases rl.spec.applied) [
    | inl e ↦
        Post-imp _ _ _ _ (reconcile_quota Q C rl q acc s) (λ _ t r. r.1.confined)
          (λ _ t f. f.confined) (reconcile_quota-Enforces Q C L rl q acc noticed s e)
    | inr e ↦
        Post-imp _ _ _ _ (reconcile_quota Q C rl q acc s) (λ _ t r. r.1.confined)
          (λ _ t f. f.confined) (reconcile_quota-Releases Q C L rl q acc noticed s e)
  ]

  not_skipped : (n : String) → is_ignored n ≡ false → n ≡ ns → ⊥
  not_skipped n noticed e = cc (sym noticed ∙ ap is_ignored e ∙ skipped)

  update_status-IsUntouched :
      (status : ResourceLimiterStatus) (s : State)
      → Stored s
      → Untouched s
      → Keeps (update_status Q C rl status s)
  unfolding update_status
  update_status-IsUntouched status s stored u =
      let new = record rl { status = record { state = status.state; quotas = status.quotas } } in
      Post-imp _ _ _ _ (C.update_status new s)
        (λ _ t e. IsUntouched-put_limiter ns labels _ _ (view s) (view t) (inr e) u)
        (λ e t f.
          IsUntouched-put_limiter ns labels _ _ (view s) (view t)
            (WriteFault-change Flaky (view s) _ _ (view t) e f) u)
        (L.update_status_law new s old stored)

  finish-IsUntouched :
      (acc : List ResourceLimiterQuota) (s : State)
      → Stored s
      → Untouched s
      → Keeps (finish Q C rl acc s)
  unfolding finish
  finish-IsUntouched acc s stored u = either rl.spec.applied
    where
      either :
          (b : Bool)
          → Keeps (
              (if b
                  then update_status Q C rl (record { state = ready; quotas = acc })
                  else update_status Q C rl (record { state = stopped; quotas = [] }))
                s)
      either true = update_status-IsUntouched (record { state = ready; quotas = acc }) s stored u
      either false = update_status-IsUntouched (record { state = stopped; quotas = [] }) s stored u

  followed :
      (qs : List ResourceLimiterQuota) (flow : Flow) (t : State)
      → ((acc : List ResourceLimiterQuota) → Keeps (reconcile_loop Q C rl qs acc t))
      → Untouched t
      → Keeps (after Q C L rl old qs flow t)
  followed qs (next acc) t ih u = ih acc
  followed qs return t ih u = u

  -- The loop, for a limiter that the cluster holds.
  pub reconcile_loop-IsUntouched :
      (qs acc : List ResourceLimiterQuota) (s : State)
      → Stored s
      → Untouched s
      → Keeps (reconcile_loop Q C rl qs acc s)
  unfolding reconcile_loop
  reconcile_loop-IsUntouched [] acc s stored u = finish-IsUntouched acc s stored u
  reconcile_loop-IsUntouched (q ∷ qs) acc s stored u =
      let n = q.namespace_name in
      elim (Bool-cases (is_ignored n)) [
        | inl e ↦
            subst Keeps (sym (reconcile_loop-ignored Q C L rl old q qs acc s e))
              (reconcile_loop-IsUntouched qs acc s stored u)
        | inr e ↦
            let move : (t : State) → Confined n (view s) (view t) → Untouched t = λ t c.
              IsUntouched-Kept ns labels (view s) (view t) (c.others ns (not_skipped n e)) u in
            Post-bind (λ _ t. Untouched t × Stored t) (λ _ t. Untouched t) (λ _ t. Untouched t)
              (reconcile_quota Q C rl q acc) (after Q C L rl old qs) s
              (Post-imp _ _ _ _ (reconcile_quota Q C rl q acc s)
                (λ _ t c. (move t c, ap (λ l. l rl.object_meta.name) c.limiters ∙ stored))
                (λ _ t c. move t c) (reconcile_quota-Confined q acc s e))
              (λ flow t (v, kept).
                followed qs flow t (λ acc'. reconcile_loop-IsUntouched qs acc' t kept v) v)
      ]
