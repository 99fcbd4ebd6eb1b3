-- ===== src/Controller/Entry/Ignored.antt =====
-- The namespaces "kube-system" and "kube-public" over any sequence of requests.
use resourcelimiter.Prelude.{
  String, ◌≡◌, refl, sym, ap, ◌∙◌, subst, Bool-cases, true, Option, none, some, [], Map, ◌⊎◌, inl,
  inr,
}
use resourcelimiter.Api.Constants.{default_finalizer}
use resourcelimiter.Api.V1beta2.{ResourceLimiter}
use resourcelimiter.Controller.Exec.{Outcome, ok, fail, error, raise, ◌>>=◌, Post, Post-handle}
use resourcelimiter.Controller.Platform.{Quantities, Client, NamespacedName}
use resourcelimiter.Controller.Platform.View.{View, IsLawful}
use resourcelimiter.Controller.Platform.Kept.{Kept, ReadFault-same}
use resourcelimiter.Controller.Platform.Untouched.{IsUntouched, IsUntouched-Kept, IsUntouched-eq}
use resourcelimiter.Controller.Reconcile.{is_ignored, reconcile}
use resourcelimiter.Controller.Reconcile.Untouched.{reconcile_loop-IsUntouched}
use resourcelimiter.Controller.Deletion.Untouched.{reconcile_delete-IsUntouched}
use resourcelimiter.Controller.Entry.{ensure_finalizer, dispatch, reconcile_request}
use resourcelimiter.Controller.Entry.Unregistered.{ensure_finalizer-same}

module _ (Q : Quantities) (C : Client Q.Quantity) {Flaky : Type 0} (L : IsLawful C Flaky) where
  open Q use {Quantity}
  open C use {State}
  open L use {view}

  -- Each limiter is held under its own name.
  abbrev pub IsNamed : View Quantity → Type 0
  IsNamed v = (n : String) (rl : ResourceLimiter) → v.limiters n ≡ some rl → rl.object_meta.name ≡ n

  -- The states that requests lead to, for any limiters and with any outcome, while others change
  -- the cluster in between, but for the labels and the resource quotas of one namespace.
  pub data Reaches (ns : String) (s : State) : State → Type 0 where
    here : Reaches ns s s
    request :
        (req : NamespacedName) (t : State)
        → IsNamed (view t)
        → Reaches ns s t
        → Reaches ns s (reconcile_request Q C req t).1
    edit : (t u : State) → Kept ns (view t) (view u) → Reaches ns s t → Reaches ns s u

  module _ (ns : String) (labels : Option (Map String)) (skipped : is_ignored ns ≡ true) where
    abbrev Untouched : State → Type 0
    Untouched t = IsUntouched ns labels (view t)

    abbrev Keeps : {A : Type 0} → Outcome A × State → Type 0
    Keeps = Post (λ _ t. Untouched t) (λ _ t. Untouched t)

    module _ (req : NamespacedName) (rl : ResourceLimiter)
        (called : rl.object_meta.name ≡ req.name) where
      dispatch-Keeps :
          (deleted : Option String) (s : State)
          → (view s).limiters req.name ≡ some rl
          → Untouched s
          → Keeps (dispatch Q C deleted rl s)
      unfolding reconcile
      dispatch-Keeps none s stored u =
          reconcile_loop-IsUntouched Q C L ns labels skipped rl rl rl.spec.quotas [] s
            (ap (view s).limiters called ∙ stored) u
      dispatch-Keeps (some at) s stored u =
          reconcile_delete-IsUntouched Q C L ns labels rl rl s
            (ap (view s).limiters called ∙ stored) u

      ensured :
          (s : State)
          → (view s).limiters req.name ≡ some rl
          → Post
              (λ r t. (view t ≡ view s) × (r ≡ rl))
              (λ _ t. view t ≡ view s)
              (ensure_finalizer Q C req rl s)
      unfolding ensure_finalizer
      ensured s stored =
          elim (Bool-cases (C.contains_finalizer rl.object_meta.finalizers default_finalizer)) [
            | inl e ↦ rw e (refl, refl)
            | inr e ↦ ensure_finalizer-same Q C L req rl called s stored e
          ]

      followed :
          (s : State)
          → (view s).limiters req.name ≡ some rl
          → Untouched s
          → Keeps (
              (ensure_finalizer Q C req rl >>= λ r. dispatch Q C r.object_meta.deletion_timestamp r)
                s)
      followed s stored u =
          Post-handle (λ r t. (view t ≡ view s) × (r ≡ rl)) (λ _ t. view t ≡ view s)
            (λ _ t. Untouched t) (λ _ t. Untouched t) (ensure_finalizer Q C req rl) _ raise s
            (ensured s stored)
            (λ r t (same, e).
              subst (λ x. Keeps (dispatch Q C x.object_meta.deletion_timestamp x t)) (sym e)
                (dispatch-Keeps rl.object_meta.deletion_timestamp t
                  (ap (λ v. v.limiters req.name) same ∙ stored)
                  (IsUntouched-eq ns labels (view s) (view t) same u)))
            (λ e t same. IsUntouched-eq ns labels (view s) (view t) same u)
            (λ t same. IsUntouched-eq ns labels (view s) (view t) same u)

    reconcile_request-Keeps :
        (req : NamespacedName) (s : State)
        → IsNamed (view s)
        → Untouched s
        → Keeps (reconcile_request Q C req s)
    unfolding reconcile_request
    reconcile_request-Keeps req s names u =
        Post-handle _ _ (λ _ t. Untouched t) (λ _ t. Untouched t) (C.get_limiter req) _ raise s
          (L.get_limiter_law req s)
          (λ rl t (same, found).
            followed req rl (names req.name rl found) t (ap (λ v. v.limiters req.name) same ∙ found)
              (IsUntouched-eq ns labels (view s) (view t) same u))
          (λ e t f.
            IsUntouched-eq ns labels (view s) (view t)
              (ReadFault-same Flaky (view s) _ (view t) (error e) f) u)
          (λ t f. absurd f)

    left : {A : Type 0} (r : Outcome A × State) → Keeps r → Untouched r.1
    left (ok a, t) k = k
    left (fail e, t) k = k

    reached :
        (s t : State)
        → Reaches ns s t
        → IsUntouched ns labels (view s)
        → IsUntouched ns labels (view t)
    reached s _ here u = u
    reached s _ (request req t names r) u =
        left (reconcile_request Q C req t) (reconcile_request-Keeps req t names (reached s t r u))
    reached s _ (edit t v kept r) u =
        IsUntouched-Kept ns labels (view t) (view v) kept (reached s t r u)

  skipped_by_name :
      (ns : String) → (ns ≡ "kube-system") ⊎ (ns ≡ "kube-public") → is_ignored ns ≡ true
  skipped_by_name ns (inl e) = ap is_ignored e
  skipped_by_name ns (inr e) = ap is_ignored e

  -- A namespace "kube-system" or "kube-public" without a resource quota of the program: after any
  -- sequence of requests, for any limiters that are held under their names and with any outcome,
  -- and whatever others do in between to the rest of the cluster, it still has no resource quota of
  -- the program, and its labels are as they were.
  pub Reaches-IsUntouched :
      (ns : String) (labels : Option (Map String)) (s t : State)
      → (ns ≡ "kube-system") ⊎ (ns ≡ "kube-public")
      → Reaches ns s t
      → IsUntouched ns labels (view s)
      → IsUntouched ns labels (view t)
  Reaches-IsUntouched ns labels s t named r u = reached ns labels (skipped_by_name ns named) s t r u
