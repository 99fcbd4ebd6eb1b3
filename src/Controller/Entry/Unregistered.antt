-- ===== src/Controller/Entry/Unregistered.antt =====
-- A request for a limiter that does not have the finalizer.
use resourcelimiter.Prelude.{
  ◌≡◌, refl, sym, ap, ◌∙◌, Bool-cases, false, some, ◌⊎◌, inl, inr, eq_iff, ◌==◌, String,
}
use mathlib.Core.Option.{some-injective}
use resourcelimiter.Api.Constants.{default_finalizer}
use resourcelimiter.Api.V1beta2.{ResourceLimiter}
use resourcelimiter.Controller.Exec.{Post, Post-imp, Post-handle, raise}
use resourcelimiter.Controller.Platform.{Quantities, Client, NamespacedName}
use resourcelimiter.Controller.Platform.View.{View, put_limiter, IsLawful}
use resourcelimiter.Controller.Platform.Kept.{ReadFault-same, WriteFault-change}
use resourcelimiter.Controller.Entry.{register_finalizer, ensure_finalizer, add_to_newrl}

module _ (Q : Quantities) (C : Client Q.Quantity) {Flaky : Type 0} (L : IsLawful C Flaky) where
  open Q use {Quantity}
  open C use {State}
  open L use {view}

  -- The cluster holds the limiter and no other of its name.
  put_same :
      (name : String) (rl : ResourceLimiter) (v : View Quantity)
      → v.limiters name ≡ some rl
      → (j : String) → (put_limiter name (some rl) v).limiters j ≡ v.limiters j
  put_same name rl v e j = elim (Bool-cases (name == j)) [
    | inl h ↦ rw h (sym e ∙ ap v.limiters ((eq_iff name j).0 h))
    | inr h ↦ rw h refl
  ]

  view_same :
      (name : String) (rl : ResourceLimiter) (v : View Quantity)
      → v.limiters name ≡ some rl
      → put_limiter name (some rl) v ≡ v
  view_same name rl v e i = record v { limiters = λ j. put_same name rl v e j i }

  either_same : {u v w : View Quantity} → w ≡ v → (u ≡ v) ⊎ (u ≡ w) → u ≡ v
  either_same e (inl p) = p
  either_same e (inr p) = p ∙ e

  module _ (req : NamespacedName) (rl : ResourceLimiter) (called : rl.object_meta.name ≡ req.name)
      (s : State) (stored : (view s).limiters req.name ≡ some rl) where
    abbrev registered : ResourceLimiter
    registered = (add_to_newrl Q C (record { rl = rl; newrl = rl })).newrl

    here : (view s).limiters rl.object_meta.name ≡ some rl
    here = ap (view s).limiters called ∙ stored

    unpatched :
        put_limiter rl.object_meta.name (L.patched registered registered rl) (view s) ≡ view s
    unpatched =
        ap (λ o. put_limiter rl.object_meta.name o (view s)) (L.patched_same registered rl)
        ∙ view_same rl.object_meta.name rl (view s) here

    register_finalizer-same :
        Post
          (λ _ t. view t ≡ view s)
          (λ _ t. view t ≡ view s)
          (register_finalizer Q C (record { rl = rl; newrl = rl }) s)
    unfolding register_finalizer
    register_finalizer-same =
        Post-imp _ _ _ _ (C.patch_limiter registered registered s) (λ _ t e. e ∙ unpatched)
          (λ e t f. either_same unpatched (WriteFault-change Flaky (view s) _ _ (view t) e f))
          (L.patch_limiter_law registered registered s rl here)

    -- A limiter without the finalizer, as the cluster holds it: the part of a request that is to
    -- register the finalizer changes nothing in the cluster, and goes on with the limiter as it
    -- was.
    pub ensure_finalizer-same :
        C.contains_finalizer rl.object_meta.finalizers default_finalizer ≡ false
        → Post
            (λ r t. (view t ≡ view s) × (r ≡ rl))
            (λ _ t. view t ≡ view s)
            (ensure_finalizer Q C req rl s)
    unfolding ensure_finalizer
    ensure_finalizer-same missing = rw missing (
        Post-handle (λ _ t. view t ≡ view s) (λ _ t. view t ≡ view s)
          (λ r t. (view t ≡ view s) × (r ≡ rl)) (λ _ t. view t ≡ view s)
          (register_finalizer Q C (record { rl = rl; newrl = rl })) (λ _. C.get_limiter req) raise s
          register_finalizer-same
          (λ _ t same.
            Post-imp _ _ _ _ (C.get_limiter req t)
              (λ r u (still, read). (
                still ∙ same,
                some-injective r rl (sym read ∙ ap (λ v. v.limiters req.name) same ∙ stored),
              ))
              (λ e u f. ReadFault-same Flaky (view t) _ (view u) e f ∙ same)
              (L.get_limiter_law req t))
          (λ e t f. f) (λ t f. f))
