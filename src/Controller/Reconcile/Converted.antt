-- ===== src/Controller/Reconcile/Converted.antt =====
-- The reconciliation of an object that was converted from v1beta1.
use resourcelimiter.Prelude.{
  String, ◌≡◌, refl, sym, ap, ◌∙◌, subst, false, none, List, [], ◌∷◌, ◌++◌, map, replicate, length,
  is_empty,
}
use resourcelimiter.Api.V1beta1
use resourcelimiter.Api.V1beta2.{ResourceLimiter, ResourceLimiterQuota, zero_quota}
use resourcelimiter.Api.Conversion.{Hub, limiter, other, quota_of, convert_to}
use resourcelimiter.Api.Conversion.Laws.{converted, convert_to-eq}
use resourcelimiter.Controller.Exec.{Outcome, error, raise, Post, Post-handle}
use resourcelimiter.Controller.Platform.{Quantities, Client, named}
use resourcelimiter.Controller.Platform.View.{IsLawful}
use resourcelimiter.Controller.Platform.Kept.{ReadFault-same}
use resourcelimiter.Controller.Reconcile.{
  reconcile, reconcile_loop, reconcile_quota, mark_namespace,
}

-- The quotas start with an empty one.
converted-first :
    (spec : V1beta1.ResourceLimiterSpec)
    → is_empty spec.targets ≡ false
    → (rest : List ResourceLimiterQuota) × (converted spec ≡ zero_quota ∷ rest)
converted-first spec nonempty = first spec.targets nonempty
  where
    first :
        (targets : List String)
        → is_empty targets ≡ false
        → (rest : List ResourceLimiterQuota) × (replicate (length targets) zero_quota
              ++ map (quota_of spec.types) spec.targets
            ≡ zero_quota ∷ rest)
    first [] e = cc
    first (target ∷ targets) e = (_, refl)

abbrev quotas_of : Hub → List ResourceLimiterQuota
quotas_of (limiter rl) = rl.spec.quotas
quotas_of other = []

module _ (Q : Quantities) (C : Client Q.Quantity) {Flaky : Type 0} (L : IsLawful C Flaky) where
  open Q use {Quantity}
  open C use {State}
  open L use {view}

  abbrev Fails : {A : Type 0} → State → Outcome A × State → Type 0
  Fails s = Post (λ _ _. ⊥) (λ _ t. view t ≡ view s)

  mark_namespace-Fails :
      (s : State) → (view s).namespaces "" ≡ none → Fails s (mark_namespace Q C "" s)
  unfolding mark_namespace
  mark_namespace-Fails s unnamed =
      Post-handle _ _ (λ _ _. ⊥) (λ _ t. view t ≡ view s) (C.get_namespace (named "" "")) _ raise s
        (L.get_namespace_law (named "" "") s) (λ n t r. cc (sym unnamed ∙ r.2))
        (λ e t f. ReadFault-same Flaky (view s) _ (view t) (error e) f) (λ t f. absurd f)

  reconcile_quota-Fails :
      (rl : ResourceLimiter) (acc : List ResourceLimiterQuota) (s : State)
      → (view s).namespaces "" ≡ none
      → Fails s (reconcile_quota Q C rl zero_quota acc s)
  unfolding reconcile_quota
  reconcile_quota-Fails rl acc s unnamed =
      Post-handle (λ _ _. ⊥) (λ _ t. view t ≡ view s) (λ _ _. ⊥) (λ _ t. view t ≡ view s)
        (mark_namespace Q C "") _ raise s (mark_namespace-Fails s unnamed) (λ n t r. absurd r)
        (λ e t f. f) (λ t f. f)

  -- A v1beta2 object that ConvertTo has made of a v1beta1 object with a target: in a cluster
  -- without a namespace of the empty name its reconciliation never succeeds, whether it is applied
  -- or not, and changes nothing.
  pub reconcile-converted :
      (src : V1beta1.ResourceLimiter) (dst rl : ResourceLimiter) (s : State)
      → convert_to src (limiter dst) ≡ (limiter rl, none)
      → is_empty src.spec.targets ≡ false
      → (view s).namespaces "" ≡ none
      → Post (λ _ _. ⊥) (λ _ t. view t ≡ view s) (reconcile Q C rl s)
  unfolding reconcile reconcile_loop
  reconcile-converted src dst rl s e nonempty unnamed =
      let (rest, starts) = converted-first src.spec nonempty in
      let quotas = ap (λ r. quotas_of r.0) (sym e ∙ convert_to-eq src dst) ∙ starts in
      subst (λ qs. Fails s (reconcile_loop Q C rl qs [] s)) (sym quotas)
        (Post-handle (λ _ _. ⊥) (λ _ t. view t ≡ view s) (λ _ _. ⊥) (λ _ t. view t ≡ view s)
          (reconcile_quota Q C rl zero_quota []) _ raise s (reconcile_quota-Fails rl [] s unnamed)
          (λ n t r. absurd r) (λ e t f. f) (λ t f. f))
