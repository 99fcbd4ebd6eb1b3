-- ===== src/Api/Conversion/Growth.antt =====
-- Conversions to the old version and back, over and over.
use resourcelimiter.Prelude.{
  ◌≡◌, sym, ap, ◌∙◌, List, [], ◌∷◌, replicate, length, length-append, length-replicate, length-map,
  ℕ, zero, suc, ◌+◌, ◌*◌, ◌^◌, arith,
}
use native.Mathlib.Nat.{pow-suc}
use resourcelimiter.Api.V1beta1
use resourcelimiter.Api.V1beta2
use resourcelimiter.Api.V1beta2.{ResourceLimiterQuota, zero_quota, zero_limiter}
use resourcelimiter.Api.Conversion.{Hub, limiter, other, convert_to, convert_from}
use resourcelimiter.Api.Conversion.RoundTrip.{levelled, convert_to-convert_from}

-- What a conversion has filled.
abbrev quotas_of : Hub → List ResourceLimiterQuota
quotas_of (limiter rl) = rl.spec.quotas
quotas_of other = []

abbrev object_of : Hub → V1beta2.ResourceLimiter
object_of (limiter rl) = rl
object_of other = zero_limiter

power_suc : (n a b : ℕ) → a ≡ b + b → 2 ^ n * a ≡ 2 ^ suc n * b
power_suc n a b h = rw (h, pow-suc) (omega arith)

module _ (mid : V1beta1.ResourceLimiter) (dst : V1beta2.ResourceLimiter) where
  -- An object is stored in the old version and read in the new one: both start from fresh objects.
  unfoldable pub store_and_read : V1beta2.ResourceLimiter → V1beta2.ResourceLimiter
  store_and_read rl = object_of (convert_to (convert_from mid (limiter rl)).0 (limiter dst)).0

  unfoldable pub repeated : ℕ → V1beta2.ResourceLimiter → V1beta2.ResourceLimiter
  unfolding store_and_read
  repeated zero rl = rl
  repeated (suc n) rl = repeated n (store_and_read rl)

  length-levelled :
      (q : ResourceLimiterQuota) (qs : List ResourceLimiterQuota)
      → length (levelled q qs) ≡ length (q ∷ qs) + length (q ∷ qs)
  length-levelled q qs =
      length-append (replicate (length (q ∷ qs)) zero_quota) _
      ∙ cc (length-replicate (length (q ∷ qs)) zero_quota, length-map _ (q ∷ qs))

  store_and_read-levelled :
      (rl : V1beta2.ResourceLimiter) (q : ResourceLimiterQuota) (qs : List ResourceLimiterQuota)
      → rl.spec.quotas ≡ q ∷ qs
      → (store_and_read rl).spec.quotas ≡ levelled q qs
  unfolding store_and_read
  store_and_read-levelled rl q qs e =
      ap (λ r. (object_of r.0).spec.quotas) (convert_to-convert_from rl dst mid e)

  -- A v1beta2 object with at least one quota that is converted to v1beta1 and back n times, into
  -- the same fresh objects each time, has 2 ^ n times as many quotas as before.
  pub length-repeated :
      (n : ℕ) (rl : V1beta2.ResourceLimiter) (q : ResourceLimiterQuota)
      (qs : List ResourceLimiterQuota)
      → rl.spec.quotas ≡ q ∷ qs
      → length (repeated n rl).spec.quotas ≡ 2 ^ n * length rl.spec.quotas
  unfolding repeated
  length-repeated zero rl q qs e = omega arith
  length-repeated (suc n) rl q qs e =
      let new = store_and_read-levelled rl q qs e in
      length-repeated n (store_and_read rl) _ _ new
      ∙ power_suc n _ _
          (ap length new ∙ length-levelled q qs ∙ ap (λ l. length l + length l) (sym e))
