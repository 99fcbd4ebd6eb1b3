-- ===== src/Controller/Platform/Untouched.antt =====
-- A namespace that has no resource quota of the program and whose labels stay.
use resourcelimiter.Prelude.{
  String, ◌≡◌, sym, ap, ◌∙◌, subst, Option, none, some, Map, ◌⊎◌, inl, inr,
}
use resourcelimiter.Api.V1beta2.{ResourceLimiter}
use resourcelimiter.Controller.Platform.View.{View, put_limiter}
use resourcelimiter.Controller.Platform.Kept.{Kept, Kept-put_limiter, Confined}
use resourcelimiter.Controller.Reconcile.{quota_name, quota_key}

pub record IsUntouched {Quantity : Type 0} (ns : String) (labels : Option (Map String))
    (v : View Quantity) : Type 0 where
  pub labels_stay : v.namespaces ns ≡ labels
  pub unlimited : v.quotas (quota_key ns) ≡ none

-- A step that has read the resource quota of the namespace `n` before it changed that namespace.
pub record Touches {Quantity : Type 0} (n : String) (v w : View Quantity) : Type 0 where
  pub hard : Map Quantity
  pub limited : v.quotas (quota_key n) ≡ some hard
  pub confined : Confined n v w

abbrev pub Changed : {Quantity : Type 0} → String → View Quantity → View Quantity → Type 0
Changed n v w = (w ≡ v) ⊎ Touches n v w

module _ {Quantity : Type 0} (ns : String) (labels : Option (Map String)) where
  pub IsUntouched-Kept :
      (v w : View Quantity) → Kept ns v w → IsUntouched ns labels v → IsUntouched ns labels w
  IsUntouched-Kept v w k u = record {
    labels_stay = k.labels ∙ u.labels_stay;
    unlimited = k.hard (quota_name ns) ∙ u.unlimited;
  }

  pub IsUntouched-eq :
      (v w : View Quantity) → w ≡ v → IsUntouched ns labels v → IsUntouched ns labels w
  IsUntouched-eq v w e u = subst (IsUntouched ns labels) (sym e) u

  pub IsUntouched-put_limiter :
      (name : String) (o : Option ResourceLimiter) (v w : View Quantity)
      → (w ≡ v) ⊎ (w ≡ put_limiter name o v)
      → IsUntouched ns labels v
      → IsUntouched ns labels w
  IsUntouched-put_limiter name o v w (inl e) u = IsUntouched-eq v w e u
  IsUntouched-put_limiter name o v w (inr e) u =
      IsUntouched-eq (put_limiter name o v) w e
        (IsUntouched-Kept v (put_limiter name o v) (Kept-put_limiter name o v) u)

  pub IsUntouched-Changed :
      (n : String) (v w : View Quantity)
      → Changed n v w
      → IsUntouched ns labels v
      → IsUntouched ns labels w
  IsUntouched-Changed n v w (inl e) u = IsUntouched-eq v w e u
  IsUntouched-Changed n v w (inr t) u = IsUntouched-Kept v w (t.confined.others ns (λ e. other e)) u
    where
      other : n ≡ ns → ⊥
      other e = cc (sym t.limited ∙ ap (λ x. v.quotas (quota_key x)) e ∙ u.unlimited)

pub Changed-limiters :
    {Quantity : Type 0} (n : String) (v w : View Quantity) → Changed n v w → w.limiters ≡ v.limiters
Changed-limiters n v w (inl e) = ap (λ x. x.limiters) e
Changed-limiters n v w (inr t) = t.confined.limiters
