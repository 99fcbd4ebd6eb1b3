-- ===== src/Controller/Platform/Kept.antt =====
-- A namespace whose labels and resource quotas are left as they were.
use resourcelimiter.Prelude.{
  String, ◌≡◌, ◌≢◌, refl, ◌∙◌, sym, subst, Option, none, Map, ◌⊎◌, inl, inr, arith, eq_iff,
}
use resourcelimiter.Api.V1beta2.{ResourceLimiter}
use resourcelimiter.Controller.Exec.{Fault, error, panicked, not_found, failure}
use resourcelimiter.Controller.Platform.{NamespacedName, named}
use resourcelimiter.Controller.Platform.View.{
  View, put_labels, put_hard, put_limiter, ReadFault, WriteFault,
}

pub record Kept {Quantity : Type 0} (r : String) (before after : View Quantity) : Type 0 where
  pub labels : after.namespaces r ≡ before.namespaces r
  pub hard : (n : String) → after.quotas (named r n) ≡ before.quotas (named r n)

module _ {Quantity : Type 0} {r : String} where
  pub Kept-refl : (v : View Quantity) → Kept r v v
  Kept-refl v = record { labels = refl; hard = λ n. refl }

  pub Kept-trans : {u v w : View Quantity} → Kept r u v → Kept r v w → Kept r u w
  Kept-trans h k = record { labels = k.labels ∙ h.labels; hard = λ n. k.hard n ∙ h.hard n }

  pub Kept-put_labels :
      (n : String) (labels : Map String) (v : View Quantity)
      → n ≢ r
      → Kept r v (put_labels n labels v)
  Kept-put_labels n labels v ne = record { labels = ground (arith, eq_iff n r); hard = λ n. refl }

  pub Kept-put_hard :
      (k : NamespacedName) (hard : Option (Map Quantity)) (v : View Quantity)
      → k.namespace ≢ r
      → Kept r v (put_hard k hard v)
  Kept-put_hard k hard v ne = record {
    labels = refl;
    hard = λ n. ground (arith, eq_iff k.namespace r);
  }

  pub Kept-put_limiter :
      (n : String) (rl : Option ResourceLimiter) (v : View Quantity) → Kept r v (put_limiter n rl v)
  Kept-put_limiter n rl v = record { labels = refl; hard = λ n. refl }

-- A change that concerns one namespace: all others are kept, and every resource limiter.
pub record Confined {Quantity : Type 0} (ns : String) (before after : View Quantity) : Type 0 where
  pub others : (r : String) → ns ≢ r → Kept r before after
  pub limiters : after.limiters ≡ before.limiters

module _ {Quantity : Type 0} {ns : String} where
  pub Confined-refl : (v : View Quantity) → Confined ns v v
  Confined-refl v = record { others = λ r ne. Kept-refl v; limiters = refl }

  pub Confined-trans : {u v w : View Quantity} → Confined ns u v → Confined ns v w → Confined ns u w
  Confined-trans h k = record {
    others = λ r ne. Kept-trans (h.others r ne) (k.others r ne);
    limiters = k.limiters ∙ h.limiters;
  }

  pub Confined-put_labels :
      (n : String) (labels : Map String) (v : View Quantity)
      → n ≡ ns
      → Confined ns v (put_labels n labels v)
  Confined-put_labels n labels v e = record {
    others = λ r ne. Kept-put_labels n labels v (λ h. ne (sym e ∙ h));
    limiters = refl;
  }

  pub Confined-put_hard :
      (k : NamespacedName) (hard : Option (Map Quantity)) (v : View Quantity)
      → k.namespace ≡ ns
      → Confined ns v (put_hard k hard v)
  Confined-put_hard k hard v e = record {
    others = λ r ne. Kept-put_hard k hard v (λ h. ne (sym e ∙ h));
    limiters = refl;
  }

  pub Confined-eq : {u v w : View Quantity} → Confined ns u v → w ≡ v → Confined ns u w
  Confined-eq {u} h e = subst (Confined ns u) (sym e) h

-- What a fault of a call says: the change that may have been made, and the reason.
module _ {V : Type 0} (Flaky : Type 0) {X : Type 0} (before : V) (o : Option X) where
  pub ReadFault-same : (after : V) (e : Fault) → ReadFault Flaky before o after e → after ≡ before
  ReadFault-same after (error not_found) f = f.0
  ReadFault-same after (error (failure m)) f = f.0
  ReadFault-same after panicked f = absurd f

  pub ReadFault-reason :
      (after : V) (e : Fault) → ReadFault Flaky before o after e → Flaky ⊎ (o ≡ none)
  ReadFault-reason after (error not_found) f = inr f.1
  ReadFault-reason after (error (failure m)) f = inl f.1
  ReadFault-reason after panicked f = absurd f

  pub WriteFault-change :
      (new after : V) (e : Fault)
      → WriteFault Flaky before o new after e
      → (after ≡ before) ⊎ (after ≡ new)
  WriteFault-change new after (error not_found) f = inl f.0
  WriteFault-change new after (error (failure m)) f = f.0
  WriteFault-change new after panicked f = absurd f

  pub WriteFault-reason :
      (new after : V) (e : Fault) → WriteFault Flaky before o new after e → Flaky ⊎ (o ≡ none)
  WriteFault-reason new after (error not_found) f = inr f.1
  WriteFault-reason new after (error (failure m)) f = inl f.1
  WriteFault-reason new after panicked f = absurd f

module _ {Quantity : Type 0} {ns : String} where
  pub Confined-change :
      {u v w new : View Quantity}
      → Confined ns u v
      → Confined ns v new
      → (w ≡ v) ⊎ (w ≡ new)
      → Confined ns u w
  Confined-change h k (inl same) = Confined-eq h same
  Confined-change h k (inr made) = Confined-eq (Confined-trans h k) made
