-- ===== src/Controller/Reconcile/Targets.antt =====
-- The quotas of a spec as a list of targets: which namespaces they name, how many still lack their
-- resource quota, and that a change in one namespace does not matter to the others.
use resourcelimiter.Prelude.{
  String, ℕ, ◌+◌, ◌≡◌, ◌≢◌, refl, sym, ◌∙◌, true, false, Option, none, some, List, [], ◌∷◌, ◌⊎◌,
  inl, inr, All, if◌then◌else◌, Bool-cases,
}
use resourcelimiter.Api.V1beta2.{ResourceLimiterQuota}
use resourcelimiter.Controller.Platform.{Quantities}
use resourcelimiter.Controller.Platform.View.{View}
use resourcelimiter.Controller.Platform.Kept.{Kept, Confined}
use resourcelimiter.Controller.Reconcile.{is_ignored, quota_name, quota_key}
use resourcelimiter.Controller.Reconcile.Spec.{IsEnforced, Obstacle}

-- No quota that is acted on names the namespace.
abbrev pub Apart : String → List ResourceLimiterQuota → Type 0
Apart ns = All (λ q. (is_ignored q.namespace_name ≡ true) ⊎ (q.namespace_name ≢ ns))

-- No two quotas that are acted on name the same namespace.
abbrev pub Distinct : List ResourceLimiterQuota → Type 0
Distinct [] = Unit
Distinct (q ∷ qs) = Apart q.namespace_name qs × Distinct qs

-- The names of the resource quotas of the namespaces that are acted on, in order.
abbrev pub covered : List ResourceLimiterQuota → List String
covered [] = []
covered (q ∷ qs) =
    let rest = covered qs in
    if is_ignored q.namespace_name then rest else quota_name q.namespace_name ∷ rest

abbrev pub one_if_none : {X : Type 0} → Option X → ℕ
one_if_none none = 1
one_if_none (some _) = 0

module _ {Quantity : Type 0} where
  -- The number of namespaces that are acted on and have no resource quota yet.
  abbrev pub missing : View Quantity → List ResourceLimiterQuota → ℕ
  missing v [] = 0
  missing v (q ∷ qs) =
      (if is_ignored q.namespace_name
        then 0
        else one_if_none (v.quotas (quota_key q.namespace_name)))
      + missing v qs

  pub missing-kept :
      (ns : String) (v w : View Quantity) (qs : List ResourceLimiterQuota)
      → Apart ns qs
      → Confined ns v w
      → missing w qs ≡ missing v qs
  missing-kept ns v w [] a c = refl
  missing-kept ns v w (q ∷ qs) (inl e, a) c = rw (e, missing-kept ns v w qs a c)
  missing-kept ns v w (q ∷ qs) (inr ne, a) c = rw (
    (c.others q.namespace_name (λ e. ne (sym e))).hard (quota_name q.namespace_name),
    missing-kept ns v w qs a c,
  )

module _ (Q : Quantities) where
  open Q use {Quantity}

  -- A quota of the spec is ignored, or enforced.
  abbrev pub Served : View Quantity → ResourceLimiterQuota → Type 0
  Served v q = (is_ignored q.namespace_name ≡ true) ⊎ IsEnforced Q v q

  -- Some quota that is acted on cannot be enforced.
  abbrev pub Blocked : View Quantity → List ResourceLimiterQuota → Type 0
  Blocked v [] = ⊥
  Blocked v (q ∷ qs) = ((is_ignored q.namespace_name ≡ false) × Obstacle Q v q) ⊎ Blocked v qs

  pub Blocked-kept :
      (ns : String) (v w : View Quantity) (qs : List ResourceLimiterQuota)
      → Apart ns qs
      → Confined ns v w
      → Blocked w qs
      → Blocked v qs
  Blocked-kept ns v w [] a c b = b
  Blocked-kept ns v w (q ∷ qs) (p, a) c (inr b) = inr (Blocked-kept ns v w qs a c b)
  Blocked-kept ns v w (q ∷ qs) (inl e, a) c (inl (noticed, o)) =
      absurd (true_not_false (sym e ∙ noticed))
    where
      true_not_false : true ≡ false → ⊥
      true_not_false h = cc
  Blocked-kept ns v w (q ∷ qs) (inr ne, a) c (inl (noticed, inl o)) =
      inl (noticed, inl (sym (c.others q.namespace_name (λ e. ne (sym e))).labels ∙ o))
  Blocked-kept ns v w (q ∷ qs) (inr ne, a) c (inl (noticed, inr o)) = inl (noticed, inr o)

  pub IsEnforced-Kept :
      (v w : View Quantity) (q : ResourceLimiterQuota)
      → Kept q.namespace_name v w
      → IsEnforced Q v q
      → IsEnforced Q w q
  IsEnforced-Kept v w q k e = record {
    labels = e.labels;
    labelled = k.labels ∙ e.labelled;
    marked = e.marked;
    hard = e.hard;
    asked = e.asked;
    limited = k.hard (quota_name q.namespace_name) ∙ e.limited;
  }

  not-Obstacle :
      (v : View Quantity) (q : ResourceLimiterQuota) → IsEnforced Q v q → ¬ Obstacle Q v q
  not-Obstacle v q e (inl none_labels) = cc (sym none_labels ∙ e.labelled)
  not-Obstacle v q e (inr none_asked) = cc (sym none_asked ∙ e.asked)

  -- What is enforced is not what blocks a list.
  pub Blocked-tail :
      (v : View Quantity) (q : ResourceLimiterQuota) (qs : List ResourceLimiterQuota)
      → Served v q
      → Blocked v (q ∷ qs)
      → Blocked v qs
  Blocked-tail v q qs s (inr b) = b
  Blocked-tail v q qs (inr e) (inl (noticed, o)) = absurd (not-Obstacle v q e o)
  Blocked-tail v q qs (inl e) (inl (noticed, o)) = cc (sym e ∙ noticed)

  pub not-Blocked :
      (v : View Quantity) (qs : List ResourceLimiterQuota) → All (Served v) qs → ¬ Blocked v qs
  not-Blocked v [] h b = b
  not-Blocked v (q ∷ qs) (s, h) b = not-Blocked v qs h (Blocked-tail v q qs s b)

  -- Where all is served, no resource quota is missing.
  pub missing-Served :
      (v : View Quantity) (qs : List ResourceLimiterQuota) → All (Served v) qs → missing v qs ≡ 0
  missing-Served v [] h = refl
  missing-Served v (q ∷ qs) (inl e, h) = rw (e, missing-Served v qs h)
  missing-Served v (q ∷ qs) (inr e, h) = elim (Bool-cases (is_ignored q.namespace_name)) [
    | inl i ↦ rw (i, missing-Served v qs h)
    | inr i ↦ rw (i, e.limited, missing-Served v qs h)
  ]
