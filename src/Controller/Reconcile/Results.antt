-- ===== src/Controller/Reconcile/Results.antt =====
-- What a pass over the quotas leaves behind, put together round by round.
use resourcelimiter.Prelude.{
  String, suc, ◌≡◌, ap, ◌∙◌, Bool, true, false, Option, none, some, List, [], ◌∷◌, ◌++◌, map, ◌⊎◌,
  inl, inr, All, arith, Map,
}
use mathlib.Core.List.{append_assoc, map-append}
use resourcelimiter.Api.Constants.{ready}
use resourcelimiter.Api.V1beta2.{ResourceLimiter, ResourceLimiterQuota, ResourceLimiterStatus}
use resourcelimiter.Controller.Platform.{Quantities}
use resourcelimiter.Controller.Platform.View.{View, put_limiter}
use resourcelimiter.Controller.Platform.Kept.{Kept, Kept-refl, Kept-trans, Confined}
use resourcelimiter.Controller.Reconcile.{is_ignored, quota_name, quota_key}
use resourcelimiter.Controller.Reconcile.Spec.{IsEnforced}
use resourcelimiter.Controller.Reconcile.Targets.{
  Apart, covered, missing, missing-kept, Served, Blocked, Blocked-kept, Blocked-tail,
  IsEnforced-Kept,
}

abbrev pub names : List ResourceLimiterQuota → List String
names = map (λ q. q.namespace_name)

pub true_not_false : {b : Bool} → b ≡ true → b ≡ false → ⊥
true_not_false h k = cc

module _ {Quantity : Type 0} where
  -- Namespaces that no quota acted on names are as before.
  pub record Framed (qs : List ResourceLimiterQuota) (v w : View Quantity) : Type 0 where
    pub others : (r : String) → Apart r qs → Kept r v w

  pub Framed-refl : (qs : List ResourceLimiterQuota) (v : View Quantity) → Framed qs v v
  Framed-refl qs v = record { others = λ r a. Kept-refl v }

  pub Framed-cons :
      (q : ResourceLimiterQuota) (qs : List ResourceLimiterQuota) {u v w : View Quantity}
      → is_ignored q.namespace_name ≡ false
      → Confined q.namespace_name u v
      → Framed qs v w
      → Framed (q ∷ qs) u w
  Framed-cons q qs {u} {v} {w} noticed c f = record { others = others }
    where
      others : (r : String) → Apart r (q ∷ qs) → Kept r u w
      others r (inl e, a) = absurd (true_not_false e noticed)
      others r (inr ne, a) = Kept-trans (c.others r ne) (f.others r a)

module _ (Q : Quantities) (name : String) (old : ResourceLimiter) where
  open Q use {Quantity}

  -- A pass that has created a resource quota and left the status alone.
  pub record Progress (qs : List ResourceLimiterQuota) (v w : View Quantity) : Type 0 where
    pub one_less : suc (missing w qs) ≡ missing v qs
    pub limiters : w.limiters ≡ v.limiters
    pub unblocked : Blocked Q w qs → Blocked Q v qs

  -- The resource limiters once the status of this one is written.
  abbrev pub with_status : ResourceLimiterStatus → View Quantity → String → Option ResourceLimiter
  with_status status v = (put_limiter name (some (record old { status = status })) v).limiters

  -- A pass that has found all resource quotas, enforced each, and written the status.
  pub record Done (qs acc : List ResourceLimiterQuota) (v w : View Quantity) : Type 0 where
    pub served : All (Served Q w) qs
    pub none_missing : missing v qs ≡ 0
    pub lines : List ResourceLimiterQuota
    pub line_names : names lines ≡ names acc ++ covered qs
    pub limiters : w.limiters ≡ with_status (record { state = ready; quotas = lines }) v

  abbrev pub Passed :
      List ResourceLimiterQuota → List ResourceLimiterQuota → View Quantity → View Quantity → Type 0
  Passed qs acc v w = Framed qs v w × (Done qs acc v w ⊎ Progress qs v w)

  abbrev pub Stopped : Type 0 → List ResourceLimiterQuota → View Quantity → View Quantity → Type 0
  Stopped Flaky qs v w = Framed qs v w × (Flaky ⊎ Blocked Q v qs)

  module _ (q : ResourceLimiterQuota) (qs acc : List ResourceLimiterQuota) where
    -- An ignored quota changes nothing.
    pub Passed-ignored :
        (v w : View Quantity)
        → is_ignored q.namespace_name ≡ true
        → Passed qs acc v w
        → Passed (q ∷ qs) acc v w
    Passed-ignored v w e (f, inl d) = (
      record { others = λ r a. f.others r a.1 },
      inl (record {
        served = (inl e, d.served);
        none_missing = rw e (omega (arith, d.none_missing));
        lines = d.lines;
        line_names = rw e d.line_names;
        limiters = d.limiters;
      }),
    )
    Passed-ignored v w e (f, inr p) = (
      record { others = λ r a. f.others r a.1 },
      inr (record {
        one_less = rw e (omega (arith, p.one_less));
        limiters = p.limiters;
        unblocked = λ b. inr (p.unblocked (Blocked-tail Q w q qs (inl e) b));
      }),
    )

    pub Stopped-ignored :
        (Flaky : Type 0) (v w : View Quantity) → Stopped Flaky qs v w → Stopped Flaky (q ∷ qs) v w
    Stopped-ignored Flaky v w (f, inl x) = (record { others = λ r a. f.others r a.1 }, inl x)
    Stopped-ignored Flaky v w (f, inr b) = (record { others = λ r a. f.others r a.1 }, inr (inr b))

    module _ (v u : View Quantity) (noticed : is_ignored q.namespace_name ≡ false)
        (apart : Apart q.namespace_name qs) (c : Confined q.namespace_name v u) where
      pub Stopped-later :
          (Flaky : Type 0) (w : View Quantity) → Stopped Flaky qs u w → Stopped Flaky (q ∷ qs) v w
      Stopped-later Flaky w (f, inl x) = (Framed-cons q qs noticed c f, inl x)
      Stopped-later Flaky w (f, inr b) = (
        Framed-cons q qs noticed c f,
        inr (inr (Blocked-kept Q q.namespace_name v u qs apart c b)),
      )

      module _ (enforced : IsEnforced Q u q) where
        -- The round has created the resource quota, and ends the pass.
        pub Passed-created : v.quotas (quota_key q.namespace_name) ≡ none → Passed (q ∷ qs) acc v u
        Passed-created lacking = (
          Framed-cons q qs noticed c (Framed-refl qs u),
          inr (record {
            one_less =
                rw (noticed, lacking, enforced.limited)
                  (omega (arith, missing-kept q.namespace_name v u qs apart c));
            limiters = c.limiters;
            unblocked = λ b. inr (
                Blocked-kept Q q.namespace_name v u qs apart c
                  (Blocked-tail Q u q qs (inr enforced) b));
          }),
        )

        -- The round has updated it, and the pass went on.
        pub Passed-updated :
            (line : ResourceLimiterQuota) (w : View Quantity) {h : Map Quantity}
            → v.quotas (quota_key q.namespace_name) ≡ some h
            → line.namespace_name ≡ quota_name q.namespace_name
            → Passed qs (acc ++ (line ∷ [])) u w
            → Passed (q ∷ qs) acc v w
        Passed-updated line w present called (f, inl d) = (
          Framed-cons q qs noticed c f,
          inl (record {
            served = (
              inr (IsEnforced-Kept Q u w q (f.others q.namespace_name apart) enforced),
              d.served,
            );
            none_missing =
                rw (noticed, present)
                  (omega (arith, d.none_missing, missing-kept q.namespace_name v u qs apart c));
            lines = d.lines;
            line_names = d.line_names ∙ rw (noticed, map-append, append_assoc, called);
            limiters =
                d.limiters
                ∙ ap
                    (λ l.
                      with_status (record { state = ready; quotas = d.lines })
                        (record v { limiters = l }))
                    c.limiters;
          }),
        )
        Passed-updated line w present called (f, inr p) = (
          Framed-cons q qs noticed c f,
          inr (record {
            one_less =
                rw
                  (
                    noticed,
                    present,
                    (f.others q.namespace_name apart).hard (quota_name q.namespace_name)
                        ∙ enforced.limited,
                  )
                  (omega (arith, p.one_less, missing-kept q.namespace_name v u qs apart c));
            limiters = p.limiters ∙ c.limiters;
            unblocked = λ b. inr (
                Blocked-kept Q q.namespace_name v u qs apart c (
                  p.unblocked (
                    Blocked-tail Q w q qs
                      (inr (IsEnforced-Kept Q u w q (f.others q.namespace_name apart) enforced))
                      b)));
          }),
        )
