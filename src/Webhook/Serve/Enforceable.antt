-- ===== src/Webhook/Serve/Enforceable.antt =====
-- What the controller may rely on after the admission of a v1beta2 resource limiter.
use resourcelimiter.Prelude.{◌≡◌, refl, ◌∙◌, true, false, some, List, [], ◌∷◌, Map, All}
use resourcelimiter.Api.V1beta2
use resourcelimiter.Api.V1beta2.{ResourceLimiterQuota}
use resourcelimiter.Controller.Exec.{ok}
use resourcelimiter.Controller.Platform.{Quantities, ResourceQuota}
use resourcelimiter.Controller.Reconcile.{is_ignored, set_hard}
use resourcelimiter.Controller.Reconcile.Spec.{hard_of, set_hard_lem}
use resourcelimiter.Webhook.Admission.{AdmissionRequest, Codec, value}
use resourcelimiter.Webhook.Validate.Verdicts.{IsAdmissible}
use resourcelimiter.Webhook.Serve.Verdict.{verdict, verdict-v1beta2_iff}

module _ (Q : Quantities) (J : Codec Q.Quantity) where
  open Q use {Quantity, parse}

  IsAdmissible-hard_of :
      (quota : ResourceLimiterQuota)
      → IsAdmissible Q J quota
      → (h : Map Quantity) × (hard_of Q quota ≡ some h)
  unfolding hard_of
  IsAdmissible-hard_of quota adm =
      let (a, p) = adm.cpu_limit in
      let (b, q) = adm.cpu_request in
      let (c, r) = adm.mem_limit in
      let (d, s) = adm.mem_request in
      (
        ("limits.cpu", a)
            ∷ ("requests.cpu", b)
            ∷ ("limits.memory", c)
            ∷ ("requests.memory", d)
            ∷ [],
        rw (p, hard_of) (rw (q, hard_of) (rw (r, hard_of) (rw (s, hard_of) refl))),
      )

  -- The reconciliation looks at the quota, and `setHard` has the limits for it without a panic.
  pub record IsEnforceable (quota : ResourceLimiterQuota) : Type 1 where
    pub looked_at : is_ignored quota.namespace_name ≡ false
    pub hard : Map Quantity
    pub sets :
        {S : Type 0} (q : ResourceQuota Quantity) (s : S)
        → set_hard Q (record q { hard = [] }) quota s ≡ (ok (record q { hard = hard }), s)

  IsAdmissible-IsEnforceable :
      (quota : ResourceLimiterQuota) → IsAdmissible Q J quota → IsEnforceable quota
  IsAdmissible-IsEnforceable quota a =
      let (h, e) = IsAdmissible-hard_of quota a in
      record { looked_at = a.free; hard = h; sets = λ q s. set_hard_lem Q q quota s ∙ rw e refl }

  All-IsEnforceable :
      (quotas : List ResourceLimiterQuota)
      → All (IsAdmissible Q J) quotas
      → All IsEnforceable quotas
  All-IsEnforceable [] a = tt
  All-IsEnforceable (quota ∷ quotas) (a, rest) =
      (IsAdmissible-IsEnforceable quota a, All-IsEnforceable quotas rest)

  -- Where the webhook allows a request for a v1beta2 resource limiter that can be decoded, the loop
  -- of the controller skips none of its quotas, and `setHard` succeeds on each of them, with limits
  -- that depend on it alone.
  pub verdict-IsEnforceable :
      (req : AdmissionRequest) (rl : V1beta2.ResourceLimiter)
      → req.kind ≡ "ResourceLimiter"
      → req.version ≡ "v1beta2"
      → J.unmarshal_v1beta2 req.raw ≡ value rl
      → (verdict Q J req).allowed ≡ true
      → All IsEnforceable rl.spec.quotas
  verdict-IsEnforceable req rl k v u h =
      All-IsEnforceable rl.spec.quotas ((verdict-v1beta2_iff Q J req rl k v u).0 h)
