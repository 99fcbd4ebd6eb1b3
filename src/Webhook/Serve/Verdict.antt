-- ===== src/Webhook/Serve/Verdict.antt =====
-- The answer of `ServeValidate` to a review, against a description of what is to be admitted.
use resourcelimiter.Prelude.{
  String, ◌≡◌, refl, sym, ◌↔◌, true, false, subst, ◌==◌, Option, none, some, All,
}
use resourcelimiter.Api.V1beta1
use resourcelimiter.Api.V1beta2
use resourcelimiter.Api.V1beta2.{ResourceLimiterQuota}
use resourcelimiter.Controller.Platform.{Quantities}
use resourcelimiter.Controller.Reconcile.{is_ignored}
use resourcelimiter.Webhook.Admission.{
  AdmissionRequest, AdmissionResponse, refused, AdmissionReview, Codec, Workload, value,
}
use resourcelimiter.Webhook.Validate.{
  Check, pass, return, panicking, ◌then◌, check_request, check_quotas, check_targets, check_types,
  check_workload, conclude, accepted, recorded, validate,
}
use resourcelimiter.Webhook.Validate.Verdicts.{
  Decides, then-Decides, check_quotas-Decides, check_targets-Decides, check_types-Decides,
  IsAdmissible, Parses,
}
use resourcelimiter.Webhook.Validate.Workloads.{IsLimited, check_containers-Decides}
use resourcelimiter.Webhook.Serve.{HttpRequest, serve_validate, respond, override}

module _ (Q : Quantities) (J : Codec Q.Quantity) where
  -- The response that the checks of a request lead to.
  abbrev pub verdict_of : AdmissionRequest → Check → AdmissionResponse
  verdict_of req pass = accepted Q J req
  verdict_of req (return r) = r
  verdict_of req (panicking e) = refused (recorded Q J e)

  unfoldable pub verdict : AdmissionRequest → AdmissionResponse
  verdict req = verdict_of req (check_request Q J req)

  verdict_of-Decides :
      {A : Type 0} (req : AdmissionRequest) (c : Check)
      → Decides A c
      → (verdict_of req c).allowed ≡ true ↔ A
  verdict_of-Decides req pass d = (λ e. d.passes_iff.0 refl, λ a. refl)
  verdict_of-Decides req (return r) d = (λ e. cc d.refusing, λ a. cc (d.passes_iff.1 a))
  verdict_of-Decides req (panicking x) d = (λ e. cc, λ a. cc (d.passes_iff.1 a))

  decided :
      {A : Type 0} (req : AdmissionRequest) (c : Check)
      → check_request Q J req ≡ c
      → Decides A c
      → (verdict req).allowed ≡ true ↔ A
  unfolding verdict
  decided req c e d = verdict_of-Decides req (check_request Q J req) (subst (Decides _) (sym e) d)

  -- A request for a v1beta2 resource limiter that can be decoded is allowed exactly if no quota is
  -- for a preset namespace and all the values of every quota are quantities.
  pub verdict-v1beta2_iff :
      (req : AdmissionRequest) (rl : V1beta2.ResourceLimiter)
      → req.kind ≡ "ResourceLimiter"
      → req.version ≡ "v1beta2"
      → J.unmarshal_v1beta2 req.raw ≡ value rl
      → (verdict req).allowed ≡ true ↔ All (IsAdmissible Q J) rl.spec.quotas
  unfolding check_request
  verdict-v1beta2_iff req rl k v u =
      decided req (check_quotas Q J rl.spec.quotas) (rw (k, v, u) refl)
        (check_quotas-Decides Q J rl.spec.quotas)

  -- A request for a v1beta1 resource limiter that can be decoded is allowed exactly if no target is
  -- a preset namespace and the value of every type is a quantity.
  pub verdict-v1beta1_iff :
      (req : AdmissionRequest) (rl : V1beta1.ResourceLimiter)
      → req.kind ≡ "ResourceLimiter"
      → req.version ≡ "v1beta1"
      → J.unmarshal_v1beta1 req.raw ≡ value rl
      → (verdict req).allowed ≡ true ↔ (
          All (λ ns. is_ignored ns ≡ false) rl.spec.targets
          × All (λ entry. Parses Q J entry.1) rl.spec.types)
  unfolding check_request
  verdict-v1beta1_iff req rl k v u =
      decided req (check_targets Q J rl.spec.targets then check_types Q J rl.spec.types)
        (rw (k, v, u) refl)
        (then-Decides _ _ (check_targets-Decides Q J rl.spec.targets)
          (check_types-Decides Q J rl.spec.types))

  -- The request is about this workload, of one of the three kinds that are looked at.
  pub data Reviews (req : AdmissionRequest) (w : Workload Q.Quantity) : Type 0 where
    pod : req.kind ≡ "Pod" → J.unmarshal_pod req.raw ≡ value w → Reviews req w
    deployment : req.kind ≡ "Deployment" → J.unmarshal_deployment req.raw ≡ value w → Reviews req w
    daemonset : req.kind ≡ "Daemonset" → J.unmarshal_daemonset req.raw ≡ value w → Reviews req w

  -- A request for a pod, a deployment or an object of kind "Daemonset" that can be decoded is
  -- allowed exactly if each of its containers has limits and requests, whose cpu and memory are
  -- read back as quantities.
  pub verdict-workload_iff :
      (req : AdmissionRequest) (w : Workload Q.Quantity)
      → Reviews req w
      → (verdict req).allowed ≡ true ↔ All (IsLimited Q J) w.containers
  unfolding check_request
  verdict-workload_iff req w (pod k u) =
      decided req (check_workload Q J "pod" (value w)) (rw (k, u) refl)
        (check_containers-Decides Q J _ w.containers)
  verdict-workload_iff req w (deployment k u) =
      decided req (check_workload Q J "deployment" (value w)) (rw (k, u) refl)
        (check_containers-Decides Q J _ w.containers)
  verdict-workload_iff req w (daemonset k u) =
      decided req (check_workload Q J "daemonset" (value w)) (rw (k, u) refl)
        (check_containers-Decides Q J _ w.containers)

  override-conclude :
      (req : AdmissionRequest) (c : Check)
      → let (response, after) = conclude Q J req c in
        override after response ≡ some (verdict_of req c)
  override-conclude req pass = refl
  override-conclude req (return r) = refl
  override-conclude req (panicking e) = refl

  -- A request that has a body of the content type "application/json", which decodes to a review
  -- with a request, and that is served alone, is answered by the verdict on the request of the
  -- review, whatever an earlier review has left behind, and also where the checks panic.
  pub serve_validate-verdict :
      (write_error : String → Option String) (r : HttpRequest) (body : String)
      (ar : AdmissionReview) (req : AdmissionRequest) (before : Option String)
      → r.body ≡ some body
      → (body == "") ≡ false
      → r.content_type ≡ "application/json"
      → J.decode body ≡ (ar, none)
      → ar.request ≡ some req
      → (serve_validate Q J write_error r before).0
        ≡ respond Q J write_error ar (some (verdict req))
  unfolding serve_validate verdict validate
  serve_validate-verdict write_error r body ar req before b n c d a =
      rw (b, n, c, d, a, override-conclude req (check_request Q J req)) refl
