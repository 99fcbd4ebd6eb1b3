-- ===== src/Webhook/Validate.antt =====
-- `validate` of pkg/cmd/webhook.go, with the package variable `resFormErr`.
pub mod Verdicts
pub mod Workloads
use resourcelimiter.Prelude.{
  String, ◌<>◌, Bool, true, false, ◌||◌, Option, none, some, List, [], ◌∷◌, is_empty, Map, at_key,
  ◌==◌, if◌then◌else◌,
}
use resourcelimiter.Api.V1beta1
use resourcelimiter.Api.V1beta2
use resourcelimiter.Api.V1beta2.{ResourceLimiterQuota}
use resourcelimiter.Controller.Platform.{Quantities}
use resourcelimiter.Controller.Reconcile.{is_ignored}
use resourcelimiter.Webhook.Admission.{
  AdmissionRequest, AdmissionResponse, refused, Container, Workload, Result, malformed, value,
  Codec,
}

-- A part of the checks: it goes on, returns a response, or panics with a text.
pub data Check : Type 0 where
  pass : Check
  return : AdmissionResponse → Check
  panicking : String → Check

infixl 5 ◌then◌
abbrev pub ◌then◌ : Check → Check → Check
pass then k = k
return r then k = return r
panicking e then k = panicking e

module _ (Q : Quantities) (J : Codec Q.Quantity) where
  open Q use {Quantity, parse, show, zero_quantity}
  open J use {
    unmarshal_v1beta1, unmarshal_v1beta2, unmarshal_pod, unmarshal_deployment, unmarshal_daemonset,
    parse_panic,
  }

  abbrev parsed : String → Option Quantity → Check
  parsed text none = panicking (parse_panic text)
  parsed text (some x) = pass

  -- `k8sresource.MustParse(text)`
  unfoldable pub must_parse : String → Check
  must_parse text = parsed text (parse text)

  abbrev preset : Check
  preset = return (refused "should avoid limit on the preset namespace")

  unfoldable pub check_targets : List String → Check
  check_targets [] = pass
  check_targets (ns ∷ targets) = (if is_ignored ns then preset else pass) then check_targets targets

  unfoldable pub check_types : Map String → Check
  unfolding must_parse
  check_types [] = pass
  check_types ((t, text) ∷ types) = must_parse text then check_types types

  unfoldable pub check_quotas : List ResourceLimiterQuota → Check
  unfolding must_parse
  check_quotas [] = pass
  check_quotas (quota ∷ quotas) =
      (if is_ignored quota.namespace_name then preset else pass)
      then must_parse quota.cpu_limit
      then must_parse quota.cpu_request
      then must_parse quota.mem_limit
      then must_parse quota.mem_request
      then check_quotas quotas

  abbrev pub is_unset : Option (Map Quantity) → Bool
  is_unset none = true
  is_unset (some m) = is_empty m

  -- `Cpu()` and `Memory()` are the zero quantity where the key is missing.
  abbrev pub check_resources : Option (Map Quantity) → Check
  check_resources none = pass
  check_resources (some m) =
      must_parse (show (at_key zero_quantity "cpu" m))
      then must_parse (show (at_key zero_quantity "memory" m))

  -- The loop over the containers; `unset` is the message about a missing resource.
  unfoldable pub check_containers : String → List (Container Quantity) → Check
  unfolding must_parse
  check_containers unset [] = pass
  check_containers unset (cont ∷ containers) =
      (if is_unset cont.limits || is_unset cont.requests then return (refused unset) else pass)
      then check_resources cont.limits
      then check_resources cont.requests
      then check_containers unset containers

  abbrev check_v1beta1 : Result V1beta1.ResourceLimiter → Check
  check_v1beta1 (malformed message) = return (refused message)
  check_v1beta1 (value rl) = check_targets rl.spec.targets then check_types rl.spec.types

  abbrev check_v1beta2 : Result V1beta2.ResourceLimiter → Check
  check_v1beta2 (malformed message) = return (refused message)
  check_v1beta2 (value rl) = check_quotas rl.spec.quotas

  abbrev pub check_workload : String → Result (Workload Quantity) → Check
  check_workload kind (malformed message) = return (refused message)
  check_workload kind (value w) =
      check_containers
        ("failed to validate " <> kind <> " " <> w.name
          <> " not set any resources limits or requests")
        w.containers

  -- The `switch` over the kind, and over the version of a resource limiter.
  unfoldable pub check_request : AdmissionRequest → Check
  unfolding check_targets check_types check_quotas check_containers
  check_request req =
      if req.kind == "ResourceLimiter"
      then (if req.version == "v1beta1"
          then check_v1beta1 (unmarshal_v1beta1 req.raw)
          else if req.version == "v1beta2"
          then check_v1beta2 (unmarshal_v1beta2 req.raw)
          else pass)
      else if req.kind == "Pod"
      then check_workload "pod" (unmarshal_pod req.raw)
      else if req.kind == "Deployment"
      then check_workload "deployment" (unmarshal_deployment req.raw)
      else if req.kind == "Daemonset"
      then check_workload "daemonset" (unmarshal_daemonset req.raw)
      else pass

  abbrev pub accepted : AdmissionRequest → AdmissionResponse
  accepted req = record {
    uid = "";
    allowed = true;
    message = some ("Validate " <> req.name <> " of " <> req.kind <> " OK");
    patch = none;
    patch_type = none;
  }

  -- What the deferred `recordR` stores.
  abbrev pub recorded : String → String
  recorded e = "MustParse failed due to " <> e

  -- `resFormErr` after the call, and the response, nil after a panic.
  abbrev pub conclude : AdmissionRequest → Check → Option AdmissionResponse × Option String
  conclude req pass = (some (accepted req), none)
  conclude req (return r) = (some r, none)
  conclude req (panicking e) = (none, some (recorded e))

  -- The text of the panic at a review with no request.
  abbrev pub nil_dereference : String
  nil_dereference = "runtime error: invalid memory address or nil pointer dereference"

  -- `resFormErr` is reset first, so that its value before the call does not matter.
  unfoldable pub validate : Option AdmissionRequest → Option AdmissionResponse × Option String
  unfolding check_request
  validate none = (none, some (recorded nil_dereference))
  validate (some req) = conclude req (check_request req)
