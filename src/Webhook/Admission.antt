-- ===== src/Webhook/Admission.antt =====
-- The admission API, the objects that are reviewed, and the encoders that pkg/cmd/webhook.go calls.
use resourcelimiter.Prelude.{String, Bool, false, Option, none, some, List, Map}
use resourcelimiter.Api.V1beta1
use resourcelimiter.Api.V1beta2
use resourcelimiter.Api.V1beta2.{ResourceLimiterQuota}

-- `admissionv1.AdmissionRequest`: the parts that are read. `raw` is `Object.Raw`.
pub record AdmissionRequest : Type 0 where
  pub uid : String
  pub kind : String
  pub version : String
  pub name : String
  pub raw : String

-- `admissionv1.AdmissionResponse`: `message` is that of `Result`, if there is one.
pub record AdmissionResponse : Type 0 where
  pub uid : String
  pub allowed : Bool
  pub message : Option String
  pub patch : Option String
  pub patch_type : Option String

-- `admissionv1.AdmissionReview`: the pointers may be nil.
pub record AdmissionReview : Type 0 where
  pub api_version : String
  pub kind : String
  pub request : Option AdmissionRequest
  pub response : Option AdmissionResponse

-- `&AdmissionResponse{Result: &metav1.Status{Message: message}}`
abbrev pub refused : String → AdmissionResponse
refused message = record {
  uid = "";
  allowed = false;
  message = some message;
  patch = none;
  patch_type = none;
}

-- The value of a patch operation, an `interface{}`.
pub data PatchValue : Type 0 where
  types_value : Map String → PatchValue
  targets_value : List String → PatchValue
  target_value : String → PatchValue
  quotas_value : List ResourceLimiterQuota → PatchValue
  quota_value : ResourceLimiterQuota → PatchValue

pub record PatchOperation : Type 0 where
  pub op : String
  pub path : String
  pub value : PatchValue

-- `corev1.Container`: what it asks for, by name; a map may be nil.
pub record Container (Quantity : Type 0) : Type 0 where
  pub limits : Option (Map Quantity)
  pub requests : Option (Map Quantity)

-- A pod, a deployment or a daemon set: its name and its containers.
pub record Workload (Quantity : Type 0) : Type 0 where
  pub name : String
  pub containers : List (Container Quantity)

-- A result of `encoding/json`, or the text of its error.
pub data Result (A : Type 0) : Type 0 where
  malformed : String → Result A
  value : A → Result A

-- `encoding/json` and the deserializer of the API; a body is the string of its bytes.
pub record Codec (Quantity : Type 0) : Type 0 where
  pub unmarshal_v1beta1 : String → Result V1beta1.ResourceLimiter
  pub unmarshal_v1beta2 : String → Result V1beta2.ResourceLimiter
  pub unmarshal_pod : String → Result (Workload Quantity)
  pub unmarshal_deployment : String → Result (Workload Quantity)
  pub unmarshal_daemonset : String → Result (Workload Quantity)
  pub marshal_patch : List PatchOperation → Result String
  pub marshal_review : AdmissionReview → Result String
  -- The review that `Decode` leaves, and its error.
  pub decode : String → AdmissionReview × Option String
  -- What `MustParse` panics with on a text that is no quantity.
  pub parse_panic : String → String
