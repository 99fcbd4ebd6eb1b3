-- ===== src/ConversionServer/Review.antt =====
-- The review of a conversion, of `apiextensions/v1beta1`, as far as it is read or written, and the
-- encoders that pkg/conversion/conversion.go calls.
use resourcelimiter.Prelude.{String, Option, List}
use resourcelimiter.Api.V1beta1
use resourcelimiter.Api.V1beta2
use resourcelimiter.ConversionServer.Json.{Fields}

-- `metav1.Status`
pub record Status : Type 0 where
  pub status : String
  pub message : String

abbrev pub success : String
success = "Success"

abbrev pub failed : String
failed = "Failure"

-- `ConversionRequest`: an object is its raw text.
pub record ConversionRequest : Type 0 where
  pub uid : String
  pub desired_api_version : String
  pub objects : List String

-- `runtime.RawExtension`, with the object that it points to, if any.
pub data Converted : Type 0 where
  v1beta1 : V1beta1.ResourceLimiter → Converted
  v1beta2 : V1beta2.ResourceLimiter → Converted
  nil : Converted

pub record ConversionResponse : Type 0 where
  pub uid : String
  pub converted_objects : List Converted
  pub result : Status

-- `ConversionReview`: the pointers may be nil.
pub record ConversionReview : Type 0 where
  pub request : Option ConversionRequest
  pub response : Option ConversionResponse

-- The two serializers of the server.
pub data Serializer : Type 0 where
  json yaml : Serializer

-- A clause of an `Accept` header, parsed by `goautoneg`.
pub record Clause : Type 0 where
  pub type : String
  pub sub_type : String

-- A text that could not be decoded or encoded, with the error, or the result.
pub data Result (A : Type 0) : Type 0 where
  malformed : String → Result A
  decoded : A → Result A

pub record Codec : Type 0 where
  -- `UnmarshalJSON` of an unstructured object.
  pub unmarshal : String → Result Fields
  -- The review that `Decode` leaves, and its error.
  pub decode : Serializer → String → ConversionReview × Option String
  pub encode : Serializer → ConversionReview → Result String
  pub parse_accept : String → List Clause
