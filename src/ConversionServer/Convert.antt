-- ===== src/ConversionServer/Convert.antt =====
-- `doConversion` and what it calls, but for the reading of the objects.
pub mod Laws
pub mod Complete
use resourcelimiter.Prelude.{
  String, ◌<>◌, Option, none, some, List, [], ◌∷◌, ◌++◌, ◌==◌, if◌then◌else◌,
}
use resourcelimiter.Api.V1beta1
use resourcelimiter.Api.V1beta2
use resourcelimiter.Api.V1beta2.{zero_limiter}
use resourcelimiter.Api.Conversion.{Hub, limiter, other, convert_to, convert_from}
use resourcelimiter.ConversionServer.Json.{Fields, Attempt, panicked, returned, value, ◌>>=◌}
use resourcelimiter.ConversionServer.Review.{
  Status, success, failed, ConversionRequest, Converted, v1beta1, v1beta2, nil, ConversionResponse,
  Codec, Result, malformed, decoded,
}
use resourcelimiter.ConversionServer.Objects.{read_v1beta1, read_v1beta2, with_spec_v1beta1}

abbrev pub version_1 : String
version_1 = "resources.resourcelimiter.io/v1beta1"

abbrev pub version_2 : String
version_2 = "resources.resourcelimiter.io/v1beta2"

abbrev pub status_succeed : Status
status_succeed = record { status = success; message = "" }

abbrev pub status_error : String → Status
status_error message = record { status = failed; message = message }

-- `conversionResponseFailureWithMessagef`
abbrev pub response_failure : String → ConversionResponse
response_failure message = record {
  uid = "";
  converted_objects = [];
  result = record { status = failed; message = message };
}

abbrev failed_convert : String → String → Status
failed_convert from to =
    status_error ("failed to convert from \"" <> from <> "\" into \"" <> to <> "\"")

-- What `ConvertTo` has filled.
abbrev filled_hub : V1beta2.ResourceLimiter → Hub → V1beta2.ResourceLimiter
filled_hub rl (limiter dst) = dst
filled_hub rl other = rl

abbrev status_of : String → String → Option String → Status
status_of from to none = status_succeed
status_of from to (some err) = failed_convert from to

-- The object is nil unless the status is a success. The two versions that the code compares first
-- are different constants.
abbrev ended : {A : Type 0} → A → Status → Option String → Option A × Status
ended a status none = (some a, status)
ended a status (some err) = (none, status)

unfoldable pub convert_v1beta1_into_v1beta2 :
    V1beta1.ResourceLimiter → Option V1beta2.ResourceLimiter × Status
unfolding convert_to
convert_v1beta1_into_v1beta2 old_object =
    let (hub, err) = convert_to old_object (limiter zero_limiter) in
    ended (filled_hub zero_limiter hub) (status_of version_1 version_2 err) err

unfoldable pub convert_v1beta2_into_v1beta1 :
    V1beta2.ResourceLimiter → Option V1beta1.ResourceLimiter × Status
unfolding convert_from
convert_v1beta2_into_v1beta1 new_object =
    let zero =
      with_spec_v1beta1
        (record { targets = []; types = []; applied = zero_limiter.spec.applied }) in
    let (old_object, err) = convert_from zero (limiter new_object) in
    ended old_object (status_of version_2 version_1 err) err

abbrev pointed : {A : Type 0} → (A → Converted) → Option A → Converted
pointed wrap none = nil
pointed wrap (some a) = wrap a

-- The test of the status: a failure is returned as the result.
abbrev checked :
    {A : Type 0} → (A → Converted) → Option A × Status → Attempt ConversionResponse Converted
checked wrap (o, status) =
    if status.status == success
    then value (pointed wrap o)
    else returned (record { uid = ""; converted_objects = []; result = status })

abbrev unmarshalled : String → Result Fields → Attempt ConversionResponse Fields
unmarshalled raw (decoded fields) = value fields
unmarshalled raw (malformed err) =
    returned (response_failure ("failed to unmarshall object (" <> raw <> ") with error: " <> err))

-- The loop over the objects: the first that fails ends it.
unfoldable pub convert_all :
    (String → Attempt ConversionResponse Converted)
    → List String
    → Attempt ConversionResponse (List Converted)
convert_all convert [] = value []
convert_all convert (raw ∷ objects) = do
  object ← convert raw
  others ← convert_all convert objects
  value (object ∷ others)

abbrev pub responded :
    Attempt ConversionResponse (List Converted) → Attempt (Unit {0}) ConversionResponse
responded panicked = panicked
responded (returned r) = value r
responded (value objects) =
    value (record { uid = ""; converted_objects = objects; result = status_succeed })

module _ (J : Codec) where
  -- One round of the loop for each of the two versions.
  unfoldable pub into_v1beta2 : String → Attempt ConversionResponse Converted
  unfolding read_v1beta1 convert_v1beta1_into_v1beta2
  into_v1beta2 raw = do
    fields ← unmarshalled raw (J.unmarshal raw)
    cr ← read_v1beta1 fields
    checked v1beta2 (convert_v1beta1_into_v1beta2 cr)

  unfoldable pub into_v1beta1 : String → Attempt ConversionResponse Converted
  unfolding read_v1beta2 convert_v1beta2_into_v1beta1
  into_v1beta1 raw = do
    fields ← unmarshalled raw (J.unmarshal raw)
    cr ← read_v1beta2 fields
    checked v1beta1 (convert_v1beta2_into_v1beta1 cr)

  unfoldable pub do_conversion : ConversionRequest → Attempt (Unit {0}) ConversionResponse
  unfolding convert_all into_v1beta2 into_v1beta1
  do_conversion request =
      if request.desired_api_version == version_2
      then responded (convert_all into_v1beta2 request.objects)
      else if request.desired_api_version == version_1
      then responded (convert_all into_v1beta1 request.objects)
      else value (record {
        uid = "";
        converted_objects = [];
        result = status_error "failed to do the conversion";
      })
