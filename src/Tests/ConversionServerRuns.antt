-- ===== src/Tests/ConversionServerRuns.antt =====
-- The conversion webhook on concrete requests.
use resourcelimiter.Prelude.{
  String, ◌≡◌, ◌⊎◌, refl, arith, false, none, some, List, [], ◌∷◌, ◌==◌, inr, eq_iff, if◌then◌else◌,
}
use resourcelimiter.Api.V1beta1
use resourcelimiter.Api.V1beta2
use resourcelimiter.Api.V1beta2.{zero_limiter}
use resourcelimiter.Api.Conversion.{convert_to}
use resourcelimiter.Controller.Exec.{Post}
use resourcelimiter.Controller.Reconcile.{reconcile}
use resourcelimiter.Controller.Reconcile.Converted.{reconcile-converted}
use resourcelimiter.Webhook.Serve.{written}
use resourcelimiter.ConversionServer.Json.{
  Fields, object, text, field, end, value_at, Attempt, panicked, value,
}
use resourcelimiter.ConversionServer.Review.{
  Codec, ConversionResponse, ConversionReview, json, yaml, Clause, Result, v1beta1, v1beta2,
  decoded, malformed,
}
use resourcelimiter.ConversionServer.Media.{get_output_serializer, serializers}
use resourcelimiter.ConversionServer.Media.Laws.{swapped, get_output_serializer-order}
use resourcelimiter.ConversionServer.Objects.{
  read_v1beta1, read_v1beta2, with_spec_v1beta1, with_spec_v1beta2,
}
use resourcelimiter.ConversionServer.Objects.Encoding.{encode_v1beta1, encode_v1beta2, IsMap}
use resourcelimiter.ConversionServer.Objects.Reading.{read_v1beta1-encode, read_v1beta2-encode}
use resourcelimiter.ConversionServer.Convert.{
  version_1, response_failure, convert_v1beta1_into_v1beta2, do_conversion,
}
use resourcelimiter.ConversionServer.Convert.Laws.{
  success_with, new_version_of, old_version_of, EncodesOld, EncodesNew, do_conversion-into_v1beta2,
  do_conversion-into_v1beta1,
}
use resourcelimiter.ConversionServer.Convert.Complete.{Answers, do_conversion-Answers}
use resourcelimiter.ConversionServer.Serve.{HttpRequest, serve_convert}
use resourcelimiter.ConversionServer.Serve.Laws.{asks, serve_convert-into_v1beta2}
use resourcelimiter.Tests.Memory.{texts, memory, memory_lawful}
use resourcelimiter.Tests.ControllerRuns.{cluster}
use resourcelimiter.Tests.ConversionRuns.{old_version, new_version}

abbrev old_fields : Fields
old_fields =
    field "kind" (text "ResourceLimiter")
      (field "spec" (object (encode_v1beta1 old_version.spec)) end)

abbrev new_fields : Fields
new_fields = field "spec" (object (encode_v1beta2 new_version.spec)) end

-- A spec that is not applied, encoded without that field.
abbrev idle_fields : Fields
idle_fields =
    field "spec" (object (encode_v1beta1 (record old_version.spec { applied = false }))) end

abbrev unmarshal_text : String → Result Fields
unmarshal_text raw =
    if raw == "old"
    then decoded old_fields
    else if raw == "new"
    then decoded new_fields
    else if raw == "idle"
    then decoded idle_fields
    else malformed "no object"

abbrev parse_any : String → List Clause
parse_any accept = record { type = "application"; sub_type = "*" } ∷ []

abbrev review : ConversionReview
review = record { request = some (asks "7" ("old" ∷ "old" ∷ [])); response = none }

abbrev codec : Codec
codec = record {
  unmarshal = unmarshal_text;
  decode = λ s body. (review, none);
  encode = λ s r. decoded "review";
  parse_accept = λ accept. record { type = "application"; sub_type = "yaml" } ∷ [];
}

types-IsMap : IsMap old_version.spec.types
types-IsMap = ((refl, (refl, tt)), ((refl, tt), (tt, tt)))

read_v1beta1-encode_example :
    ◌≡◌ {A = Attempt (Unit {0}) V1beta1.ResourceLimiter}
      (read_v1beta1 old_fields)
      (value (with_spec_v1beta1 old_version.spec))
unfolding value_at
read_v1beta1-encode_example = read_v1beta1-encode old_version.spec old_fields refl types-IsMap

read_v1beta2-encode_example :
    ◌≡◌ {A = Attempt (Unit {0}) V1beta2.ResourceLimiter}
      (read_v1beta2 new_fields)
      (value (with_spec_v1beta2 new_version.spec))
unfolding value_at
read_v1beta2-encode_example = read_v1beta2-encode new_version.spec new_fields refl

-- An object that is not applied cannot be read.
idle_panics :
    ◌≡◌ {A = Attempt (Unit {0}) V1beta1.ResourceLimiter} (read_v1beta1 idle_fields) panicked
unfolding read_v1beta1 encode_v1beta1
idle_panics = refl

old-EncodesOld : EncodesOld codec "old" old_version.spec
unfolding value_at
old-EncodesOld = record { top = old_fields; decodes = refl; holds = refl; types_map = types-IsMap }

new-EncodesNew : EncodesNew codec "new" new_version.spec
unfolding value_at
new-EncodesNew = record { top = new_fields; decodes = refl; holds = refl }

do_conversion-into_v1beta2_example :
    do_conversion codec (asks "7" ("old" ∷ "old" ∷ []))
    ≡ value (
        success_with (
          v1beta2 (new_version_of old_version.spec)
          ∷ v1beta2 (new_version_of old_version.spec)
          ∷ []))
do_conversion-into_v1beta2_example =
    do_conversion-into_v1beta2 codec "7" ("old" ∷ "old" ∷ [])
      (old_version.spec ∷ old_version.spec ∷ []) (old-EncodesOld, (old-EncodesOld, tt))

do_conversion-into_v1beta1_example :
    do_conversion codec
      (record { uid = "7"; desired_api_version = version_1; objects = "new" ∷ [] })
    ≡ value (success_with (v1beta1 (old_version_of new_version.spec) ∷ []))
do_conversion-into_v1beta1_example =
    do_conversion-into_v1beta1 codec "7" ("new" ∷ []) (new_version.spec ∷ []) (new-EncodesNew, tt)

do_conversion-Answers_example :
    (do_conversion codec (asks "7" ("old" ∷ "text" ∷ [])) ≡ panicked)
    ⊎ ((r : ConversionResponse) × (do_conversion codec (asks "7" ("old" ∷ "text" ∷ [])) ≡ value r)
        × Answers codec (asks "7" ("old" ∷ "text" ∷ [])) r)
do_conversion-Answers_example = do_conversion-Answers codec (asks "7" ("old" ∷ "text" ∷ []))

-- An object that cannot be decoded is a failure, whatever stands before and after it.
malformed_fails :
    do_conversion codec (asks "7" ("old" ∷ "text" ∷ "idle" ∷ []))
    ≡ value (response_failure "failed to unmarshall object (text) with error: no object")
unfolding do_conversion read_v1beta1 encode_v1beta1 convert_v1beta1_into_v1beta2 convert_to
malformed_fails = refl

abbrev post : HttpRequest
post = record { body = some "{}"; content_type = "application/json"; accept = "" }

serve_convert-into_v1beta2_example :
    serve_convert codec (λ _. serializers) post ≡ value (written "review" ∷ [])
serve_convert-into_v1beta2_example =
    serve_convert-into_v1beta2 codec (λ _. serializers) post review "7" ("old" ∷ "old" ∷ [])
      (old_version.spec ∷ old_version.spec ∷ []) refl refl refl refl
      (old-EncodesOld, (old-EncodesOld, tt))

-- The clause "application/*" has the serializer that the walk over the map meets first.
either_serializer :
    (get_output_serializer (λ _. serializers) parse_any "application/*" ≡ some json)
    × (get_output_serializer (λ _. swapped) parse_any "application/*" ≡ some yaml)
unfolding get_output_serializer
either_serializer = (refl, refl)

get_output_serializer-order_example :
    get_output_serializer (λ _. swapped) codec.parse_accept "application/yaml"
    ≡ get_output_serializer (λ _. serializers) codec.parse_accept "application/yaml"
get_output_serializer-order_example =
    get_output_serializer-order (λ _. swapped) (λ _. inr refl) codec.parse_accept "application/yaml"
      (ground (arith, eq_iff "yaml" "*"), tt)

reconcile-converted_example :
    Post
      (λ _ _. ⊥)
      (λ _ t. t ≡ cluster)
      (reconcile texts memory
        (record zero_limiter {
          object_meta = old_version.object_meta;
          spec = (new_version_of old_version.spec).spec;
        })
        cluster)
unfolding convert_to
reconcile-converted_example =
    reconcile-converted texts memory memory_lawful old_version zero_limiter
      (record zero_limiter {
        object_meta = old_version.object_meta;
        spec = (new_version_of old_version.spec).spec;
      })
      cluster refl refl refl
