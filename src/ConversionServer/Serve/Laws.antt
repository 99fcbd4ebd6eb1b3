-- ===== src/ConversionServer/Serve/Laws.antt =====
-- A request to the conversion webhook from its headers to the reply.
use resourcelimiter.Prelude.{
  String, ◌≡◌, refl, Bool-cases, inl, inr, none, some, List, map, if◌then◌else◌,
}
use resourcelimiter.Api.V1beta1
use resourcelimiter.Webhook.Serve.{bytes_of}
use resourcelimiter.ConversionServer.Json.{panicked, value}
use resourcelimiter.ConversionServer.Review.{
  ConversionRequest, ConversionReview, Converted, v1beta2, Codec, Clause, Serializer, json,
}
use resourcelimiter.ConversionServer.Media.{MediaType, get_output_serializer}
use resourcelimiter.ConversionServer.Media.Laws.{get_input_serializer-eq}
use resourcelimiter.ConversionServer.Objects.Encoding.{is_complete_v1beta1}
use resourcelimiter.ConversionServer.Convert.{version_2, status_succeed}
use resourcelimiter.ConversionServer.Convert.Laws.{
  EncodesOld, Encode, all_true, new_version_of, do_conversion-into_v1beta2,
}
use resourcelimiter.ConversionServer.Serve.{HttpRequest, empty_request, encoded, serve_convert}

abbrev pub asks : String → List String → ConversionRequest
asks uid raws = record { uid = uid; desired_api_version = version_2; objects = raws }

-- The review of the reply: the request is emptied, and the response has the id of the request.
abbrev pub replied : ConversionReview → String → List Converted → ConversionReview
replied review uid objects = record review {
  request = some empty_request;
  response = some (record { uid = uid; converted_objects = objects; result = status_succeed });
}

module _ (J : Codec) (order : Clause → List (MediaType × Serializer)) where
  -- A request to convert objects to v1beta2 that are encoded by the tags of v1beta1, with the
  -- content type "application/json" and no `Accept` header: if each object has a target and a type
  -- and is applied, the reply is the review as JSON, with the id of the request and the conversion
  -- of each object in order. Otherwise the handler panics and there is no reply.
  pub serve_convert-into_v1beta2 :
      (r : HttpRequest) (review : ConversionReview) (uid : String) (raws : List String)
      (specs : List V1beta1.ResourceLimiterSpec)
      → r.content_type ≡ "application/json"
      → r.accept ≡ ""
      → J.decode json (bytes_of r.body) ≡ (review, none)
      → review.request ≡ some (asks uid raws)
      → Encode (EncodesOld J) raws specs
      → serve_convert J order r ≡ (
          if all_true is_complete_v1beta1 specs
          then value (
              encoded J order (
                J.encode json
                  (replied review uid (map (λ spec. v1beta2 (new_version_of spec)) specs))))
          else panicked)
  unfolding serve_convert get_output_serializer
  serve_convert-into_v1beta2 r review uid raws specs typed any decodes asked e =
      elim (Bool-cases (all_true is_complete_v1beta1 specs)) [
        | inl c ↦
            rw
              (
                typed,
                get_input_serializer-eq "application/json",
                any,
                decodes,
                asked,
                do_conversion-into_v1beta2 J uid raws specs e,
                c,
              )
              refl
        | inr c ↦
            rw
              (
                typed,
                get_input_serializer-eq "application/json",
                any,
                decodes,
                asked,
                do_conversion-into_v1beta2 J uid raws specs e,
                c,
              )
              refl
      ]
