-- ===== src/ConversionServer/Serve.antt =====
-- `serveConvert`: the handler of the HTTP server. The reply is written to an `http.ResponseWriter`.
pub mod Laws
use resourcelimiter.Prelude.{String, ◌<>◌, Option, none, some, List, [], ◌∷◌, ◌==◌, if◌then◌else◌}
use resourcelimiter.Webhook.Serve.{Reply, http_error, written, bytes_of}
use resourcelimiter.ConversionServer.Json.{Attempt, panicked, returned, value, ◌>>=◌}
use resourcelimiter.ConversionServer.Review.{
  ConversionRequest, ConversionResponse, ConversionReview, Codec, Serializer, Clause, Result,
  malformed, decoded,
}
use resourcelimiter.ConversionServer.Media.{MediaType, get_input_serializer, get_output_serializer}
use resourcelimiter.ConversionServer.Convert.{response_failure, do_conversion}

-- `http.Request`: its body, if there is one and it can be read, and two of its headers.
pub record HttpRequest : Type 0 where
  pub body : Option String
  pub content_type : String
  pub accept : String

abbrev pub empty_request : ConversionRequest
empty_request = record { uid = ""; desired_api_version = ""; objects = [] }

-- A panic goes through all of the handler.
abbrev pub Handled : Type 0 → Type 0
Handled = Attempt (Unit {0})

module _ (J : Codec) (order : Clause → List (MediaType × Serializer)) where
  -- `convertReview.Response.UID = convertReview.Request.UID`; the conversion of a request that is
  -- nil panics.
  unfoldable pub convert_request : Option ConversionRequest → Handled ConversionResponse
  convert_request none = panicked
  convert_request (some request) = do
    response ← do_conversion J request
    value (record response { uid = request.uid })

  abbrev answered : String → ConversionReview × Option String → Handled ConversionReview
  answered body (review, some err) = value (record review {
    response =
        some (response_failure ("failed to deserialize body (" <> body <> ") with error " <> err));
  })
  answered body (review, none) = do
    response ← convert_request review.request
    value (record review { response = some response })

  abbrev encoded : Result String → List Reply
  encoded (decoded bytes) = written bytes ∷ []
  encoded (malformed err) = http_error err 500 ∷ []

  abbrev accepted_as : String → Option Serializer → ConversionReview → List Reply
  accepted_as accept none review = http_error ("invalid accept header `" <> accept <> "`") 400 ∷ []
  accepted_as accept (some out) review = encoded (J.encode out review)

  -- What follows the choice of the input serializer; the request is reset before the encoding.
  abbrev serve_with : HttpRequest → Option Serializer → Handled (List Reply)
  serve_with r none =
      value (http_error ("invalid Content-Type header `" <> r.content_type <> "`") 400 ∷ [])
  serve_with r (some serializer) = do
    let body = bytes_of r.body
    review ← answered body (J.decode serializer body)
    value (
        accepted_as r.accept (get_output_serializer order J.parse_accept r.accept)
          (record review { request = some empty_request }))

  unfoldable pub serve_convert : HttpRequest → Handled (List Reply)
  unfolding convert_request
  serve_convert r = serve_with r (get_input_serializer r.content_type)
