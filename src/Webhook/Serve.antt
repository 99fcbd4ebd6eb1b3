-- ===== src/Webhook/Serve.antt =====
-- `ServeMutate` and `ServeValidate` of pkg/cmd/webhook.go: the handlers of the HTTP server.
pub mod Verdict
pub mod Race
pub mod Enforceable
use resourcelimiter.Prelude.{
  String, ◌<>◌, ℕ, Option, none, some, List, [], ◌∷◌, ◌++◌, ◌==◌, if◌then◌else◌,
}
use resourcelimiter.Controller.Platform.{Quantities}
use resourcelimiter.Webhook.Admission.{
  AdmissionRequest, AdmissionResponse, refused, AdmissionReview, Result, malformed, value, Codec,
}
use resourcelimiter.Webhook.Mutate.{mutate}
use resourcelimiter.Webhook.Validate.{validate}

-- `http.Request`: its body, if there is one and it can be read, and its content type.
pub record HttpRequest : Type 0 where
  pub body : Option String
  pub content_type : String

-- What a handler does with its `http.ResponseWriter`.
pub data Reply : Type 0 where
  http_error : String → ℕ → Reply
  written : String → Reply

abbrev pub bytes_of : Option String → String
bytes_of none = ""
bytes_of (some bytes) = bytes

-- `admissionReview.Response.UID = ar.Request.UID`
abbrev with_uid : Option AdmissionRequest → AdmissionResponse → AdmissionResponse
with_uid none response = response
with_uid (some req) response = record response { uid = req.uid }

abbrev answer : Option AdmissionRequest → Option AdmissionResponse → Option AdmissionResponse
answer request none = none
answer request (some response) = some (with_uid request response)

-- The parse panic that `resFormErr` records takes the place of the response.
abbrev pub override : Option String → Option AdmissionResponse → Option AdmissionResponse
override none response = response
override (some err) response = some (refused err)

module _ (Q : Quantities) (J : Codec Q.Quantity) (write_error : String → Option String) where
  abbrev write_reply : String → Option String → List Reply
  write_reply resp none = written resp ∷ []
  write_reply resp (some err) =
      written resp ∷ http_error ("could not write response: " <> err) 500 ∷ []

  abbrev write_bytes : String → List Reply
  write_bytes resp = write_reply resp (write_error resp)

  -- After an error of the encoding, the code goes on and writes no bytes.
  abbrev write_result : Result String → List Reply
  write_result (malformed err) =
      http_error ("could not encode response: " <> err) 500 ∷ write_bytes ""
  write_result (value resp) = write_bytes resp

  -- The end of both handlers: the review is built, encoded and written.
  unfoldable pub respond : AdmissionReview → Option AdmissionResponse → List Reply
  respond ar response = write_result (
      J.marshal_review (record {
        api_version = "admission.k8s.io/v1";
        kind = "AdmissionReview";
        request = none;
        response = answer ar.request response;
      }))

  -- The tests that both handlers start with, and what follows them.
  abbrev with_body : {A : Type 0} → HttpRequest → (List Reply → A) → (String → A) → A
  with_body r stop go =
      let body = bytes_of r.body in
      if body == ""
      then stop (http_error "empty body" 400 ∷ [])
      else if r.content_type == "application/json"
      then go body
      else stop (http_error "invalid Content-Type, expect `application/json`" 415 ∷ [])

  -- A review with no request makes `mutate` panic.
  abbrev mutate_review : AdmissionReview → Option AdmissionRequest → Option (List Reply)
  mutate_review ar none = none
  mutate_review ar (some req) = some (respond ar (some (mutate J req)))

  abbrev mutate_decoded : AdmissionReview × Option String → Option (List Reply)
  mutate_decoded (ar, some err) = some (respond ar (some (refused err)))
  mutate_decoded (ar, none) = mutate_review ar ar.request

  -- No result stands for a panic, which the HTTP server recovers from.
  unfoldable pub serve_mutate : HttpRequest → Option (List Reply)
  unfolding respond
  serve_mutate r = with_body r some (λ body. mutate_decoded (J.decode body))

  -- The response and `resFormErr`, which is reset only by `validate`.
  abbrev pub review_decoded :
      AdmissionReview × Option String → Option String → Option AdmissionResponse × Option String
  review_decoded (ar, some err) res_form_err = (some (refused err), res_form_err)
  review_decoded (ar, none) res_form_err = validate Q J ar.request

  -- The handler as a function of `resFormErr`, with no other request at the same time.
  unfoldable pub serve_validate : HttpRequest → Option String → List Reply × Option String
  unfolding respond
  serve_validate r res_form_err =
      with_body r (λ replies. (replies, res_form_err))
        (λ body.
          let decoded = J.decode body in
          let (response, after) = review_decoded decoded res_form_err in
          (respond decoded.0 (override after response), after))
