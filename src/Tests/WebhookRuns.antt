-- ===== src/Tests/WebhookRuns.antt =====
-- The webhooks on concrete requests.
use resourcelimiter.Prelude.{
  Option, String, ◌≡◌, ◌⊎◌, ◌↔◌, refl, true, false, none, some, ℕ, zero, suc, [], ◌∷◌, All,
  is_empty, ◌==◌, if◌then◌else◌, inl, inr,
}
use resourcelimiter.Api.V1beta1
use resourcelimiter.Api.V1beta2
use resourcelimiter.Api.V1beta2.{zero_limiter}
use resourcelimiter.Controller.Reconcile.{is_ignored}
use resourcelimiter.Webhook.Admission.{
  AdmissionRequest, AdmissionResponse, AdmissionReview, Codec, Workload, malformed, value, refused,
}
use resourcelimiter.Webhook.Patch.{create_patch_v1beta2}
use resourcelimiter.Webhook.Patch.Laws.{create_patch_v1beta2-eq, count, add_default}
use resourcelimiter.Webhook.Mutate.{desired_v1beta1, desired_v1beta2}
use resourcelimiter.Webhook.Validate.{
  pass, panicking, check_request, must_parse, recorded, accepted,
}
use resourcelimiter.Webhook.Validate.Verdicts.{IsAdmissible, Parses}
use resourcelimiter.Webhook.Validate.Workloads.{IsLimited}
use resourcelimiter.Webhook.Serve.{HttpRequest, serve_validate, respond}
use resourcelimiter.Webhook.Serve.Verdict.{
  verdict, verdict-v1beta2_iff, verdict-v1beta1_iff, pod, verdict-workload_iff,
  serve_validate-verdict,
}
use resourcelimiter.Webhook.Serve.Enforceable.{IsEnforceable, verdict-IsEnforceable}
use resourcelimiter.Webhook.Serve.Race.{
  waiting, checking, returned, answered, panicked, Reachable, start, later, reset, test, Server,
  Phase, Moves, IsAccepted, Reachable-allowed,
}
use resourcelimiter.Webhook.Serve.Race.Traces.{
  Checks, check_at, validated-conclude, Reachable-refused, Reachable-unanswered, Reachable-panicked,
}
use resourcelimiter.Tests.Memory.{texts}
use resourcelimiter.Tests.ControllerRuns.{quota_for}

-- A body names the object that it encodes.
abbrev old_limiter : V1beta1.ResourceLimiter
old_limiter = record desired_v1beta1 {
  spec = record {
    targets = "web" ∷ [];
    types = ("limits.cpu", "1") ∷ ("limits.memory", "1Gi") ∷ [];
    applied = true;
  };
}

abbrev good_limiter : V1beta2.ResourceLimiter
good_limiter = record zero_limiter {
  spec = record { quotas = quota_for "web" ∷ quota_for "default" ∷ []; applied = true };
}

abbrev bad_limiter : V1beta2.ResourceLimiter
bad_limiter = record zero_limiter {
  spec = record { quotas = record (quota_for "web") { mem_limit = "" } ∷ []; applied = true };
}

abbrev request_for : String → String → String → AdmissionRequest
request_for kind version raw = record {
  uid = "7";
  kind = kind;
  version = version;
  name = "rl";
  raw = raw;
}

abbrev web_pod : Workload String
web_pod = record {
  name = "web";
  containers =
      record { limits = some (("cpu", "1") ∷ []); requests = some (("memory", "1Gi") ∷ []) } ∷ [];
}

abbrev review : AdmissionReview
review = record {
  api_version = "";
  kind = "";
  request = some (request_for "ResourceLimiter" "v1beta2" "good");
  response = none;
}

abbrev codec : Codec String
codec = record {
  unmarshal_v1beta1 = λ raw. value old_limiter;
  unmarshal_v1beta2 = λ raw. value (if raw == "good" then good_limiter else bad_limiter);
  unmarshal_pod = λ raw. value web_pod;
  unmarshal_deployment = λ raw. malformed "no deployment";
  unmarshal_daemonset = λ raw. malformed "no daemonset";
  marshal_patch = λ patch. value (if is_empty patch then "null" else "patch");
  marshal_review = λ r. value "review";
  decode = λ body. (review, none);
  parse_panic = λ text. "cannot parse";
}

create_patch_v1beta2-eq_example :
    create_patch_v1beta2 good_limiter (desired_v1beta2 good_limiter) ≡ add_default ∷ []
unfolding count
create_patch_v1beta2-eq_example = create_patch_v1beta2-eq good_limiter

verdict-v1beta2_iff_example :
    (verdict texts codec (request_for "ResourceLimiter" "v1beta2" "good")).allowed ≡ true
    ↔ All (IsAdmissible texts codec) good_limiter.spec.quotas
verdict-v1beta2_iff_example =
    verdict-v1beta2_iff texts codec (request_for "ResourceLimiter" "v1beta2" "good") good_limiter
      refl refl refl

verdict-v1beta1_iff_example :
    (verdict texts codec (request_for "ResourceLimiter" "v1beta1" "old")).allowed ≡ true ↔ (
      All (λ ns. is_ignored ns ≡ false) old_limiter.spec.targets
      × All (λ entry. Parses texts codec entry.1) old_limiter.spec.types)
verdict-v1beta1_iff_example =
    verdict-v1beta1_iff texts codec (request_for "ResourceLimiter" "v1beta1" "old") old_limiter refl
      refl refl

verdict-workload_iff_example :
    (verdict texts codec (request_for "Pod" "v1" "web")).allowed ≡ true
    ↔ All (IsLimited texts codec) web_pod.containers
verdict-workload_iff_example =
    verdict-workload_iff texts codec (request_for "Pod" "v1" "web") web_pod (pod refl refl)

abbrev http_request : HttpRequest
http_request = record { body = some "body"; content_type = "application/json" }

serve_validate-verdict_example :
    (serve_validate texts codec (λ _. none) http_request (some "left over")).0
    ≡ respond texts codec
        (λ _. none)
        review
        (some (verdict texts codec (request_for "ResourceLimiter" "v1beta2" "good")))
serve_validate-verdict_example =
    serve_validate-verdict texts codec (λ _. none) http_request "body" review
      (request_for "ResourceLimiter" "v1beta2" "good") (some "left over") refl refl refl refl refl

-- The good request passes, and the bad one panics.
good_allowed : (verdict texts codec (request_for "ResourceLimiter" "v1beta2" "good")).allowed ≡ true
unfolding verdict check_request must_parse
good_allowed = refl

verdict-IsEnforceable_example : All (IsEnforceable texts codec) good_limiter.spec.quotas
verdict-IsEnforceable_example =
    verdict-IsEnforceable texts codec (request_for "ResourceLimiter" "v1beta2" "good") good_limiter
      refl refl refl good_allowed

abbrev request : ℕ → AdmissionRequest
request zero = request_for "ResourceLimiter" "v1beta2" "good"
request (suc n) = request_for "ResourceLimiter" "v1beta2" "bad"

good_passes : check_request texts codec (request 0) ≡ pass
unfolding check_request must_parse
good_passes = refl

bad_panics : check_request texts codec (request 1) ≡ panicking "cannot parse"
unfolding check_request must_parse
bad_panics = refl

abbrev incoming : ℕ → AdmissionReview × Option String
incoming i = (record review { request = some (request i) }, none)

abbrev good_first : Checks texts codec incoming 0 pass
good_first = record { request = request 0; decoded = refl; requested = refl; checked = good_passes }

abbrev bad_second : Checks texts codec incoming 1 (panicking "cannot parse")
bad_second = record { request = request 1; decoded = refl; requested = refl; checked = bad_panics }

Reachable-refused_example :
    (s : Server) × Reachable texts codec incoming s
    × (s.phase 0 ≡ answered (some (refused (recorded texts codec "cannot parse"))))
Reachable-refused_example =
    Reachable-refused texts codec incoming "cannot parse" bad_second good_first

Reachable-unanswered_example :
    (s : Server) × Reachable texts codec incoming s × (s.phase 1 ≡ answered none)
Reachable-unanswered_example =
    Reachable-unanswered texts codec incoming "cannot parse" bad_second refl

Reachable-panicked_example :
    (s : Server) × Reachable texts codec incoming s × (s.phase 1 ≡ panicked)
Reachable-panicked_example = Reachable-panicked texts codec incoming "cannot parse" bad_second refl

-- Handler 0 alone, to the end.
abbrev alone : Phase → ℕ → Phase
alone phase zero = phase
alone phase (suc n) = waiting

abbrev server_at : Phase → Server
server_at phase = record { phase = alone phase; res_form_err = none }

moves : (from to : Phase) → Moves 0 from to (server_at from) (server_at to)
moves from to = record { was = refl; now = refl; others = others }
  where
    others : (j : ℕ) → (j ≡ 0) ⊎ (alone to j ≡ alone from j)
    others zero = inl refl
    others (suc n) = inr refl

all_wait : (i : ℕ) → alone waiting i ≡ waiting
all_wait zero = refl
all_wait (suc n) = refl

abbrev good_answer : AdmissionResponse
good_answer = accepted texts codec (request 0)

answered_alone : Reachable texts codec incoming (server_at (answered (some good_answer)))
answered_alone =
    later (server_at (returned (some good_answer))) _
      (later (server_at checking) _
        (later (server_at waiting) _ (start _ all_wait) (reset 0 refl (moves _ _) refl))
        (check_at texts codec incoming 0 (some good_answer) none _ _
          (validated-conclude texts codec incoming 0 pass good_first) (moves _ _) refl))
      (test 0 (some good_answer) (moves _ _) refl)

Reachable-allowed_example : IsAccepted texts codec incoming 0
Reachable-allowed_example =
    Reachable-allowed texts codec incoming (server_at (answered (some good_answer))) 0 good_answer
      answered_alone refl refl
