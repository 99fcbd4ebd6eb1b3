-- ===== src/Webhook/Serve/Race.antt =====
-- Validations that are served at the same time. They share the package variable `resFormErr` of
-- pkg/cmd/webhook.go without a lock, so their accesses to it come in any order. Each access is one
-- step: the writes of an interface value are taken to be whole. A request that is turned away before
-- its body is decoded does not access it.
pub mod Traces
use resourcelimiter.Prelude.{
  ℕ, String, ◌≡◌, refl, sym, ap, ◌∙◌, subst, true, Option, none, some, ◌⊎◌, inl, inr,
}
use resourcelimiter.Controller.Platform.{Quantities}
use resourcelimiter.Webhook.Admission.{
  AdmissionRequest, AdmissionResponse, AdmissionReview, refused, Codec,
}
use resourcelimiter.Webhook.Validate.{
  Check, pass, return, panicking, check_request, conclude, validate,
}
use resourcelimiter.Webhook.Serve.Verdict.{verdict, verdict_of}

-- How far a handler is: before it decodes its review, after the reset of `resFormErr`, with a
-- response of its own, after it has found `resFormErr` not nil, and at its end: with a response,
-- which may be nil, or with a panic, after which net/http sends no reply.
pub data Phase : Type 0 where
  waiting checking noticed panicked : Phase
  returned answered : Option AdmissionResponse → Phase

-- The handlers by number, and the variable.
pub record Server : Type 0 where
  pub phase : ℕ → Phase
  pub res_form_err : Option String

-- Handler `i` goes on to another phase, and the others stay.
pub record Moves (i : ℕ) (from to : Phase) (s t : Server) : Type 0 where
  pub was : s.phase i ≡ from
  pub now : t.phase i ≡ to
  pub others : (j : ℕ) → (j ≡ i) ⊎ (t.phase j ≡ s.phase j)

-- `resFormErr` after the checks: `recordR` stores the error of a panic, and nothing else writes it.
abbrev pub record_panic : Option String → Option String → Option String
record_panic none before = before
record_panic (some err) before = some err

-- `if resFormErr != nil`, the first read: without an error the response is kept.
abbrev pub test_error : Option AdmissionResponse → Option String → Phase
test_error response none = answered response
test_error response (some err) = noticed

-- `resFormErr.Error()`, the second read, which may find nil again.
abbrev pub read_error : Option String → Phase
read_error none = panicked
read_error (some err) = answered (some (refused err))

-- What the bodies are decoded to, with the error if there was one.
module _ (Q : Quantities) (J : Codec Q.Quantity)
    (review : ℕ → AdmissionReview × Option String) where
  -- What `validate` comes to on its own: the response, and the error of its panic. The request may
  -- be nil.
  abbrev pub validated : ℕ → Option AdmissionResponse × Option String
  validated i = validate Q J (review i).0.request

  -- At most one access to the variable, by handler `i`.
  pub data Step (s t : Server) : Type 0 where
    refuse :
        (i : ℕ) (err : String)
        → (review i).1 ≡ some err
        → Moves i waiting (returned (some (refused err))) s t
        → t.res_form_err ≡ s.res_form_err
        → Step s t
    reset :
        (i : ℕ)
        → (review i).1 ≡ none
        → Moves i waiting checking s t
        → t.res_form_err ≡ none
        → Step s t
    check :
        (i : ℕ)
        → Moves i checking (returned (validated i).0) s t
        → t.res_form_err ≡ record_panic (validated i).1 s.res_form_err
        → Step s t
    test :
        (i : ℕ) (response : Option AdmissionResponse)
        → Moves i (returned response) (test_error response s.res_form_err) s t
        → t.res_form_err ≡ s.res_form_err
        → Step s t
    read :
        (i : ℕ)
        → Moves i noticed (read_error s.res_form_err) s t
        → t.res_form_err ≡ s.res_form_err
        → Step s t

  -- Any number of them, from a server on which no handler has begun.
  pub data Reachable : Server → Type 0 where
    start : (s : Server) → ((i : ℕ) → s.phase i ≡ waiting) → Reachable s
    later : (s t : Server) → Reachable s → Step s t → Reachable t

  -- The review of the handler is decoded and has a request, which its own checks accept.
  pub record IsAccepted (i : ℕ) : Type 0 where
    pub request : AdmissionRequest
    pub decoded : (review i).1 ≡ none
    pub requested : (review i).0.request ≡ some request
    pub accepted : (verdict Q J request).allowed ≡ true

  abbrev Sound : ℕ → Option AdmissionResponse → Type 0
  Sound i r = (a : AdmissionResponse) → r ≡ some a → a.allowed ≡ true → IsAccepted i

  -- A handler whose checks run has a review that was decoded, and responses are sound.
  abbrev Honest : ℕ → Phase → Type 0
  Honest i waiting = Unit
  Honest i checking = (review i).1 ≡ none
  Honest i noticed = Unit
  Honest i panicked = Unit
  Honest i (returned r) = Sound i r
  Honest i (answered r) = Sound i r

  refused-Sound : (i : ℕ) (err : String) → Sound i (some (refused err))
  refused-Sound i err a e h = cc

  own_allowed :
      (req : AdmissionRequest) (c : Check) (a : AdmissionResponse)
      → (conclude Q J req c).0 ≡ some a
      → a.allowed ≡ true
      → (verdict_of Q J req c).allowed ≡ true
  own_allowed req pass a e h = refl
  own_allowed req (return r) a e h = cc
  own_allowed req (panicking x) a e h = cc

  validate-Sound :
      (i : ℕ) (o : Option AdmissionRequest)
      → (review i).1 ≡ none
      → (review i).0.request ≡ o
      → Sound i (validate Q J o).0
  unfolding validate verdict
  validate-Sound i none d e a r h = cc
  validate-Sound i (some req) d e a r h = record {
    request = req;
    decoded = d;
    requested = e;
    accepted = own_allowed req (check_request Q J req) a r h;
  }

  test-Honest :
      (i : ℕ) (r : Option AdmissionResponse) (err : Option String)
      → Sound i r
      → Honest i (test_error r err)
  test-Honest i r none h = h
  test-Honest i r (some err) h = tt

  read-Honest : (i : ℕ) (err : Option String) → Honest i (read_error err)
  read-Honest i none = tt
  read-Honest i (some err) = refused-Sound i err

  moved-Honest :
      (i : ℕ) (from to : Phase) (s t : Server)
      → Moves i from to s t
      → Honest i to
      → ((j : ℕ) → Honest j (s.phase j))
      → (j : ℕ) → Honest j (t.phase j)
  moved-Honest i from to s t m h all j = elim (m.others j) [
    | inl same ↦ subst (λ x. Honest x (t.phase x)) (sym same) (subst (Honest i) (sym m.now) h)
    | inr still ↦ subst (Honest j) (sym still) (all j)
  ]

  Step-Honest :
      (s t : Server) → Step s t → ((j : ℕ) → Honest j (s.phase j)) → (j : ℕ) → Honest j (t.phase j)
  Step-Honest s t (refuse i err _ m _) all = moved-Honest i _ _ s t m (refused-Sound i err) all
  Step-Honest s t (reset i d m _) all = moved-Honest i _ _ s t m d all
  Step-Honest s t (check i m _) all =
      moved-Honest i _ _ s t m (validate-Sound i _ (subst (Honest i) m.was (all i)) refl) all
  Step-Honest s t (test i r m _) all =
      moved-Honest i _ _ s t m (test-Honest i r s.res_form_err (subst (Honest i) m.was (all i))) all
  Step-Honest s t (read i m _) all = moved-Honest i _ _ s t m (read-Honest i s.res_form_err) all

  Reachable-Honest : (s : Server) → Reachable s → (j : ℕ) → Honest j (s.phase j)
  Reachable-Honest s (start _ w) j = subst (Honest j) (sym (w j)) tt
  Reachable-Honest t (later s _ r step) j = Step-Honest s t step (Reachable-Honest s r) j

  -- In whatever order concurrent validations access `resFormErr`, also for bodies that are not
  -- decoded and reviews without a request: a handler that answers that an object is allowed has a
  -- review with a request, which its own checks accept.
  pub Reachable-allowed :
      (s : Server) (i : ℕ) (a : AdmissionResponse)
      → Reachable s
      → s.phase i ≡ answered (some a)
      → a.allowed ≡ true
      → IsAccepted i
  Reachable-allowed s i a r e h = subst (Honest i) e (Reachable-Honest s r i) a refl h
