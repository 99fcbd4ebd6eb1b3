-- ===== src/Webhook/Serve/Race/Traces.antt =====
-- Orders in which the panic of one validation is answered to another, or lost.
use resourcelimiter.Prelude.{
  ℕ, zero, suc, String, ◌≡◌, refl, sym, ap, ◌∙◌, subst, Option, none, some, ◌⊎◌, inl, inr,
}
use resourcelimiter.Controller.Platform.{Quantities}
use resourcelimiter.Webhook.Admission.{
  AdmissionRequest, AdmissionResponse, AdmissionReview, refused, Codec,
}
use resourcelimiter.Webhook.Validate.{
  Check, pass, panicking, check_request, recorded, conclude, accepted, validate,
}
use resourcelimiter.Webhook.Serve.Race.{
  Phase, waiting, checking, noticed, panicked, returned, answered, Server, Moves, record_panic,
  validated, Step, reset, check, test, read, Reachable, start, later,
}

abbrev phases : Phase → Phase → ℕ → Phase
phases a b zero = a
phases a b (suc zero) = b
phases a b (suc (suc n)) = waiting

abbrev server : Phase → Phase → Option String → Server
server a b err = record { phase = phases a b; res_form_err = err }

first-Moves : (a a' b : Phase) (e e' : Option String) → Moves 0 a a' (server a b e) (server a' b e')
first-Moves a a' b e e' = record { was = refl; now = refl; others = others }
  where
    others : (j : ℕ) → (j ≡ 0) ⊎ (phases a' b j ≡ phases a b j)
    others zero = inl refl
    others (suc zero) = inr refl
    others (suc (suc n)) = inr refl

second-Moves :
    (a b b' : Phase) (e e' : Option String) → Moves 1 b b' (server a b e) (server a b' e')
second-Moves a b b' e e' = record { was = refl; now = refl; others = others }
  where
    others : (j : ℕ) → (j ≡ 1) ⊎ (phases a b' j ≡ phases a b j)
    others zero = inr refl
    others (suc zero) = inl refl
    others (suc (suc n)) = inr refl

module _ (Q : Quantities) (J : Codec Q.Quantity)
    (review : ℕ → AdmissionReview × Option String) where
  -- The review of the handler is decoded to this request, whose checks come to this.
  pub record Checks (i : ℕ) (result : Check) : Type 0 where
    pub request : AdmissionRequest
    pub decoded : (review i).1 ≡ none
    pub requested : (review i).0.request ≡ some request
    pub checked : check_request Q J request ≡ result

  pub validated-conclude :
      (i : ℕ) (c : Check) (k : Checks i c) → validated Q J review i ≡ conclude Q J k.request c
  unfolding validate
  validated-conclude i c k = ap (validate Q J) k.requested ∙ ap (conclude Q J k.request) k.checked

  pub check_at :
      (i : ℕ) (r : Option AdmissionResponse) (e : Option String) (s t : Server)
      → validated Q J review i ≡ (r, e)
      → Moves i checking (returned r) s t
      → t.res_form_err ≡ record_panic e s.res_form_err
      → Step Q J review s t
  check_at i r e s t same m w =
      check i (subst (λ x. Moves i checking (returned x.0) s t) (sym same) m)
        (subst (λ x. t.res_form_err ≡ record_panic x.1 s.res_form_err) (sym same) w)

  begun : Reachable Q J review (server waiting waiting none)
  begun = start _ all_wait
    where
      all_wait : (i : ℕ) → phases waiting waiting i ≡ waiting
      all_wait zero = refl
      all_wait (suc zero) = refl
      all_wait (suc (suc n)) = refl

  module _ (text : String) (second : Checks 1 (panicking text)) where
    abbrev err : Option String
    err = some (recorded Q J text)

    -- The second handler has panicked, and the first has not begun.
    abbrev second_panicked : Server
    second_panicked = server waiting (returned none) err

    second_panicked-Reachable : Reachable Q J review second_panicked
    second_panicked-Reachable =
        later (server waiting checking none) second_panicked
          (later (server waiting waiting none) _ begun
            (reset 1 second.decoded (second-Moves _ _ _ none none) refl))
          (check_at 1 none err _ _ (validated-conclude 1 (panicking text) second)
            (second-Moves _ _ _ none err) refl)

    -- A request that passes its checks can be refused for the panic of another one: the other is
    -- checked after `resFormErr` has been reset for the first, and before the first has read it.
    pub Reachable-refused :
        (first : Checks 0 pass)
        → (s : Server) × Reachable Q J review s
          × (s.phase 0 ≡ answered (some (refused (recorded Q J text))))
    Reachable-refused first =
        let r = some (accepted Q J first.request) in
        let s1 =
          later _ (server checking waiting none) begun
            (reset 0 first.decoded (first-Moves _ _ _ none none) refl) in
        let s2 =
          later _ (server checking checking none) s1
            (reset 1 second.decoded (second-Moves _ _ _ none none) refl) in
        let s3 = later _ (server checking (returned none) err) s2 (
          check_at 1 none err _ _ (validated-conclude 1 (panicking text) second)
            (second-Moves _ _ _ none err) refl) in
        let s4 = later _ (server (returned r) (returned none) err) s3 (
          check_at 0 r none _ _ (validated-conclude 0 pass first) (first-Moves _ _ _ err err)
            refl) in
        let s5 =
          later _ (server noticed (returned none) err) s4
            (test 0 r (first-Moves _ _ _ err err) refl) in
        let s6 =
          later _ (server (answered (some (refused (recorded Q J text)))) (returned none) err) s5
            (read 0 (first-Moves _ _ _ err err) refl) in
        (_, s6, refl)

    -- A request whose checks panic can be answered by a review without a response: `resFormErr` is
    -- reset for another one, whose body is decoded, before the first has read it.
    pub Reachable-unanswered :
        (review 0).1 ≡ none → (s : Server) × Reachable Q J review s × (s.phase 1 ≡ answered none)
    Reachable-unanswered decoded =
        let s3 =
          later _ (server checking (returned none) none) second_panicked-Reachable
            (reset 0 decoded (first-Moves _ _ _ err none) refl) in
        let s4 =
          later _ (server checking (answered none) none) s3
            (test 1 none (second-Moves _ _ _ none none) refl) in
        (_, s4, refl)

    -- A request whose checks panic can be left without a reply: `resFormErr` is reset for another
    -- one, whose body is decoded, between the two reads of it for the first, and the second of them
    -- dereferences nil.
    pub Reachable-panicked :
        (review 0).1 ≡ none → (s : Server) × Reachable Q J review s × (s.phase 1 ≡ panicked)
    Reachable-panicked decoded =
        let s3 =
          later _ (server waiting noticed err) second_panicked-Reachable
            (test 1 none (second-Moves _ _ _ err err) refl) in
        let s4 =
          later _ (server checking noticed none) s3
            (reset 0 decoded (first-Moves _ _ _ err none) refl) in
        let s5 =
          later _ (server checking panicked none) s4 (read 1 (second-Moves _ _ _ none none) refl) in
        (_, s5, refl)
