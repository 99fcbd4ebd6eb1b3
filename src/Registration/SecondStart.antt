-- ===== src/Registration/SecondStart.antt =====
-- The first start of the server of the admission webhooks, and the second.
use resourcelimiter.Prelude.{
  String, ◌<>◌, ◌≡◌, refl, sym, ap, ◌∙◌, subst, Bool-cases, true, false, none, inl, inr, ◌==◌,
}
use resourcelimiter.Controller.Exec.{ok, raise, handle, Post, Post-imp, Post-handle}
use resourcelimiter.Registration.Platform.{
  Webhook, Config, mutating, validating, Client, Configs, IsApi,
}
use resourcelimiter.Registration.Configure.{
  Process, config_with, mutating_webhook, validating_webhook,
  create_or_update_webhook_configuration,
}
use resourcelimiter.Registration.Start.{Environment, certificates, start, fresh}
use resourcelimiter.Registration.Certificates.{Crypto, Pems}
use resourcelimiter.Registration.Laws.{seen, Registered, sent, agreed, Made}
use resourcelimiter.Registration.Outcomes.{
  renamed, create_or_update_webhook_configuration-Made, create_or_update_webhook_configuration-new,
}
use resourcelimiter.Registration.Restart.{mutating_name, validating_name, both, start-panicked}

-- The surroundings let the server come as far as the registration, with these buffers.
pub record IsReady {X : Crypto} (E : Environment X) (service namespace : String) (pems : Pems X)
    : Type 0 where
  pub generated : (certificates X E service namespace).0 ≡ ok pems
  pub paired : E.x509_key_pair (X.bytes pems.cert_pem) (X.bytes pems.cert_key_pem) ≡ ok tt
  pub inside : (E.kubeconfig == "") ≡ true → E.in_cluster_config ≡ ok tt
  pub built : E.build_config_from_flags E.kubeconfig ≡ ok tt
  pub connects : E.new_for_config ≡ ok tt

module _ (C : Client) {Flaky : Type 0} (L : IsApi C Flaky) where
  open L use {view}

  Registered-kept :
      (v u : Configs) (desired : Config) (w : Webhook)
      → v.mutating_of ≡ u.mutating_of
      → Registered C L mutating desired w v
      → Registered C L mutating desired w u
  Registered-kept v u desired w same (sent version e) =
      sent version (ap (λ f. f desired.name) (sym same) ∙ e)
  Registered-kept v u desired w same (agreed c e agrees) =
      agreed c (ap (λ f. f desired.name) (sym same) ∙ e) agrees

  module _ (ca_pem service namespace : String) where
    abbrev pub BothRegistered : Configs → Type 0
    BothRegistered v =
        Registered C L mutating
          (config_with mutating_name namespace (mutating_webhook ca_pem service namespace))
          (mutating_webhook ca_pem service namespace) v
        × Registered C L validating
            (config_with validating_name namespace (validating_webhook ca_pem service namespace))
            (validating_webhook ca_pem service namespace) v

    both-Registered :
        (s : C.State)
        → (view s).validating_of validating_name ≡ none
        → Post
            (λ _ t. BothRegistered (view t.cluster))
            (λ _ _. Flaky)
            (both C L ca_pem service namespace (fresh s))
    both-Registered s lacking =
        let m = create_or_update_webhook_configuration C ca_pem service namespace in
        Post-handle
          (λ _ t.
            Made C L mutating
              (config_with mutating_name namespace (mutating_webhook ca_pem service namespace))
              (mutating_webhook ca_pem service namespace) (renamed mutating_name (fresh s)) t)
          (λ _ _. Flaky) (λ _ t. BothRegistered (view t.cluster)) (λ _ _. Flaky) (m true)
          (λ _. m false) raise (fresh s)
          (Post-imp _ _ _ (λ _ _. Flaky) (m true (fresh s)) (λ _ t h. h) (λ e t f. f.0)
            (create_or_update_webhook_configuration-Made C L ca_pem service namespace (fresh s)))
          (λ _ t made.
            Post-imp _ _ _ (λ _ _. Flaky) (m false t)
              (λ _ u new. (
                Registered-kept (view t.cluster) (view u.cluster) _ _ (sym new.others)
                    made.registered,
                subst
                    (λ n.
                      Registered C L validating
                        (config_with (n <> "-validate") namespace
                          (validating_webhook ca_pem service namespace))
                        (validating_webhook ca_pem service namespace) (view u.cluster))
                    made.named new.registered,
              ))
              (λ e u f. f)
              (create_or_update_webhook_configuration-new C L ca_pem service namespace t (
                ap (λ n. (seen C L t).validating_of (n <> "-validate")) made.named
                ∙ ap (λ f. f validating_name) made.others
                ∙ lacking)))
          (λ e t f. f) (λ t f. f)

  module _ {X : Crypto} (E : Environment X) (service namespace : String) (pems : Pems X)
      (ready : IsReady E service namespace pems) where
    start-both :
        (s : C.State)
        → start C E service namespace (fresh s)
          ≡ both C L (X.bytes pems.ca_pem) service namespace (fresh s)
    unfolding start handle
    start-both s =
        rw (ready.generated, ready.paired, ready.built, ready.connects)
          elim (Bool-cases (E.kubeconfig == "")) [ inl e ↦ rw (e, ready.inside e) | inr e ↦ rw e ]

    -- A process that gets its certificates and its client, and starts where the validating
    -- configuration does not exist, fails only if the API does. Otherwise it comes to listen, and
    -- the API keeps the mutating configuration as it was sent or one that agrees with it, and the
    -- validating one, with the CA of the process, each under its own name.
    pub start-Registered :
        (s : C.State)
        → (view s).validating_of validating_name ≡ none
        → Post
            (λ _ t. BothRegistered (X.bytes pems.ca_pem) service namespace (view t.cluster))
            (λ _ _. Flaky)
            (start C E service namespace (fresh s))
    start-Registered s lacking =
        rw (start-both s) (both-Registered (X.bytes pems.ca_pem) service namespace s lacking)

    -- A process that gets its certificates and its client, and starts where the validating
    -- configuration does not exist, fails only if the API does. After its start, no process that is
    -- started next, in whatever surroundings and for whatever service, comes to listen; the
    -- validating configurations stay as they are.
    pub start-start :
        {Y : Crypto} (again : Environment Y) (other_service other_namespace : String) (s : C.State)
        → (view s).validating_of validating_name ≡ none
        → Post
            (λ _ t.
              Post
                (λ _ _. ⊥)
                (λ _ u. (view u.cluster).validating_of ≡ (view t.cluster).validating_of)
                (start C again other_service other_namespace (fresh t.cluster)))
            (λ _ _. Flaky)
            (start C E service namespace (fresh s))
    start-start again other_service other_namespace s lacking =
        Post-imp (λ _ t. BothRegistered (X.bytes pems.ca_pem) service namespace (view t.cluster)) _
          (λ _ _. Flaky) (λ _ _. Flaky) (start C E service namespace (fresh s))
          (λ _ t r. never t r.1) (λ e t f. f) (start-Registered s lacking)
      where
        never :
            (t : Process C.State)
            → Registered C L validating
                (config_with validating_name namespace
                  (validating_webhook (X.bytes pems.ca_pem) service namespace))
                (validating_webhook (X.bytes pems.ca_pem) service namespace)
                (view t.cluster)
            → Post
                (λ _ _. ⊥)
                (λ _ u. (view u.cluster).validating_of ≡ (view t.cluster).validating_of)
                (start C again other_service other_namespace (fresh t.cluster))
        never t (sent version e) =
            start-panicked C L again other_service other_namespace t.cluster _ _ e
              (L.admitted_one _ _ refl)
        never t (agreed c e agrees) =
            start-panicked C L again other_service other_namespace t.cluster c agrees.first e
              agrees.only
