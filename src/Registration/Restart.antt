-- ===== src/Registration/Restart.antt =====
-- The start of the server of the admission webhooks where they are registered already.
use resourcelimiter.Prelude.{
  String, ◌<>◌, ◌≡◌, refl, ap, ◌∙◌, Bool-cases, true, false, some, [], ◌∷◌, inl, inr, ◌==◌,
}
use resourcelimiter.Controller.Exec.{
  Fault, error, panicked, Outcome, ok, fail, Exec, raise, lift, handle, ◌>>=◌, ◌>>◌, Post, Post-imp,
  Post-handle,
}
use resourcelimiter.Registration.Platform.{Webhook, Config, mutating, Client, IsApi}
use resourcelimiter.Registration.Configure.{
  Process, config_with, mutating_webhook, create_or_update_webhook_configuration,
}
use resourcelimiter.Registration.Start.{Environment, certificates, start, fresh}
use resourcelimiter.Registration.Certificates.{Crypto}
use resourcelimiter.Registration.Laws.{seen, Made}
use resourcelimiter.Registration.Outcomes.{
  renamed, create_or_update_webhook_configuration-Made,
  create_or_update_webhook_configuration-panicked,
}

-- The names of the two configurations that a start is about.
abbrev pub mutating_name : String
mutating_name = "resourcelimiter-checker-mutate"

abbrev pub validating_name : String
validating_name = "resourcelimiter-checker-mutate-validate"

-- A step that does not touch the cluster.
Post-lift :
    {S A B : Type 0} (Q : B → S → Type 0) (E : Fault → S → Type 0) (r : Outcome A)
    (f : A → Exec S B) (p : S)
    → ((a : A) → Post Q E (f a p))
    → ((e : Fault) → E e p)
    → Post Q E ((lift r >>= f) p)
unfolding handle
Post-lift Q E (ok a) f p h k = h a
Post-lift Q E (fail (error e)) f p h k = k (error e)
Post-lift Q E (fail panicked) f p h k = k panicked

module _ (C : Client) {Flaky : Type 0} (L : IsApi C Flaky) where
  open L use {view, admitted}

  -- What `main` does once it has its client.
  abbrev pub both : String → String → String → Exec (Process C.State) (Unit {0})
  both ca_pem service namespace = do
    create_or_update_webhook_configuration C ca_pem service namespace true
    create_or_update_webhook_configuration C ca_pem service namespace false

  module _ (ca_pem service namespace : String) (s : C.State) where
    abbrev mutating_config : Config
    mutating_config =
        config_with mutating_name namespace (mutating_webhook ca_pem service namespace)

    abbrev Kept : Fault → Process C.State → Type 0
    Kept e t = (view t.cluster).validating_of ≡ (view s).validating_of

    both-panicked :
        (c : Config) (w : Webhook)
        → (view s).validating_of validating_name ≡ some c
        → c.webhooks ≡ w ∷ []
        → Post (λ _ _. ⊥) Kept (both ca_pem service namespace (fresh s))
    both-panicked c w here one =
        let m = create_or_update_webhook_configuration C ca_pem service namespace in
        Post-handle
          (λ _ t.
            Made C L mutating mutating_config (mutating_webhook ca_pem service namespace)
              (renamed mutating_name (fresh s)) t)
          Kept (λ _ _. ⊥) Kept (m true) (λ _. m false) raise (fresh s)
          (Post-imp _ _ _ Kept (m true (fresh s)) (λ _ t h. h) (λ e t f. f.1)
            (create_or_update_webhook_configuration-Made C L ca_pem service namespace (fresh s)))
          (λ _ t made.
            Post-imp _ (λ _ _. ⊥) _ Kept (m false t) (λ _ u h. h)
              (λ e u f. ap (λ v. v.validating_of) f.0 ∙ made.others)
              (create_or_update_webhook_configuration-panicked C L ca_pem service namespace t c w
                (ap (λ n. (seen C L t).validating_of (n <> "-validate")) made.named
                  ∙ ap (λ f. f validating_name) made.others
                  ∙ here)
                one))
          (λ e t k. k) (λ t k. k)

  module _ {X : Crypto} (E : Environment X) (service namespace : String) where
    -- What follows the check of the key pair, once the configuration of the client is there.
    abbrev connected : String → Exec (Process C.State) (Unit {0})
    connected ca_pem = do
      lift (E.build_config_from_flags E.kubeconfig)
      lift E.new_for_config
      both ca_pem service namespace

    connected-panicked :
        (ca_pem : String) (s : C.State) (c : Config) (w : Webhook)
        → (view s).validating_of validating_name ≡ some c
        → c.webhooks ≡ w ∷ []
        → Post
            (λ _ _. ⊥)
            (λ _ t. (view t.cluster).validating_of ≡ (view s).validating_of)
            (connected ca_pem (fresh s))
    connected-panicked ca_pem s c w here one =
        let K = Kept ca_pem service namespace s in
        Post-lift (λ _ _. ⊥) K (E.build_config_from_flags E.kubeconfig) _ (fresh s)
          (λ _.
            Post-lift (λ _ _. ⊥) K E.new_for_config _ (fresh s)
              (λ _. both-panicked ca_pem service namespace s c w here one) (λ e. refl))
          (λ e. refl)

    -- A process that starts where the validating configuration "resourcelimiter-checker-mutate-
    -- validate" exists with one webhook never comes to listen, and leaves the validating
    -- configurations as they are.
    pub start-panicked :
        (s : C.State) (c : Config) (w : Webhook)
        → (view s).validating_of validating_name ≡ some c
        → c.webhooks ≡ w ∷ []
        → Post
            (λ _ _. ⊥)
            (λ _ t. (view t.cluster).validating_of ≡ (view s).validating_of)
            (start C E service namespace (fresh s))
    unfolding start
    start-panicked s c w here one =
        let K : Fault → Process C.State → Type 0 =
          λ _ t. (view t.cluster).validating_of ≡ (view s).validating_of in
        Post-lift (λ _ _. ⊥) K (certificates X E service namespace).0 _ (fresh s)
          (λ pems.
            Post-lift (λ _ _. ⊥) K (E.x509_key_pair _ _) _ (fresh s)
              (λ _. elim (Bool-cases (E.kubeconfig == "")) [
                | inl e ↦ rw e (
                    Post-lift (λ _ _. ⊥) K E.in_cluster_config _ (fresh s)
                      (λ _. connected-panicked (X.bytes pems.ca_pem) s c w here one) (λ e. refl))
                | inr e ↦ rw e (
                    Post-lift (λ _ _. ⊥) K (ok tt) _ (fresh s)
                      (λ _. connected-panicked (X.bytes pems.ca_pem) s c w here one) (λ e. refl))
              ])
              (λ e. refl))
          (λ e. refl)
