-- ===== src/Registration/Start.antt =====
-- `main` of pkg/cmd/main.go, up to the point where the server listens. The flags are arguments.
use resourcelimiter.Prelude.{String, ◌<>◌, true, false, List, [], ◌∷◌, ◌==◌, if◌then◌else◌}
use resourcelimiter.Controller.Exec.{Outcome, Exec, pure, lift, ◌>>=◌, ◌>>◌}
use resourcelimiter.Registration.Platform.{Client}
use resourcelimiter.Registration.Certificates.{Crypto, Pems, generate_cert}
use resourcelimiter.Registration.Configure.{
  Process, initial_name, create_or_update_webhook_configuration,
}

-- What `main` finds: the random source and the clock, the check of a key pair, and the
-- configuration of the client, in the cluster or from a file.
pub record Environment (X : Crypto) : Type 0 where
  pub source : X.Source
  pub kubeconfig : String
  pub x509_key_pair : String → String → Outcome (Unit {0})
  pub in_cluster_config : Outcome (Unit {0})
  pub build_config_from_flags : String → Outcome (Unit {0})
  pub new_for_config : Outcome (Unit {0})

-- The names that the server answers to.
abbrev pub dns_names : String → String → List String
dns_names service namespace =
    service ∷ (service <> ("." <> namespace)) ∷ (service <> ("." <> (namespace <> ".svc"))) ∷ []

-- A process begins with the package variable as it is declared.
abbrev pub fresh : {S : Type 0} → S → Process S
fresh s = record { webhook_config_name = initial_name; cluster = s }

module _ (X : Crypto) (E : Environment X) where
  abbrev pub certificates : String → String → Outcome (Pems X) × X.Source
  certificates service namespace =
      generate_cert X ("cliufreever" ∷ []) (dns_names service namespace)
        (service <> ("." <> (namespace <> ".svc"))) E.source

module _ (C : Client) {X : Crypto} (E : Environment X) where
  open C use {State}

  -- An error ends the program by `Fatalf`; success means that the server listens.
  unfoldable pub start : String → String → Exec (Process State) (Unit {0})
  unfolding create_or_update_webhook_configuration generate_cert
  start service namespace = do
    pems ← lift (certificates X E service namespace).0
    lift (E.x509_key_pair (X.bytes pems.cert_pem) (X.bytes pems.cert_key_pem))
    if E.kubeconfig == "" then lift E.in_cluster_config else pure tt
    lift (E.build_config_from_flags E.kubeconfig)
    lift E.new_for_config
    create_or_update_webhook_configuration C (X.bytes pems.ca_pem) service namespace true
    create_or_update_webhook_configuration C (X.bytes pems.ca_pem) service namespace false
