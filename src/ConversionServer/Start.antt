-- ===== src/ConversionServer/Start.antt =====
-- `main` of pkg/conversion/main.go. The flags are arguments; an error ends the program by `Fatalf`.
use resourcelimiter.Prelude.{String, ◌<>◌, ℕ, List, [], ◌∷◌}
use resourcelimiter.Controller.Exec.{ok, Exec, lift, ◌>>=◌, ◌>>◌}
use resourcelimiter.Webhook.Serve.{Reply}
use resourcelimiter.Http.{Server, Host}
use resourcelimiter.ConversionServer.Review.{Codec, Serializer, Clause}
use resourcelimiter.ConversionServer.Media.{MediaType}
use resourcelimiter.ConversionServer.Serve.{HttpRequest, Handled, serve_convert}

abbrev pub Handler : Type 0
Handler = HttpRequest → Handled (List Reply)

-- The command line, with its defaults.
pub record Flags : Type 0 where
  pub port : ℕ
  pub webhook_cert_file : String
  pub webhook_key_file : String

abbrev pub default_flags : Flags
default_flags = record {
  port = 8444;
  webhook_cert_file = "/etc/webhook/certs/cert.pem";
  webhook_key_file = "/etc/webhook/certs/key.pem";
}

module _ (H : Host Handler) (J : Codec) (order : Clause → List (MediaType × Serializer)) where
  open H use {State, KeyPair}

  abbrev pub read_file : String → Exec State String
  read_file path = do reader ← H.open_file path; H.read_all reader

  abbrev pub server_for : Flags → KeyPair → Server KeyPair Handler
  server_for flags pair = record {
    addr = ":" <> H.format_port flags.port;
    certificates = pair ∷ [];
    handlers = ("/convert", serve_convert J order) ∷ [];
  }

  -- `Shutdown` once the signal has come.
  abbrev pub run : Server KeyPair Handler → Exec State (Unit {0})
  run server = H.listen_until_signal server >> (λ s. (ok tt, H.shutdown server s))

  unfoldable pub main : Flags → Exec State (Unit {0})
  main flags = do
    cert_pem ← read_file flags.webhook_cert_file
    cert_key_pem ← read_file flags.webhook_key_file
    pair ← lift (H.x509_key_pair cert_pem cert_key_pem)
    run (server_for flags pair)
