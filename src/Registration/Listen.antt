-- ===== src/Registration/Listen.antt =====
-- The end of `main` of pkg/cmd/main.go, once the webhooks are registered: the server listens.
use resourcelimiter.Prelude.{String, ◌<>◌, ℕ, Option, some, List, [], ◌∷◌}
use resourcelimiter.Controller.Exec.{ok, Exec, ◌>>◌}
use resourcelimiter.Controller.Platform.{Quantities}
use resourcelimiter.Http.{Server, Host}
use resourcelimiter.Webhook.Admission.{Codec}
use resourcelimiter.Webhook.Serve.{HttpRequest, Reply, serve_mutate, serve_validate}

-- A handler, with `resFormErr` before and after; no replies stand for a panic.
abbrev pub Handler : Type 0
Handler = HttpRequest → Option String → Option (List Reply) × Option String

module _ (Q : Quantities) (J : Codec Q.Quantity) (write_error : String → Option String)
    (H : Host Handler) where
  open H use {State, KeyPair}

  abbrev pub handle_mutate : Handler
  handle_mutate r res_form_err = (serve_mutate Q J write_error r, res_form_err)

  abbrev pub handle_validate : Handler
  handle_validate r res_form_err =
      let (replies, after) = serve_validate Q J write_error r res_form_err in (some replies, after)

  abbrev pub webhook_server : ℕ → KeyPair → Server KeyPair Handler
  webhook_server port pair = record {
    addr = ":" <> H.format_port port;
    certificates = pair ∷ [];
    handlers = ("/mutate", handle_mutate) ∷ ("/validate", handle_validate) ∷ [];
  }

  unfoldable pub listen : ℕ → KeyPair → Exec State (Unit {0})
  listen port pair =
      let server = webhook_server port pair in
      H.listen_until_signal server >> (λ s. (ok tt, H.shutdown server s))
