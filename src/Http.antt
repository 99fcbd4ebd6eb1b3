-- ===== src/Http.antt =====
-- What both servers use of net/http, crypto/tls and os/signal: calls of libraries, as parameters.
use resourcelimiter.Prelude.{String, ℕ, List}
use resourcelimiter.Controller.Exec.{Outcome, Exec}

-- `http.Server` with its `ServeMux`: the address, the key pairs, and a handler for each pattern.
pub record Server (KeyPair Handler : Type 0) : Type 0 where
  pub addr : String
  pub certificates : List KeyPair
  pub handlers : List (String × Handler)

pub record Host (Handler : Type 0) : Type 1 where
  pub State : Type 0
  pub File : Type 0
  pub KeyPair : Type 0
  pub open_file : String → Exec State File
  pub read_all : File → Exec State String
  pub x509_key_pair : String → String → Outcome KeyPair
  -- `fmt.Sprintf("%v", port)`
  pub format_port : ℕ → String
  -- `ListenAndServeTLS` in a goroutine, until a signal comes; its error ends the program.
  pub listen_until_signal : Server KeyPair Handler → Exec State (Unit {0})
  -- `Shutdown`, whose error is not looked at.
  pub shutdown : Server KeyPair Handler → State → State
