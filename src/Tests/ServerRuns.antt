-- ===== src/Tests/ServerRuns.antt =====
-- `main` of the conversion server on a host.
use resourcelimiter.Prelude.{String, ◌≡◌, refl, List, [], ◌∷◌, ◌==◌, if◌then◌else◌}
use resourcelimiter.Controller.Exec.{failure, error, ok, fail, handle}
use resourcelimiter.Http.{Host}
use resourcelimiter.ConversionServer.Review.{Codec, Serializer, Clause}
use resourcelimiter.ConversionServer.Media.{MediaType}
use resourcelimiter.ConversionServer.Start.{Handler, default_flags, main}

-- A host with two files, which writes down what is asked of it.
abbrev host : Host Handler
host = record {
  State = List String;
  File = String;
  KeyPair = String × String;
  open_file = λ path done. (ok path, path ∷ done);
  read_all = λ file done.
      if file == "/missing" then (fail (error (failure "no such file")), done) else (ok file, done);
  x509_key_pair = λ cert key. ok (cert, key);
  format_port = λ port. "8444";
  listen_until_signal = λ server done. (ok tt, server.addr ∷ done);
  shutdown = λ server done. "shutdown" ∷ done;
}

module _ (J : Codec) (order : Clause → List (MediaType × Serializer)) where
  -- The two files are read in order, and the server that has listened is shut down.
  main_listens : main host J order default_flags [] ≡ (
    ok tt,
    "shutdown" ∷ ":8444" ∷ "/etc/webhook/certs/key.pem" ∷ "/etc/webhook/certs/cert.pem" ∷ [],
  )
  unfolding main handle
  main_listens = refl

  -- A file that cannot be read ends the program before it listens.
  main_stops :
      main host J order (record default_flags { webhook_cert_file = "/missing" }) []
      ≡ (fail (error (failure "no such file")), "/missing" ∷ [])
  unfolding main handle
  main_stops = refl
