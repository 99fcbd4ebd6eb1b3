-- ===== src/Registration/Certificates/Laws.antt =====
-- What `generateCert` writes, as it is read back.
use resourcelimiter.Prelude.{String, ◌≡◌, refl, sym, subst, true, some, List, arith}
use resourcelimiter.Controller.Exec.{Outcome, pure, handle, ◌>>=◌, Post, Post-bind}
use resourcelimiter.Registration.Certificates.{
  Certificate, Crypto, Pems, ca_template, cert_template, generate_cert,
}
use resourcelimiter.Registration.Certificates.Reading.{
  Reader, parsed_from, IsCrypto, IsValid, IsIssued,
}

module _ (X : Crypto) (R : Reader X) {Flaky : Type 0} (L : IsCrypto X R Flaky)
    (orgs dns_names : List String) (common_name : String) where
  open X use {Source, Time, PrivateKey, generate_key, public_key, create_certificate, pem_encode}
  open R use {Before, time, whole}

  -- The clock is read at `before` and at `after`, in a call that began at `s`, up to the state `t`.
  record IsRead (s t : Source) (before after : Time) : Type 0 where
    started : Before before (time t)
    since : Before (time s) after
    until : Before after (time t)

  IsRead-later :
      (s t u : Source) (before after : Time)
      → Before (time t) (time u)
      → IsRead s t before after
      → IsRead s u before after
  IsRead-later s t u before after e r = record {
    started = L.before_trans _ _ _ r.started e;
    since = r.since;
    until = L.before_trans _ _ _ r.until e;
  }

  -- Two readings one after the other.
  now-Before :
      (r : Source)
      → Before (time r) (X.now (X.now r).1).0 × Before (time r) (time (X.now (X.now r).1).1)
  now-Before r =
      let r1 = (X.now r).1 in
      let first = L.before_trans _ _ _ (L.before_now r) (L.after_now r) in
      let read = L.before_trans _ _ _ first (L.before_now r1) in
      (read, L.before_trans _ _ _ read (L.after_now r1))

  now-IsRead :
      (s r : Source)
      → Before (time s) (X.now (X.now r).1).0
      → IsRead s (X.now (X.now r).1).1 (X.now r).0 (X.now (X.now r).1).0
  now-IsRead s r since = record {
    started =
        L.before_trans _ _ _ (L.after_now r)
          (L.before_trans _ _ _ (L.before_now (X.now r).1) (L.after_now (X.now r).1));
    since = since;
    until = L.after_now (X.now r).1;
  }

  IsRead-IsValid :
      (s t : Source) (before after : Time) (c : Certificate Time)
      → c.not_before ≡ whole before
      → c.not_after ≡ whole (X.add_date after 2 0 0)
      → IsRead s t before after
      → IsValid X R s t c
  IsRead-IsValid s t before after c b a r = record {
    begun =
        subst (λ x. Before x (time t)) (sym b)
          (L.before_trans _ _ _ (L.whole_law before) r.started);
    read = after;
    since = r.since;
    until = r.until;
    expires = a;
  }

  abbrev Issued : Source → Outcome (Pems X) × Source → Type 0
  Issued s = Post (λ pems t. IsIssued X R dns_names s t pems) (λ _ _. Flaky)

  module _ (s : Source) (ca_before ca_after cert_before cert_after : Time) (ca_key : PrivateKey)
      (ca_der : X.Der) where
    abbrev ca : Certificate Time
    ca = ca_template X orgs ca_before ca_after

    abbrev cert : Certificate Time
    cert = cert_template X orgs dns_names common_name cert_before cert_after

    -- The three buffers, once both certificates are made.
    written-IsIssued :
        (key : PrivateKey) (cert_der : X.Der) (z : Source)
        → (R.parse_certificate ca_der ≡ some (parsed_from X R ca ca (public_key ca_key)))
          × (R.is_signed_by ca_der (public_key ca_key) ≡ true)
        → (R.parse_certificate cert_der ≡ some (parsed_from X R cert ca (public_key key)))
          × (R.is_signed_by cert_der (public_key ca_key) ≡ true)
        → IsRead s z ca_before ca_after
        → IsRead s z cert_before cert_after
        → IsIssued X R dns_names s z (record {
          ca_pem = pem_encode "CERTIFICATE" ca_der;
          cert_pem = pem_encode "CERTIFICATE" cert_der;
          cert_key_pem = pem_encode "RSA PRIVATE KEY" (X.marshal_private_key key);
        })
    written-IsIssued key cert_der z (ca_parsed, ca_signed) (cert_parsed, cert_signed) first second =
        record {
          ca_der = ca_der;
          cert_der = cert_der;
          key_der = X.marshal_private_key key;
          ca = parsed_from X R ca ca (public_key ca_key);
          cert = parsed_from X R cert ca (public_key key);
          key = key;
          ca_decoded = L.pem_law "CERTIFICATE" ca_der;
          cert_decoded = L.pem_law "CERTIFICATE" cert_der;
          key_decoded = L.pem_law "RSA PRIVATE KEY" (X.marshal_private_key key);
          ca_parsed = ca_parsed;
          cert_parsed = cert_parsed;
          key_parsed = L.private_key_law key;
          is_ca = refl;
          constrained = refl;
          may_sign = refl;
          ca_signed = ca_signed;
          cert_signed = cert_signed;
          organization = refl;
          common_name = refl;
          leaf = refl;
          names = refl;
          serves = refl;
          paired = refl;
          ca_valid = IsRead-IsValid s z ca_before ca_after _ refl refl first;
          cert_valid = IsRead-IsValid s z cert_before cert_after _ refl refl second;
        }

    -- The server's own certificate, once that of the CA is there.
    issue-IsIssued :
        (x : Source)
        → (R.parse_certificate ca_der ≡ some (parsed_from X R ca ca (public_key ca_key)))
          × (R.is_signed_by ca_der (public_key ca_key) ≡ true)
        → IsRead s x ca_before ca_after
        → IsRead s x cert_before cert_after
        → Issued s (
            (generate_key 4096 >>= λ key.
            create_certificate cert ca (public_key key) ca_key >>= λ der. pure (record {
              ca_pem = pem_encode "CERTIFICATE" ca_der;
              cert_pem = pem_encode "CERTIFICATE" der;
              cert_key_pem = pem_encode "RSA PRIVATE KEY" (X.marshal_private_key key);
            }))
              x)
    issue-IsIssued x root first second =
        Post-bind (λ _ y. Before (time x) (time y)) (λ pems t. IsIssued X R dns_names s t pems)
          (λ _ _. Flaky) (generate_key 4096) _ x (L.generate_key_law 4096 x)
          (λ key y e.
            Post-bind
              (λ der z.
                Before (time y) (time z)
                × (R.parse_certificate der ≡ some (parsed_from X R cert ca (public_key key)))
                × (R.is_signed_by der (public_key ca_key) ≡ true))
              (λ pems t. IsIssued X R dns_names s t pems) (λ _ _. Flaky)
              (create_certificate cert ca (public_key key) ca_key) _ y
              (L.create_law cert ca (public_key key) ca_key y (omega arith))
              (λ der z (later, parsed, signed).
                let e' = L.before_trans _ _ _ e later in
                written-IsIssued key der z root (parsed, signed)
                  (IsRead-later s x z ca_before ca_after e' first)
                  (IsRead-later s x z cert_before cert_after e' second)))

  -- generateCert fails only if the packages of crypto do. Otherwise its three buffers are read back
  -- to two certificates and a private key: the CA may sign and has signed both certificates with
  -- its key, the server's names the CA as its issuer, is not of a CA itself, is for servers and for
  -- the names asked for, and holds the public key of the private key. Both are valid from the end
  -- of the call at the latest, until AddDate(2, 0, 0) of a time during the call.
  pub generate_cert-IsIssued :
      (s : Source)
      → Post
          (λ pems t. IsIssued X R dns_names s t pems)
          (λ _ _. Flaky)
          (generate_cert X orgs dns_names common_name s)
  unfolding generate_cert handle
  generate_cert-IsIssued s =
      let (ca_before, r) = X.now s in
      let (ca_after, t) = X.now r in
      let ca = ca_template X orgs ca_before ca_after in
      let (read, since) = now-Before s in
      let first = now-IsRead s s read in
      Post-bind (λ _ u. Before (time t) (time u)) (λ pems t. IsIssued X R dns_names s t pems)
        (λ _ _. Flaky) (generate_key 4096) _ t (L.generate_key_law 4096 t)
        (λ ca_key u e.
          Post-bind
            (λ der v.
              Before (time u) (time v)
              × (R.parse_certificate der ≡ some (parsed_from X R ca ca (public_key ca_key)))
              × (R.is_signed_by der (public_key ca_key) ≡ true))
            (λ pems t. IsIssued X R dns_names s t pems) (λ _ _. Flaky)
            (create_certificate ca ca (public_key ca_key) ca_key) _ u
            (L.create_law ca ca (public_key ca_key) ca_key u (omega arith))
            (λ ca_der v (later, parsed, signed).
              let (cert_before, w) = X.now v in
              let (cert_after, x) = X.now w in
              let made = L.before_trans _ _ _ e later in
              let (reread, more) = now-Before v in
              let second =
                now-IsRead s v (L.before_trans _ _ _ since (L.before_trans _ _ _ made reread)) in
              issue-IsIssued s ca_before ca_after cert_before cert_after ca_key ca_der x
                (parsed, signed)
                (IsRead-later s t x ca_before ca_after (L.before_trans _ _ _ made more) first)
                second))
