-- ===== src/Tests/RegistrationRuns.antt =====
-- The registration of the webhooks with an API that keeps the configurations in memory.
use resourcelimiter.Prelude.{
  String, Bool, false, none, arith, ite, ℕ_discrete, ◌≤◌, ◌*◌, ◌<>◌, ℕ, suc, ◌+◌, ◌≡◌, refl, ap,
  true, Option, none, some, [], ◌∷◌, map,
}
use resourcelimiter.Controller.Exec.{not_found, failure, error, ok, fail, Exec, Post, handle}
use resourcelimiter.Controller.Platform.View.{ReadFault, WriteFault}
use resourcelimiter.Registration.Platform.{
  Webhook, Config, mutating, validating, Client, Configs, of_kind, put_config, IsApi,
}
use resourcelimiter.Registration.Configure.{
  config_with, mutating_webhook, validating_webhook, create_or_update_webhook_configuration,
}
use resourcelimiter.Registration.Certificates.{
  Certificate, Crypto, Pems, ca_template, cert_template, generate_cert,
}
use resourcelimiter.Registration.Certificates.Reading.{Parsed, Reader, IsCrypto, IsIssued}
use resourcelimiter.Registration.Certificates.Laws.{generate_cert-IsIssued}
use resourcelimiter.Registration.Start.{Environment, dns_names, start, fresh}
use resourcelimiter.Registration.Laws.{Made}
use resourcelimiter.Registration.Outcomes.{renamed, create_or_update_webhook_configuration-Made}
use resourcelimiter.Registration.Restart.{mutating_name, validating_name, start-panicked}
use resourcelimiter.Registration.SecondStart.{
  IsReady, BothRegistered, start-Registered, start-start,
}

-- The API fills in the port of the service.
abbrev with_port : Webhook → Webhook
with_port w = record w { service = record w.service { port = some "443" } }

abbrev stored : Config → Config
stored c = record c { webhooks = map with_port c.webhooks }

abbrev get_config : Option Config → Exec Configs Config
get_config none s = (fail (error not_found), s)
get_config (some c) s = (ok c, s)

abbrev create_config : Option Config → Configs → Exec Configs (Unit {0})
create_config none new s = (ok tt, new)
create_config (some c) new s = (fail (error (failure "already exists")), s)

abbrev update_config : Option Config → Configs → Exec Configs (Unit {0})
update_config none new s = (fail (error not_found), s)
update_config (some c) new s = (ok tt, new)

abbrev api : Client
api = record {
  State = Configs;
  get = λ k n s. get_config (of_kind k s n) s;
  create = λ k c s. create_config (of_kind k s c.name) (put_config k c.name (stored c) s) s;
  update = λ k c s. update_config (of_kind k s c.name) (put_config k c.name (stored c) s) s;
}

get_lawful :
    (o : Option Config) (s : Configs)
    → Post (λ c t. (t ≡ s) × (o ≡ some c)) (λ e t. ReadFault ⊥ s o t e) (get_config o s)
get_lawful none s = (refl, refl)
get_lawful (some c) s = (refl, refl)

create_lawful :
    (c : Config) (o : Option Config) (new s : Configs)
    → o ≡ none
    → Post (λ _ t. t ≡ new) (λ e t. WriteFault ⊥ s (some c) new t e) (create_config o new s)
create_lawful c none new s e = refl
create_lawful c (some x) new s e = cc

update_lawful :
    (o : Option Config) (new s : Configs)
    → Post (λ _ t. t ≡ new) (λ e t. WriteFault ⊥ s o new t e) (update_config o new s)
update_lawful none new s = (refl, refl)
update_lawful (some c) new s = refl

abbrev api_lawful : IsApi api ⊥
api_lawful = record {
  view = λ s. s;
  admitted = stored;
  admitted_webhook = with_port;
  admitted_one = λ c w e. ap (map with_port) e;
  get_law = λ k n s. get_lawful (of_kind k s n) s;
  create_law = λ k c s e. create_lawful c (of_kind k s c.name) _ s e;
  update_law = λ k c s. update_lawful (of_kind k s c.name) _ s;
}

abbrev empty_api : Configs
empty_api = record { mutating_of = λ n. none; validating_of = λ n. none }

abbrev checker_config : Config
checker_config =
    stored (config_with validating_name "system" (validating_webhook "ca" "checker" "system"))

-- What an earlier start has left, for another certificate.
abbrev used_api : Configs
used_api = put_config validating validating_name checker_config empty_api

-- Keys are numbered, and the clock counts days. A certificate has its template, the subject of the
-- issuer, its key, and the key that signed it.
pub data Der : Type 0 where
  certificate : Certificate ℕ → Certificate ℕ → ℕ → ℕ → Der
  private_key : ℕ → Der

abbrev same_number : ℕ → ℕ → Bool
same_number a b = ite (ℕ_discrete a b) true false

abbrev label : Der → String
label (certificate template parent public signer) = template.common_name
label (private_key key) = "key"

abbrev crypto : Crypto
crypto = record {
  Source = ℕ;
  Time = ℕ;
  PrivateKey = ℕ;
  PublicKey = ℕ;
  Der = Der;
  Buffer = String × Der;
  bytes = λ (kind, der). kind <> label der;
  now = λ s. (s, suc s);
  add_date = λ t years months days. t + 365 * years + 30 * months + days;
  generate_key = λ bits s. (ok s, suc s);
  public_key = λ key. 1000 + key;
  create_certificate =
      λ template parent public signer s. (ok (certificate template parent public signer), suc s);
  marshal_private_key = private_key;
  pem_encode = λ kind der. (kind, der);
}

abbrev parsed : Der → Option (Parsed crypto)
parsed (certificate template parent public signer) = some (record {
  fields = template;
  public = public;
  issuer_organization = parent.organization;
  issuer_common_name = parent.common_name;
})
parsed (private_key key) = none

abbrev parsed_key : Der → Option ℕ
parsed_key (certificate template parent public signer) = none
parsed_key (private_key key) = some key

abbrev signed_by : Der → ℕ → Bool
signed_by (certificate template parent public signer) key = same_number (1000 + signer) key
signed_by (private_key k) key = false

abbrev reader : Reader crypto
reader = record {
  pem_decode = λ buffer. some buffer;
  parse_certificate = parsed;
  parse_private_key = parsed_key;
  is_signed_by = signed_by;
  whole = λ t. t;
  time = λ s. s;
  Before = λ t u. t ≤ u;
}

same_number_refl : (n : ℕ) → same_number n n ≡ true
same_number_refl n = ground arith

crypto_lawful : IsCrypto crypto reader ⊥
crypto_lawful = record {
  generate_key_law = λ bits s. omega arith;
  create_law =
      λ template parent public signer s h. (omega arith, refl, same_number_refl (1000 + signer));
  pem_law = λ kind der. refl;
  private_key_law = λ key. refl;
  before_now = λ s. omega arith;
  after_now = λ s. omega arith;
  whole_law = λ t. omega arith;
  before_trans = λ t u v e f. omega (arith, e, f);
}

generate_cert-IsIssued_example :
    Post
      (λ pems t. IsIssued crypto reader (dns_names "checker" "system") 0 t pems)
      (λ _ _. ⊥)
      (generate_cert crypto
        ("cliufreever" ∷ [])
        (dns_names "checker" "system")
        "checker.system.svc"
        0)
generate_cert-IsIssued_example =
    generate_cert-IsIssued crypto reader crypto_lawful ("cliufreever" ∷ [])
      (dns_names "checker" "system") "checker.system.svc" 0

abbrev ca_made : Certificate ℕ
ca_made = ca_template crypto ("cliufreever" ∷ []) 0 1

abbrev cert_made : Certificate ℕ
cert_made =
    cert_template crypto ("cliufreever" ∷ []) (dns_names "checker" "system") "checker.system.svc" 4
      5

abbrev pems : Pems crypto
pems = record {
  ca_pem = ("CERTIFICATE", certificate ca_made ca_made 1002 2);
  cert_pem = ("CERTIFICATE", certificate cert_made ca_made 1006 2);
  cert_key_pem = ("RSA PRIVATE KEY", private_key 6);
}

abbrev environment : Environment crypto
environment = record {
  kubeconfig = "";
  source = 0;
  x509_key_pair = λ cert key. ok tt;
  in_cluster_config = ok tt;
  build_config_from_flags = λ kubeconfig. ok tt;
  new_for_config = ok tt;
}

environment-IsReady : IsReady environment "checker" "system" pems
unfolding generate_cert handle
environment-IsReady = record {
  generated = refl;
  paired = refl;
  inside = λ e. refl;
  built = refl;
  connects = refl;
}

create_or_update_webhook_configuration-Made_example :
    Post
      (λ _ t.
        Made api api_lawful mutating
          (config_with mutating_name "system" (mutating_webhook "ca" "checker" "system"))
          (mutating_webhook "ca" "checker" "system")
          (renamed mutating_name (fresh used_api))
          t)
      (λ _ t. ⊥ × (t.cluster.validating_of ≡ used_api.validating_of))
      (create_or_update_webhook_configuration api "ca" "checker" "system" true (fresh used_api))
create_or_update_webhook_configuration-Made_example =
    create_or_update_webhook_configuration-Made api api_lawful "ca" "checker" "system"
      (fresh used_api)

start-panicked_example :
    Post
      (λ _ _. ⊥)
      (λ _ t. t.cluster.validating_of ≡ used_api.validating_of)
      (start api environment "checker" "system" (fresh used_api))
start-panicked_example =
    start-panicked api api_lawful environment "checker" "system" used_api checker_config
      (with_port (validating_webhook "ca" "checker" "system")) refl refl

start-Registered_example :
    Post
      (λ _ t. BothRegistered api api_lawful "CERTIFICATE" "checker" "system" t.cluster)
      (λ _ _. ⊥)
      (start api environment "checker" "system" (fresh empty_api))
start-Registered_example =
    start-Registered api api_lawful environment "checker" "system" pems environment-IsReady
      empty_api refl

start-start_example :
    Post
      (λ _ t.
        Post
          (λ _ _. ⊥)
          (λ _ u. u.cluster.validating_of ≡ t.cluster.validating_of)
          (start api environment "checker" "system" (fresh t.cluster)))
      (λ _ _. ⊥)
      (start api environment "checker" "system" (fresh empty_api))
start-start_example =
    start-start api api_lawful environment "checker" "system" pems environment-IsReady environment
      "checker" "system" empty_api refl
