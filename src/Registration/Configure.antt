-- ===== src/Registration/Configure.antt =====
-- `createOrUpdateWebhookConfiguration` of pkg/cmd/webhookconfig.go.
use resourcelimiter.Prelude.{
  String, ◌<>◌, Bool, true, false, not, ◌&&◌, Option, none, some, List, [], ◌∷◌, ◌==◌,
  if◌then◌else◌,
}
use resourcelimiter.Controller.Exec.{
  Error, not_found, failure, Outcome, ok, fail, panicked, Exec, pure, raise, lift, handle, ◌>>=◌,
}
use resourcelimiter.Registration.Platform.{
  Service, Rule, Webhook, Config, Kind, mutating, validating, Client,
}

-- The running server: the package variable `webhookConfigName`, and the API.
pub record Process (S : Type 0) : Type 0 where
  pub webhook_config_name : String
  pub cluster : S

abbrev pub initial_name : String
initial_name = "resourcelimiter-checker"

module _ {S : Type 0} where
  -- A call of the API.
  abbrev pub calls : {A : Type 0} → Exec S A → Exec (Process S) A
  calls m p = let (r, s) = m p.cluster in (r, record p { cluster = s })

  -- `webhookConfigName = fmt.Sprintf("%s…", webhookConfigName)`
  abbrev pub extend_name : String → Exec (Process S) String
  extend_name suffix p =
      let name = p.webhook_config_name <> suffix in
      (ok name, record p { webhook_config_name = name })

-- `reflect.DeepEqual` on the fields.
abbrev pub same_strings : List String → List String → Bool
same_strings [] [] = true
same_strings (a ∷ as') (b ∷ bs) = a == b && same_strings as' bs
same_strings _ _ = false

abbrev pub same_option : Option String → Option String → Bool
same_option none none = true
same_option (some a) (some b) = a == b
same_option _ _ = false

abbrev pub same_service : Service → Service → Bool
same_service a b =
    a.name == b.name
    && (a.namespace == b.namespace && (a.path == b.path && same_option a.port b.port))

abbrev pub same_rule : Rule → Rule → Bool
same_rule a b =
    same_strings a.operations b.operations
    && (same_strings a.api_groups b.api_groups
        && (same_strings a.api_versions b.api_versions
            && (same_strings a.resources b.resources && same_option a.scope b.scope)))

abbrev pub same_rules : List Rule → List Rule → Bool
same_rules [] [] = true
same_rules (a ∷ as') (b ∷ bs) = same_rule a b && same_rules as' bs
same_rules _ _ = false

abbrev pub same_labels : List (String × String) → List (String × String) → Bool
same_labels [] [] = true
same_labels ((k, v) ∷ as') ((j, w) ∷ bs) = k == j && (v == w && same_labels as' bs)
same_labels _ _ = false

-- What is compared but for the name.
unfoldable pub same_rest : Webhook → Webhook → Bool
same_rest a b =
    same_strings a.review_versions b.review_versions
    && (a.side_effects == b.side_effects
        && (a.failure_policy == b.failure_policy
            && (same_rules a.rules b.rules
                && (same_labels a.selector b.selector
                    && (a.ca_bundle == b.ca_bundle && same_service a.service b.service)))))

-- `len(a) == len(b)`
abbrev pub same_length : List Webhook → List Webhook → Bool
same_length [] [] = true
same_length (a ∷ as') (b ∷ bs) = same_length as' bs
same_length _ _ = false

-- `config.Webhooks[0].Name`, where the configuration may be nil and the index out of range.
abbrev first_name_in : List Webhook → Outcome String
first_name_in [] = fail panicked
first_name_in (w ∷ ws) = ok w.name

abbrev first_name : Option Config → Outcome String
first_name none = fail panicked
first_name (some c) = first_name_in c.webhooks

-- The other comparisons of the first webhooks.
abbrev same_first_rest : List Webhook → List Webhook → Outcome Bool
same_first_rest (a ∷ as') (b ∷ bs) = ok (same_rest a b)
same_first_rest _ _ = fail panicked

module _ {S : Type 0} where
  -- `len(found.Webhooks) != len(desired.Webhooks) || !(…)`. The name is compared with that of
  -- `named`, which is nil in the branch of the validating configuration.
  unfoldable pub differs : Config → Config → Option Config → Exec S Bool
  differs found desired named =
      if same_length found.webhooks desired.webhooks
      then (do
        found_name ← lift (first_name (some found))
        desired_name ← lift (first_name named)
        if found_name == desired_name
            then (do same ← lift (same_first_rest found.webhooks desired.webhooks); pure (not same))
            else pure true)
      else pure true

abbrev rule_of : List String → List String → List String → List String → Rule
rule_of operations groups versions resources = record {
  operations = operations;
  api_groups = groups;
  api_versions = versions;
  resources = resources;
  scope = none;
}

-- The rule for the resource limiters, which both configurations have, in another order of the
-- operations.
abbrev limiter_rule : List String → Rule
limiter_rule operations =
    rule_of operations ("resources.resourcelimiter.io" ∷ []) ("v1beta1" ∷ "v1beta2" ∷ [])
      ("resourcelimiters" ∷ [])

abbrev create_update : List String
create_update = "CREATE" ∷ "UPDATE" ∷ []

abbrev pub config_with : String → String → Webhook → Config
config_with name namespace w = record {
  name = name;
  namespace = namespace;
  resource_version = "";
  webhooks = w ∷ [];
}

-- The two webhooks, for the CA's certificate, the service and its namespace.
module _ (ca_pem webhook_service webhook_namespace : String) where
  abbrev service_at : String → Service
  service_at path = record {
    name = webhook_service;
    namespace = webhook_namespace;
    path = path;
    port = none;
  }

  abbrev pub mutating_webhook : Webhook
  mutating_webhook = record {
    name = "resourcelimiter.mutate.cliufreever.io";
    review_versions = "v1" ∷ "v1beta1" ∷ [];
    side_effects = "None";
    ca_bundle = ca_pem;
    service = service_at "/mutate";
    rules = limiter_rule ("UPDATE" ∷ "CREATE" ∷ []) ∷ [];
    selector = ("resourcelimiter-mutate", "enabled") ∷ [];
    failure_policy = "Fail";
  }

  abbrev pub validating_webhook : Webhook
  validating_webhook = record {
    name = "resourcelimiter.validate.cliufreever.io";
    review_versions = "v1" ∷ "v1beta1" ∷ [];
    side_effects = "None";
    ca_bundle = ca_pem;
    service = service_at "/validate";
    rules =
        limiter_rule create_update
        ∷ rule_of create_update ("" ∷ []) ("v1" ∷ []) ("pods" ∷ [])
        ∷ rule_of create_update ("apps" ∷ "extensions" ∷ []) ("v1" ∷ [])
            ("deployments" ∷ "daemonsets" ∷ [])
        ∷ [];
    selector = ("resourcelimiter-validate", "enabled") ∷ [];
    failure_policy = "Fail";
  }

module _ (C : Client) where
  open C use {State, get, create, update}

  -- The configuration exists.
  unfoldable pub update_found :
      Kind → Config → Option Config → Config → Exec (Process State) (Unit {0})
  unfolding differs
  update_found kind desired named found = do
    changed ← differs found desired named
    if changed
        then calls (update kind (record desired { resource_version = found.resource_version }))
        else pure tt

  abbrev pub create_if_missing : Kind → Config → Error → Exec (Process State) (Unit {0})
  create_if_missing kind desired not_found = calls (create kind desired)
  create_if_missing kind desired (failure m) = raise (failure m)

  unfoldable pub put_or_create : Kind → Config → Option Config → Exec (Process State) (Unit {0})
  unfolding update_found
  put_or_create kind desired named =
      handle (calls (get kind desired.name)) (update_found kind desired named)
        (create_if_missing kind desired)

  -- The two branches. In the second, `mutatingWebhookConfig` keeps its zero value.
  abbrev configure_mutating : String → String → String → Exec (Process State) (Unit {0})
  configure_mutating ca_pem webhook_service webhook_namespace = do
    name ← extend_name "-mutate"
    let desired =
        config_with name webhook_namespace
          (mutating_webhook ca_pem webhook_service webhook_namespace)
    put_or_create mutating desired (some desired)

  abbrev configure_validating : String → String → String → Exec (Process State) (Unit {0})
  configure_validating ca_pem webhook_service webhook_namespace = do
    name ← extend_name "-validate"
    let desired =
        config_with name webhook_namespace
          (validating_webhook ca_pem webhook_service webhook_namespace)
    put_or_create validating desired none

  unfoldable pub create_or_update_webhook_configuration :
      String → String → String → Bool → Exec (Process State) (Unit {0})
  unfolding put_or_create
  create_or_update_webhook_configuration ca_pem webhook_service webhook_namespace mutate =
      if mutate
      then configure_mutating ca_pem webhook_service webhook_namespace
      else configure_validating ca_pem webhook_service webhook_namespace
