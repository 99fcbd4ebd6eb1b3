-- ===== src/Registration/Platform.antt =====
-- The configurations of the webhooks, and the API of Kubernetes that keeps them.
use resourcelimiter.Prelude.{String, Option, none, some, List, [], ◌∷◌, ◌≡◌, ◌==◌, if◌then◌else◌}
use resourcelimiter.Controller.Exec.{Exec, Post}
use resourcelimiter.Controller.Platform.View.{ReadFault, WriteFault}

-- `ServiceReference`
pub record Service : Type 0 where
  pub name : String
  pub namespace : String
  pub path : String
  pub port : Option String

-- `RuleWithOperations`; the scope is left open by the program.
pub record Rule : Type 0 where
  pub operations : List String
  pub api_groups : List String
  pub api_versions : List String
  pub resources : List String
  pub scope : Option String

-- `MutatingWebhook` and `ValidatingWebhook`, which have the same fields here; `selector` has the
-- labels of the namespace selector.
pub record Webhook : Type 0 where
  pub name : String
  pub review_versions : List String
  pub side_effects : String
  pub ca_bundle : String
  pub service : Service
  pub rules : List Rule
  pub selector : List (String × String)
  pub failure_policy : String

-- `MutatingWebhookConfiguration` and `ValidatingWebhookConfiguration`
pub record Config : Type 0 where
  pub name : String
  pub namespace : String
  pub resource_version : String
  pub webhooks : List Webhook

-- The two kinds of configurations, of the client `AdmissionregistrationV1()`.
pub data Kind : Type 0 where
  mutating validating : Kind

pub record Client : Type 1 where
  pub State : Type 0
  pub get : Kind → String → Exec State Config
  pub create : Kind → Config → Exec State (Unit {0})
  pub update : Kind → Config → Exec State (Unit {0})

-- The configurations that the API keeps, by their names.
pub record Configs : Type 0 where
  pub mutating_of : String → Option Config
  pub validating_of : String → Option Config

abbrev pub of_kind : Kind → Configs → String → Option Config
of_kind mutating v = v.mutating_of
of_kind validating v = v.validating_of

abbrev pub put_config : Kind → String → Config → Configs → Configs
put_config mutating n c v = record v {
  mutating_of = λ j. if n == j then some c else v.mutating_of j;
}
put_config validating n c v = record v {
  validating_of = λ j. if n == j then some c else v.validating_of j;
}

-- Documented behaviour of the API. What it keeps of a configuration is `admitted`: fields that are
-- left open get a default.
pub record IsApi (C : Client) (Flaky : Type 0) : Type 0 where
  pub view : C.State → Configs
  pub admitted : Config → Config
  pub admitted_webhook : Webhook → Webhook
  pub admitted_one :
      (c : Config) (w : Webhook)
      → c.webhooks ≡ w ∷ []
      → (admitted c).webhooks ≡ admitted_webhook w ∷ []
  pub get_law :
      (k : Kind) (n : String) (s : C.State)
      → Post
          (λ c t. (view t ≡ view s) × (of_kind k (view s) n ≡ some c))
          (λ e t. ReadFault Flaky (view s) (of_kind k (view s) n) (view t) e)
          (C.get k n s)
  pub create_law :
      (k : Kind) (c : Config) (s : C.State)
      → of_kind k (view s) c.name ≡ none
      → let new = put_config k c.name (admitted c) (view s) in
        Post
          (λ _ t. view t ≡ new)
          (λ e t. WriteFault Flaky (view s) (some c) new (view t) e)
          (C.create k c s)
  pub update_law :
      (k : Kind) (c : Config) (s : C.State)
      → let new = put_config k c.name (admitted c) (view s) in
        Post
          (λ _ t. view t ≡ new)
          (λ e t. WriteFault Flaky (view s) (of_kind k (view s) c.name) new (view t) e)
          (C.update k c s)
