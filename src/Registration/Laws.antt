-- ===== src/Registration/Laws.antt =====
-- What one registration does to the configurations that the API keeps.
use resourcelimiter.Prelude.{
  String, ◌≡◌, refl, ap, ◌∙◌, true, Option, none, some, [], ◌∷◌, ◌⊎◌, inl, inr, ◌==◌, eq_refl,
}
use resourcelimiter.Controller.Exec.{
  Error, not_found, failure, Fault, error, Outcome, ok, fail, Exec, Post, Post-imp, Post-handle,
}
use resourcelimiter.Controller.Platform.View.{ReadFault, WriteFault}
use resourcelimiter.Controller.Platform.Kept.{WriteFault-reason, WriteFault-change}
use resourcelimiter.Registration.Platform.{
  Webhook, Config, Kind, mutating, validating, Client, Configs, of_kind, put_config, IsApi,
}
use resourcelimiter.Registration.Configure.{
  Process, calls, same_rest, update_found, create_if_missing, put_or_create,
}

module _ {S A : Type 0} where
  -- A call of the API keeps the package variable.
  pub calls-Post :
      (Q : A → S → Type 0) (E : Fault → S → Type 0) (m : Exec S A) (p : Process S)
      → Post Q E (m p.cluster)
      → Post
          (λ a t. Q a t.cluster × (t.webhook_config_name ≡ p.webhook_config_name))
          (λ e t. E e t.cluster × (t.webhook_config_name ≡ p.webhook_config_name))
          (calls m p)
  calls-Post Q E m p h = at (m p.cluster) h
    where
      at :
          (r : Outcome A × S)
          → Post Q E r
          → Post {S = Process S}
              (λ a t. Q a t.cluster × (t.webhook_config_name ≡ p.webhook_config_name))
              (λ e t. E e t.cluster × (t.webhook_config_name ≡ p.webhook_config_name))
              (r.0, record p { cluster = r.1 })
      at (ok a, s) h = (h, refl)
      at (fail e, s) h = (h, refl)

-- The configurations of the other kind.
abbrev pub rest : Kind → Configs → String → Option Config
rest mutating v = v.validating_of
rest validating v = v.mutating_of

put_found :
    (kind : Kind) (n : String) (c : Config) (v : Configs)
    → of_kind kind (put_config kind n c v) n ≡ some c
put_found mutating n c v = rw (eq_refl n) refl
put_found validating n c v = rw (eq_refl n) refl

rest-put :
    (kind : Kind) (n : String) (c : Config) (v : Configs)
    → rest kind (put_config kind n c v) ≡ rest kind v
rest-put mutating n c v = refl
rest-put validating n c v = refl

-- The fields of the first webhook that are compared, and its name, are those of `w`.
pub record Agrees (w : Webhook) (c : Config) : Type 0 where
  pub first : Webhook
  pub only : c.webhooks ≡ first ∷ []
  pub same_name : (first.name == w.name) ≡ true
  pub same : same_rest first w ≡ true

module _ (C : Client) {Flaky : Type 0} (L : IsApi C Flaky) where
  open C use {State}
  open L use {view, admitted}

  abbrev pub seen : Process State → Configs
  seen p = view p.cluster

  -- The API keeps this configuration as it was sent, with some resource version, or one that
  -- agrees with it.
  pub data Registered (kind : Kind) (desired : Config) (w : Webhook) (v : Configs) : Type 0 where
    sent :
        (version : String)
        → of_kind kind v desired.name
          ≡ some (admitted (record desired { resource_version = version }))
        → Registered kind desired w v
    agreed :
        (c : Config)
        → of_kind kind v desired.name ≡ some c
        → Agrees w c
        → Registered kind desired w v

  -- What a registration that succeeds leaves, and what one that fails leaves.
  pub record Made (kind : Kind) (desired : Config) (w : Webhook) (p t : Process State)
      : Type 0 where
    pub named : t.webhook_config_name ≡ p.webhook_config_name
    pub registered : Registered kind desired w (seen t)
    pub others : rest kind (seen t) ≡ rest kind (seen p)

  abbrev pub Failed : Kind → Process State → Fault → Process State → Type 0
  Failed kind p e t = Flaky × (rest kind (seen t) ≡ rest kind (seen p))

  no_fault : {X : Type 0} (o : Option X) (x : X) → o ≡ some x → Flaky ⊎ (o ≡ none) → Flaky
  no_fault o x e (inl f) = f
  no_fault o x e (inr n) = cc

  module _ (kind : Kind) (desired : Config) where
    kept_rest :
        (v u : Configs) (c : Config)
        → (u ≡ v) ⊎ (u ≡ put_config kind desired.name c v)
        → rest kind u ≡ rest kind v
    kept_rest v u c (inl e) = ap (rest kind) e
    kept_rest v u c (inr e) = ap (rest kind) e ∙ rest-put kind desired.name c v

    -- A write of a configuration with the name of `desired`, and with these versions.
    pub write-Post :
        (w : Webhook) (version : String) (o : Option Config) (m : Exec State (Unit {0}))
        (p t : Process State)
        → let sent = record desired { resource_version = version } in
          let new = put_config kind desired.name (admitted sent) (seen t) in
          seen t ≡ seen p
          → t.webhook_config_name ≡ p.webhook_config_name
          → ((x : Config) × (o ≡ some x))
          → Post
              (λ _ u. view u ≡ new)
              (λ e u. WriteFault Flaky (seen t) o new (view u) e)
              (m t.cluster)
          → Post (λ _ u. Made kind desired w p u) (Failed kind p) (calls m t)
    write-Post w version o m p t same name (x, given) h =
        let new = admitted (record desired { resource_version = version }) in
        let now = put_config kind desired.name new (seen t) in
        Post-imp (λ _ u. (view u.cluster ≡ now) × (u.webhook_config_name ≡ t.webhook_config_name)) _
          (λ e u.
            WriteFault Flaky (seen t) o now (view u.cluster) e
            × (u.webhook_config_name ≡ t.webhook_config_name))
          (Failed kind p) (calls m t)
          (λ _ u made. record {
            named = made.1 ∙ name;
            registered =
                sent version (
                  ap (λ v. of_kind kind v desired.name) made.0 ∙ put_found kind desired.name new _);
            others = kept_rest (seen t) (seen u) new (inr made.0) ∙ ap (rest kind) same;
          })
          (λ e u f. (
            no_fault o x given (WriteFault-reason Flaky (seen t) o now (seen u) e f.0),
            kept_rest (seen t) (seen u) new (WriteFault-change Flaky (seen t) o now (seen u) e f.0)
                ∙ ap (rest kind) same,
          ))
          (calls-Post _ _ m t h)

    create_if_missing-Post :
        (w : Webhook) (e : Error) (p t : Process State)
        → ReadFault Flaky (seen p) (of_kind kind (seen p) desired.name) (seen t) (error e)
        → t.webhook_config_name ≡ p.webhook_config_name
        → Post
            (λ _ u. Made kind desired w p u)
            (Failed kind p)
            (create_if_missing C kind desired e t)
    create_if_missing-Post w not_found p t (same, lacking) name =
        write-Post w desired.resource_version (some desired) (C.create kind desired) p t same name
          (desired, refl)
          (L.create_law kind desired t.cluster
            (ap (λ v. of_kind kind v desired.name) same ∙ lacking))
    create_if_missing-Post w (failure m) p t (same, flaky) name = (flaky, ap (rest kind) same)

    -- A registration, where an existing configuration is treated as the hypothesis says.
    pub put_or_create-Post :
        (w : Webhook) (named : Option Config) (p : Process State)
        → ((found : Config) (t : Process State)
            → of_kind kind (seen p) desired.name ≡ some found
            → seen t ≡ seen p
            → t.webhook_config_name ≡ p.webhook_config_name
            → Post
                (λ _ u. Made kind desired w p u)
                (Failed kind p)
                (update_found C kind desired named found t))
        → Post
            (λ _ u. Made kind desired w p u)
            (Failed kind p)
            (put_or_create C kind desired named p)
    unfolding put_or_create
    put_or_create-Post w named p existing =
        Post-handle
          (λ c t.
            ((seen t ≡ seen p) × (of_kind kind (seen p) desired.name ≡ some c))
            × (t.webhook_config_name ≡ p.webhook_config_name))
          (λ e t.
            ReadFault Flaky (seen p) (of_kind kind (seen p) desired.name) (seen t) e
            × (t.webhook_config_name ≡ p.webhook_config_name))
          _ (Failed kind p) (calls (C.get kind desired.name)) (update_found C kind desired named)
          (create_if_missing C kind desired) p
          (calls-Post _ _ (C.get kind desired.name) p (L.get_law kind desired.name p.cluster))
          (λ found t r. existing found t r.0.1 r.0.0 r.1)
          (λ e t f. create_if_missing-Post w e p t f.0 f.1) (λ t f. absurd f.0)
