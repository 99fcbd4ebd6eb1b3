-- ===== src/Registration/Outcomes.antt =====
-- The outcomes of `createOrUpdateWebhookConfiguration`, by its two branches.
use resourcelimiter.Prelude.{
  String, ◌<>◌, ◌≡◌, refl, sym, ap, ◌∙◌, subst, Bool, Bool-cases, true, false, Option, none, some,
  List, [], ◌∷◌, ◌⊎◌, inl, inr, ◌==◌, if◌then◌else◌, arith,
}
use resourcelimiter.Controller.Exec.{
  Error, not_found, failure, Fault, error, panicked, fail, pure, raise, handle, Post, Post-imp,
  Post-handle,
}
use resourcelimiter.Controller.Platform.View.{ReadFault}
use resourcelimiter.Registration.Platform.{
  Webhook, Config, mutating, validating, Client, of_kind, IsApi,
}
use resourcelimiter.Registration.Configure.{
  Process, calls, differs, update_found, create_if_missing, put_or_create, config_with,
  mutating_webhook, validating_webhook, create_or_update_webhook_configuration,
}
use resourcelimiter.Registration.Laws.{
  calls-Post, rest, seen, Agrees, agreed, Made, Failed, write-Post, put_or_create-Post,
}

abbrev found_of : String → String → String → List Webhook → Config
found_of n m v ws = record { name = n; namespace = m; resource_version = v; webhooks = ws }

module _ (name namespace : String) (w : Webhook) where
  abbrev wanted : Config
  wanted = config_with name namespace w

  -- Where the configuration is named, nothing different means that the two agree.
  differs-Agrees :
      {S : Type 0} (n m v : String) (ws : List Webhook) (p : Process S)
      → Post
          (λ changed t. (t ≡ p) × (changed ≡ false → Agrees w (found_of n m v ws)))
          (λ _ _. ⊥)
          (differs (found_of n m v ws) wanted (some wanted) p)
  unfolding differs handle
  differs-Agrees n m v [] p = (refl, λ h. cc)
  differs-Agrees n m v (f ∷ g ∷ ws) p = (refl, λ h. cc)
  differs-Agrees n m v (f ∷ []) p = elim (Bool-cases (f.name == w.name)) [
    | inl e ↦
        rw e (refl, λ h. record { first = f; only = refl; same_name = e; same = ground arith })
    | inr e ↦ rw e (refl, λ h. cc)
  ]

  -- Where it is not, one webhook is enough for a panic.
  differs-panics :
      {S : Type 0} (found : Config) (f : Webhook) (p : Process S)
      → found.webhooks ≡ f ∷ []
      → differs found wanted none p ≡ (fail panicked, p)
  unfolding differs handle
  differs-panics found f p h = rw h

  module _ (C : Client) {Flaky : Type 0} (L : IsApi C Flaky) where
    update_found-Made :
        (found : Config) (p t : Process C.State)
        → of_kind mutating (seen C L p) name ≡ some found
        → seen C L t ≡ seen C L p
        → t.webhook_config_name ≡ p.webhook_config_name
        → Post
            (λ _ u. Made C L mutating wanted w p u)
            (Failed C L mutating p)
            (update_found C mutating wanted (some wanted) found t)
    unfolding update_found
    update_found-Made found p t here same named =
        Post-handle (λ changed u. (u ≡ t) × (changed ≡ false → Agrees w found)) (λ _ _. ⊥)
          (λ _ u. Made C L mutating wanted w p u) (Failed C L mutating p)
          (differs found wanted (some wanted)) _ raise t
          (differs-Agrees found.name found.namespace found.resource_version found.webhooks t)
          written (λ e u f. absurd f) (λ u f. absurd f)
      where
        written :
            (changed : Bool) (u : Process C.State)
            → (u ≡ t) × (changed ≡ false → Agrees w found)
            → Post
                (λ _ z. Made C L mutating wanted w p z)
                (Failed C L mutating p)
                ((if changed
                    then calls (
                        C.update mutating
                          (record wanted { resource_version = found.resource_version }))
                    else pure tt)
                  u)
        written true u r =
            let views = ap (seen C L) r.0 ∙ same in
            write-Post C L mutating wanted w found.resource_version
              (of_kind mutating (seen C L u) name) (C.update mutating _) p u views
              (ap (λ z. z.webhook_config_name) r.0 ∙ named)
              (found, ap (λ v. of_kind mutating v name) views ∙ here)
              (L.update_law mutating (record wanted { resource_version = found.resource_version })
                u.cluster)
        written false u r =
            let views = ap (seen C L) r.0 ∙ same in
            record {
              named = ap (λ z. z.webhook_config_name) r.0 ∙ named;
              registered = agreed found (ap (λ v. of_kind mutating v name) views ∙ here) (r.1 refl);
              others = ap (rest mutating) views;
            }

abbrev pub renamed : {S : Type 0} → String → Process S → Process S
renamed name p = record p { webhook_config_name = name }

module _ (C : Client) {Flaky : Type 0} (L : IsApi C Flaky) (ca_pem service namespace : String) where
  -- Registering the mutating webhook, whatever configurations the API keeps, fails only if the API
  -- does. Otherwise it keeps the configuration as it was sent, or one with a single webhook of the
  -- same name and with the same compared fields, and the package variable has got the suffix
  -- "-mutate". In every case the validating configurations are as before.
  pub create_or_update_webhook_configuration-Made :
      (p : Process C.State)
      → let name = p.webhook_config_name <> "-mutate" in
        let w = mutating_webhook ca_pem service namespace in
        Post
          (λ _ t. Made C L mutating (config_with name namespace w) w (renamed name p) t)
          (λ _ t. Flaky × ((seen C L t).validating_of ≡ (seen C L p).validating_of))
          (create_or_update_webhook_configuration C ca_pem service namespace true p)
  unfolding create_or_update_webhook_configuration handle
  create_or_update_webhook_configuration-Made p =
      let name = p.webhook_config_name <> "-mutate" in
      let w = mutating_webhook ca_pem service namespace in
      put_or_create-Post C L mutating (config_with name namespace w) w
        (some (config_with name namespace w)) (renamed name p)
        (λ found t here same named.
          update_found-Made name namespace w C L found (renamed name p) t here same named)

  update_found-panics :
      (desired found : Config) (w wanted : Webhook) (t : Process C.State)
      → found.webhooks ≡ w ∷ []
      → desired ≡ config_with desired.name desired.namespace wanted
      → update_found C validating desired none found t ≡ (fail panicked, t)
  unfolding update_found handle
  update_found-panics desired found w wanted t one e = rw (
      subst (λ d. differs found d none t ≡ (fail panicked, t)) (sym e)
        (differs-panics desired.name desired.namespace wanted found w t one))

  -- What follows a read that fails though the configuration is there.
  create_if_missing-fails :
      (desired : Config) (p t : Process C.State) (c : Config) (o : Option Config) (e : Error)
      → o ≡ some c
      → ReadFault Flaky (seen C L p) o (seen C L t) (error e)
      → Post
          (λ _ _. ⊥)
          (λ x u. (seen C L u ≡ seen C L p) × ((x ≡ panicked) ⊎ Flaky))
          (create_if_missing C validating desired e t)
  create_if_missing-fails desired p t c o not_found here f = cc
  create_if_missing-fails desired p t c o (failure m) here f = (f.0, inr f.1)

  -- Registering the validating webhook where a configuration with one webhook has its name already
  -- never succeeds: it panics unless a call of the API fails, and changes no configuration.
  pub create_or_update_webhook_configuration-panicked :
      (p : Process C.State) (c : Config) (w : Webhook)
      → (seen C L p).validating_of (p.webhook_config_name <> "-validate") ≡ some c
      → c.webhooks ≡ w ∷ []
      → Post
          (λ _ _. ⊥)
          (λ e t. (seen C L t ≡ seen C L p) × ((e ≡ panicked) ⊎ Flaky))
          (create_or_update_webhook_configuration C ca_pem service namespace false p)
  unfolding create_or_update_webhook_configuration put_or_create handle
  create_or_update_webhook_configuration-panicked p c w here one =
      let name = p.webhook_config_name <> "-validate" in
      let wanted = validating_webhook ca_pem service namespace in
      let desired = config_with name namespace wanted in
      let o = (seen C L p).validating_of name in
      let Kept : Fault → Process C.State → Type 0 =
        λ e t. (seen C L t ≡ seen C L p) × ((e ≡ panicked) ⊎ Flaky) in
      Post-handle
        (λ d t. ((seen C L t ≡ seen C L p) × (o ≡ some d)) × (t.webhook_config_name ≡ name))
        (λ e t. ReadFault Flaky (seen C L p) o (seen C L t) e × (t.webhook_config_name ≡ name))
        (λ _ _. ⊥) Kept (calls (C.get validating name)) (update_found C validating desired none)
        (create_if_missing C validating desired) (renamed name p)
        (calls-Post _ _ (C.get validating name) (renamed name p)
          (L.get_law validating name p.cluster))
        (λ found t r.
          subst (Post (λ _ _. ⊥) Kept)
            (sym (update_found-panics desired found w wanted t (cc (sym here ∙ r.0.1)) refl))
            (r.0.0, inl refl))
        (λ e t f. create_if_missing-fails desired (renamed name p) t c o e here f.0)
        (λ t f. absurd f.0)

  -- Registering the validating webhook where no configuration has its name.
  pub create_or_update_webhook_configuration-new :
      (p : Process C.State)
      → let name = p.webhook_config_name <> "-validate" in
        let w = validating_webhook ca_pem service namespace in
        (seen C L p).validating_of name ≡ none
        → Post
            (λ _ t. Made C L validating (config_with name namespace w) w (renamed name p) t)
            (λ _ _. Flaky)
            (create_or_update_webhook_configuration C ca_pem service namespace false p)
  unfolding create_or_update_webhook_configuration handle
  create_or_update_webhook_configuration-new p lacking =
      let name = p.webhook_config_name <> "-validate" in
      let w = validating_webhook ca_pem service namespace in
      Post-imp _ _ (Failed C L validating (renamed name p)) _
        (put_or_create C validating (config_with name namespace w) none (renamed name p))
        (λ _ t h. h) (λ e t f. f.0)
        (put_or_create-Post C L validating (config_with name namespace w) w none (renamed name p)
          (λ found t here same named. cc))
