-- ===== src/Webhook/Validate/Verdicts.antt =====
-- What the checks of `validate` accept, against a description that does not mention their order.
use resourcelimiter.Prelude.{
  String, ◌≡◌, refl, ◌∙◌, ap, subst, ◌↔◌, Bool, true, false, Option, none, some, List, [], ◌∷◌, Map,
  All, if◌then◌else◌,
}
use resourcelimiter.Api.V1beta2.{ResourceLimiterQuota}
use resourcelimiter.Controller.Platform.{Quantities}
use resourcelimiter.Controller.Reconcile.{is_ignored}
use resourcelimiter.Webhook.Admission.{refused, Codec}
use resourcelimiter.Webhook.Validate.{
  Check, pass, return, panicking, ◌then◌, must_parse, check_targets, check_types, check_quotas,
}

-- A response that the checks return is a refusal.
abbrev pub Refusing : Check → Type 0
Refusing pass = Unit
Refusing (return r) = r.allowed ≡ false
Refusing (panicking e) = Unit

-- Such a part of the checks, and what it takes to pass it.
pub record Decides (Accepted : Type 0) (c : Check) : Type 0 where
  pub refusing : Refusing c
  pub passes_iff : (c ≡ pass) ↔ Accepted

then-Refusing : (c k : Check) → Refusing c → Refusing k → Refusing (c then k)
then-Refusing pass k r q = q
then-Refusing (return x) k r q = r
then-Refusing (panicking e) k r q = tt

then-left : (c k : Check) → c then k ≡ pass → c ≡ pass
then-left pass k e = refl
then-left (return r) k e = cc
then-left (panicking x) k e = cc

pub then-Decides :
    {A B : Type 0} (c k : Check) → Decides A c → Decides B k → Decides (A × B) (c then k)
then-Decides c k a b = record {
  refusing = then-Refusing c k a.refusing b.refusing;
  passes_iff = (
    λ e.
        let p = then-left c k e in
        (a.passes_iff.0 p, b.passes_iff.0 (subst (λ x. x then k ≡ pass) p e)),
    λ (x, y). ap (λ z. z then k) (a.passes_iff.1 x) ∙ b.passes_iff.1 y,
  );
}

-- The same acceptance in other words.
pub Decides-iff : {A B : Type 0} (c : Check) → (A → B) → (B → A) → Decides A c → Decides B c
Decides-iff c f g d = record {
  refusing = d.refusing;
  passes_iff = (λ e. f (d.passes_iff.0 e), λ b. d.passes_iff.1 (g b));
}

pub pass-Decides : Decides Unit pass
pass-Decides = record { refusing = tt; passes_iff = (λ e. tt, λ t. refl) }

-- A refusal under a test.
pub refuse-Decides :
    (b : Bool) (message : String)
    → Decides (b ≡ false) (if b then return (refused message) else pass)
refuse-Decides true message = record { refusing = refl; passes_iff = (λ e. cc, λ e. cc e) }
refuse-Decides false message = record { refusing = tt; passes_iff = (λ e. refl, λ e. refl) }

module _ (Q : Quantities) (J : Codec Q.Quantity) where
  open Q use {Quantity, parse, show, zero_quantity}

  -- The text is a quantity.
  abbrev pub Parses : String → Type 0
  Parses text = (x : Quantity) × (parse text ≡ some x)

  must_parse-Decides_at :
      (text : String) (o : Option Quantity)
      → parse text ≡ o
      → Decides (Parses text) (must_parse Q J text)
  unfolding must_parse
  must_parse-Decides_at text none e =
      rw e (record { refusing = tt; passes_iff = (λ p. cc, λ (x, p). cc p) })
  must_parse-Decides_at text (some x) e =
      rw e (record { refusing = tt; passes_iff = (λ p. (x, refl), λ q. refl) })

  pub must_parse-Decides : (text : String) → Decides (Parses text) (must_parse Q J text)
  must_parse-Decides text = must_parse-Decides_at text (parse text) refl

  pub check_targets-Decides :
      (targets : List String)
      → Decides (All (λ ns. is_ignored ns ≡ false) targets) (check_targets Q J targets)
  unfolding check_targets
  check_targets-Decides [] = pass-Decides
  check_targets-Decides (ns ∷ targets) =
      then-Decides _ _ (refuse-Decides (is_ignored ns) _) (check_targets-Decides targets)

  pub check_types-Decides :
      (types : Map String) → Decides (All (λ entry. Parses entry.1) types) (check_types Q J types)
  unfolding check_types
  check_types-Decides [] = pass-Decides
  check_types-Decides ((t, text) ∷ types) =
      then-Decides _ _ (must_parse-Decides text) (check_types-Decides types)

  -- The quota is not for a preset namespace, and its four values are quantities.
  pub record IsAdmissible (quota : ResourceLimiterQuota) : Type 0 where
    pub free : is_ignored quota.namespace_name ≡ false
    pub cpu_limit : Parses quota.cpu_limit
    pub cpu_request : Parses quota.cpu_request
    pub mem_limit : Parses quota.mem_limit
    pub mem_request : Parses quota.mem_request

  pub check_quotas-Decides :
      (quotas : List ResourceLimiterQuota)
      → Decides (All IsAdmissible quotas) (check_quotas Q J quotas)
  unfolding check_quotas
  check_quotas-Decides [] = pass-Decides
  check_quotas-Decides (quota ∷ quotas) =
      Decides-iff _
        (λ (((((f, a), b), c), d), rest). (
          record { free = f; cpu_limit = a; cpu_request = b; mem_limit = c; mem_request = d },
          rest,
        ))
        (λ (q, rest).
          (((((q.free, q.cpu_limit), q.cpu_request), q.mem_limit), q.mem_request), rest))
        (then-Decides _ _
          (then-Decides _ _
            (then-Decides _ _
              (then-Decides _ _
                (then-Decides _ _ (refuse-Decides (is_ignored quota.namespace_name) _)
                  (must_parse-Decides quota.cpu_limit))
                (must_parse-Decides quota.cpu_request))
              (must_parse-Decides quota.mem_limit))
            (must_parse-Decides quota.mem_request))
          (check_quotas-Decides quotas))
