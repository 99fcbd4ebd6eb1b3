-- ===== src/Controller/Reconcile/Spec.antt =====
-- What the reconciliation is for: the limits that a quota of the spec asks for, and the state of a
-- namespace in which they are enforced.
use resourcelimiter.Prelude.{
  String, ◌≡◌, true, Option, none, some, [], ◌∷◌, Map, lookup, insert, Option-cases, lookup-insert,
  arith, ◌⊎◌, inl, inr, ap, ◌∙◌, ◌==◌, eq_iff, Bool-cases, if◌then◌else◌,
}
use resourcelimiter.Api.Constants.{mutate_namespace_label, validate_namespace_label}
use resourcelimiter.Api.V1beta2.{ResourceLimiterQuota}
use resourcelimiter.Controller.Exec.{Outcome, ok, fail, panicked, handle}
use resourcelimiter.Controller.Platform.{Quantities, ResourceQuota}
use resourcelimiter.Controller.Platform.View.{View}
use resourcelimiter.Controller.Reconcile.{quota_key, is_enabled, enable, set_labels, set_hard}

-- Both labels have the value "enabled".
pub record IsMarked (labels : Map String) : Type 0 where
  pub mutate : lookup mutate_namespace_label labels ≡ some "enabled"
  pub validate : lookup validate_namespace_label labels ≡ some "enabled"

lookup_same : (k j : String) (l : Map String) → (k == j) ≡ true → lookup k l ≡ lookup j l
lookup_same k j l h = ap (λ x. lookup x l) ((eq_iff k j).0 h)

is_enabled-eq : (o : Option String) → is_enabled o ≡ true → o ≡ some "enabled"
unfolding is_enabled
is_enabled-eq none h = cc
is_enabled-eq (some v) h = ap some ((eq_iff v "enabled").0 h)

lookup-enable :
    (k j : String) (l : Map String)
    → lookup j (enable k l) ≡ (if k == j then some "enabled" else lookup j l)
unfolding enable
lookup-enable k j l = elim (Bool-cases (is_enabled (lookup k l))) [
  | inl e ↦ rw e (ground (arith, is_enabled-eq (lookup k l) e, lookup_same k j l))
  | inr e ↦ rw e (lookup-insert k j "enabled" l)
]

-- The labels after `set_labels`: the two are enabled, and every other is as before.
pub lookup-set_labels :
    (j : String) (labels : Map String)
    → lookup j (set_labels labels) ≡ (
        if validate_namespace_label == j
        then some "enabled"
        else if mutate_namespace_label == j
        then some "enabled"
        else lookup j labels)
unfolding set_labels
lookup-set_labels j labels =
    lookup-enable validate_namespace_label j _ ∙ rw (lookup-enable mutate_namespace_label j labels)

pub set_labels-IsMarked : (labels : Map String) → IsMarked (set_labels labels)
set_labels-IsMarked labels = record {
  mutate = rw lookup-set_labels;
  validate = rw lookup-set_labels;
}

module _ (Q : Quantities) where
  open Q use {Quantity, parse}

  -- The hard limits of a quota of the spec; none if one of its four texts is no quantity.
  unfoldable pub hard_of : ResourceLimiterQuota → Option (Map Quantity)
  hard_of quota = elim (parse quota.cpu_limit) [
    | none ↦ none
    | some a ↦ elim (parse quota.cpu_request) [
      | none ↦ none
      | some b ↦ elim (parse quota.mem_limit) [
        | none ↦ none
        | some c ↦ elim (parse quota.mem_request) [
          | none ↦ none
          | some d ↦ some (
              ("limits.cpu", a)
              ∷ ("requests.cpu", b)
              ∷ ("limits.memory", c)
              ∷ ("requests.memory", d)
              ∷ [])
        ]
      ]
    ]
  ]

  abbrev pub with_hard :
      ResourceQuota Quantity → Option (Map Quantity) → Outcome (ResourceQuota Quantity)
  with_hard q none = fail panicked
  with_hard q (some hard) = ok (record q { hard = hard })

  pub set_hard_lem :
      {S : Type 0} (q : ResourceQuota Quantity) (quota : ResourceLimiterQuota) (s : S)
      → set_hard Q (record q { hard = [] }) quota s ≡ (with_hard q (hard_of quota), s)
  unfolding set_hard handle hard_of insert
  set_hard_lem q quota s = elim (Option-cases (parse quota.cpu_limit)) [
    | inl e ↦ rw (e, hard_of)
    | inr (a, e) ↦
        rw (e, hard_of)
          (elim (Option-cases (parse quota.cpu_request)) [
            | inl e ↦ rw (e, hard_of)
            | inr (b, e) ↦
                rw (e, hard_of)
                  (elim (Option-cases (parse quota.mem_limit)) [
                    | inl e ↦ rw (e, hard_of)
                    | inr (c, e) ↦
                        rw (e, hard_of)
                          (elim (Option-cases (parse quota.mem_request)) [
                            | inl e ↦ rw (e, hard_of)
                            | inr (d, e) ↦ rw (e, hard_of)
                          ])
                  ])
          ])
  ]

  -- The namespace is marked, and its resource quota has the limits of the spec.
  pub record IsEnforced (v : View Quantity) (quota : ResourceLimiterQuota) : Type 0 where
    pub labels : Map String
    pub labelled : v.namespaces quota.namespace_name ≡ some labels
    pub marked : IsMarked labels
    pub hard : Map Quantity
    pub asked : hard_of quota ≡ some hard
    pub limited : v.quotas (quota_key quota.namespace_name) ≡ some hard

  -- What a namespace may lack for that: it does not exist, or a quantity is malformed.
  abbrev pub Obstacle : View Quantity → ResourceLimiterQuota → Type 0
  Obstacle v quota = (v.namespaces quota.namespace_name ≡ none) ⊎ (hard_of quota ≡ none)
