-- ===== src/Controller/Reconcile/Rounds.antt =====
-- What a round of the loop does to the cluster, and how it ends.
use resourcelimiter.Prelude.{
  String, ◌≡◌, refl, sym, ap, ◌∙◌, subst, Option, none, some, List, [], ◌∷◌, ◌++◌, Map, eq_refl,
  inl,
}
use resourcelimiter.Api.V1beta2.{ResourceLimiter, ResourceLimiterQuota}
use resourcelimiter.Controller.Exec.{
  Error, not_found, failure, error, Outcome, Post, Post-imp, Post-handle, Post-bind, raise, lift,
  pure, ◌>>=◌,
}
use resourcelimiter.Controller.Platform.{Quantities, named, ResourceQuota, Client}
use resourcelimiter.Controller.Platform.View.{View, put_hard, ReadFault, IsLawful}
use resourcelimiter.Controller.Platform.Kept.{
  Confined, Confined-refl, Confined-eq, Confined-put_hard,
}
use resourcelimiter.Controller.Reconcile.{
  Flow, next, return, quota_name, quota_key, set_hard, usage_line, create_missing, update_existing,
  create_or_update, withdraw, create_if, continue_if,
}
use resourcelimiter.Controller.Reconcile.Steps.{
  Failed, Applies, FailedQuota, set_and_write, delete_quota-Post,
}

-- A quota that existed gets a line in the status, and a round that creates one is the last.
abbrev pub Ends :
    {X : Type 0} → ResourceLimiterQuota → List ResourceLimiterQuota → Option X → Flow → Type 0
Ends quota rlquotas none return = Unit
Ends quota rlquotas (some _) (next lines) =
    (line : ResourceLimiterQuota) × (lines ≡ rlquotas ++ (line ∷ []))
    × (line.namespace_name ≡ quota_name quota.namespace_name)
Ends quota rlquotas _ _ = ⊥

module _ (Q : Quantities) (C : Client Q.Quantity) {Flaky : Type 0} (L : IsLawful C Flaky) where
  open Q use {Quantity}
  open C use {State}
  open L use {view}

  module _ (rl : ResourceLimiter) (quota : ResourceLimiterQuota)
      (rlquotas : List ResourceLimiterQuota) where
    abbrev ns : String
    ns = quota.namespace_name

    abbrev Round : View Quantity → Outcome Flow × State → Type 0
    Round v =
        Post
          (λ flow u.
            Ends quota rlquotas (v.quotas (quota_key ns)) flow × Applies Q C L quota v (view u))
          (λ _ u. FailedQuota Q C L quota v (view u))

    update_existing-Post :
        (v : View Quantity) (found : ResourceQuota Quantity) (t : State)
        → view t ≡ v
        → found.namespace ≡ ns
        → found.name ≡ quota_name ns
        → v.quotas (quota_key ns) ≡ some found.hard
        → Round v (update_existing Q C quota rlquotas found t)
    unfolding update_existing usage_line
    update_existing-Post v found t same placed called present =
        Post-imp _ _ _ _ (update_existing Q C quota rlquotas found t)
          (λ flow u (ends, applies). (
            subst (λ o. Ends quota rlquotas o flow) (sym present)
                (subst (Ends quota rlquotas (some found.hard)) (sym ends)
                  (usage_line Q found quota, refl, called)),
            applies,
          ))
          (λ e u f. f)
          (set_and_write Q C L quota v found t placed called same C.update_quota
            ((view t).quotas (named found.namespace found.name))
            (next (rlquotas ++ (usage_line Q found quota ∷ [])))
            (λ h. L.update_quota_law (record found { hard = h }) t)
            (λ e. absurd (is_some (sym e ∙ moved ∙ present))))
      where
        moved : (view t).quotas (named found.namespace found.name) ≡ v.quotas (quota_key ns)
        moved i = (same i).quotas (named (placed i) (called i))

        is_some : {X : Type 0} {x : X} → none ≡ some x → ⊥
        is_some h = cc

    abbrev blank : ResourceQuota Quantity
    blank = record { namespace = ns; name = quota_name ns; owner = none; hard = []; used = [] }

    -- The quota that has got its owner is created with the limits.
    created-Post :
        (v : View Quantity) (t : State)
        → view t ≡ v
        → v.quotas (quota_key ns) ≡ none
        → (owned : ResourceQuota Quantity) → owned.namespace ≡ ns
        → owned.name ≡ quota_name ns
        → Round v (
            (set_hard Q (record owned { hard = [] }) quota >>= λ r.
            C.create_quota r >>= λ _. pure return)
              t)
    created-Post v t same missing owned placed called =
        Post-imp _ _ _ _
          ((set_hard Q (record owned { hard = [] }) quota >>= λ r.
              C.create_quota r >>= λ _. pure return)
            t)
          (λ flow u (ends, applies). (
            subst (λ o. Ends quota rlquotas o flow) (sym missing)
                (subst (Ends {X = Map Quantity} quota rlquotas none) (sym ends) tt),
            applies,
          ))
          (λ e u f. f)
          (set_and_write Q C L quota v owned t placed called same C.create_quota
            ((view t).namespaces owned.namespace) return
            (λ h. L.create_quota_law (record owned { hard = h }) t (moved ∙ missing))
            (λ e. inl (sym found ∙ e)))
      where
        moved : (view t).quotas (named owned.namespace owned.name) ≡ v.quotas (quota_key ns)
        moved i = (same i).quotas (named (placed i) (called i))

        found : (view t).namespaces owned.namespace ≡ v.namespaces ns
        found i = (same i).namespaces (placed i)

    create_missing-Post :
        (v : View Quantity) (t : State)
        → view t ≡ v
        → v.quotas (quota_key ns) ≡ none
        → Round v (create_missing Q C rl quota t)
    unfolding create_missing
    create_missing-Post v t same missing =
        Post-handle _ _ _ _ (lift (C.set_controller_reference rl blank)) _ raise t
          (L.owner_law rl blank t)
          (λ owned u (unchanged, placed, called).
            created-Post v u (ap view unchanged ∙ same) missing owned placed called)
          (λ e u f. unowned u f.0 f.1) (λ u f. unowned u f.0 f.1)
      where
        unowned : (u : State) → u ≡ t → Flaky → FailedQuota Q C L quota v (view u)
        unowned u unchanged f = record {
          confined = Confined-eq (Confined-refl v) (ap view unchanged ∙ same);
          reason = inl f;
        }

    -- With `Applied`: the quota of an existing namespace with well-formed quantities ends up with
    -- its limits, whether it existed or not, unless the client fails.
    pub create_or_update-Post :
        (s : State) → Round (view s) (create_or_update Q C rl quota rlquotas s)
    unfolding create_or_update
    create_or_update-Post s =
        Post-handle _ _ _ _ (C.get_quota (quota_key ns)) _ _ s (L.get_quota_law (quota_key ns) s)
          (λ found t (same, placed, called, present).
            update_existing-Post (view s) found t same placed called present)
          missing (λ t f. absurd f)
      where
        missing :
            (e : Error) (t : State)
            → ReadFault Flaky (view s) ((view s).quotas (quota_key ns)) (view t) (error e)
            → Round (view s) (create_if Q C rl quota e t)
        missing not_found t f = create_missing-Post (view s) t f.0 f.1
        missing (failure m) t f = record {
          confined = Confined-eq (Confined-refl (view s)) f.0;
          reason = inl f.1;
        }

    -- The quota is gone, and nothing outside the namespace has changed.
    pub record Withdraws (v w : View Quantity) : Type 0 where
      pub gone : w.quotas (quota_key ns) ≡ none
      pub same_labels : w.namespaces ≡ v.namespaces
      pub confined : Confined ns v w

    delete_found-Post :
        (v : View Quantity) (found : ResourceQuota Quantity) (t : State)
        → view t ≡ v
        → found.namespace ≡ ns
        → found.name ≡ quota_name ns
        → v.quotas (quota_key ns) ≡ some found.hard
        → Post
            (λ flow u. (flow ≡ next rlquotas) × Withdraws v (view u))
            (λ _ u. Failed ns Flaky v (view u))
            ((C.delete_quota found >>= λ _. pure (next rlquotas)) t)
    delete_found-Post v found t same placed called present =
        Post-bind (λ _ u. view u ≡ put_hard (quota_key ns) none v) _ _ (C.delete_quota found)
          (λ _. pure (next rlquotas)) t
          (delete_quota-Post Q C L ns v found t same placed called present)
          (λ _ u q. (
            refl,
            record {
              gone = ap (λ x. x.quotas (quota_key ns)) q ∙ rw (eq_refl ns, eq_refl (quota_name ns));
              same_labels = ap (λ x. x.namespaces) q;
              confined = Confined-eq (Confined-put_hard (quota_key ns) none v refl) q;
            },
          ))

    -- Without `Applied`: the quota is gone, whether it existed or not, unless the client fails.
    pub withdraw-Post :
        (s : State)
        → Post
            (λ flow u. (flow ≡ next rlquotas) × Withdraws (view s) (view u))
            (λ _ u. Failed ns Flaky (view s) (view u))
            (withdraw Q C quota rlquotas s)
    unfolding withdraw
    withdraw-Post s =
        Post-handle _ _ _ _ (C.get_quota (quota_key ns)) _ _ s (L.get_quota_law (quota_key ns) s)
          (λ found t (same, placed, called, present).
            delete_found-Post (view s) found t same placed called present)
          missing (λ t f. absurd f)
      where
        missing :
            (e : Error) (t : State)
            → ReadFault Flaky (view s) ((view s).quotas (quota_key ns)) (view t) (error e)
            → Post
                (λ flow u. (flow ≡ next rlquotas) × Withdraws (view s) (view u))
                (λ _ u. Failed ns Flaky (view s) (view u))
                (continue_if Q C rlquotas e t)
        missing not_found t f = (
          refl,
          record {
            gone = ap (λ x. x.quotas (quota_key ns)) f.0 ∙ f.1;
            same_labels = ap (λ x. x.namespaces) f.0;
            confined = Confined-eq (Confined-refl (view s)) f.0;
          },
        )
        missing (failure m) t f = record {
          confined = Confined-eq (Confined-refl (view s)) f.0;
          reason = f.1;
        }
