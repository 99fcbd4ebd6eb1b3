-- ===== src/Controller/Manager/Converges.antt =====
-- The manager, driven by its watches alone, brings the cluster to what the spec asks for.
use resourcelimiter.Prelude.{
  ℕ, zero, suc, ◌≤◌, ◌≡◌, refl, sym, subst, Option, none, some, List, [], ◌∷◌, ◌⊎◌, inl, inr, arith,
}
use resourcelimiter.Api.V1beta2.{ResourceLimiter}
use resourcelimiter.Controller.Exec.{Outcome, ok, fail, Post, Post-imp, Post-and}
use resourcelimiter.Controller.Platform.{Quantities, Client, NamespacedName}
use resourcelimiter.Controller.Platform.View.{IsLawful}
use resourcelimiter.Controller.Reconcile.Targets.{missing}
use resourcelimiter.Controller.Reconcile.Announces.{Anything}
use resourcelimiter.Controller.Entry.{reconcile_request}
use resourcelimiter.Controller.Entry.Pass.{IsActive}
use resourcelimiter.Controller.Entry.Converges.{
  IsOpen, IsConverged, request-Closer, Closer, IsActive-status, request-IsConverged,
}
use resourcelimiter.Controller.Entry.Announces.{reconcile_request-Announces}
use resourcelimiter.Controller.Manager.{
  Event, created, update_func, Runtime, Manager, with_queue, deliver, finished, work, round,
  and_rounds, rounds,
}
use resourcelimiter.Controller.Manager.Watch.{Has, creation_of, request, IsWatched, IsRuntime}
use resourcelimiter.Controller.Manager.Queue.{Modest, deliver-Modest, deliver-told}

-- The process is alive, and this holds of it.
abbrev pub Lives : {M : Type 0} → (M → Type 0) → Option M → Type 0
Lives P none = ⊥
Lives P (some m) = P m

module _ (Q : Quantities) (C : Client Q.Quantity) (L : IsLawful C ⊥) (rl : ResourceLimiter)
    (active : IsActive C (request rl.object_meta.name) rl) (take : C.State → List Event × C.State)
    (watched : IsWatched C L rl.object_meta.name take) (R : Runtime) (runs : IsRuntime R) where
  open Q use {Quantity}
  open C use {State}
  open L use {view}
  open watched use {pending}
  open R use {Queue}
  open runs use {waiting}

  abbrev req : NamespacedName
  req = request rl.object_meta.name

  abbrev lacking : State → ℕ
  lacking s = missing (view s) rl.spec.quotas

  abbrev Told : State → Type 0
  Told t = Has (creation_of (some rl.object_meta.name)) (pending t)

  -- All that the spec asks for is there, and no request waits.
  abbrev pub IsSettled : Manager R State → Type 0
  IsSettled m = IsConverged Q C L req rl active (view m.cluster) × (waiting m.queue ≡ [])

  -- Once the pending events are delivered, the request of the limiter waits.
  abbrev pub IsDue : Manager R State → Type 0
  IsDue m = waiting (deliver R (pending m.cluster) m.queue) ≡ req ∷ []

  -- What becomes of an open cluster after a round.
  abbrev Nearer : ℕ → Manager R State → Type 0
  Nearer n m =
      IsSettled m
      ⊎ (IsOpen Q C L req rl active (view m.cluster) × (suc (lacking m.cluster) ≡ n) × IsDue m)

  request-Announces :
      (s : State)
      → IsOpen Q C L req rl active (view s)
      → Post (λ _ t. Told t ⊎ (lacking s ≡ 0)) Anything (reconcile_request Q C req s)
  request-Announces s o =
      reconcile_request-Announces Q C L req (record rl { status = o.status })
        (IsActive-status Q C L req rl active o.status) Told
        (watched.owner_law (record rl { status = o.status })) watched.creation_law s o.stored

  nearer :
      (s t : State) (queue : Queue)
      → waiting queue ≡ []
      → Closer Q C L req rl active (lacking s) (view t)
      → Told t ⊎ (lacking s ≡ 0)
      → Nearer (lacking s) (record { cluster = t; queue = queue })
  nearer s t queue none_waits (inl c) a = inl (c, none_waits)
  nearer s t queue none_waits (inr (o, e)) (inl told) = inr (
    o,
    e,
    deliver-told R runs rl.object_meta.name created (pending t) queue (runs.created_law update_func)
        (watched.sole t) (inl none_waits) told,
  )
  nearer s t queue none_waits (inr (o, e)) (inr nothing) = absurd (omega (arith, e, nothing))

  finished-Lives :
      (P : State → Type 0) (A : Manager R State → Type 0) (queue : Queue)
      (r : Outcome (Unit {0}) × State)
      → Post (λ _ t. P t) (λ _ _. ⊥) r
      → ((t : State) → P t → A (record { cluster = t; queue = queue }))
      → Lives A (finished R req queue r)
  finished-Lives P A queue (ok u, t) p f =
      subst (λ o. Lives A (with_queue R t o)) (sym (runs.conclude_law req queue)) (f t p)
  finished-Lives P A queue (fail x, t) p f = absurd p

  -- The worker takes the request that waits.
  work-Lives :
      (P : State → Type 0) (A : Manager R State → Type 0) (s : State) (queue : Queue)
      → waiting queue ≡ req ∷ []
      → Post (λ _ t. P t) (λ _ _. ⊥) (reconcile_request Q C req s)
      → ((t : State) (rest : Queue)
          → waiting rest ≡ []
          → P t
          → A (record { cluster = t; queue = rest }))
      → Lives A (work R Q C take s queue (R.get queue))
  work-Lives P A s queue one p f =
      let (rest, (got, empty)) = runs.get_some req [] queue one in
      subst (λ o. Lives A (work R Q C take s queue o)) (sym got)
        (finished-Lives P A rest (reconcile_request Q C req s) p (λ t. f t rest empty))

  -- A round that finds the request due works on it.
  due-Nearer :
      (s : State) (queue : Queue)
      → waiting queue ≡ req ∷ []
      → IsOpen Q C L req rl active (view s)
      → Lives (Nearer (lacking s)) (work R Q C take s queue (R.get queue))
  due-Nearer s queue one o =
      work-Lives (λ t. Closer Q C L req rl active (lacking s) (view t) × (Told t ⊎ (lacking s ≡ 0)))
        _ s queue one
        (Post-imp _ _ (λ _ _. ⊥ × Unit) (λ _ _. ⊥) (reconcile_request Q C req s) (λ _ _ x. x)
          (λ _ _ x. x.0)
          (Post-and _ _ (λ _ _. ⊥) Anything (reconcile_request Q C req s)
            (request-Closer Q C L req rl active s o) (request-Announces s o)))
        (λ t rest empty (c, a). nearer s t rest empty c a)

  -- A round on a settled cluster leaves it so.
  idle-IsSettled :
      (s : State) (queue : Queue)
      → Modest R runs rl.object_meta.name queue
      → IsConverged Q C L req rl active (view s)
      → Lives IsSettled (work R Q C take s queue (R.get queue))
  idle-IsSettled s queue (inl e) c =
      subst (λ o. Lives IsSettled (work R Q C take s queue o)) (sym (runs.get_none queue e)) (c, e)
  idle-IsSettled s queue (inr e) c =
      work-Lives (λ t. IsConverged Q C L req rl active (view t)) _ s queue e
        (request-IsConverged Q C L req rl active s c) (λ t rest empty d. (d, empty))

  taken : State → State
  taken s = (take s).1

  abbrev delivered : Manager R State → Queue
  delivered m = deliver R (pending m.cluster) m.queue

  -- A round works on what waits once the pending events are delivered.
  round-work :
      (m : Manager R State)
      → round R Q C take m ≡ work R Q C take (taken m.cluster) (delivered m) (R.get (delivered m))
  unfolding round taken
  round-work m = rw (watched.take_events m.cluster) refl

  round-IsSettled : (m : Manager R State) → IsSettled m → Lives IsSettled (round R Q C take m)
  unfolding taken
  round-IsSettled m (c, e) = subst (Lives IsSettled) (sym (round-work m)) (
      idle-IsSettled (taken m.cluster) (delivered m)
        (deliver-Modest R runs rl.object_meta.name (pending m.cluster) m.queue
          (watched.sole m.cluster) (inl e))
        (subst (IsConverged Q C L req rl active) (sym (watched.take_view m.cluster)) c))

  round-Nearer :
      (m : Manager R State)
      → IsOpen Q C L req rl active (view m.cluster)
      → IsDue m
      → Lives (Nearer (lacking m.cluster)) (round R Q C take m)
  unfolding taken
  round-Nearer m o due = subst (Lives (Nearer (lacking m.cluster))) (sym (round-work m)) (
      subst
        (λ v.
          Lives (Nearer (missing v rl.spec.quotas))
            (work R Q C take (taken m.cluster) (delivered m) (R.get (delivered m))))
        (watched.take_view m.cluster)
        (due-Nearer (taken m.cluster) (delivered m) due
          (subst (IsOpen Q C L req rl active) (sym (watched.take_view m.cluster)) o)))

  and_then :
      (P A : Manager R State → Type 0) (n : ℕ) (o : Option (Manager R State))
      → Lives P o
      → ((m : Manager R State) → P m → Lives A (rounds R Q C take n m))
      → Lives A (and_rounds R Q C take (rounds R Q C take n) o)
  and_then P A n none p f = p
  and_then P A n (some m) p f = f m p

  rounds-keep :
      (n : ℕ) (m : Manager R State) → IsSettled m → Lives IsSettled (rounds R Q C take n m)
  unfolding rounds
  rounds-keep zero m p = p
  rounds-keep (suc n) m p =
      and_then IsSettled IsSettled n (round R Q C take m) (round-IsSettled m p)
        (λ t q. rounds-keep n t q)

  Nearer-IsSettled :
      (n k : ℕ) (m : Manager R State)
      → Nearer k m
      → k ≤ suc n
      → ((t : Manager R State)
          → IsOpen Q C L req rl active (view t.cluster)
          → IsDue t
          → lacking t.cluster ≤ n
          → Lives IsSettled (rounds R Q C take (suc n) t))
      → Lives IsSettled (rounds R Q C take (suc n) m)
  Nearer-IsSettled n k m (inl p) enough later = rounds-keep (suc n) m p
  Nearer-IsSettled n k m (inr (o, e, due)) enough later = later m o due (omega (arith, e, enough))

  no_more : (k : ℕ) (m : Manager R State) → Nearer k m → k ≤ 0 → IsSettled m
  no_more k m (inl p) enough = p
  no_more k m (inr (o, e, due)) enough = absurd (omega (arith, e, enough))

  -- With a client that does not fail, informers and a controller-runtime that behave as documented,
  -- and one resource limiter in the cluster, which is applied, has its finalizer and is not being
  -- deleted, whose quotas name no namespace twice and are not blocked by a missing namespace or a
  -- malformed value: if its request waits once the pending events are delivered, and at most n
  -- resource quotas are missing, then after n + 1 rounds of the worker the process is alive, every
  -- quota of the spec that is not ignored is enforced, the status is "ready" with a line for each,
  -- and no request waits.
  pub rounds-IsSettled :
      (n : ℕ) (m : Manager R State)
      → IsOpen Q C L req rl active (view m.cluster)
      → IsDue m
      → lacking m.cluster ≤ n
      → Lives IsSettled (rounds R Q C take (suc n) m)
  unfolding rounds
  rounds-IsSettled zero m o due enough =
      and_then (Nearer (lacking m.cluster)) IsSettled zero (round R Q C take m)
        (round-Nearer m o due) (λ t k. no_more (lacking m.cluster) t k enough)
  rounds-IsSettled (suc n) m o due enough =
      and_then (Nearer (lacking m.cluster)) IsSettled (suc n) (round R Q C take m)
        (round-Nearer m o due)
        (λ t k. Nearer-IsSettled n (lacking m.cluster) t k enough (λ t. rounds-IsSettled n t))
