-- ===== src/Controller/Manager/Queue.antt =====
-- The queue of a manager whose events are all of one resource limiter.
use resourcelimiter.Prelude.{
  String, Bool, true, false, ◌≡◌, sym, ap, ◌∙◌, subst, none, some, List, [], ◌∷◌, ◌⊎◌, inl, inr,
  eq_refl, if◌then◌else◌,
}
use resourcelimiter.Controller.Platform.{NamespacedName}
use resourcelimiter.Controller.Manager.{
  Watched, limiter, quota, Change, Event, Runtime, event_predicate, update_func, request_of, add_if,
  enqueue_event, deliver,
}
use resourcelimiter.Controller.Manager.Watch.{
  Has, quota_event, request, Of, Concerning, enqueue, IsRuntime,
}

module _ (R : Runtime) (runs : IsRuntime R) (name : String) where
  open R use {Queue}
  open runs use {waiting}

  abbrev req : NamespacedName
  req = request name

  abbrev One : Queue → Type 0
  One queue = waiting queue ≡ req ∷ []

  -- The request waits, or nothing does.
  abbrev pub Modest : Queue → Type 0
  Modest queue = (waiting queue ≡ []) ⊎ One queue

  add-One : (queue : Queue) → Modest queue → One (R.add req queue)
  add-One queue (inl e) = runs.add_law req queue ∙ ap (enqueue req) e
  add-One queue (inr e) = runs.add_law req queue ∙ ap (enqueue req) e ∙ rw (eq_refl name)

  -- The handlers name the request of the limiter, or none.
  request_of-Of : (w : Watched) → Of name w → (request_of R w ≡ none) ⊎ (request_of R w ≡ some req)
  request_of-Of (limiter n) e = inr (runs.object_law n ∙ ap (λ x. some (request x)) e)
  request_of-Of (quota (some n)) e = inr (runs.owner_law n ∙ ap (λ x. some (request x)) e)
  request_of-Of (quota none) e = inl runs.ownerless_law

  -- What holds before an event and is brought about by adding the request holds after it.
  enqueue_event-keeps :
      (P : Queue → Type 0) (e : Event) (queue : Queue)
      → Of name e.object
      → P queue
      → P (R.add req queue)
      → P (enqueue_event R e queue)
  unfolding enqueue_event
  enqueue_event-keeps P e queue o p added =
      passed (event_predicate R e.change) (request_of-Of e.object o)
    where
      passed :
          (b : Bool)
          → (request_of R e.object ≡ none) ⊎ (request_of R e.object ≡ some req)
          → P (if b then add_if R (request_of R e.object) queue else queue)
      passed true (inl n) = subst (λ r. P (add_if R r queue)) (sym n) p
      passed true (inr n) = subst (λ r. P (add_if R r queue)) (sym n) added
      passed false n = p

  enqueue_event-Modest :
      (e : Event) (queue : Queue)
      → Of name e.object
      → Modest queue
      → Modest (enqueue_event R e queue)
  enqueue_event-Modest e queue o m = enqueue_event-keeps Modest e queue o m (inr (add-One queue m))

  pub deliver-Modest :
      (events : List Event) (queue : Queue)
      → Concerning name events
      → Modest queue
      → Modest (deliver R events queue)
  unfolding deliver
  deliver-Modest [] queue c m = m
  deliver-Modest (e ∷ events) queue (o, c) m =
      deliver-Modest events (enqueue_event R e queue) c (enqueue_event-Modest e queue o m)

  -- A request that waits is not dropped.
  deliver-One :
      (events : List Event) (queue : Queue)
      → Concerning name events
      → One queue
      → One (deliver R events queue)
  unfolding deliver
  deliver-One [] queue c m = m
  deliver-One (e ∷ events) queue (o, c) m =
      deliver-One events (enqueue_event R e queue) c
        (enqueue_event-keeps One e queue o m (add-One queue (inr m)))

  told-One :
      (change : Change) (queue : Queue)
      → R.funcs update_func change ≡ true
      → Modest queue
      → One (enqueue_event R (quota_event change (some name)) queue)
  unfolding enqueue_event
  told-One change queue passes m =
      subst (λ b. One (if b then add_if R (request_of R (quota (some name))) queue else queue))
        (sym passes)
        (subst (λ r. One (add_if R r queue)) (sym (runs.owner_law name)) (add-One queue m))

  -- A change of a quota of the limiter that passes the filter puts its request into the queue.
  pub deliver-told :
      (change : Change) (events : List Event) (queue : Queue)
      → R.funcs update_func change ≡ true
      → Concerning name events
      → Modest queue
      → Has (quota_event change (some name)) events
      → One (deliver R events queue)
  unfolding deliver
  deliver-told change [] queue passes c m h = absurd h
  deliver-told change (e ∷ events) queue passes (o, c) m (inl same) =
      deliver-One events (enqueue_event R e queue) c
        (subst (λ x. One (enqueue_event R x queue)) (sym same) (told-One change queue passes m))
  deliver-told change (e ∷ events) queue passes (o, c) m (inr h) =
      deliver-told change events (enqueue_event R e queue) passes c
        (enqueue_event-Modest e queue o m) h
