-- ===== src/Controller/Manager.antt =====
-- The set-up of the controller, `SetupWithManager` and `eventPredicate` of
-- controllers/resourcelimiter_controller.go: which events put which request into the queue of
-- controller-runtime, and the one worker that takes the requests off it. The library itself, with
-- its queue, its handlers and its filters, is a parameter.
pub mod Watch
pub mod Queue
pub mod Converges
pub mod Heals
use resourcelimiter.Prelude.{
  String, ℕ, zero, suc, Bool, true, false, not, ◌||◌, Option, none, some, List, [], ◌∷◌, ◌==◌, ite,
  ℕ_discrete, if◌then◌else◌,
}
use resourcelimiter.Controller.Exec.{Outcome}
use resourcelimiter.Controller.Platform.{Quantities, Client, NamespacedName}
use resourcelimiter.Controller.Entry.{reconcile_request}

-- What `eventPredicate` reads of an object.
pub record Metadata : Type 0 where
  pub generation : ℕ
  pub resource_version : String

-- The objects that are watched: a resource limiter by its name, and a resource quota by the
-- resource limiter that owns it as its controller, if one does.
pub data Watched : Type 0 where
  limiter : String → Watched
  quota : Option String → Watched

pub data Change : Type 0 where
  created deleted generic : Change
  updated : Metadata → Metadata → Change

pub record Event : Type 0 where
  pub object : Watched
  pub change : Change

-- controller-runtime: its queue, what becomes of it when a request is done (nothing, where the
-- process ends), `predicate.Funcs` with an `UpdateFunc`, and the handlers of `For` and of
-- `Watches` with `EnqueueRequestForOwner`.
pub record Runtime : Type 1 where
  pub Queue : Type 0
  pub add : NamespacedName → Queue → Queue
  pub get : Queue → Option (NamespacedName × Queue)
  pub conclude : NamespacedName → Outcome (Unit {0}) → Queue → Option Queue
  pub funcs : (Metadata → Metadata → Bool) → Change → Bool
  pub enqueue_request_for_object : String → Option NamespacedName
  pub enqueue_request_for_owner : Option String → Option NamespacedName

abbrev same_number : ℕ → ℕ → Bool
same_number a b = ite (ℕ_discrete a b) true false

abbrev pub update_func : Metadata → Metadata → Bool
update_func old new =
    not (same_number old.generation new.generation)
    || not (old.resource_version == new.resource_version)

module _ (R : Runtime) where
  open R use {Queue}

  abbrev pub event_predicate : Change → Bool
  event_predicate = R.funcs update_func

  -- `For` and `Watches`: the handler of each kind of object.
  abbrev pub request_of : Watched → Option NamespacedName
  request_of (limiter name) = R.enqueue_request_for_object name
  request_of (quota owner) = R.enqueue_request_for_owner owner

  abbrev pub add_if : Option NamespacedName → Queue → Queue
  add_if none queue = queue
  add_if (some req) queue = R.add req queue

  -- What `SetupWithManager` hands to the builder of controllers.
  pub record Wiring : Type 0 where
    pub max_concurrent_reconciles : ℕ
    pub handler : Watched → Option NamespacedName
    pub filter : Change → Bool

  abbrev pub setup_with_manager : Wiring
  setup_with_manager = record {
    max_concurrent_reconciles = 1;
    handler = request_of;
    filter = event_predicate;
  }

  -- `WithEventFilter` stands before the handlers of both watches.
  unfoldable pub enqueue_event : Event → Queue → Queue
  enqueue_event e queue =
      if setup_with_manager.filter e.change
      then add_if (setup_with_manager.handler e.object) queue
      else queue

  unfoldable pub deliver : List Event → Queue → Queue
  unfolding enqueue_event
  deliver [] queue = queue
  deliver (e ∷ events) queue = deliver events (enqueue_event e queue)

  pub record Manager (S : Type 0) : Type 0 where
    pub cluster : S
    pub queue : Queue

  abbrev pub with_queue : {S : Type 0} → S → Option Queue → Option (Manager S)
  with_queue s none = none
  with_queue s (some queue) = some (record { cluster = s; queue = queue })

  abbrev pub finished :
      {S : Type 0} → NamespacedName → Queue → Outcome (Unit {0}) × S → Option (Manager S)
  finished req queue (o, s) = with_queue s (R.conclude req o queue)

  -- `take` are the informers of the watches: they hand over the events that have come in.
  module _ (Q : Quantities) (C : Client Q.Quantity) (take : C.State → List Event × C.State) where
    open C use {State}

    -- The one worker calls `Reconcile` for one request at a time.
    abbrev pub work : State → Queue → Option (NamespacedName × Queue) → Option (Manager State)
    work s queue none = some (record { cluster = s; queue = queue })
    work s queue (some (req, rest)) = finished req rest (reconcile_request Q C req s)

    -- The events are delivered, and the first request is worked on.
    unfoldable pub round : Manager State → Option (Manager State)
    unfolding deliver
    round m =
        let (events, s) = take m.cluster in
        let queue = deliver events m.queue in work s queue (R.get queue)

    abbrev pub and_rounds :
        (Manager State → Option (Manager State)) → Option (Manager State) → Option (Manager State)
    and_rounds next none = none
    and_rounds next (some m) = next m

    unfoldable pub rounds : ℕ → Manager State → Option (Manager State)
    unfolding round
    rounds zero m = some m
    rounds (suc n) m = and_rounds (rounds n) (round m)
