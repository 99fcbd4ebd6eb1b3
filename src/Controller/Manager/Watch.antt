-- ===== src/Controller/Manager/Watch.antt =====
-- What is assumed of the watches of the manager, and of controller-runtime.
use resourcelimiter.Prelude.{
  String, Bool, true, false, ◌||◌, ◌≡◌, ◌⊎◌, Option, none, some, List, [], ◌∷◌, ◌++◌, All,
  if◌then◌else◌,
}
use resourcelimiter.Api.V1beta2.{ResourceLimiter}
use resourcelimiter.Controller.Exec.{ok, Post}
use resourcelimiter.Controller.Platform.{Client, NamespacedName, named, ResourceQuota}
use resourcelimiter.Controller.Platform.View.{same_key, IsLawful}
use resourcelimiter.Controller.Manager.{
  Metadata, Event, Change, created, deleted, Watched, limiter, quota, Runtime,
}

abbrev pub request : String → NamespacedName
request name = named "" name

abbrev pub Has : Event → List Event → Type 0
Has e [] = ⊥
Has e (x ∷ events) = (x ≡ e) ⊎ Has e events

abbrev pub quota_event : Change → Option String → Event
quota_event change owner = record { object = quota owner; change = change }

abbrev pub creation_of : Option String → Event
creation_of = quota_event created

abbrev pub deletion_of : Option String → Event
deletion_of = quota_event deleted

module _ (name : String) where
  abbrev pub Of : Watched → Type 0
  Of (limiter n) = n ≡ name
  Of (quota (some n)) = n ≡ name
  Of (quota none) = Unit

  -- The events are of the limiter, of a quota that it owns, or of one that no limiter owns.
  abbrev pub Concerning : List Event → Type 0
  Concerning = All (λ e. Of e.object)

-- Documented behaviour of the client and the informers, in a cluster with one resource limiter: the
-- owner reference of a quota names the limiter, the event of the creation of its quota is pending
-- until it is taken, and to take the events changes no object.
pub record IsWatched {Quantity : Type 0} (C : Client Quantity) {Flaky : Type 0}
    (L : IsLawful C Flaky) (name : String) (take : C.State → List Event × C.State) : Type 0 where
  pub pending : C.State → List Event
  pub sole : (s : C.State) → Concerning name (pending s)
  pub take_events : (s : C.State) → (take s).0 ≡ pending s
  pub take_view : (s : C.State) → L.view (take s).1 ≡ L.view s
  pub owner_law :
      (rl : ResourceLimiter) (q r : ResourceQuota Quantity)
      → C.set_controller_reference rl q ≡ ok r
      → r.owner ≡ some rl.object_meta.name
  pub creation_law :
      (q : ResourceQuota Quantity) (s : C.State)
      → q.owner ≡ some name
      → Post
          (λ _ t. Has (creation_of (some name)) (pending t))
          (λ _ _. Unit {0})
          (C.create_quota q s)

-- A queue of requests holds none twice.
abbrev pub waits : NamespacedName → List NamespacedName → Bool
waits req [] = false
waits req (r ∷ queue) = same_key r req || waits req queue

abbrev pub enqueue : NamespacedName → List NamespacedName → List NamespacedName
enqueue req queue = if waits req queue then queue else queue ++ (req ∷ [])

-- Documented behaviour of controller-runtime: its queue is first in, first out without duplicates,
-- a request that succeeded is not put back, the creation and the deletion of an object pass a
-- filter that is given for updates only, and the handlers name the limiter and the limiter that
-- owns the quota.
pub record IsRuntime (R : Runtime) : Type 0 where
  pub waiting : R.Queue → List NamespacedName
  pub add_law :
      (req : NamespacedName) (q : R.Queue) → waiting (R.add req q) ≡ enqueue req (waiting q)
  pub get_none : (q : R.Queue) → waiting q ≡ [] → R.get q ≡ none
  pub get_some :
      (req : NamespacedName) (rest : List NamespacedName) (q : R.Queue)
      → waiting q ≡ req ∷ rest
      → (q' : R.Queue) × ((R.get q ≡ some (req, q')) × (waiting q' ≡ rest))
  pub conclude_law : (req : NamespacedName) (q : R.Queue) → R.conclude req (ok tt) q ≡ some q
  pub created_law : (f : Metadata → Metadata → Bool) → R.funcs f created ≡ true
  pub deleted_law : (f : Metadata → Metadata → Bool) → R.funcs f deleted ≡ true
  pub object_law : (name : String) → R.enqueue_request_for_object name ≡ some (request name)
  pub owner_law : (name : String) → R.enqueue_request_for_owner (some name) ≡ some (request name)
  pub ownerless_law : R.enqueue_request_for_owner none ≡ none
