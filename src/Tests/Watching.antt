-- ===== src/Tests/Watching.antt =====
-- The client that keeps the objects in memory, with the events of its resource limiter "rl", and
-- a queue that is a list.
use resourcelimiter.Prelude.{
  String, Bool, true, ◌≡◌, refl, ap, Option, none, some, List, [], ◌∷◌, inl, arith,
}
use resourcelimiter.Api.V1beta2.{ResourceLimiter}
use resourcelimiter.Controller.Exec.{Fault, error, panicked, Outcome, ok, fail, Exec, Post}
use resourcelimiter.Controller.Platform.{NamespacedName, ResourceQuota, Client}
use resourcelimiter.Controller.Platform.View.{IsLawful}
use resourcelimiter.Controller.Manager.{Metadata, Change, updated, limiter, created, Event, Runtime}
use resourcelimiter.Controller.Manager.Watch.{
  Has, creation_of, deletion_of, Concerning, request, enqueue, IsWatched, IsRuntime,
}
use resourcelimiter.Tests.Memory.{Store, memory, memory_lawful}

-- What has been created or deleted and not been told yet.
pub data News : Type 0 where
  the_limiter its_quota its_quota_gone : News

abbrev pub Watching : Type 0
Watching = Store × List News

abbrev event_of : News → Event
event_of the_limiter = record { object = limiter "rl"; change = created }
event_of its_quota = creation_of (some "rl")
event_of its_quota_gone = deletion_of (some "rl")

abbrev pub events_of : List News → List Event
events_of [] = []
events_of (n ∷ news) = event_of n ∷ events_of news

abbrev pub take : Watching → List Event × Watching
take (s, news) = (events_of news, (s, []))

module _ {A : Type 0} where
  abbrev with_news : List News → Outcome A × Store → Outcome A × Watching
  with_news news (o, s) = (o, (s, news))

  -- A call that makes no news.
  abbrev quietly : Exec Store A → Exec Watching A
  quietly m (s, news) = with_news news (m s)

  pub with_news-Post :
      (P : A → Store → Type 0) (E : Fault → Store → Type 0) (news : List News)
      (r : Outcome A × Store)
      → Post P E r
      → Post (λ a t. P a t.0) (λ e t. E e t.0) (with_news news r)
  with_news-Post P E news (ok a, s) p = p
  with_news-Post P E news (fail e, s) p = p

-- A quota was created.
abbrev told : List News → Outcome (Unit {0}) × Store → Outcome (Unit {0}) × Watching
told news (ok u, s) = (ok u, (s, its_quota ∷ news))
told news (fail e, s) = (fail e, (s, news))

pub told-Post :
    (P : Unit {0} → Store → Type 0) (E : Fault → Store → Type 0) (news : List News)
    (r : Outcome (Unit {0}) × Store)
    → Post P E r
    → Post (λ a t. P a t.0) (λ e t. E e t.0) (told news r)
told-Post P E news (ok a, s) p = p
told-Post P E news (fail e, s) p = p

pub told-Has :
    (news : List News) (r : Outcome (Unit {0}) × Store)
    → Post (λ _ t. Has (creation_of (some "rl")) (events_of t.1)) (λ _ _. Unit {0}) (told news r)
told-Has news (ok a, s) = inl refl
told-Has news (fail e, s) = tt

abbrev pub watching : Client String
watching = record {
  State = Watching;
  get_limiter = λ k. quietly (memory.get_limiter k);
  patch_limiter = λ base obj. quietly (memory.patch_limiter base obj);
  update_status = λ rl. quietly (memory.update_status rl);
  get_namespace = λ k. quietly (memory.get_namespace k);
  update_namespace = λ ns. quietly (memory.update_namespace ns);
  get_quota = λ k. quietly (memory.get_quota k);
  create_quota = λ q s. told s.1 (memory.create_quota q s.0);
  update_quota = λ q. quietly (memory.update_quota q);
  delete_quota = λ q. quietly (memory.delete_quota q);
  set_controller_reference = memory.set_controller_reference;
  contains_finalizer = memory.contains_finalizer;
  add_finalizer = memory.add_finalizer;
  remove_finalizer = memory.remove_finalizer;
}

abbrev L : IsLawful memory ⊥
L = memory_lawful

abbrev pub watching_lawful : IsLawful watching ⊥
watching_lawful = record {
  view = λ s. s.0;
  get_limiter_law =
      λ k s. with_news-Post _ _ s.1 (memory.get_limiter k s.0) (L.get_limiter_law k s.0);
  get_namespace_law =
      λ k s. with_news-Post _ _ s.1 (memory.get_namespace k s.0) (L.get_namespace_law k s.0);
  get_quota_law = λ k s. with_news-Post _ _ s.1 (memory.get_quota k s.0) (L.get_quota_law k s.0);
  update_namespace_law = λ ns s.
      with_news-Post _ _ s.1 (memory.update_namespace ns s.0) (L.update_namespace_law ns s.0);
  create_quota_law =
      λ q s h. told-Post _ _ s.1 (memory.create_quota q s.0) (L.create_quota_law q s.0 h);
  update_quota_law =
      λ q s. with_news-Post _ _ s.1 (memory.update_quota q s.0) (L.update_quota_law q s.0);
  delete_quota_law =
      λ q s. with_news-Post _ _ s.1 (memory.delete_quota q s.0) (L.delete_quota_law q s.0);
  update_status_law = λ rl s old h.
      with_news-Post _ _ s.1 (memory.update_status rl s.0) (L.update_status_law rl s.0 old h);
  patched = L.patched;
  patched_same = L.patched_same;
  patched_finalizers = L.patched_finalizers;
  patch_limiter_law = λ base obj s old h.
      with_news-Post _ _ s.1 (memory.patch_limiter base obj s.0)
        (L.patch_limiter_law base obj s.0 old h);
  owner_law = λ rl q s. (refl, refl, refl);
  contains-add = L.contains-add;
  contains-remove = L.contains-remove;
}

pub events_of-Concerning : (news : List News) → Concerning "rl" (events_of news)
events_of-Concerning [] = tt
events_of-Concerning (the_limiter ∷ news) = (refl, events_of-Concerning news)
events_of-Concerning (its_quota ∷ news) = (refl, events_of-Concerning news)
events_of-Concerning (its_quota_gone ∷ news) = (refl, events_of-Concerning news)

pub memory_owner :
    (rl : ResourceLimiter) (q r : ResourceQuota String)
    → memory.set_controller_reference rl q ≡ ok r
    → r.owner ≡ some rl.object_meta.name
memory_owner rl q r e = ground (arith, e)

abbrev pub watching_IsWatched : IsWatched watching watching_lawful "rl" take
watching_IsWatched = record {
  pending = λ s. events_of s.1;
  sole = λ s. events_of-Concerning s.1;
  take_events = λ s. refl;
  take_view = λ s. refl;
  owner_law = memory_owner;
  creation_law = λ q s owned. told-Has s.1 (memory.create_quota q s.0);
}

abbrev first : List NamespacedName → Option (NamespacedName × List NamespacedName)
first [] = none
first (req ∷ rest) = some (req, rest)

abbrev again :
    NamespacedName → Outcome (Unit {0}) → List NamespacedName → Option (List NamespacedName)
again req (ok u) queue = some queue
again req (fail (error e)) queue = some (enqueue req queue)
again req (fail panicked) queue = none

abbrev updates_only : (Metadata → Metadata → Bool) → Change → Bool
updates_only f (updated old new) = f old new
updates_only f _ = true

abbrev mapped : Option String → Option NamespacedName
mapped none = none
mapped (some owner) = some (request owner)

abbrev pub lists : Runtime
lists = record {
  Queue = List NamespacedName;
  add = enqueue;
  get = first;
  conclude = again;
  funcs = updates_only;
  enqueue_request_for_object = λ name. some (request name);
  enqueue_request_for_owner = mapped;
}

abbrev pub lists_IsRuntime : IsRuntime lists
lists_IsRuntime = record {
  waiting = λ queue. queue;
  add_law = λ req queue. refl;
  get_none = λ queue e. ap first e;
  get_some = λ req rest queue e. (rest, (ap first e, refl));
  conclude_law = λ req queue. refl;
  created_law = λ f. refl;
  deleted_law = λ f. refl;
  object_law = λ name. refl;
  owner_law = λ name. refl;
  ownerless_law = refl;
}
