-- ===== src/Tests/ManagerRuns.antt =====
-- The manager on a small cluster.
use resourcelimiter.Prelude.{
  String, none, some, inl, inr, Map, lookup, insert, ◌==◌, if◌then◌else◌, ◌≡◌, refl, [], ◌∷◌, arith,
}
use resourcelimiter.Api.Constants.{ready, mutate_namespace_label, validate_namespace_label}
use resourcelimiter.Api.V1beta2.{ResourceLimiterStatus}
use resourcelimiter.Controller.Platform.View.{View, put_hard}
use resourcelimiter.Controller.Reconcile.{quota_key}
use resourcelimiter.Controller.Manager.Heals.{deletion-IsSettled}
use resourcelimiter.Controller.Entry.Converges.{IsOpen, IsConverged}
use resourcelimiter.Controller.Entry.Pass.{IsActive}
use resourcelimiter.Controller.Manager.{Manager, rounds, deliver}
use resourcelimiter.Controller.Manager.Converges.{Lives, IsSettled, rounds-IsSettled}
use resourcelimiter.Controller.Reconcile.Spec.{hard_of, IsMarked, IsEnforced}
use resourcelimiter.Tests.Memory.{texts}
use resourcelimiter.Tests.ControllerRuns.{quota_for, limiter, limiter-IsActive, cluster, req}
use resourcelimiter.Tests.Watching.{
  the_limiter, its_quota_gone, Watching, take, watching, watching_lawful, watching_IsWatched, lists,
  lists_IsRuntime,
}

-- The limiter has been created, and no request waits yet.
abbrev manager : Manager lists Watching
manager = record { cluster = (cluster, the_limiter ∷ []); queue = [] }

active : IsActive watching req limiter
active = record {
  called = refl;
  registered = refl;
  alive = refl;
  applied = refl;
  distinct = limiter-IsActive.distinct;
}

manager-IsOpen : IsOpen texts watching watching_lawful req limiter active cluster
unfolding hard_of
manager-IsOpen = record { status = limiter.status; stored = refl; unblocked = λ b. ground arith }

delivered : deliver lists (watching_IsWatched.pending manager.cluster) manager.queue ≡ req ∷ []
unfolding deliver
delivered = refl

rounds-IsSettled_example :
    Lives
      (IsSettled texts watching watching_lawful limiter active take watching_IsWatched lists
        lists_IsRuntime)
      (rounds lists texts watching take 3 manager)
rounds-IsSettled_example =
    rounds-IsSettled texts watching watching_lawful limiter active take watching_IsWatched lists
      lists_IsRuntime 2 manager manager-IsOpen delivered (omega arith)

abbrev limits : Map String
limits =
    ("limits.cpu", "2")
    ∷ ("requests.cpu", "1")
    ∷ ("limits.memory", "200Mi")
    ∷ ("requests.memory", "150Mi")
    ∷ []

abbrev marks : Map String
marks = (mutate_namespace_label, "enabled") ∷ (validate_namespace_label, "enabled") ∷ []

abbrev done : ResourceLimiterStatus
done = record { state = ready; quotas = quota_for "rl-quota-web" ∷ quota_for "rl-quota-db" ∷ [] }

-- The cluster with all that the limiter asks for.
abbrev settled_cluster : View String
settled_cluster = record {
  namespaces = λ n. if n == "web" then some marks else if n == "db" then some marks else none;
  quotas = λ k.
      if k.name == "rl-quota-web"
      then some limits
      else if k.name == "rl-quota-db"
      then some limits
      else none;
  limiters = λ n. if n == "rl" then some (record limiter { status = done }) else none;
}

abbrev settled_manager : Manager lists Watching
settled_manager = record { cluster = (settled_cluster, []); queue = [] }

marks-IsMarked : IsMarked marks
unfolding lookup
marks-IsMarked = record { mutate = refl; validate = refl }

web-IsEnforced : IsEnforced texts settled_cluster (quota_for "web")
unfolding hard_of insert
web-IsEnforced = record {
  labels = marks;
  labelled = refl;
  marked = marks-IsMarked;
  hard = limits;
  asked = refl;
  limited = refl;
}

db-IsEnforced : IsEnforced texts settled_cluster (quota_for "db")
unfolding hard_of insert
db-IsEnforced = record {
  labels = marks;
  labelled = refl;
  marked = marks-IsMarked;
  hard = limits;
  asked = refl;
  limited = refl;
}

settled_cluster-IsConverged :
    IsConverged texts watching watching_lawful req limiter active settled_cluster
settled_cluster-IsConverged = record {
  status = done;
  stored = refl;
  state = refl;
  lines = refl;
  served = (inr web-IsEnforced, (inl refl, (inr db-IsEnforced, tt)));
}

-- Somebody deletes the resource quota of the namespace "web".
abbrev robbed : Watching
robbed = (put_hard (quota_key "web") none settled_cluster, its_quota_gone ∷ [])

deletion-IsSettled_example :
    Lives
      (IsSettled texts watching watching_lawful limiter active take watching_IsWatched lists
        lists_IsRuntime)
      (rounds lists texts watching take 2 (record { cluster = robbed; queue = [] }))
deletion-IsSettled_example =
    deletion-IsSettled texts watching watching_lawful limiter active take watching_IsWatched lists
      lists_IsRuntime "web" settled_manager robbed (settled_cluster-IsConverged, refl) refl
      (inl refl)
