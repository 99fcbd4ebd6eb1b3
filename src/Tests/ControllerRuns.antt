-- ===== src/Tests/ControllerRuns.antt =====
-- The controller on a small cluster.
use resourcelimiter.Prelude.{
  String, ◌≡◌, refl, sym, ap, ◌∙◌, Bool-cases, true, none, some, [], ◌∷◌, lookup, insert, arith,
  ◌==◌, inl, inr, eq_iff, if◌then◌else◌,
}
use mathlib.Core.Option.{some-injective}
use resourcelimiter.Api.Constants.{default_finalizer}
use resourcelimiter.Api.V1beta2.{ResourceLimiter, ResourceLimiterQuota}
use resourcelimiter.Controller.Exec.{Post, handle}
use resourcelimiter.Controller.Platform.{NamespacedName, named}
use resourcelimiter.Controller.Platform.View.{View}
use resourcelimiter.Controller.Reconcile.Spec.{hard_of}
use resourcelimiter.Controller.Reconcile.Results.{Passed, Stopped}
use resourcelimiter.Controller.Reconcile.{reconcile}
use resourcelimiter.Controller.Entry.{reconcile_request}
use resourcelimiter.Controller.Entry.Pass.{IsActive, reconcile_request-Post}
use resourcelimiter.Controller.Entry.Converges.{requests, IsOpen, IsConverged, requests-IsConverged}
use resourcelimiter.Controller.Platform.Kept.{Kept-refl}
use resourcelimiter.Controller.Platform.Untouched.{IsUntouched}
use resourcelimiter.Controller.Entry.Ignored.{IsNamed, here, request, edit, Reaches-IsUntouched}
use resourcelimiter.Tests.Memory.{texts, memory, memory_lawful}

abbrev pub quota_for : String → ResourceLimiterQuota
quota_for ns = record {
  namespace_name = ns;
  cpu_request = "1";
  mem_request = "150Mi";
  cpu_limit = "2";
  mem_limit = "200Mi";
}

abbrev pub limiter : ResourceLimiter
limiter = record {
  type_meta = record { kind = "ResourceLimiter"; api_version = "" };
  object_meta = record {
    name = "rl";
    finalizers = default_finalizer ∷ [];
    deletion_timestamp = none;
  };
  spec = record {
    quotas = quota_for "web" ∷ quota_for "kube-system" ∷ quota_for "db" ∷ [];
    applied = true;
  };
  status = record { state = ""; quotas = [] };
}

abbrev pub cluster : View String
cluster = record {
  namespaces =
      λ n. if n == "web" then some [] else if n == "db" then some (("team", "a") ∷ []) else none;
  quotas = λ k. none;
  limiters = λ n. if n == "rl" then some limiter else none;
}

abbrev pub req : NamespacedName
req = named "" "rl"

first_creates :
    (reconcile_request texts memory req cluster).1.quotas (named "web" "rl-quota-web")
    ≡ some (
        ("limits.cpu", "2")
        ∷ ("requests.cpu", "1")
        ∷ ("limits.memory", "200Mi")
        ∷ ("requests.memory", "150Mi")
        ∷ [])
unfolding reconcile_request reconcile lookup insert handle
first_creates = refl

pub limiter-IsActive : IsActive memory req limiter
limiter-IsActive = record {
  called = refl;
  registered = refl;
  alive = refl;
  applied = refl;
  distinct = (
    (inl refl, (inr (ground (arith, eq_iff "db" "web")), tt)),
    ((inr (ground (arith, eq_iff "db" "kube-system")), tt), (tt, tt)),
  );
}

reconcile_request-Post_example :
    Post
      (λ _ t. Passed texts "rl" limiter limiter.spec.quotas [] cluster t)
      (λ _ t. Stopped texts "rl" limiter ⊥ limiter.spec.quotas cluster t)
      (reconcile_request texts memory req cluster)
reconcile_request-Post_example =
    reconcile_request-Post texts memory memory_lawful req limiter limiter-IsActive cluster refl

cluster-IsOpen : IsOpen texts memory memory_lawful req limiter limiter-IsActive cluster
unfolding hard_of
cluster-IsOpen = record { status = limiter.status; stored = refl; unblocked = λ b. ground arith }

requests-IsConverged_example :
    Post
      (λ _ t. IsConverged texts memory memory_lawful req limiter limiter-IsActive t)
      (λ _ _. ⊥)
      (requests texts memory 3 req cluster)
requests-IsConverged_example =
    requests-IsConverged texts memory memory_lawful req limiter limiter-IsActive 2 cluster
      cluster-IsOpen (omega arith)

-- The limiter names "kube-system", which has no labels.
abbrev system_cluster : View String
system_cluster = record cluster {
  namespaces = λ n. if n == "kube-system" then some [] else cluster.namespaces n;
}

cluster-IsNamed : IsNamed texts memory memory_lawful system_cluster
cluster-IsNamed n rl stored = elim (Bool-cases (n == "rl")) [
  | inl e ↦
      ap (λ r. r.object_meta.name) (sym (some-injective limiter rl (rw e at stored)))
      ∙ sym ((eq_iff n "rl").0 e)
  | inr e ↦ cc (rw e at stored)
]

Reaches-IsUntouched_example :
    IsUntouched "kube-system" (some []) (reconcile_request texts memory req system_cluster).1
Reaches-IsUntouched_example =
    Reaches-IsUntouched texts memory memory_lawful "kube-system" (some []) system_cluster
      (reconcile_request texts memory req system_cluster).1 (inl refl)
      (edit (reconcile_request texts memory req system_cluster).1 _ (Kept-refl _)
        (request req system_cluster cluster-IsNamed here))
      (record { labels_stay = refl; unlimited = refl })
