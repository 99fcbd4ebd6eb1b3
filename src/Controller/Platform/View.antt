-- ===== src/Controller/Platform/View.antt =====
-- The assumptions on the client: what its calls do to the objects that the cluster holds.
use resourcelimiter.Prelude.{
  String, Bool, ◌&&◌, ◌||◌, not, Option, none, some, Map, List, ◌==◌, ◌≡◌, ◌≢◌, ◌⊎◌, if◌then◌else◌,
}
use resourcelimiter.Api.V1beta2.{ResourceLimiter}
use resourcelimiter.Controller.Exec.{not_found, failure, Fault, error, panicked, Post}
use resourcelimiter.Controller.Platform.{NamespacedName, named, Namespace, ResourceQuota, Client}

-- The objects of the cluster: a namespace by its labels, a resource quota by its hard limits.
pub record View (Quantity : Type 0) : Type 0 where
  pub namespaces : String → Option (Map String)
  pub quotas : NamespacedName → Option (Map Quantity)
  pub limiters : String → Option ResourceLimiter

abbrev pub same_key : NamespacedName → NamespacedName → Bool
same_key k j = k.namespace == j.namespace && k.name == j.name

module _ {Quantity : Type 0} where
  abbrev pub put_labels : String → Map String → View Quantity → View Quantity
  put_labels n labels v = record v {
    namespaces = λ j. if n == j then some labels else v.namespaces j;
  }

  abbrev pub put_hard : NamespacedName → Option (Map Quantity) → View Quantity → View Quantity
  put_hard k hard v = record v { quotas = λ j. if same_key k j then hard else v.quotas j }

  abbrev pub put_limiter : String → Option ResourceLimiter → View Quantity → View Quantity
  put_limiter n rl v = record v { limiters = λ j. if n == j then rl else v.limiters j }

-- How calls fail, over any view `V` of what they read and change. A call that fails without a
-- reason in the cluster is possible only if `Flaky` holds.
module _ {V : Type 0} (Flaky : Type 0) (before : V) where
  -- A read that fails: it changes nothing, and says that an object is missing only if it is.
  abbrev pub ReadFault : {X : Type 0} → Option X → V → Fault → Type 0
  ReadFault o after (error not_found) = (after ≡ before) × (o ≡ none)
  ReadFault o after (error (failure _)) = (after ≡ before) × Flaky
  ReadFault o after panicked = ⊥

  -- A write that fails: where the answer was lost it may have been made.
  abbrev pub WriteFault : {X : Type 0} → Option X → V → V → Fault → Type 0
  WriteFault o new after (error not_found) = (after ≡ before) × (o ≡ none)
  WriteFault o new after (error (failure _)) = ((after ≡ before) ⊎ (after ≡ new)) × Flaky
  WriteFault o new after panicked = ⊥

-- Documented behaviour of the client and its helpers, with no other writer during a call.
pub record IsLawful {Quantity : Type 0} (C : Client Quantity) (Flaky : Type 0) : Type 0 where
  pub view : C.State → View Quantity
  pub get_limiter_law :
      (k : NamespacedName) (s : C.State)
      → Post
          (λ rl t. (view t ≡ view s) × ((view s).limiters k.name ≡ some rl))
          (λ e t. ReadFault Flaky (view s) ((view s).limiters k.name) (view t) e)
          (C.get_limiter k s)
  pub get_namespace_law :
      (k : NamespacedName) (s : C.State)
      → Post
          (λ ns t.
            (view t ≡ view s) × (ns.name ≡ k.name) × ((view s).namespaces k.name ≡ some ns.labels))
          (λ e t. ReadFault Flaky (view s) ((view s).namespaces k.name) (view t) e)
          (C.get_namespace k s)
  pub get_quota_law :
      (k : NamespacedName) (s : C.State)
      → Post
          (λ q t.
            (view t ≡ view s)
            × (q.namespace ≡ k.namespace)
            × (q.name ≡ k.name)
            × ((view s).quotas k ≡ some q.hard))
          (λ e t. ReadFault Flaky (view s) ((view s).quotas k) (view t) e)
          (C.get_quota k s)
  pub update_namespace_law :
      (ns : Namespace) (s : C.State)
      → let new = put_labels ns.name ns.labels (view s) in
        Post
          (λ _ t. view t ≡ new)
          (λ e t. WriteFault Flaky (view s) ((view s).namespaces ns.name) new (view t) e)
          (C.update_namespace ns s)
  pub create_quota_law :
      (q : ResourceQuota Quantity) (s : C.State)
      → (view s).quotas (named q.namespace q.name) ≡ none
      → let new = put_hard (named q.namespace q.name) (some q.hard) (view s) in
        Post
          (λ _ t. view t ≡ new)
          (λ e t. WriteFault Flaky (view s) ((view s).namespaces q.namespace) new (view t) e)
          (C.create_quota q s)
  pub update_quota_law :
      (q : ResourceQuota Quantity) (s : C.State)
      → let new = put_hard (named q.namespace q.name) (some q.hard) (view s) in
        Post
          (λ _ t. view t ≡ new)
          (λ e t.
            WriteFault Flaky (view s) ((view s).quotas (named q.namespace q.name)) new (view t) e)
          (C.update_quota q s)
  pub delete_quota_law :
      (q : ResourceQuota Quantity) (s : C.State)
      → let new = put_hard (named q.namespace q.name) none (view s) in
        Post
          (λ _ t. view t ≡ new)
          (λ e t.
            WriteFault Flaky (view s) ((view s).quotas (named q.namespace q.name)) new (view t) e)
          (C.delete_quota q s)
  pub update_status_law :
      (rl : ResourceLimiter) (s : C.State) (old : ResourceLimiter)
      → (view s).limiters rl.object_meta.name ≡ some old
      → let new =
          put_limiter rl.object_meta.name (some (record old { status = rl.status })) (view s) in
        Post
          (λ _ t. view t ≡ new)
          (λ e t. WriteFault Flaky (view s) ((view s).limiters rl.object_meta.name) new (view t) e)
          (C.update_status rl s)
  -- What is left of an object that a patch is applied to; none once the last finalizer of an
  -- object under deletion is gone.
  pub patched : ResourceLimiter → ResourceLimiter → ResourceLimiter → Option ResourceLimiter
  pub patched_same : (obj old : ResourceLimiter) → patched obj obj old ≡ some old
  pub patched_finalizers :
      (base obj old new : ResourceLimiter)
      → base.object_meta.finalizers ≢ obj.object_meta.finalizers
      → patched base obj old ≡ some new
      → new.object_meta.finalizers ≡ obj.object_meta.finalizers
  pub patch_limiter_law :
      (base obj : ResourceLimiter) (s : C.State) (old : ResourceLimiter)
      → (view s).limiters obj.object_meta.name ≡ some old
      → let new = put_limiter obj.object_meta.name (patched base obj old) (view s) in
        Post
          (λ _ t. view t ≡ new)
          (λ e t. WriteFault Flaky (view s) ((view s).limiters obj.object_meta.name) new (view t) e)
          (C.patch_limiter base obj s)
  pub owner_law :
      (rl : ResourceLimiter) (q : ResourceQuota Quantity) (s : C.State)
      → Post {S = C.State}
          (λ r t. (t ≡ s) × (r.namespace ≡ q.namespace) × (r.name ≡ q.name))
          (λ _ t. (t ≡ s) × Flaky)
          (C.set_controller_reference rl q, s)
  pub contains-add :
      (fs : List String) (f g : String)
      → C.contains_finalizer (C.add_finalizer fs f) g ≡ (f == g || C.contains_finalizer fs g)
  pub contains-remove :
      (fs : List String) (f g : String)
      → C.contains_finalizer (C.remove_finalizer fs f) g
        ≡ (not (f == g) && C.contains_finalizer fs g)
