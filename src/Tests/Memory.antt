-- ===== src/Tests/Memory.antt =====
-- A client that keeps the objects in memory, and meets the assumptions without failing.
use resourcelimiter.Prelude.{
  Bool-cases, inl, inr, ◌≡◌, refl, ap, eq_refl, String, Bool, true, false, not, ◌&&◌, ◌||◌, Option,
  none, some, List, [], ◌∷◌, ◌==◌, ◌≢◌, eq_iff, arith, if◌then◌else◌,
}
use resourcelimiter.Api.V1beta2.{ResourceLimiter}
use resourcelimiter.Controller.Exec.{not_found, error, ok, fail, Exec, Post}
use resourcelimiter.Controller.Platform.{Quantities, NamespacedName, named, ResourceQuota, Client}
use resourcelimiter.Controller.Platform.View.{
  View, put_labels, put_hard, put_limiter, ReadFault, WriteFault, IsLawful,
}

-- Quantities are texts, and any text but the empty one is a quantity.
abbrev pub texts : Quantities
texts = record {
  Quantity = String;
  parse = λ text. if text == "" then none else some text;
  show = λ q. q;
  zero_quantity = "0";
}

abbrev pub Store : Type 0
Store = View String

module _ {A : Type 0} where
  abbrev pub found : Option A → Exec Store A
  found none s = (fail (error not_found), s)
  found (some a) s = (ok a, s)

abbrev pub replace : {X : Type 0} → Option X → Store → Exec Store (Unit {0})
replace none new s = (fail (error not_found), s)
replace (some x) new s = (ok tt, new)

abbrev pub mapped : {A B : Type 0} → (A → B) → Option A → Option B
mapped f none = none
mapped f (some a) = some (f a)

abbrev pub contains : List String → String → Bool
contains [] f = false
contains (g ∷ fs) f = g == f || contains fs f

abbrev pub without : List String → String → List String
without [] f = []
without (g ∷ fs) f = let rest = without fs f in if g == f then rest else g ∷ rest

-- The finalizers of the second object, if the two differ.
abbrev pub same_list : List String → List String → Bool
same_list [] [] = true
same_list (a ∷ as') (b ∷ bs) = a == b && same_list as' bs
same_list _ _ = false

abbrev pub refinalized : ResourceLimiter → List String → ResourceLimiter
refinalized old fs = record old { object_meta = record old.object_meta { finalizers = fs } }

abbrev pub settled : ResourceLimiter → List String → Option String → Option ResourceLimiter
settled old [] (some deleted) = none
settled old fs deleted = some (refinalized old fs)

abbrev pub patch_of : ResourceLimiter → ResourceLimiter → ResourceLimiter → Option ResourceLimiter
patch_of base obj old =
    if same_list base.object_meta.finalizers obj.object_meta.finalizers
    then some old
    else settled old obj.object_meta.finalizers old.object_meta.deletion_timestamp

abbrev pub patch_at :
    Option ResourceLimiter → ResourceLimiter → ResourceLimiter → Exec Store (Unit {0})
patch_at none base obj s = (fail (error not_found), s)
patch_at (some old) base obj s = (ok tt, put_limiter obj.object_meta.name (patch_of base obj old) s)

abbrev pub status_at : Option ResourceLimiter → ResourceLimiter → Exec Store (Unit {0})
status_at none rl s = (fail (error not_found), s)
status_at (some old) rl s =
    (ok tt, put_limiter rl.object_meta.name (some (record old { status = rl.status })) s)

abbrev pub key_of : ResourceQuota String → NamespacedName
key_of q = named q.namespace q.name

abbrev pub memory : Client String
memory = record {
  State = Store;
  get_limiter = λ k s. found (s.limiters k.name) s;
  patch_limiter = λ base obj s. patch_at (s.limiters obj.object_meta.name) base obj s;
  update_status = λ rl s. status_at (s.limiters rl.object_meta.name) rl s;
  get_namespace = λ k s.
      found (mapped (λ labels. record { name = k.name; labels = labels }) (s.namespaces k.name)) s;
  update_namespace = λ ns s. replace (s.namespaces ns.name) (put_labels ns.name ns.labels s) s;
  get_quota = λ k s.
      found
        (mapped
          (λ hard. record {
            namespace = k.namespace;
            name = k.name;
            owner = none;
            hard = hard;
            used = [];
          })
          (s.quotas k))
        s;
  create_quota = λ q s. replace (s.namespaces q.namespace) (put_hard (key_of q) (some q.hard) s) s;
  update_quota = λ q s. replace (s.quotas (key_of q)) (put_hard (key_of q) (some q.hard) s) s;
  delete_quota = λ q s. replace (s.quotas (key_of q)) (put_hard (key_of q) none s) s;
  set_controller_reference = λ rl q. ok (record q { owner = some rl.object_meta.name });
  contains_finalizer = contains;
  add_finalizer = λ fs f. if contains fs f then fs else f ∷ fs;
  remove_finalizer = without;
}

same_list_refl : (xs : List String) → same_list xs xs ≡ true
same_list_refl [] = refl
same_list_refl (x ∷ xs) = ground (arith, eq_refl x, same_list_refl xs)

same_list-eq : (xs ys : List String) → same_list xs ys ≡ true → xs ≡ ys
same_list-eq [] [] h = refl
same_list-eq (x ∷ xs) (y ∷ ys) h = ground (arith, eq_iff x y, same_list-eq xs ys)
same_list-eq [] (y ∷ ys) h = cc
same_list-eq (x ∷ xs) [] h = cc

pub contains-without :
    (fs : List String) (f g : String) → contains (without fs f) g ≡ (not (f == g) && contains fs g)
contains-without [] f g = ground arith
contains-without (h ∷ fs) f g =
    ground (arith, contains-without fs f g, eq_iff h f, eq_iff h g, eq_iff f g)

contains_same : (fs : List String) (f g : String) → (f == g) ≡ true → contains fs f ≡ contains fs g
contains_same fs f g h = ap (contains fs) ((eq_iff f g).0 h)

pub contains-added :
    (fs : List String) (f g : String)
    → contains (if contains fs f then fs else f ∷ fs) g ≡ (f == g || contains fs g)
contains-added fs f g = ground (arith, contains_same fs f g)

settled_finalizers :
    (old new : ResourceLimiter) (fs : List String) (deleted : Option String)
    → settled old fs deleted ≡ some new
    → new.object_meta.finalizers ≡ fs
settled_finalizers old new [] none h = ground arith
settled_finalizers old new [] (some d) h = ground arith
settled_finalizers old new (f ∷ fs) d h = ground arith

pub patch_of_finalizers :
    (base obj old new : ResourceLimiter)
    → base.object_meta.finalizers ≢ obj.object_meta.finalizers
    → patch_of base obj old ≡ some new
    → new.object_meta.finalizers ≡ obj.object_meta.finalizers
patch_of_finalizers base obj old new ne h =
    elim (Bool-cases (same_list base.object_meta.finalizers obj.object_meta.finalizers)) [
      | inl e ↦ absurd (ne (same_list-eq _ _ e))
      | inr e ↦ settled_finalizers old new _ _ (rw e at h)
    ]

module _ (k : NamespacedName) (s : Store) where
  pub get_limiter_lawful :
      Post
        (λ rl t. (t ≡ s) × (s.limiters k.name ≡ some rl))
        (λ e t. ReadFault ⊥ s (s.limiters k.name) t e)
        (memory.get_limiter k s)
  get_limiter_lawful = ground arith

  pub get_namespace_lawful :
      Post
        (λ ns t. (t ≡ s) × (ns.name ≡ k.name) × (s.namespaces k.name ≡ some ns.labels))
        (λ e t. ReadFault ⊥ s (s.namespaces k.name) t e)
        (memory.get_namespace k s)
  get_namespace_lawful = ground arith

  pub get_quota_lawful :
      Post
        (λ q t.
          (t ≡ s) × (q.namespace ≡ k.namespace) × (q.name ≡ k.name) × (s.quotas k ≡ some q.hard))
        (λ e t. ReadFault ⊥ s (s.quotas k) t e)
        (memory.get_quota k s)
  get_quota_lawful = ground arith

pub replace_lawful :
    {X : Type 0} (o : Option X) (new s : Store)
    → Post (λ _ t. t ≡ new) (λ e t. WriteFault ⊥ s o new t e) (replace o new s)
replace_lawful none new s = (refl, refl)
replace_lawful (some x) new s = refl

pub update_status_lawful :
    (rl : ResourceLimiter) (s : Store) (old : ResourceLimiter)
    → s.limiters rl.object_meta.name ≡ some old
    → let new = put_limiter rl.object_meta.name (some (record old { status = rl.status })) s in
      Post
        (λ _ t. t ≡ new)
        (λ e t. WriteFault ⊥ s (s.limiters rl.object_meta.name) new t e)
        (memory.update_status rl s)
update_status_lawful rl s old h = rw h

pub patch_limiter_lawful :
    (base obj : ResourceLimiter) (s : Store) (old : ResourceLimiter)
    → s.limiters obj.object_meta.name ≡ some old
    → let new = put_limiter obj.object_meta.name (patch_of base obj old) s in
      Post
        (λ _ t. t ≡ new)
        (λ e t. WriteFault ⊥ s (s.limiters obj.object_meta.name) new t e)
        (memory.patch_limiter base obj s)
patch_limiter_lawful base obj s old h = rw h

pub patch_of_same : (obj old : ResourceLimiter) → patch_of obj obj old ≡ some old
patch_of_same obj old = rw (same_list_refl obj.object_meta.finalizers)

abbrev pub memory_lawful : IsLawful memory ⊥
memory_lawful = record {
  view = λ s. s;
  get_limiter_law = get_limiter_lawful;
  get_namespace_law = get_namespace_lawful;
  get_quota_law = get_quota_lawful;
  update_namespace_law = λ ns s. replace_lawful (s.namespaces ns.name) _ s;
  create_quota_law = λ q s h. replace_lawful (s.namespaces q.namespace) _ s;
  update_quota_law = λ q s. replace_lawful (s.quotas (key_of q)) _ s;
  delete_quota_law = λ q s. replace_lawful (s.quotas (key_of q)) _ s;
  update_status_law = update_status_lawful;
  patched = patch_of;
  patched_same = patch_of_same;
  patched_finalizers = patch_of_finalizers;
  patch_limiter_law = patch_limiter_lawful;
  owner_law = λ rl q s. (refl, refl, refl);
  contains-add = contains-added;
  contains-remove = contains-without;
}
