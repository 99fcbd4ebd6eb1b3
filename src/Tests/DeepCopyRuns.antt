-- ===== src/Tests/DeepCopyRuns.antt =====
-- Deep copies on a small heap.
use resourcelimiter.Prelude.{
  String, ℕ, zero, suc, refl, true, Option, none, some, List, [], ◌∷◌, arith,
}
use resourcelimiter.Api.V1beta1.{ResourceLimiterQuotas}
use resourcelimiter.Api.DeepCopy.Heap.{Heap, Layout, Copier, IsDeep, IsOwnCopy}
use resourcelimiter.Api.DeepCopy.Foreign.{Foreign, MetaCopies, IsMetaDeep}
use resourcelimiter.Api.DeepCopy.Layouts.{pair_layout, both, both-IsDeep}
use resourcelimiter.Api.DeepCopy.Pointers.{Holds, pointer_layout, new_copy, new_copy-IsDeep}
use resourcelimiter.Api.DeepCopy.Slices.{
  plain_layout, plain-IsDeep, zeros, copy_slice, copy_slice-IsDeep, slice_layout,
}
use resourcelimiter.Api.DeepCopy.V1beta1 as Old
use resourcelimiter.Api.DeepCopy.V1beta1.Copy as OldCopy
use resourcelimiter.Api.DeepCopy.V1beta1.Deep as OldDeep
use resourcelimiter.Api.DeepCopy.V1beta2 as New
use resourcelimiter.Api.DeepCopy.V1beta2.Copy as NewCopy
use resourcelimiter.Api.DeepCopy.V1beta2.Deep as NewDeep
use resourcelimiter.Tests.ControllerRuns.{quota_for}

-- Metadata: a name, and a slice of finalizers; for a list, a version.
abbrev metas : Foreign
metas = record {
  ObjectMeta = String × Option ℕ;
  ListMeta = String;
  Cell = List String;
  zero_object_meta = ("", none);
  zero_list_meta = "";
}

module _ (Cell : Type 0) (H : Holds Cell (List String)) where
  abbrev word : Layout Cell String
  word = plain_layout Cell (λ t. t)

  abbrev same_word : Copier Cell String
  same_word t h = (t, h)

  word-IsDeep : IsDeep word same_word
  word-IsDeep = plain-IsDeep Cell (λ t. t) (λ t. t) (λ t. refl)

  abbrev finalizers : Layout Cell (Option ℕ)
  finalizers = pointer_layout H slice_layout

  abbrev copy_finalizers : Copier Cell (Option ℕ)
  copy_finalizers = new_copy H (zeros "") copy_slice

  abbrev copies : MetaCopies metas Cell
  copies = record {
    copy_object_meta = both word finalizers same_word copy_finalizers;
    copy_list_meta = same_word;
  }

  abbrev copies_IsMetaDeep : IsMetaDeep metas Cell copies
  copies_IsMetaDeep = record {
    object_layout = pair_layout word finalizers;
    list_layout = word;
    object_meta-IsDeep =
        both-IsDeep word finalizers same_word copy_finalizers word-IsDeep
          (new_copy-IsDeep H slice_layout (zeros "") copy_slice (copy_slice-IsDeep ""));
    list_meta-IsDeep = word-IsDeep;
  }

abbrev nth : {A : Type 0} → List A → ℕ → Option A
nth [] n = none
nth (x ∷ xs) zero = some x
nth (x ∷ xs) (suc n) = nth xs n

abbrev new_read : Option (New.Cell metas) → List String
new_read (some (New.foreign_cell xs)) = xs
new_read _ = []

abbrev new_strings : Holds (New.Cell metas) (List String)
new_strings = record { read = new_read; wrap = New.foreign_cell; read-wrap = λ t. refl }

abbrev new_copies : MetaCopies metas (New.Cell metas)
new_copies = copies (New.Cell metas) new_strings

abbrev new_copies_IsMetaDeep : IsMetaDeep metas (New.Cell metas) new_copies
new_copies_IsMetaDeep = copies_IsMetaDeep (New.Cell metas) new_strings

abbrev new_spec : New.SpecStruct
new_spec = record { quotas = some 1; applied = true }

abbrev new_status : New.StatusStruct
new_status = record { state = ""; quotas = none }

abbrev new_limiter : New.LimiterStruct metas
new_limiter = record {
  type_meta = record { kind = "ResourceLimiter"; api_version = "" };
  object_meta = ("rl", some 0);
  spec = new_spec;
  status = new_status;
}

-- A limiter is at 3, and a list with it at 5.
abbrev new_heap : Heap (New.Cell metas)
new_heap = record {
  next = 8;
  cell = nth (
      New.foreign_cell ("finalizer" ∷ [])
      ∷ New.quota_array (quota_for "web" ∷ quota_for "db" ∷ [])
      ∷ New.status_cell new_status
      ∷ New.limiter_cell new_limiter
      ∷ New.limiter_array (new_limiter ∷ [])
      ∷ New.list_cell (record {
        type_meta = record { kind = "ResourceLimiterList"; api_version = "" };
        list_meta = "7";
        items = some 4;
      })
      ∷ New.quota_cell (quota_for "web")
      ∷ New.spec_cell new_spec
      ∷ []);
}

v1beta2-IsOwnCopy_example :
    IsOwnCopy
      (NewDeep.quota_pointer metas new_copies new_copies_IsMetaDeep)
      new_heap
      (some 6)
      (NewCopy.copy_quota metas new_copies (some 6) new_heap)
    × IsOwnCopy
        (NewDeep.spec_pointer metas new_copies new_copies_IsMetaDeep)
        new_heap
        (some 7)
        (NewCopy.copy_spec metas new_copies (some 7) new_heap)
    × IsOwnCopy
        (NewDeep.status_pointer metas new_copies new_copies_IsMetaDeep)
        new_heap
        (some 2)
        (NewCopy.copy_status metas new_copies (some 2) new_heap)
    × IsOwnCopy
        (NewDeep.limiter_pointer metas new_copies new_copies_IsMetaDeep)
        new_heap
        (some 3)
        (NewCopy.copy_limiter metas new_copies (some 3) new_heap)
    × IsOwnCopy
        (NewDeep.list_pointer metas new_copies new_copies_IsMetaDeep)
        new_heap
        (some 5)
        (NewCopy.copy_list metas new_copies (some 5) new_heap)
v1beta2-IsOwnCopy_example =
    NewDeep.v1beta2-IsOwnCopy metas new_copies new_copies_IsMetaDeep (some 6) (some 7) (some 2)
      (some 3) (some 5) new_heap (λ a o. ground (arith, o)) (λ a o. ground (arith, o))
      (λ a o. ground (arith, o)) (λ a o. ground (arith, o)) (λ a o. ground (arith, o))

abbrev old_read : Option (Old.Cell metas) → List String
old_read (some (Old.foreign_cell xs)) = xs
old_read _ = []

abbrev old_strings : Holds (Old.Cell metas) (List String)
old_strings = record { read = old_read; wrap = Old.foreign_cell; read-wrap = λ t. refl }

abbrev old_copies : MetaCopies metas (Old.Cell metas)
old_copies = copies (Old.Cell metas) old_strings

abbrev old_copies_IsMetaDeep : IsMetaDeep metas (Old.Cell metas) old_copies
old_copies_IsMetaDeep = copies_IsMetaDeep (Old.Cell metas) old_strings

abbrev old_quotas : ResourceLimiterQuotas
old_quotas = record {
  namespace = "web";
  cpu_requests = "1";
  mem_requests = "150Mi";
  cpu_limits = "2";
  mem_limits = "200Mi";
}

abbrev old_spec : Old.SpecStruct
old_spec = record { targets = some 1; types = some 8; applied = true }

abbrev old_status : Old.StatusStruct
old_status = record { state = ""; quotas = some 9 }

abbrev old_limiter : Old.LimiterStruct metas
old_limiter = record {
  type_meta = record { kind = "ResourceLimiter"; api_version = "" };
  object_meta = ("rl", some 0);
  spec = old_spec;
  status = old_status;
}

-- A limiter is at 3, and a list with it at 5.
abbrev old_heap : Heap (Old.Cell metas)
old_heap = record {
  next = 10;
  cell = nth (
      Old.foreign_cell ("finalizer" ∷ [])
      ∷ Old.target_array ("web" ∷ "db" ∷ [])
      ∷ Old.status_cell old_status
      ∷ Old.limiter_cell old_limiter
      ∷ Old.limiter_array (old_limiter ∷ [])
      ∷ Old.list_cell (record {
        type_meta = record { kind = "ResourceLimiterList"; api_version = "" };
        list_meta = "7";
        items = some 4;
      })
      ∷ Old.quotas_cell old_quotas
      ∷ Old.spec_cell old_spec
      ∷ Old.type_map (("limits.cpu", "2") ∷ [])
      ∷ Old.quotas_map (("web", old_quotas) ∷ [])
      ∷ []);
}

v1beta1-IsOwnCopy_example :
    IsOwnCopy
      (OldDeep.quotas_pointer metas old_copies old_copies_IsMetaDeep)
      old_heap
      (some 6)
      (OldCopy.copy_quotas metas old_copies (some 6) old_heap)
    × IsOwnCopy
        (OldDeep.spec_pointer metas old_copies old_copies_IsMetaDeep)
        old_heap
        (some 7)
        (OldCopy.copy_spec metas old_copies (some 7) old_heap)
    × IsOwnCopy
        (OldDeep.status_pointer metas old_copies old_copies_IsMetaDeep)
        old_heap
        (some 2)
        (OldCopy.copy_status metas old_copies (some 2) old_heap)
    × IsOwnCopy
        (OldDeep.limiter_pointer metas old_copies old_copies_IsMetaDeep)
        old_heap
        (some 3)
        (OldCopy.copy_limiter metas old_copies (some 3) old_heap)
    × IsOwnCopy
        (OldDeep.list_pointer metas old_copies old_copies_IsMetaDeep)
        old_heap
        (some 5)
        (OldCopy.copy_list metas old_copies (some 5) old_heap)
v1beta1-IsOwnCopy_example =
    OldDeep.v1beta1-IsOwnCopy metas old_copies old_copies_IsMetaDeep (some 6) (some 7) (some 2)
      (some 3) (some 5) old_heap (λ a o. ground (arith, o)) (λ a o. ground (arith, o))
      (λ a o. ground (arith, o)) (λ a o. ground (arith, o)) (λ a o. ground (arith, o))
