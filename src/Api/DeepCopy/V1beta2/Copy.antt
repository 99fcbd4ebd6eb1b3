-- ===== src/Api/DeepCopy/V1beta2/Copy.antt =====
-- The methods of api/v1beta2/zz_generated.deepcopy.go. `DeepCopyInto(out)` gives what `*out` holds
-- in the end; a method on a pointer takes an address, or nil.
use resourcelimiter.Prelude.{ℕ, Option, none, some}
use resourcelimiter.Api.V1beta2.{ResourceLimiterQuota, zero_quota}
use resourcelimiter.Api.DeepCopy.Heap.{Heap, Copier}
use resourcelimiter.Api.DeepCopy.Foreign.{Foreign, MetaCopies}
use resourcelimiter.Api.DeepCopy.Pointers.{new_copy}
use resourcelimiter.Api.DeepCopy.Slices.{zeros, copy_slice, copy_items}
use resourcelimiter.Api.DeepCopy.V1beta2.{
  SpecStruct, StatusStruct, LimiterStruct, ListStruct, Cell, zero_spec, zero_status, zero_limiter,
  zero_list, a_quota, quotas, a_spec, a_status, a_limiter, limiters, a_list,
}

-- A `runtime.Object` of this package.
pub data Object : Type 0 where
  limiter_object list_object : ℕ → Object

-- `if c := in.DeepCopy(); c != nil { return c }; return nil`
abbrev pub as_object : (ℕ → Object) → Option ℕ → Option Object
as_object kind none = none
as_object kind (some c) = some (kind c)

module _ (F : Foreign) (M : MetaCopies F (Cell F)) where
  abbrev pub copy_quota_into : Copier (Cell F) ResourceLimiterQuota
  copy_quota_into quota h = (quota, h)

  abbrev pub copy_quota : Copier (Cell F) (Option ℕ)
  copy_quota = new_copy (a_quota F) (λ _. zero_quota) (λ quota out. copy_quota_into quota)

  unfoldable pub copy_spec_into : Copier (Cell F) SpecStruct
  copy_spec_into spec h =
      let (out, h1) = new_copy (quotas F) (zeros zero_quota) copy_slice spec.quotas h in
      (record spec { quotas = out }, h1)

  abbrev pub copy_spec : Copier (Cell F) (Option ℕ)
  copy_spec = new_copy (a_spec F) (λ _. zero_spec F) (λ spec out. copy_spec_into spec)

  unfoldable pub copy_status_into : Copier (Cell F) StatusStruct
  copy_status_into status h =
      let (out, h1) = new_copy (quotas F) (zeros zero_quota) copy_slice status.quotas h in
      (record status { quotas = out }, h1)

  abbrev pub copy_status : Copier (Cell F) (Option ℕ)
  copy_status = new_copy (a_status F) (λ _. zero_status F) (λ status out. copy_status_into status)

  unfoldable pub copy_limiter_into : Copier (Cell F) (LimiterStruct F)
  copy_limiter_into rl h =
      let (object_meta, h1) = M.copy_object_meta rl.object_meta h in
      let (spec, h2) = copy_spec_into rl.spec h1 in
      let (status, h3) = copy_status_into rl.status h2 in
      (record rl { object_meta = object_meta; spec = spec; status = status }, h3)

  unfoldable pub copy_limiter : Copier (Cell F) (Option ℕ)
  copy_limiter = new_copy (a_limiter F) (λ _. zero_limiter F) (λ rl out. copy_limiter_into rl)

  unfoldable pub copy_list_into : Copier (Cell F) (ListStruct F)
  copy_list_into list h =
      let (list_meta, h1) = M.copy_list_meta list.list_meta h in
      let (items, h2) =
        new_copy (limiters F) (zeros (zero_limiter F)) (copy_items copy_limiter_into) list.items
          h1 in
      (record list { list_meta = list_meta; items = items }, h2)

  unfoldable pub copy_list : Copier (Cell F) (Option ℕ)
  copy_list = new_copy (a_list F) (λ _. zero_list F) (λ list out. copy_list_into list)

  abbrev pub copy_limiter_object : Option ℕ → Heap (Cell F) → Option Object × Heap (Cell F)
  copy_limiter_object rl h = let (c, h1) = copy_limiter rl h in (as_object limiter_object c, h1)

  abbrev pub copy_list_object : Option ℕ → Heap (Cell F) → Option Object × Heap (Cell F)
  copy_list_object list h = let (c, h1) = copy_list list h in (as_object list_object c, h1)
