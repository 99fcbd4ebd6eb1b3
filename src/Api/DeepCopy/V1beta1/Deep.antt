-- ===== src/Api/DeepCopy/V1beta1/Deep.antt =====
-- The deep copies of api/v1beta1 are deep.
use resourcelimiter.Prelude.{String, ℕ, Bool, refl, Option, []}
use resourcelimiter.Api.Meta.{TypeMeta}
use resourcelimiter.Api.V1beta1.{ResourceLimiterQuotas}
use resourcelimiter.Api.DeepCopy.Heap.{
  Heap, Layout, Copier, IsAllocated, IsDeep, IsOwnCopy, IsDeep-IsOwnCopy,
}
use resourcelimiter.Api.DeepCopy.Foreign.{Foreign, MetaCopies, IsMetaDeep}
use resourcelimiter.Api.DeepCopy.Layouts.{
  pair_layout, both, both-IsDeep, layout_along, IsDeep-along,
}
use resourcelimiter.Api.DeepCopy.Pointers.{pointer_layout, new_copy, new_copy-IsDeep}
use resourcelimiter.Api.DeepCopy.Slices.{
  plain_layout, plain-IsDeep, zeros, copy_slice, copy_slice-IsDeep, slice_layout, copy_map,
  copy_map-IsDeep, map_layout, items_layout, copy_items, copy_items-IsDeep,
}
use resourcelimiter.Api.DeepCopy.V1beta1.{
  SpecStruct, StatusStruct, LimiterStruct, ListStruct, Cell, zero_spec, zero_status, zero_limiter,
  zero_list, zero_quotas, a_quotas, target_slice, types_of_spec, quotas_of_status, a_spec, a_status,
  a_limiter, limiters, a_list,
}
use resourcelimiter.Api.DeepCopy.V1beta1.Copy.{
  copy_quotas_into, copy_quotas, copy_spec_into, copy_spec, copy_status_into, copy_status,
  copy_limiter_into, copy_limiter, copy_list_into, copy_list,
}

module _ (F : Foreign) (M : MetaCopies F (Cell F)) (deep : IsMetaDeep F (Cell F) M) where
  -- A value that has no reference, and is copied as it is.
  abbrev word : (T : Type 0) → Layout (Cell F) T
  word T = plain_layout (Cell F) (λ t. t)

  abbrev same_word : {T : Type 0} → Copier (Cell F) T
  same_word t h = (t, h)

  same_word-IsDeep : {T : Type 0} → IsDeep (word T) same_word
  same_word-IsDeep = plain-IsDeep (Cell F) (λ t. t) (λ t. t) (λ t. refl)

  abbrev targets_layout : Layout (Cell F) (Option ℕ)
  targets_layout = pointer_layout (target_slice F) slice_layout

  abbrev copy_targets : Copier (Cell F) (Option ℕ)
  copy_targets = new_copy (target_slice F) (zeros "") copy_slice

  copy_targets-IsDeep : IsDeep targets_layout copy_targets
  copy_targets-IsDeep =
      new_copy-IsDeep (target_slice F) slice_layout (zeros "") copy_slice (copy_slice-IsDeep "")

  abbrev types_layout : Layout (Cell F) (Option ℕ)
  types_layout = pointer_layout (types_of_spec F) map_layout

  abbrev copy_types : Copier (Cell F) (Option ℕ)
  copy_types = new_copy (types_of_spec F) (λ _. []) copy_map

  copy_types-IsDeep : IsDeep types_layout copy_types
  copy_types-IsDeep =
      new_copy-IsDeep (types_of_spec F) map_layout (λ _. []) copy_map copy_map-IsDeep

  abbrev quotas_layout : Layout (Cell F) (Option ℕ)
  quotas_layout = pointer_layout (quotas_of_status F) map_layout

  abbrev copy_status_quotas : Copier (Cell F) (Option ℕ)
  copy_status_quotas = new_copy (quotas_of_status F) (λ _. []) copy_map

  copy_status_quotas-IsDeep : IsDeep quotas_layout copy_status_quotas
  copy_status_quotas-IsDeep =
      new_copy-IsDeep (quotas_of_status F) map_layout (λ _. []) copy_map copy_map-IsDeep

  abbrev types_and_flag : Layout (Cell F) (Option ℕ × Bool)
  types_and_flag = pair_layout types_layout (word Bool)

  abbrev spec_parts : SpecStruct → Option ℕ × (Option ℕ × Bool)
  spec_parts s = (s.targets, (s.types, s.applied))

  abbrev pub spec_layout : Layout (Cell F) SpecStruct
  spec_layout = layout_along spec_parts (pair_layout targets_layout types_and_flag)

  copy_spec_into-IsDeep : IsDeep spec_layout (copy_spec_into F M)
  unfolding copy_spec_into
  copy_spec_into-IsDeep =
      let copy_rest = both types_layout (word Bool) copy_types same_word in
      IsDeep-along spec_parts (pair_layout targets_layout types_and_flag) (copy_spec_into F M)
        (both targets_layout types_and_flag copy_targets copy_rest) (λ t h. refl)
        (both-IsDeep targets_layout types_and_flag copy_targets copy_rest copy_targets-IsDeep (
          both-IsDeep types_layout (word Bool) copy_types same_word copy_types-IsDeep
            same_word-IsDeep))

  abbrev pub status_layout : Layout (Cell F) StatusStruct
  status_layout = layout_along (λ s. (s.quotas, s.state)) (pair_layout quotas_layout (word String))

  copy_status_into-IsDeep : IsDeep status_layout (copy_status_into F M)
  unfolding copy_status_into
  copy_status_into-IsDeep =
      IsDeep-along (λ s. (s.quotas, s.state)) (pair_layout quotas_layout (word String))
        (copy_status_into F M) (both quotas_layout (word String) copy_status_quotas same_word)
        (λ t h. refl)
        (both-IsDeep quotas_layout (word String) copy_status_quotas same_word
          copy_status_quotas-IsDeep same_word-IsDeep)

  abbrev two : Layout (Cell F) (StatusStruct × TypeMeta)
  two = pair_layout status_layout (word TypeMeta)

  abbrev three : Layout (Cell F) (SpecStruct × (StatusStruct × TypeMeta))
  three = pair_layout spec_layout two

  abbrev parts : LimiterStruct F → F.ObjectMeta × (SpecStruct × (StatusStruct × TypeMeta))
  parts rl = (rl.object_meta, (rl.spec, (rl.status, rl.type_meta)))

  abbrev limiter_layout : Layout (Cell F) (LimiterStruct F)
  limiter_layout = layout_along parts (pair_layout deep.object_layout three)

  copy_limiter_into-IsDeep : IsDeep limiter_layout (copy_limiter_into F M)
  unfolding copy_limiter_into
  copy_limiter_into-IsDeep =
      let copy_two = both status_layout (word TypeMeta) (copy_status_into F M) same_word in
      let copy_three = both spec_layout two (copy_spec_into F M) copy_two in
      IsDeep-along parts (pair_layout deep.object_layout three) (copy_limiter_into F M)
        (both deep.object_layout three M.copy_object_meta copy_three) (λ t h. refl)
        (both-IsDeep deep.object_layout three M.copy_object_meta copy_three deep.object_meta-IsDeep
          (both-IsDeep spec_layout two (copy_spec_into F M) copy_two copy_spec_into-IsDeep (
            both-IsDeep status_layout (word TypeMeta) (copy_status_into F M) same_word
              copy_status_into-IsDeep same_word-IsDeep)))

  abbrev pub limiter_pointer : Layout (Cell F) (Option ℕ)
  limiter_pointer = pointer_layout (a_limiter F) limiter_layout

  copy_limiter-IsDeep : IsDeep limiter_pointer (copy_limiter F M)
  unfolding copy_limiter
  copy_limiter-IsDeep =
      new_copy-IsDeep (a_limiter F) limiter_layout (λ _. zero_limiter F)
        (λ rl out. copy_limiter_into F M rl) copy_limiter_into-IsDeep

  abbrev items_pointer : Layout (Cell F) (Option ℕ)
  items_pointer = pointer_layout (limiters F) (items_layout limiter_layout)

  abbrev list_parts : ListStruct F → F.ListMeta × (Option ℕ × TypeMeta)
  list_parts list = (list.list_meta, (list.items, list.type_meta))

  abbrev list_rest : Layout (Cell F) (Option ℕ × TypeMeta)
  list_rest = pair_layout items_pointer (word TypeMeta)

  abbrev list_layout : Layout (Cell F) (ListStruct F)
  list_layout = layout_along list_parts (pair_layout deep.list_layout list_rest)

  copy_list_into-IsDeep : IsDeep list_layout (copy_list_into F M)
  unfolding copy_list_into
  copy_list_into-IsDeep =
      let copy_limiters =
        new_copy (limiters F) (zeros (zero_limiter F)) (copy_items (copy_limiter_into F M)) in
      let copy_rest = both items_pointer (word TypeMeta) copy_limiters same_word in
      IsDeep-along list_parts (pair_layout deep.list_layout list_rest) (copy_list_into F M)
        (both deep.list_layout list_rest M.copy_list_meta copy_rest) (λ t h. refl)
        (both-IsDeep deep.list_layout list_rest M.copy_list_meta copy_rest deep.list_meta-IsDeep (
          both-IsDeep items_pointer (word TypeMeta) copy_limiters same_word
            (new_copy-IsDeep (limiters F) (items_layout limiter_layout) (zeros (zero_limiter F))
              (copy_items (copy_limiter_into F M))
              (copy_items-IsDeep limiter_layout (copy_limiter_into F M) (zero_limiter F)
                copy_limiter_into-IsDeep))
            same_word-IsDeep))

  abbrev pub list_pointer : Layout (Cell F) (Option ℕ)
  list_pointer = pointer_layout (a_list F) list_layout

  copy_list-IsDeep : IsDeep list_pointer (copy_list F M)
  unfolding copy_list
  copy_list-IsDeep =
      new_copy-IsDeep (a_list F) list_layout (λ _. zero_list F)
        (λ list out. copy_list_into F M list) copy_list_into-IsDeep

  abbrev pub quotas_pointer : Layout (Cell F) (Option ℕ)
  quotas_pointer = pointer_layout (a_quotas F) (word ResourceLimiterQuotas)

  copy_quotas-IsDeep : IsDeep quotas_pointer (copy_quotas F M)
  copy_quotas-IsDeep =
      new_copy-IsDeep (a_quotas F) (word ResourceLimiterQuotas) (λ _. zero_quotas)
        (λ q out. copy_quotas_into F M q) same_word-IsDeep

  abbrev pub spec_pointer : Layout (Cell F) (Option ℕ)
  spec_pointer = pointer_layout (a_spec F) spec_layout

  copy_spec-IsDeep : IsDeep spec_pointer (copy_spec F M)
  copy_spec-IsDeep =
      new_copy-IsDeep (a_spec F) spec_layout (λ _. zero_spec F)
        (λ spec out. copy_spec_into F M spec) copy_spec_into-IsDeep

  abbrev pub status_pointer : Layout (Cell F) (Option ℕ)
  status_pointer = pointer_layout (a_status F) status_layout

  copy_status-IsDeep : IsDeep status_pointer (copy_status F M)
  copy_status-IsDeep =
      new_copy-IsDeep (a_status F) status_layout (λ _. zero_status F)
        (λ status out. copy_status_into F M status) copy_status_into-IsDeep

  -- Where the deep copies of the metadata are deep, DeepCopy of each of the five v1beta1 types, of
  -- nil or of an object that leads to allocated cells only, has the value of the original, nil
  -- slices and maps nil, leads only to cells that it has allocated, and changes no other cell: a
  -- write to what the copy leads to does not change the original, nor the other way round.
  pub v1beta1-IsOwnCopy :
      (quotas spec status rl list : Option ℕ) (h : Heap (Cell F))
      → IsAllocated quotas_pointer h quotas
      → IsAllocated spec_pointer h spec
      → IsAllocated status_pointer h status
      → IsAllocated limiter_pointer h rl
      → IsAllocated list_pointer h list
      → IsOwnCopy quotas_pointer h quotas (copy_quotas F M quotas h)
        × IsOwnCopy spec_pointer h spec (copy_spec F M spec h)
        × IsOwnCopy status_pointer h status (copy_status F M status h)
        × IsOwnCopy limiter_pointer h rl (copy_limiter F M rl h)
        × IsOwnCopy list_pointer h list (copy_list F M list h)
  v1beta1-IsOwnCopy quotas spec status rl list h a b c d e = (
    IsDeep-IsOwnCopy quotas_pointer (copy_quotas F M) quotas h copy_quotas-IsDeep a,
    IsDeep-IsOwnCopy spec_pointer (copy_spec F M) spec h copy_spec-IsDeep b,
    IsDeep-IsOwnCopy status_pointer (copy_status F M) status h copy_status-IsDeep c,
    IsDeep-IsOwnCopy limiter_pointer (copy_limiter F M) rl h copy_limiter-IsDeep d,
    IsDeep-IsOwnCopy list_pointer (copy_list F M) list h copy_list-IsDeep e,
  )
