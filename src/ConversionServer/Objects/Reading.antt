-- ===== src/ConversionServer/Objects/Reading.antt =====
-- What `doConversion` reads of the encoding of an object.
use resourcelimiter.Prelude.{
  String, ◌≡◌, refl, ap, ◌∙◌, Bool, Bool-cases, true, false, ◌&&◌, not, List, [], ◌∷◌, ◌++◌, Map,
  All, insert, is_empty, ◌==◌, if◌then◌else◌, inl, inr, arith,
}
use mathlib.Core.List.{append_assoc, append-nil}
use resourcelimiter.Api.V1beta1
use resourcelimiter.Api.V1beta2
use resourcelimiter.Api.V1beta2.{ResourceLimiterQuota}
use resourcelimiter.ConversionServer.Json.{
  text, boolean, array, object, Items, item, Fields, end, field, value_at, Attempt, value, panicked,
  ◌>>=◌,
}
use resourcelimiter.ConversionServer.Objects.{
  read_targets, read_types, read_quotas, read_v1beta1, read_v1beta2, with_spec_v1beta1,
  with_spec_v1beta2,
}
use resourcelimiter.ConversionServer.Objects.Encoding.{
  omit_if, encode_targets, encode_types, encode_quotas, encode_v1beta1, encode_v1beta2,
  is_complete_v1beta1, is_complete_quota, all_complete, is_complete_v1beta2, IsFree, IsMap,
}

insert_free :
    (key v : String) (types : Map String)
    → IsFree key types
    → insert key v types ≡ types ++ ((key, v) ∷ [])
unfolding insert
insert_free key v [] f = refl
insert_free key v ((k, held) ∷ types) (e, f) = rw (e, insert_free key v types f) refl

insert_fresh :
    (key v : String) (types others : Map String)
    → All (λ entry. (entry.0 == key) ≡ false) others
    → All (λ entry. IsFree entry.0 types) others
    → All (λ entry. IsFree entry.0 (types ++ ((key, v) ∷ []))) others
insert_fresh key v types [] n f = tt
insert_fresh key v types (entry ∷ others) (e, n) (g, f) =
    (extended types g, insert_fresh key v types others n f)
  where
    extended : (m : Map String) → IsFree entry.0 m → IsFree entry.0 (m ++ ((key, v) ∷ []))
    extended [] h = (e, tt)
    extended (x ∷ m) (a, h) = (a, extended m h)

fresh_empty : (types : Map String) → All (λ entry. IsFree entry.0 []) types
fresh_empty [] = tt
fresh_empty (entry ∷ types) = (tt, fresh_empty types)

abbrev quota_fields : Bool → Bool → Bool → Bool → ResourceLimiterQuota → Fields
quota_fields b c d e q = field "name" (text q.namespace_name) (
    omit_if b "cpu_requests" (text q.cpu_request) (
      omit_if c "mem_requests" (text q.mem_request) (
        omit_if d "cpu_limits" (text q.cpu_limit) (omit_if e "mem_limits" (text q.mem_limit) end))))

abbrev fields_v1beta1 : Bool → Bool → Bool → List String → Map String → Bool → Fields
fields_v1beta1 b c d targets types applied =
    omit_if b "targets" (array (encode_targets targets))
      (omit_if c "types" (object (encode_types types)) (omit_if d "applied" (boolean applied) end))

not-not : (b : Bool) → not (not b) ≡ b
not-not true = refl
not-not false = refl

module _ {Response : Type 0} where
  read_targets-encode :
      (targets : List String)
      → ◌≡◌ {A = Attempt Response (List String)}
          (read_targets (encode_targets targets))
          (value targets)
  unfolding read_targets
  read_targets-encode [] = refl
  read_targets-encode (target ∷ targets) = rw (read_targets-encode targets) refl

  read_types-encode :
      (types filled : Map String)
      → IsMap types
      → All (λ entry. IsFree entry.0 filled) types
      → ◌≡◌ {A = Attempt Response (Map String)}
          (read_types (encode_types types) filled)
          (value (filled ++ types))
  unfolding read_types
  read_types-encode [] filled m f = rw append-nil refl
  read_types-encode ((k, v) ∷ types) filled (n, m) (e, f) = rw (insert_free k v filled e) (
      read_types-encode types (filled ++ ((k, v) ∷ [])) m (insert_fresh k v filled types n f)
      ∙ ap value (append_assoc filled ((k, v) ∷ []) types))

  read_quotas-fields :
      (b c d e : Bool) (q : ResourceLimiterQuota) (items : Items)
      → ◌≡◌ {A = Attempt Response (List ResourceLimiterQuota)}
          (read_quotas (item (object (quota_fields b c d e q)) items))
          (if not b && (not d && (not c && not e))
            then (read_quotas items >>= λ quotas. value (q ∷ quotas))
            else panicked)
  unfolding read_quotas value_at
  read_quotas-fields b c d e q items = ground arith

  value_if :
      (b : Bool) (q : ResourceLimiterQuota) (quotas : List ResourceLimiterQuota)
      → ◌≡◌ {A = Attempt Response (List ResourceLimiterQuota)}
          ((if b then value quotas else panicked) >>= λ others. value (q ∷ others))
          (if b then value (q ∷ quotas) else panicked)
  value_if true q quotas = refl
  value_if false q quotas = refl

  read_quotas-encode :
      (quotas : List ResourceLimiterQuota)
      → ◌≡◌ {A = Attempt Response (List ResourceLimiterQuota)}
          (read_quotas (encode_quotas quotas))
          (if all_complete quotas then value quotas else panicked)
  unfolding read_quotas
  read_quotas-encode [] = refl
  read_quotas-encode (q ∷ quotas) =
      read_quotas-fields (q.cpu_request == "") (q.mem_request == "") (q.cpu_limit == "")
        (q.mem_limit == "") q (encode_quotas quotas)
      ∙ elim (Bool-cases (is_complete_quota q)) [
        | inl e ↦ rw (e, read_quotas-encode quotas) (value_if (all_complete quotas) q quotas)
        | inr e ↦ rw e refl
      ]

  read_v1beta1-fields :
      (b c d : Bool) (targets : List String) (types : Map String) (applied : Bool) (top : Fields)
      → value_at "spec" top ≡ object (fields_v1beta1 b c d targets types applied)
      → IsMap types
      → ◌≡◌ {A = Attempt Response V1beta1.ResourceLimiter} (read_v1beta1 top) (
          if not b && (not c && not d)
          then value
              (with_spec_v1beta1 (record { targets = targets; types = types; applied = applied }))
          else panicked)
  unfolding read_v1beta1 value_at
  read_v1beta1-fields false false false targets types applied top e m =
      rw (e, read_targets-encode targets, read_types-encode types [] m (fresh_empty types)) refl
  read_v1beta1-fields false false true targets types applied top e m =
      rw (e, read_targets-encode targets, read_types-encode types [] m (fresh_empty types)) refl
  read_v1beta1-fields false true false targets types applied top e m =
      rw (e, read_targets-encode targets) refl
  read_v1beta1-fields false true true targets types applied top e m =
      rw (e, read_targets-encode targets) refl
  read_v1beta1-fields true false false targets types applied top e m = rw e refl
  read_v1beta1-fields true false true targets types applied top e m = rw e refl
  read_v1beta1-fields true true false targets types applied top e m = rw e refl
  read_v1beta1-fields true true true targets types applied top e m = rw e refl

  read_v1beta2-fields :
      (b d : Bool) (quotas : List ResourceLimiterQuota) (applied : Bool) (top : Fields)
      → value_at "spec" top
        ≡ object (
            omit_if b "targets"
              (array (encode_quotas quotas))
              (omit_if d "applied" (boolean applied) end))
      → ◌≡◌ {A = Attempt Response V1beta2.ResourceLimiter} (read_v1beta2 top) (
          if not b && (all_complete quotas && not d)
          then value (with_spec_v1beta2 (record { quotas = quotas; applied = applied }))
          else panicked)
  unfolding read_v1beta2 value_at
  read_v1beta2-fields true false quotas applied top e = rw e refl
  read_v1beta2-fields true true quotas applied top e = rw e refl
  read_v1beta2-fields false false quotas applied top e = elim (Bool-cases (all_complete quotas)) [
    | inl c ↦ rw (e, read_quotas-encode quotas, c) refl
    | inr c ↦ rw (e, read_quotas-encode quotas, c) refl
  ]
  read_v1beta2-fields false true quotas applied top e = elim (Bool-cases (all_complete quotas)) [
    | inl c ↦ rw (e, read_quotas-encode quotas, c) refl
    | inr c ↦ rw (e, read_quotas-encode quotas, c) refl
  ]

  -- A v1beta1 object with the encoding of a spec is read back as that spec, if nothing of it was
  -- left out in the encoding: it has a target and a type, and is applied. Otherwise the reading
  -- panics.
  pub read_v1beta1-encode :
      (spec : V1beta1.ResourceLimiterSpec) (top : Fields)
      → value_at "spec" top ≡ object (encode_v1beta1 spec)
      → IsMap spec.types
      → ◌≡◌ {A = Attempt Response V1beta1.ResourceLimiter}
          (read_v1beta1 top)
          (if is_complete_v1beta1 spec then value (with_spec_v1beta1 spec) else panicked)
  unfolding encode_v1beta1
  read_v1beta1-encode spec top e m =
      read_v1beta1-fields (is_empty spec.targets) (is_empty spec.types) (not spec.applied)
        spec.targets spec.types spec.applied top e m
      ∙ rw (not-not spec.applied) refl

  -- A v1beta2 object with the encoding of a spec is read back as that spec, if it has a quota, each
  -- of its quotas has the four values, and it is applied. Otherwise the reading panics.
  pub read_v1beta2-encode :
      (spec : V1beta2.ResourceLimiterSpec) (top : Fields)
      → value_at "spec" top ≡ object (encode_v1beta2 spec)
      → ◌≡◌ {A = Attempt Response V1beta2.ResourceLimiter}
          (read_v1beta2 top)
          (if is_complete_v1beta2 spec then value (with_spec_v1beta2 spec) else panicked)
  unfolding encode_v1beta2
  read_v1beta2-encode spec top e =
      read_v1beta2-fields (is_empty spec.quotas) (not spec.applied) spec.quotas spec.applied top e
      ∙ rw (not-not spec.applied) refl
