-- ===== src/ConversionServer/Convert/Laws.antt =====
-- What `doConversion` answers to objects that are encoded by the tags of the structs.
use resourcelimiter.Prelude.{
  String, ◌≡◌, refl, Bool, Bool-cases, true, false, ◌&&◌, not, is_empty, some, List, [], ◌∷◌, map,
  replicate, length, if◌then◌else◌, inl, inr,
}
use resourcelimiter.Api.V1beta1
use resourcelimiter.Api.V1beta2
use resourcelimiter.Api.V1beta2.{zero_limiter, zero_quota}
use resourcelimiter.Api.Conversion.{limiter, convert_from}
use resourcelimiter.Api.Conversion.Laws.{converted, append_targets-eq}
use resourcelimiter.ConversionServer.Json.{
  Fields, object, value_at, Attempt, panicked, value, ◌>>=◌,
}
use resourcelimiter.ConversionServer.Review.{
  Converted, v1beta1, v1beta2, ConversionResponse, Codec, decoded,
}
use resourcelimiter.ConversionServer.Objects.{with_spec_v1beta1, with_spec_v1beta2}
use resourcelimiter.ConversionServer.Objects.Encoding.{
  encode_v1beta1, encode_v1beta2, is_complete_v1beta1, is_complete_v1beta2, IsMap,
}
use resourcelimiter.ConversionServer.Objects.Reading.{read_v1beta1-encode, read_v1beta2-encode}
use resourcelimiter.ConversionServer.Convert.{
  version_1, version_2, status_succeed, convert_v1beta2_into_v1beta1, into_v1beta1, into_v1beta2,
  convert_all, responded, do_conversion,
}

-- The objects of a conversion: no name, no kind, no version and no status.
abbrev pub new_version_of : V1beta1.ResourceLimiterSpec → V1beta2.ResourceLimiter
new_version_of spec = with_spec_v1beta2 (record { quotas = converted spec; applied = spec.applied })

abbrev pub zero_old : V1beta1.ResourceLimiter
zero_old = with_spec_v1beta1 (record { targets = []; types = []; applied = false })

abbrev pub old_version_of : V1beta2.ResourceLimiterSpec → V1beta1.ResourceLimiter
old_version_of spec = (convert_from zero_old (limiter (with_spec_v1beta2 spec))).0

module _ {Spec : Type 0} where
  -- The raw objects are those of the specs, one by one.
  abbrev pub Encode : (String → Spec → Type 0) → List String → List Spec → Type 0
  Encode Encodes [] [] = Unit
  Encode Encodes (raw ∷ raws) (spec ∷ specs) = Encodes raw spec × Encode Encodes raws specs
  Encode Encodes _ _ = ⊥

  abbrev pub all_true : (Spec → Bool) → List Spec → Bool
  all_true test [] = true
  all_true test (spec ∷ specs) = test spec && all_true test specs

and-true : (a b : Bool) → (a && b) ≡ true → (a ≡ true) × (b ≡ true)
and-true true true e = (refl, refl)
and-true true false e = cc
and-true false b e = cc

not-true : (b : Bool) → not b ≡ true → b ≡ false
not-true true e = cc
not-true false e = refl

convert_v1beta2-eq :
    (spec : V1beta2.ResourceLimiterSpec)
    → is_empty spec.quotas ≡ false
    → convert_v1beta2_into_v1beta1 (with_spec_v1beta2 spec)
      ≡ (some (old_version_of spec), status_succeed)
unfolding convert_v1beta2_into_v1beta1 convert_from
convert_v1beta2-eq spec e = rw e refl

-- A loop each of whose rounds succeeds on a complete spec, and panics on any other.
convert_all-eq :
    {Spec : Type 0} (convert : String → Attempt ConversionResponse Converted)
    (Encodes : String → Spec → Type 0) (test : Spec → Bool) (result : Spec → Converted)
    → ((raw : String) (spec : Spec)
        → Encodes raw spec
        → convert raw ≡ (if test spec then value (result spec) else panicked))
    → (raws : List String) (specs : List Spec) → Encode Encodes raws specs
    → convert_all convert raws
      ≡ (if all_true test specs then value (map result specs) else panicked)
unfolding convert_all
convert_all-eq convert Encodes test result round [] [] e = refl
convert_all-eq convert Encodes test result round (raw ∷ raws) (spec ∷ specs) (e, es) =
    elim (Bool-cases (test spec)) [
      | inl t ↦
          rw (round raw spec e, t, convert_all-eq convert Encodes test result round raws specs es)
            (value_if (all_true test specs) (result spec) (map result specs))
      | inr f ↦ rw (round raw spec e, f) refl
    ]
  where
    value_if :
        (b : Bool) (x : Converted) (xs : List Converted)
        → ◌≡◌ {A = Attempt ConversionResponse (List Converted)}
            ((if b then value xs else panicked) >>= λ others. value (x ∷ others))
            (if b then value (x ∷ xs) else panicked)
    value_if true x xs = refl
    value_if false x xs = refl
convert_all-eq convert Encodes test result round [] (spec ∷ specs) e = absurd e
convert_all-eq convert Encodes test result round (raw ∷ raws) [] e = absurd e

abbrev pub success_with : List Converted → ConversionResponse
success_with objects = record { uid = ""; converted_objects = objects; result = status_succeed }

responded_if :
    (b : Bool) (objects : List Converted)
    → responded (if b then value objects else panicked)
      ≡ (if b then value (success_with objects) else panicked)
responded_if true objects = refl
responded_if false objects = refl

module _ (J : Codec) where
  -- A raw object with this spec, whatever else it holds.
  pub record EncodesOld (raw : String) (spec : V1beta1.ResourceLimiterSpec) : Type 0 where
    pub top : Fields
    pub decodes : J.unmarshal raw ≡ decoded top
    pub holds : value_at "spec" top ≡ object (encode_v1beta1 spec)
    pub types_map : IsMap spec.types

  pub record EncodesNew (raw : String) (spec : V1beta2.ResourceLimiterSpec) : Type 0 where
    pub top : Fields
    pub decodes : J.unmarshal raw ≡ decoded top
    pub holds : value_at "spec" top ≡ object (encode_v1beta2 spec)

  into_v1beta2-eq :
      (raw : String) (spec : V1beta1.ResourceLimiterSpec)
      → EncodesOld raw spec
      → into_v1beta2 J raw
        ≡ (if is_complete_v1beta1 spec then value (v1beta2 (new_version_of spec)) else panicked)
  unfolding into_v1beta2
  into_v1beta2-eq raw spec e = elim (Bool-cases (is_complete_v1beta1 spec)) [
    | inl c ↦
        rw
          (
            e.decodes,
            read_v1beta1-encode spec e.top e.holds e.types_map,
            c,
            append_targets-eq spec.types spec.targets (replicate (length spec.targets) zero_quota),
          )
          refl
    | inr c ↦ rw (e.decodes, read_v1beta1-encode spec e.top e.holds e.types_map, c) refl
  ]

  into_v1beta1-eq :
      (raw : String) (spec : V1beta2.ResourceLimiterSpec)
      → EncodesNew raw spec
      → into_v1beta1 J raw
        ≡ (if is_complete_v1beta2 spec then value (v1beta1 (old_version_of spec)) else panicked)
  unfolding into_v1beta1
  into_v1beta1-eq raw spec e = elim (Bool-cases (is_complete_v1beta2 spec)) [
    | inl c ↦
        rw
          (
            e.decodes,
            read_v1beta2-encode spec e.top e.holds,
            c,
            convert_v1beta2-eq spec (not-true _ (and-true _ _ c).0),
          )
          refl
    | inr c ↦ rw (e.decodes, read_v1beta2-encode spec e.top e.holds, c) refl
  ]

  -- A conversion to v1beta2 of objects that are encoded by the tags of v1beta1: if each of them has
  -- a target and a type and is applied, the answer is a success, with the conversion of each in
  -- order, which has the spec alone and no name, kind or version. Otherwise the server panics.
  pub do_conversion-into_v1beta2 :
      (uid : String) (raws : List String) (specs : List V1beta1.ResourceLimiterSpec)
      → Encode EncodesOld raws specs
      → do_conversion J (record { uid = uid; desired_api_version = version_2; objects = raws }) ≡ (
          if all_true is_complete_v1beta1 specs
          then value (success_with (map (λ spec. v1beta2 (new_version_of spec)) specs))
          else panicked)
  unfolding do_conversion
  do_conversion-into_v1beta2 uid raws specs e =
      rw
        (convert_all-eq (into_v1beta2 J) EncodesOld is_complete_v1beta1
          (λ spec. v1beta2 (new_version_of spec)) into_v1beta2-eq raws specs e)
        (responded_if (all_true is_complete_v1beta1 specs) _)

  -- A conversion to v1beta1 of objects that are encoded by the tags of v1beta2: if each of them has
  -- a quota, four values in each quota and is applied, the answer is a success, with what
  -- ConvertFrom makes of each in order. Otherwise the server panics.
  pub do_conversion-into_v1beta1 :
      (uid : String) (raws : List String) (specs : List V1beta2.ResourceLimiterSpec)
      → Encode EncodesNew raws specs
      → do_conversion J (record { uid = uid; desired_api_version = version_1; objects = raws }) ≡ (
          if all_true is_complete_v1beta2 specs
          then value (success_with (map (λ spec. v1beta1 (old_version_of spec)) specs))
          else panicked)
  unfolding do_conversion
  do_conversion-into_v1beta1 uid raws specs e =
      rw
        (convert_all-eq (into_v1beta1 J) EncodesNew is_complete_v1beta2
          (λ spec. v1beta1 (old_version_of spec)) into_v1beta1-eq raws specs e)
        (responded_if (all_true is_complete_v1beta2 specs) _)
