-- ===== src/ConversionServer/Convert/Complete.antt =====
-- What `doConversion` answers to any request: all the objects, or none.
use resourcelimiter.Prelude.{
  String, ℕ, suc, ◌≡◌, refl, sym, ap, subst, eq_iff, true, Bool-cases, ◌⊎◌, inl, inr, Option, none,
  some, List, [], ◌∷◌, length, All, ◌==◌,
}
use resourcelimiter.Api.V1beta1
use resourcelimiter.Api.V1beta2
use resourcelimiter.Api.V1beta2.{ResourceLimiterQuota, zero_limiter}
use resourcelimiter.Api.Conversion.{limiter, convert_to, convert_from}
use resourcelimiter.ConversionServer.Json.{Fields, Attempt, panicked, returned, value}
use resourcelimiter.ConversionServer.Review.{
  ConversionRequest, Converted, v1beta1, v1beta2, nil, ConversionResponse, Codec, Result, malformed,
  decoded,
}
use resourcelimiter.ConversionServer.Objects.{read_v1beta1, read_v1beta2}
use resourcelimiter.ConversionServer.Convert.Laws.{zero_old}
use resourcelimiter.ConversionServer.Convert.{
  version_1, version_2, status_of, ended, checked, filled_hub, unmarshalled,
  convert_v1beta1_into_v1beta2, convert_v1beta2_into_v1beta1, into_v1beta1, into_v1beta2,
  convert_all, responded, do_conversion,
}
use resourcelimiter.ConversionServer.Objects.Lands.{
  Lands, Lands-bind, Any, read_v1beta1-Lands, read_v1beta2-Lands,
}

-- A failure has no objects.
pub record IsFailure (r : ConversionResponse) : Type 0 where
  pub status : r.result.status ≡ "Failure"
  pub empty : r.converted_objects ≡ []

-- The object has the version that the request asks for.
abbrev pub HasVersion : String → Converted → Type 0
HasVersion version (v1beta1 rl) = version ≡ version_1
HasVersion version (v1beta2 rl) = version ≡ version_2
HasVersion version nil = ⊥

pub record IsSuccess (version : String) (n : ℕ) (r : ConversionResponse) : Type 0 where
  pub status : r.result.status ≡ "Success"
  pub all : length r.converted_objects ≡ n
  pub versions : All (HasVersion version) r.converted_objects

checked-Lands :
    {A : Type 0} (wrap : A → Converted) (P : Converted → Type 0) (a : A) (from to : String)
    (err : Option String)
    → P (wrap a)
    → Lands IsFailure P (checked wrap (ended a (status_of from to err) err))
checked-Lands wrap P a from to none h = h
checked-Lands wrap P a from to (some err) h = record { status = refl; empty = refl }

unmarshalled-Lands : (raw : String) (r : Result Fields) → Lands IsFailure Any (unmarshalled raw r)
unmarshalled-Lands raw (decoded fields) = tt
unmarshalled-Lands raw (malformed err) = record { status = refl; empty = refl }

abbrev Complete : String → ℕ → List Converted → Type 0
Complete version n objects = (length objects ≡ n) × All (HasVersion version) objects

convert_all-Lands :
    (version : String) (convert : String → Attempt ConversionResponse Converted)
    (round : (raw : String) → Lands IsFailure (HasVersion version) (convert raw))
    (raws : List String)
    → Lands IsFailure (Complete version (length raws)) (convert_all convert raws)
unfolding convert_all
convert_all-Lands version convert round [] = (refl, tt)
convert_all-Lands version convert round (raw ∷ raws) =
    Lands-bind IsFailure (HasVersion version) (Complete version (length (raw ∷ raws))) (convert raw)
      _ (round raw)
      (λ object h.
        Lands-bind IsFailure (Complete version (length raws))
          (Complete version (length (raw ∷ raws))) (convert_all convert raws) _
          (convert_all-Lands version convert round raws)
          (λ others (count, versions). (ap suc count, (h, versions))))

new_version-Lands :
    (cr : V1beta1.ResourceLimiter)
    → Lands IsFailure (HasVersion version_2) (checked v1beta2 (convert_v1beta1_into_v1beta2 cr))
unfolding convert_v1beta1_into_v1beta2
new_version-Lands cr =
    let (hub, err) = convert_to cr (limiter zero_limiter) in
    checked-Lands v1beta2 (HasVersion version_2) (filled_hub zero_limiter hub) version_1 version_2
      err refl

old_version-Lands :
    (cr : V1beta2.ResourceLimiter)
    → Lands IsFailure (HasVersion version_1) (checked v1beta1 (convert_v1beta2_into_v1beta1 cr))
unfolding convert_v1beta2_into_v1beta1
old_version-Lands cr =
    let (old_object, err) = convert_from zero_old (limiter cr) in
    checked-Lands v1beta1 (HasVersion version_1) old_object version_2 version_1 err refl

module _ (J : Codec) where
  into_v1beta2-Lands : (raw : String) → Lands IsFailure (HasVersion version_2) (into_v1beta2 J raw)
  unfolding into_v1beta2
  into_v1beta2-Lands raw =
      Lands-bind IsFailure Any (HasVersion version_2) (unmarshalled raw (J.unmarshal raw)) _
        (unmarshalled-Lands raw (J.unmarshal raw))
        (λ fields _.
          Lands-bind IsFailure Any (HasVersion version_2) (read_v1beta1 fields) _
            (read_v1beta1-Lands IsFailure fields) (λ cr _. new_version-Lands cr))

  into_v1beta1-Lands : (raw : String) → Lands IsFailure (HasVersion version_1) (into_v1beta1 J raw)
  unfolding into_v1beta1
  into_v1beta1-Lands raw =
      Lands-bind IsFailure Any (HasVersion version_1) (unmarshalled raw (J.unmarshal raw)) _
        (unmarshalled-Lands raw (J.unmarshal raw))
        (λ fields _.
          Lands-bind IsFailure Any (HasVersion version_1) (read_v1beta2 fields) _
            (read_v1beta2-Lands IsFailure fields) (λ cr _. old_version-Lands cr))

  abbrev pub Answers : ConversionRequest → ConversionResponse → Type 0
  Answers request r = IsFailure r ⊎ IsSuccess request.desired_api_version (length request.objects) r

  -- The call panics, or answers so.
  abbrev Ends : ConversionRequest → Attempt (Unit {0}) ConversionResponse → Type 0
  Ends request m = (m ≡ panicked) ⊎ ((r : ConversionResponse) × (m ≡ value r) × Answers request r)

  responded-Ends :
      (request : ConversionRequest) (m : Attempt ConversionResponse (List Converted))
      → Lands IsFailure (Complete request.desired_api_version (length request.objects)) m
      → Ends request (responded m)
  responded-Ends request panicked h = inl refl
  responded-Ends request (returned r) h = inr (r, refl, inl h)
  responded-Ends request (value objects) (count, versions) =
      inr (_, refl, inr (record { status = refl; all = count; versions = versions }))

  convert_all-Ends :
      (request : ConversionRequest) (version : String)
      (convert : String → Attempt ConversionResponse Converted)
      → (request.desired_api_version == version) ≡ true
      → ((raw : String) → Lands IsFailure (HasVersion version) (convert raw))
      → Ends request (responded (convert_all convert request.objects))
  convert_all-Ends request version convert e round =
      let objects = request.objects in
      responded-Ends request (convert_all convert objects) (
        subst (λ v. Lands IsFailure (Complete v (length objects)) (convert_all convert objects))
          (sym ((eq_iff request.desired_api_version version).0 e))
          (convert_all-Lands version convert round objects))

  -- Whatever is asked of doConversion, it panics or answers. An answer is a failure without
  -- objects, or a success with as many objects as the request has, each of the version that the
  -- request asks for.
  pub do_conversion-Answers :
      (request : ConversionRequest)
      → (do_conversion J request ≡ panicked)
        ⊎ ((r : ConversionResponse) × (do_conversion J request ≡ value r) × Answers request r)
  unfolding do_conversion
  do_conversion-Answers request = elim (Bool-cases (request.desired_api_version == version_2)) [
    | inl e ↦ rw e (convert_all-Ends request version_2 (into_v1beta2 J) e (into_v1beta2-Lands))
    | inr n ↦ elim (Bool-cases (request.desired_api_version == version_1)) [
      | inl e ↦
          rw (n, e) (convert_all-Ends request version_1 (into_v1beta1 J) e (into_v1beta1-Lands))
      | inr m ↦ rw (n, m) (inr (_, refl, inl (record { status = refl; empty = refl })))
    ]
  ]
