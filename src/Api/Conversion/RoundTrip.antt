-- ===== src/Api/Conversion/RoundTrip.antt =====
-- The two conversions one after the other.
use resourcelimiter.Prelude.{
  String, ◌≡◌, ◌≢◌, refl, ◌∙◌, ap, none, Bool, ◌↔◌, List, [], ◌∷◌, ◌++◌, map, replicate, length,
  Map, ℕ, zero, suc, arith,
}
use resourcelimiter.Api.V1beta1
use resourcelimiter.Api.V1beta2
use resourcelimiter.Api.V1beta2.{ResourceLimiterQuota, zero_quota}
use resourcelimiter.Api.Conversion.{limiter, quota_of, convert_to, collect_quotas, convert_from}
use resourcelimiter.Api.Conversion.Laws.{
  converted, convert_to-eq, last_or, renamed, names, quota_of-collect_quotas,
  targets-collect_quotas, applied-collect_quotas,
}

-- What a v1beta2 spec with the first quota `q` and the others `qs` comes back as.
abbrev pub levelled : ResourceLimiterQuota → List ResourceLimiterQuota → List ResourceLimiterQuota
levelled q qs =
    let all = q ∷ qs in
    replicate (length all) zero_quota ++ map (λ r. renamed (last_or q qs) r.namespace_name) all

-- The spec that `ConvertFrom` starts from.
abbrev blank : Bool → V1beta1.ResourceLimiterSpec
blank applied = record { targets = []; types = []; applied = applied }

-- A v1beta1 object that is filled from a spec with quotas.
convert_from-cons :
    (dst : V1beta1.ResourceLimiter) (src : V1beta2.ResourceLimiter) {q : ResourceLimiterQuota}
    {qs : List ResourceLimiterQuota}
    → src.spec.quotas ≡ q ∷ qs
    → convert_from dst (limiter src)
      ≡ (record dst { spec = collect_quotas (q ∷ qs) (blank src.spec.applied) }, none)
unfolding convert_from
convert_from-cons dst src e = rw e

length-names : (qs : List ResourceLimiterQuota) → length (names qs) ≡ length qs
length-names [] = refl
length-names (q ∷ qs) = ap suc (length-names qs)

map-names :
    (f : String → ResourceLimiterQuota) (qs : List ResourceLimiterQuota)
    → map f (names qs) ≡ map (λ q. f q.namespace_name) qs
map-names f [] = refl
map-names f (q ∷ qs) = ap (λ t. f q.namespace_name ∷ t) (map-names f qs)

map-quota_of :
    (types : Map String) (q : ResourceLimiterQuota) (targets : List String)
    → ((ns : String) → quota_of types ns ≡ renamed q ns)
    → map (quota_of types) targets ≡ map (renamed q) targets
map-quota_of types q [] h = refl
map-quota_of types q (ns ∷ targets) h = cc (h ns, map-quota_of types q targets h)

-- The spec that `convert_from` fills, converted back.
converted-collect_quotas :
    (q : ResourceLimiterQuota) (qs : List ResourceLimiterQuota) (applied : Bool)
    → converted (collect_quotas (q ∷ qs) (blank applied)) ≡ levelled q qs
converted-collect_quotas q qs applied = rw (
  targets-collect_quotas (q ∷ qs) (blank applied),
  map-quota_of (collect_quotas (q ∷ qs) (blank applied)).types (last_or q qs) (names qs)
      (quota_of-collect_quotas (q ∷ qs) (blank applied)),
  length-names qs,
  map-names (renamed (last_or q qs)) qs,
  quota_of-collect_quotas (q ∷ qs) (blank applied) q.namespace_name,
)

-- A v1beta2 object with at least one quota, converted to v1beta1 and back, keeps `applied` and
-- every namespace in order; every quota has the values of the last one, and as many empty quotas
-- stand in front.
pub convert_to-convert_from :
    (src dst : V1beta2.ResourceLimiter) (mid : V1beta1.ResourceLimiter) {q : ResourceLimiterQuota}
    {qs : List ResourceLimiterQuota}
    → src.spec.quotas ≡ q ∷ qs
    → convert_to (convert_from mid (limiter src)).0 (limiter dst) ≡ (
      limiter (record dst {
        spec = record { quotas = levelled q qs; applied = src.spec.applied };
        object_meta = record dst.object_meta { name = mid.object_meta.name };
      }),
      none,
    )
convert_to-convert_from src dst mid {q} {qs} e =
    rw
      (convert_from-cons mid src e, convert_to-eq, converted-collect_quotas, applied-collect_quotas)

last_or-converted :
    (d : ResourceLimiterQuota) (types : Map String) (n : ℕ) (t : String) (ts : List String)
    (ns : String)
    → renamed (last_or d (replicate n zero_quota ++ map (quota_of types) (t ∷ ts))) ns
      ≡ quota_of types ns
last_or-converted d types zero t [] ns = refl
last_or-converted d types zero t (u ∷ ts) ns =
    last_or-converted (quota_of types t) types zero u ts ns
last_or-converted d types (suc n) t ts ns = last_or-converted zero_quota types n t ts ns

names-converted :
    (types : Map String) (n : ℕ) (targets : List String)
    → names (replicate n zero_quota ++ map (quota_of types) targets) ≡ replicate n "" ++ targets
names-converted types zero [] = refl
names-converted types zero (t ∷ ts) = ap (λ r. t ∷ r) (names-converted types zero ts)
names-converted types (suc n) targets = ap (λ r. "" ∷ r) (names-converted types n targets)

-- A v1beta1 object with at least one target, converted to v1beta2 and back, keeps `applied` and the
-- values of the four types, and has its targets in order behind as many empty names.
pub convert_from-convert_to :
    (src dst : V1beta1.ResourceLimiter) (mid : V1beta2.ResourceLimiter) {t : String}
    {ts : List String}
    → src.spec.targets ≡ t ∷ ts
    → let (back, err) = convert_from dst (convert_to src (limiter mid)).0 in
      (err ≡ none)
      × (back.spec.applied ≡ src.spec.applied)
      × (back.spec.targets ≡ replicate (length src.spec.targets) "" ++ src.spec.targets)
      × ((ns : String) → quota_of back.spec.types ns ≡ quota_of src.spec.types ns)
unfolding convert_from
convert_from-convert_to src dst mid {t} {ts} e =
    rw (convert_to-eq, e)
      (
        refl,
        applied-collect_quotas (converted spec) (blank src.spec.applied),
        targets-collect_quotas (converted spec) (blank src.spec.applied)
            ∙ names-converted src.spec.types (length (t ∷ ts)) (t ∷ ts),
        λ ns.
            quota_of-collect_quotas (converted spec) (blank src.spec.applied) ns
            ∙ last_or-converted (quota_of [] ns) src.spec.types (length (t ∷ ts)) t ts ns,
      )
  where
    spec : V1beta1.ResourceLimiterSpec
    spec = record src.spec { targets = t ∷ ts }

-- Given an object of the hub type v1beta2, ConvertFrom fails exactly if its spec has no quotas.
pub convert_from-error_iff :
    (dst : V1beta1.ResourceLimiter) (src : V1beta2.ResourceLimiter)
    → ((convert_from dst (limiter src)).1 ≢ none) ↔ (src.spec.quotas ≡ [])
unfolding convert_from
convert_from-error_iff dst src = (λ h. ground arith, λ e h. ground arith)
