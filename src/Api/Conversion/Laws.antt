-- ===== src/Api/Conversion/Laws.antt =====
-- What `ConvertTo` and `ConvertFrom` keep, alone and one after the other.
use resourcelimiter.Prelude.{
  String, ◌≡◌, refl, ◌∙◌, sym, ap, none, List, [], ◌∷◌, ◌++◌, map, replicate, length, length-append,
  length-replicate, length-map, Map, map_laws, arith, ◌+◌,
}
use mathlib.Core.List.{append_assoc, append-nil}
use resourcelimiter.Api.V1beta1
use resourcelimiter.Api.V1beta2
use resourcelimiter.Api.V1beta2.{ResourceLimiterQuota, zero_quota}
use resourcelimiter.Api.Conversion.{
  limiter, quota_of, append_targets, convert_to, set_types, collect_quotas,
}

-- The loop appends the quotas of the targets.
pub append_targets-eq :
    (types : Map String) (targets : List String) (quotas : List ResourceLimiterQuota)
    → append_targets types targets quotas ≡ quotas ++ map (quota_of types) targets
unfolding append_targets
append_targets-eq types [] quotas = sym (append-nil quotas)
append_targets-eq types (ns ∷ targets) quotas =
    append_targets-eq types targets (quotas ++ (quota_of types ns ∷ [])) ∙ rw append_assoc

-- The quotas that a v1beta1 spec is converted into.
abbrev pub converted : V1beta1.ResourceLimiterSpec → List ResourceLimiterQuota
converted spec =
    replicate (length spec.targets) zero_quota ++ map (quota_of spec.types) spec.targets

-- ConvertTo keeps the name and `applied`, and makes a quota of each target in order, behind as many
-- empty quotas; the rest of the destination stays.
pub convert_to-eq :
    (src : V1beta1.ResourceLimiter) (dst : V1beta2.ResourceLimiter)
    → convert_to src (limiter dst) ≡ (
      limiter (record dst {
        spec = record { quotas = converted src.spec; applied = src.spec.applied };
        object_meta = record dst.object_meta { name = src.object_meta.name };
      }),
      none,
    )
unfolding convert_to
convert_to-eq src dst = rw (
    append_targets-eq src.spec.types src.spec.targets
      (replicate (length src.spec.targets) zero_quota))

-- The conversion to v1beta2 doubles the number of entries.
pub length-converted :
    (spec : V1beta1.ResourceLimiterSpec)
    → length (converted spec) ≡ length spec.targets + length spec.targets
length-converted spec = omega (
  arith,
  length-append (replicate (length spec.targets) zero_quota)
      (map (quota_of spec.types) spec.targets),
  length-replicate (length spec.targets) zero_quota,
  length-map (quota_of spec.types) spec.targets,
)

-- The last quota of a list, or a default.
abbrev pub last_or : ResourceLimiterQuota → List ResourceLimiterQuota → ResourceLimiterQuota
last_or d [] = d
last_or d (q ∷ qs) = last_or q qs

abbrev pub renamed : ResourceLimiterQuota → String → ResourceLimiterQuota
renamed q ns = record q { namespace_name = ns }

last_or-renamed :
    (q : ResourceLimiterQuota) (ns : String) (qs : List ResourceLimiterQuota)
    → renamed (last_or (renamed q ns) qs) ns ≡ renamed (last_or q qs) ns
last_or-renamed q ns [] = refl
last_or-renamed q ns (p ∷ qs) = refl

quota_of-set_types :
    (v : ResourceLimiterQuota) (types : Map String) (ns : String)
    → quota_of (set_types v types) ns ≡ renamed v ns
quota_of-set_types v types ns = simp map_laws

-- The four values after the loop are those of the last quota.
pub quota_of-collect_quotas :
    (qs : List ResourceLimiterQuota) (spec : V1beta1.ResourceLimiterSpec) (ns : String)
    → quota_of (collect_quotas qs spec).types ns ≡ renamed (last_or (quota_of spec.types ns) qs) ns
unfolding collect_quotas
quota_of-collect_quotas [] spec ns = refl
quota_of-collect_quotas (v ∷ qs) spec ns =
    quota_of-collect_quotas qs _ ns
    ∙ ap (λ q. renamed (last_or q qs) ns) (quota_of-set_types v spec.types ns)
    ∙ last_or-renamed v ns qs

abbrev pub names : List ResourceLimiterQuota → List String
names = map (λ q. q.namespace_name)

pub targets-collect_quotas :
    (qs : List ResourceLimiterQuota) (spec : V1beta1.ResourceLimiterSpec)
    → (collect_quotas qs spec).targets ≡ spec.targets ++ names qs
unfolding collect_quotas
targets-collect_quotas [] spec = sym (append-nil spec.targets)
targets-collect_quotas (v ∷ qs) spec = targets-collect_quotas qs _ ∙ rw append_assoc

pub applied-collect_quotas :
    (qs : List ResourceLimiterQuota) (spec : V1beta1.ResourceLimiterSpec)
    → (collect_quotas qs spec).applied ≡ spec.applied
unfolding collect_quotas
applied-collect_quotas [] spec = refl
applied-collect_quotas (v ∷ qs) spec = applied-collect_quotas qs _
