-- ===== src/Api/DeepCopy/V1beta1.antt =====
-- The structs of api/v1beta1/resourcelimiter_types.go as they lie in memory, with their references, for
-- api/v1beta1/zz_generated.deepcopy.go.
pub mod Copy
pub mod Deep
use resourcelimiter.Prelude.{String, ℕ, Bool, false, refl, Option, none, some, List, [], Map}
use resourcelimiter.Api.Meta.{TypeMeta}
use resourcelimiter.Api.V1beta1.{ResourceLimiterQuotas}
use resourcelimiter.Api.DeepCopy.Foreign.{Foreign}
use resourcelimiter.Api.DeepCopy.Pointers.{Holds}

-- A slice is the address of its array, or nil; a map is the address of its entries, or nil.
pub record SpecStruct : Type 0 where
  pub targets : Option ℕ
  pub types : Option ℕ
  pub applied : Bool

pub record StatusStruct : Type 0 where
  pub state : String
  pub quotas : Option ℕ

abbrev pub zero_quotas : ResourceLimiterQuotas
zero_quotas = record {
  namespace = "";
  cpu_requests = "";
  mem_requests = "";
  cpu_limits = "";
  mem_limits = "";
}

module _ (F : Foreign) where
  pub record LimiterStruct : Type 0 where
    pub type_meta : TypeMeta
    pub object_meta : F.ObjectMeta
    pub spec : SpecStruct
    pub status : StatusStruct

  pub record ListStruct : Type 0 where
    pub type_meta : TypeMeta
    pub list_meta : F.ListMeta
    pub items : Option ℕ

  pub data Cell : Type 0 where
    quotas_cell : ResourceLimiterQuotas → Cell
    target_array : List String → Cell
    type_map : Map String → Cell
    quotas_map : Map ResourceLimiterQuotas → Cell
    spec_cell : SpecStruct → Cell
    status_cell : StatusStruct → Cell
    limiter_cell : LimiterStruct → Cell
    limiter_array : List LimiterStruct → Cell
    list_cell : ListStruct → Cell
    foreign_cell : F.Cell → Cell

  abbrev pub zero_spec : SpecStruct
  zero_spec = record { targets = none; types = none; applied = false }

  abbrev pub zero_status : StatusStruct
  zero_status = record { state = ""; quotas = none }

  abbrev pub zero_limiter : LimiterStruct
  zero_limiter = record {
    type_meta = record { kind = ""; api_version = "" };
    object_meta = F.zero_object_meta;
    spec = zero_spec;
    status = zero_status;
  }

  abbrev pub zero_list : ListStruct
  zero_list = record {
    type_meta = record { kind = ""; api_version = "" };
    list_meta = F.zero_list_meta;
    items = none;
  }

  -- A reference leads to a cell of its type, so the last clauses are never used.
  abbrev pub read_quotas : Option Cell → ResourceLimiterQuotas
  read_quotas (some (quotas_cell quotas)) = quotas
  read_quotas _ = zero_quotas

  abbrev pub read_targets : Option Cell → List String
  read_targets (some (target_array targets)) = targets
  read_targets _ = []

  abbrev pub read_types : Option Cell → Map String
  read_types (some (type_map types)) = types
  read_types _ = []

  abbrev pub read_quotas_map : Option Cell → Map ResourceLimiterQuotas
  read_quotas_map (some (quotas_map quotas)) = quotas
  read_quotas_map _ = []

  abbrev pub read_spec : Option Cell → SpecStruct
  read_spec (some (spec_cell spec)) = spec
  read_spec _ = zero_spec

  abbrev pub read_status : Option Cell → StatusStruct
  read_status (some (status_cell status)) = status
  read_status _ = zero_status

  abbrev pub read_limiter : Option Cell → LimiterStruct
  read_limiter (some (limiter_cell limiter)) = limiter
  read_limiter _ = zero_limiter

  abbrev pub read_limiters : Option Cell → List LimiterStruct
  read_limiters (some (limiter_array limiters)) = limiters
  read_limiters _ = []

  abbrev pub read_list : Option Cell → ListStruct
  read_list (some (list_cell list)) = list
  read_list _ = zero_list

  abbrev pub a_quotas : Holds Cell ResourceLimiterQuotas
  a_quotas = record { read = read_quotas; wrap = quotas_cell; read-wrap = λ t. refl }

  abbrev pub target_slice : Holds Cell (List String)
  target_slice = record { read = read_targets; wrap = target_array; read-wrap = λ t. refl }

  abbrev pub types_of_spec : Holds Cell (Map String)
  types_of_spec = record { read = read_types; wrap = type_map; read-wrap = λ t. refl }

  abbrev pub quotas_of_status : Holds Cell (Map ResourceLimiterQuotas)
  quotas_of_status = record { read = read_quotas_map; wrap = quotas_map; read-wrap = λ t. refl }

  abbrev pub a_spec : Holds Cell SpecStruct
  a_spec = record { read = read_spec; wrap = spec_cell; read-wrap = λ t. refl }

  abbrev pub a_status : Holds Cell StatusStruct
  a_status = record { read = read_status; wrap = status_cell; read-wrap = λ t. refl }

  abbrev pub a_limiter : Holds Cell LimiterStruct
  a_limiter = record { read = read_limiter; wrap = limiter_cell; read-wrap = λ t. refl }

  abbrev pub limiters : Holds Cell (List LimiterStruct)
  limiters = record { read = read_limiters; wrap = limiter_array; read-wrap = λ t. refl }

  abbrev pub a_list : Holds Cell ListStruct
  a_list = record { read = read_list; wrap = list_cell; read-wrap = λ t. refl }
