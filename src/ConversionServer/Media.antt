-- ===== src/ConversionServer/Media.antt =====
-- The choice of the serializers by the headers of a request.
pub mod Laws
use Prim.Native.Char.{Char, code}
use Prim.Native.String
use resourcelimiter.Prelude.{
  String, Bool, true, false, ◌&&◌, ◌||◌, Option, none, some, List, [], ◌∷◌, is_empty, ◌==◌, ite,
  ℕ_discrete, if◌then◌else◌,
}
use resourcelimiter.ConversionServer.Review.{Serializer, json, yaml, Clause}

pub record MediaType : Type 0 where
  pub type : String
  pub sub_type : String

abbrev pub media : String → String → MediaType
media t s = record { type = t; sub_type = s }

abbrev pub same_media : MediaType → MediaType → Bool
same_media m k = m.type == k.type && m.sub_type == k.sub_type

-- The map of the serializers.
abbrev pub serializers : List (MediaType × Serializer)
serializers = (media "application" "json", json) ∷ (media "application" "yaml", yaml) ∷ []

unfoldable pub serializer_at : MediaType → List (MediaType × Serializer) → Option Serializer
serializer_at m [] = none
serializer_at m ((k, s) ∷ others) = if same_media m k then some s else serializer_at m others

abbrev pub extend : Char → List String → List String
extend c [] = []
extend c (part ∷ parts) = String.◌∷◌ c part ∷ parts

-- `strings.SplitN(s, "/", 2)`
unfoldable pub split_slash : String → List String
split_slash String.[] = "" ∷ []
split_slash (String.◌∷◌ c s) =
    let rest = split_slash s in ite (ℕ_discrete (code c) b'/') ("" ∷ s ∷ []) (extend c rest)

abbrev pub serializer_of : List String → Option Serializer
serializer_of (t ∷ s ∷ []) = serializer_at (media t s) serializers
serializer_of _ = none

unfoldable pub get_input_serializer : String → Option Serializer
unfolding split_slash serializer_at ℕ_discrete
get_input_serializer content_type = serializer_of (split_slash content_type)

-- The cases of the `switch`.
unfoldable pub accepts : Clause → MediaType → Bool
accepts clause k =
    clause.type == k.type && clause.sub_type == k.sub_type
    || clause.type == k.type && clause.sub_type == "*"
    || clause.type == "*" && clause.sub_type == "*"

-- The loop over the serializers, in the order in which the map is walked.
unfoldable pub first_accepted : Clause → List (MediaType × Serializer) → Option Serializer
unfolding accepts
first_accepted clause [] = none
first_accepted clause ((k, v) ∷ others) =
    if accepts clause k then some v else first_accepted clause others

abbrev pub or_else : {A : Type 0} → Option A → Option A → Option A
or_else none k = k
or_else (some a) k = some a

-- Go walks the map in any order, so `order` gives one for each clause. Equal clauses may have the
-- same, since the second of them is reached only if the first accepts nothing.
module _ (order : Clause → List (MediaType × Serializer)) where
  unfoldable pub first_clause : List Clause → Option Serializer
  unfolding first_accepted
  first_clause [] = none
  first_clause (clause ∷ clauses) =
      or_else (first_accepted clause (order clause)) (first_clause clauses)

  unfoldable pub get_output_serializer : (String → List Clause) → String → Option Serializer
  unfolding first_clause serializer_at
  get_output_serializer parse_accept accept =
      if accept == ""
      then serializer_at (media "application" "json") serializers
      else first_clause (parse_accept accept)
