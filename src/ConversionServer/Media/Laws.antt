-- ===== src/ConversionServer/Media/Laws.antt =====
-- Which serializer is chosen: by the whole of the content type, and by the clauses of `Accept`.
use Prim.Native.Char.{Char, code}
use mathlib.Core.Logic.{if_pos, if_neg}
use text.Mathlib.TextEquality.{Char-path}
use text.Mathlib.TextLemmas.{nil-append, cons-append}
use resourcelimiter.Prelude.{
  String, ◌<>◌, ◌≡◌, ◌≢◌, refl, sym, ap, ◌∙◌, ◌⊎◌, inl, inr, Bool-cases, false, ◌&&◌, none, some,
  List, [], ◌∷◌, All, ◌==◌, eq_iff, ℕ_discrete, if◌then◌else◌, arith,
}
use resourcelimiter.ConversionServer.Review.{Serializer, json, yaml, Clause}
use resourcelimiter.ConversionServer.Media.{
  MediaType, media, serializers, serializer_at, extend, split_slash, serializer_of,
  get_input_serializer, accepts, first_accepted, first_clause, get_output_serializer,
}

-- The parts of a text with a slash between them are the text again.
abbrev Joins : String → List String → Type 0
Joins s (p ∷ q ∷ []) = s ≡ p <> ("/" <> q)
Joins s _ = Unit

Joins-extend :
    (c : Char) (s : String) (parts : List String)
    → Joins s parts
    → Joins (String.◌∷◌ c s) (extend c parts)
Joins-extend c s [] j = tt
Joins-extend c s (p ∷ []) j = tt
Joins-extend c s (p ∷ q ∷ []) j = ap (String.◌∷◌ c) j ∙ sym (cons-append c p _)
Joins-extend c s (p ∷ q ∷ r ∷ parts) j = tt

split_slash-Joins : (s : String) → Joins s (split_slash s)
unfolding split_slash
split_slash-Joins String.[] = tt
split_slash-Joins (String.◌∷◌ c s) = elim (ℕ_discrete (code c) b'/') [
  | yes e ↦ rw (if_pos (ℕ_discrete (code c) b'/') e) (
      ap (λ d. String.◌∷◌ d s) (Char-path c "/" e)
      ∙ sym (nil-append _ ∙ cons-append "/" "" s ∙ ap (String.◌∷◌ "/") (nil-append s)))
  | no e ↦
      rw (if_neg (ℕ_discrete (code c) b'/') e)
        (Joins-extend c s (split_slash s) (split_slash-Joins s))
]

module _ (t u : String) where
  -- A text that is not `t/u` has not these two parts.
  other_parts :
      (s p q : String)
      → s ≡ p <> ("/" <> q)
      → (s == t <> ("/" <> u)) ≡ false
      → (p == t && q == u) ≡ false
  other_parts s p q j n = elim (Bool-cases (p == t)) [
    | inr a ↦ rw a refl
    | inl a ↦ elim (Bool-cases (q == u)) [
      | inr b ↦ rw (a, b) refl
      | inl b ↦
          let same =
            j
            ∙ ap (λ x. x <> ("/" <> q)) ((eq_iff p t).0 a)
            ∙ ap (λ x. t <> ("/" <> x)) ((eq_iff q u).0 b) in
          cc (sym n ∙ (eq_iff s (t <> ("/" <> u))).1 same)
    ]
  ]

none_of_others :
    (s : String) (parts : List String)
    → Joins s parts
    → (s == "application/json") ≡ false
    → (s == "application/yaml") ≡ false
    → serializer_of parts ≡ none
unfolding serializer_at
none_of_others s [] j n m = refl
none_of_others s (p ∷ []) j n m = refl
none_of_others s (p ∷ q ∷ []) j n m =
    rw (other_parts "application" "json" s p q j n, other_parts "application" "yaml" s p q j m) refl
none_of_others s (p ∷ q ∷ r ∷ parts) j n m = refl

-- The input serializer is that of the whole content type, compared as it is: parameters such as a
-- character set, other cases of letters and surrounding space are not accepted.
pub get_input_serializer-eq :
    (s : String)
    → get_input_serializer s ≡ (
        if s == "application/json"
        then some json
        else if s == "application/yaml"
        then some yaml
        else none)
unfolding get_input_serializer
get_input_serializer-eq s = elim (Bool-cases (s == "application/json")) [
  | inl a ↦ rw a (ap get_input_serializer ((eq_iff s "application/json").0 a))
  | inr a ↦ elim (Bool-cases (s == "application/yaml")) [
    | inl b ↦ rw (a, b) (ap get_input_serializer ((eq_iff s "application/yaml").0 b))
    | inr b ↦ rw (a, b) (none_of_others s (split_slash s) (split_slash-Joins s) a b)
  ]
]

-- The two orders in which the map of the serializers can be walked.
abbrev pub swapped : List (MediaType × Serializer)
swapped = (media "application" "yaml", yaml) ∷ (media "application" "json", json) ∷ []

abbrev pub IsOrder : List (MediaType × Serializer) → Type 0
IsOrder l = (l ≡ serializers) ⊎ (l ≡ swapped)

first_accepted-swapped :
    (clause : Clause)
    → clause.sub_type ≢ "*"
    → first_accepted clause swapped ≡ first_accepted clause serializers
unfolding first_accepted accepts
first_accepted-swapped clause n = elim (Bool-cases (clause.sub_type == "yaml")) [
  | inl y ↦
      let j = ap (λ x. x == "json") ((eq_iff clause.sub_type "yaml").0 y) in
      let w = ap (λ x. x == "*") ((eq_iff clause.sub_type "yaml").0 y) in ground (arith, y, j, w)
  | inr y ↦ ground (arith, y, eq_iff clause.sub_type "*")
]

module _ (order : Clause → List (MediaType × Serializer))
    (walks : (clause : Clause) → IsOrder (order clause)) where
  any_order :
      (clause : Clause)
      → clause.sub_type ≢ "*"
      → first_accepted clause (order clause) ≡ first_accepted clause serializers
  any_order clause n = elim (walks clause) [
    | inl e ↦ ap (first_accepted clause) e
    | inr e ↦ ap (first_accepted clause) e ∙ first_accepted-swapped clause n
  ]

  first_clause-order :
      (clauses : List Clause)
      → All (λ clause. clause.sub_type ≢ "*") clauses
      → first_clause order clauses ≡ first_clause (λ _. serializers) clauses
  unfolding first_clause
  first_clause-order [] a = refl
  first_clause-order (clause ∷ clauses) (n, a) =
      rw (any_order clause n, first_clause-order clauses a) refl

  -- Where no clause of the header has the subtype "*", the output serializer does not depend on the
  -- order in which the map of the serializers is walked.
  pub get_output_serializer-order :
      (parse_accept : String → List Clause) (accept : String)
      → All (λ clause. clause.sub_type ≢ "*") (parse_accept accept)
      → get_output_serializer order parse_accept accept
        ≡ get_output_serializer (λ _. serializers) parse_accept accept
  unfolding get_output_serializer
  get_output_serializer-order parse_accept accept a = elim (Bool-cases (accept == "")) [
    | inl e ↦ rw e refl
    | inr e ↦ rw e (first_clause-order (parse_accept accept) a)
  ]
