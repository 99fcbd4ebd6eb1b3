-- ===== src/Controller/Deletion/Labels.antt =====
-- The labels that a namespace has after the deletion.
use resourcelimiter.Prelude.{
  String, ◌≡◌, refl, ap, ◌∙◌, Bool, Bool-cases, true, false, ◌||◌, none, [], ◌∷◌, Map, lookup,
  erase, lookup-erase, ◌==◌, eq_iff, if◌then◌else◌, inl, inr, arith,
}
use resourcelimiter.Api.Constants.{mutate_namespace_label, validate_namespace_label}
use resourcelimiter.Controller.Deletion.{strip_labels, remove_labels}

-- The keys of the two labels.
abbrev pub is_own : String → Bool
is_own k = k == mutate_namespace_label || k == validate_namespace_label

same_own : (k j : String) → (k == j) ≡ true → is_own k ≡ is_own j
same_own k j e = ap is_own ((eq_iff k j).0 e)

erased_other :
    (k j : String) (copy : Map String)
    → is_own j ≡ false
    → lookup j (if is_own k then erase k copy else copy) ≡ lookup j copy
erased_other k j copy foreign = elim (Bool-cases (is_own k)) [
  | inl e ↦ rw (e, lookup-erase k j copy) (ground (arith, same_own k j))
  | inr e ↦ rw e refl
]

strip_labels-other :
    (j : String) (labels copy : Map String)
    → is_own j ≡ false
    → lookup j (strip_labels labels copy) ≡ lookup j copy
unfolding strip_labels
strip_labels-other j [] copy foreign = refl
strip_labels-other j ((k, _) ∷ labels) copy foreign =
    strip_labels-other j labels _ foreign ∙ erased_other k j copy foreign

erased_own :
    (k j : String) (copy : Map String)
    → is_own j ≡ true
    → ((k == j) ≡ false → lookup j copy ≡ none)
    → lookup j (if is_own k then erase k copy else copy) ≡ none
erased_own k j copy own rest = elim (Bool-cases (is_own k)) [
  | inl e ↦ rw (e, lookup-erase k j copy) (ground (arith, rest))
  | inr e ↦ rw e (ground (arith, same_own k j, rest))
]

strip_labels-own :
    (j : String) (labels copy : Map String)
    → is_own j ≡ true
    → (lookup j labels ≡ none → lookup j copy ≡ none)
    → lookup j (strip_labels labels copy) ≡ none
unfolding strip_labels lookup
strip_labels-own j [] copy own held = held refl
strip_labels-own j ((k, x) ∷ labels) copy own held =
    strip_labels-own j labels _ own
      (λ e. erased_own k j copy own (λ ne. held (ground (arith, eq_iff j k, eq_iff k j, e, ne))))

-- The two labels are gone, and every other is as before.
pub lookup-remove_labels :
    (j : String) (labels : Map String)
    → lookup j (remove_labels labels) ≡ (if is_own j then none else lookup j labels)
unfolding remove_labels
lookup-remove_labels j labels = elim (Bool-cases (is_own j)) [
  | inl e ↦ strip_labels-own j labels labels e (λ h. h) ∙ rw e refl
  | inr e ↦ strip_labels-other j labels labels e ∙ rw e refl
]
