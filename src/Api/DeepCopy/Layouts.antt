-- ===== src/Api/DeepCopy/Layouts.antt =====
-- Layouts of the shapes that the API types have, and the deep copies of these.
use resourcelimiter.Prelude.{◌≡◌, sym, ◌∙◌, subst, ◌⊎◌, inl, inr, arith}
use resourcelimiter.Api.DeepCopy.Heap.{
  Heap, Extends-trans, Layout, Copier, IsAllocated, IsCopy, IsDeep, value-kept, Owns-kept,
  IsAllocated-kept,
}

module _ {Cell T U : Type 0} (L : Layout Cell T) (M : Layout Cell U) where
  abbrev pub pair_layout : Layout Cell (T × U)
  pair_layout = record {
    Value = L.Value × M.Value;
    value = λ h (t, u). (L.value h t, M.value h u);
    Owns = λ h (t, u) a. L.Owns h t a ⊎ M.Owns h u a;
    same_value = λ h k (t, u) e i.
        (L.same_value h k t (λ a o. e a (inl o)) i, M.same_value h k u (λ a o. e a (inr o)) i);
    same_Owns = λ h k (t, u) e a o. elim o [
      | inl p ↦ inl (L.same_Owns h k t (λ b q. e b (inl q)) a p)
      | inr p ↦ inr (M.same_Owns h k u (λ b q. e b (inr q)) a p)
    ];
  }

  -- The two parts one after the other.
  abbrev pub both : Copier Cell T → Copier Cell U → Copier Cell (T × U)
  both copy_t copy_u (t, u) h =
      let (t', h1) = copy_t t h in let (u', h2) = copy_u u h1 in ((t', u'), h2)

  pub both-IsCopy :
      (t t' : T) (u u' : U) (h h1 h2 : Heap Cell)
      → IsAllocated pair_layout h (t, u)
      → IsCopy L h t h1 t'
      → IsCopy M h1 u h2 u'
      → IsCopy pair_layout h (t, u) h2 (t', u')
  both-IsCopy t t' u u' h h1 h2 alive c d = record {
    same = λ i. (
      (value-kept L h1 h2 t' made d.kept ∙ c.same) i,
      (d.same ∙ value-kept M h h1 u (λ b o. alive b (inr o)) c.kept) i,
    );
    fresh = λ a o. elim o [
      | inl p ↦ omega (arith, c.fresh a (Owns-kept L h1 h2 t' made d.kept a p), d.kept.0)
      | inr p ↦ omega (arith, d.fresh a p, c.kept.0)
    ];
    kept = Extends-trans h h1 h2 c.kept d.kept;
  }
    where
      made : IsAllocated L h1 t'
      made b o = (c.fresh b o).1

  pub both-IsDeep :
      (copy_t : Copier Cell T) (copy_u : Copier Cell U)
      → IsDeep L copy_t
      → IsDeep M copy_u
      → IsDeep pair_layout (both copy_t copy_u)
  both-IsDeep copy_t copy_u deep_t deep_u (t, u) h alive =
      let first = deep_t t h (λ b o. alive b (inl o)) in
      both-IsCopy t (copy_t t h).0 u (copy_u u (copy_t t h).1).0 h (copy_t t h).1
        (copy_u u (copy_t t h).1).1 alive first
        (deep_u u (copy_t t h).1
          (IsAllocated-kept M h (copy_t t h).1 u (λ b o. alive b (inr o)) first.kept))

module _ {Cell T U : Type 0} (f : T → U) (L : Layout Cell U) where
  -- A struct has the layout of its parts.
  abbrev pub layout_along : Layout Cell T
  layout_along = record {
    Value = L.Value;
    value = λ h t. L.value h (f t);
    Owns = λ h t. L.Owns h (f t);
    same_value = λ h k t. L.same_value h k (f t);
    same_Owns = λ h k t. L.same_Owns h k (f t);
  }

  pub IsDeep-along :
      (copy : Copier Cell T) (parts : Copier Cell U)
      → ((t : T) (h : Heap Cell) → (f (copy t h).0, (copy t h).1) ≡ parts (f t) h)
      → IsDeep L parts
      → IsDeep layout_along copy
  IsDeep-along copy parts e deep t h alive =
      let c = subst (λ x. IsCopy L h (f t) x.1 x.0) (sym (e t h)) (deep (f t) h alive) in
      record { same = c.same; fresh = c.fresh; kept = c.kept }
