-- ===== src/Api/DeepCopy/Pointers.antt =====
-- Slices, maps and pointers to structs: a nil reference is copied to nil, any other to a new cell
-- that is filled.
use resourcelimiter.Prelude.{
  ℕ, ◌≤◌, ◌<◌, ◌≡◌, refl, sym, ap, ◌∙◌, subst, Option, none, some, ◌⊎◌, inl, inr, arith,
}
use resourcelimiter.Api.DeepCopy.Heap.{
  Heap, write, alloc, write-same, write-other, Extends, alloc-Extends, alloc-out, write-next,
  Layout, Copier, IsAllocated, IsCopy, IsDeep, value-kept, IsAllocated-kept,
}

-- How cells hold the values of one type.
pub record Holds (Cell T : Type 0) : Type 0 where
  pub read : Option Cell → T
  pub wrap : T → Cell
  pub read-wrap : (t : T) → read (some (wrap t)) ≡ t

module _ {Cell T : Type 0} (H : Holds Cell T) where
  -- `*out = make(...)`, or `out := new(...)`, and then what is written to `*out`, which may read
  -- `*in` and `*out`.
  unfoldable pub new_copy : (T → T) → (T → T → Heap Cell → T × Heap Cell) → Copier Cell (Option ℕ)
  new_copy start fill none h = (none, h)
  new_copy start fill (some a) h =
      let (out, h1) = alloc (H.wrap (start (H.read (h.cell a)))) h in
      let (t, h2) = fill (H.read (h1.cell a)) (H.read (h1.cell out)) h1 in
      (some out, write out (H.wrap t) h2)

  module _ (L : Layout Cell T) where
    abbrev pub value_of : Heap Cell → Option ℕ → Option L.Value
    value_of h none = none
    value_of h (some a) = some (L.value h (H.read (h.cell a)))

    abbrev pub OwnsOf : Heap Cell → Option ℕ → ℕ → Type 0
    OwnsOf h none b = ⊥
    OwnsOf h (some a) b = (b ≡ a) ⊎ L.Owns h (H.read (h.cell a)) b

    pub same_value_of :
        (h k : Heap Cell) (o : Option ℕ)
        → ((a : ℕ) → OwnsOf h o a → k.cell a ≡ h.cell a)
        → value_of k o ≡ value_of h o
    same_value_of h k none e = refl
    same_value_of h k (some a) e =
        ap (λ c. some (L.value k (H.read c))) (e a (inl refl))
        ∙ ap some (L.same_value h k (H.read (h.cell a)) (λ b o. e b (inr o)))

    pub same_OwnsOf :
        (h k : Heap Cell) (o : Option ℕ)
        → ((a : ℕ) → OwnsOf h o a → k.cell a ≡ h.cell a)
        → (a : ℕ) → OwnsOf k o a
        → OwnsOf h o a
    same_OwnsOf h k none e b o = o
    same_OwnsOf h k (some a) e b (inl p) = inl p
    same_OwnsOf h k (some a) e b (inr p) = inr (
        L.same_Owns h k (H.read (h.cell a)) (λ d q. e d (inr q)) b
          (subst (λ c. L.Owns k (H.read c) b) (e a (inl refl)) p))

    abbrev pub pointer_layout : Layout Cell (Option ℕ)
    pointer_layout = record {
      Value = Option L.Value;
      value = value_of;
      Owns = OwnsOf;
      same_value = same_value_of;
      same_Owns = same_OwnsOf;
    }

    module _ (a out : ℕ) (h h1 h2 : Heap Cell) (u : T) (made : (h.next ≤ out) × (out < h1.next))
        (later : Extends h h1) (alive : IsAllocated pointer_layout h (some a))
        (copy : IsCopy L h1 (H.read (h.cell a)) h2 u) where
      abbrev k : Heap Cell
      k = write out (H.wrap u) h2

      read-out : H.read (k.cell out) ≡ u
      read-out = ap H.read (write-same out (H.wrap u) h2) ∙ H.read-wrap u

      agree : (b : ℕ) → L.Owns h2 u b → k.cell b ≡ h2.cell b
      agree b o =
          write-other out b (H.wrap u) h2 (λ e. omega (arith, e, made.1, (copy.fresh b o).0))

      fresh_out : (b : ℕ) → OwnsOf k (some out) b → (h.next ≤ b) × (b < k.next)
      fresh_out b (inl e) =
          omega (arith, e, made.0, made.1, copy.kept.0, write-next out (H.wrap u) h2)
      fresh_out b (inr p) =
          let o = L.same_Owns h2 k u agree b (subst (λ x. L.Owns k x b) read-out p) in
          omega (arith, copy.fresh b o, later.0, write-next out (H.wrap u) h2)

      -- The new cell, once it is filled with a copy.
      pub filled-IsCopy : IsCopy pointer_layout h (some a) k (some out)
      filled-IsCopy = record {
        same =
            ap (λ x. some (L.value k x)) read-out
            ∙ ap some (
                L.same_value h2 k u agree
                ∙ copy.same
                ∙ value-kept L h h1 (H.read (h.cell a)) (λ b o. alive b (inr o)) later);
        fresh = fresh_out;
        kept = (
          omega (arith, later.0, copy.kept.0, write-next out (H.wrap u) h2),
          λ b lt.
              write-other out b (H.wrap u) h2 (λ e. omega (arith, e, lt, made.0))
              ∙ copy.kept.1 b (omega (arith, lt, later.0))
              ∙ later.1 b lt,
        );
      }

    module _ (start : T → T) (fill : T → T → Heap Cell → T × Heap Cell)
        (deep : IsDeep L (λ t. fill t (start t))) where
      filled_from :
          (t x y : T) (h : Heap Cell)
          → t ≡ x
          → start t ≡ y
          → IsAllocated L h t
          → IsCopy L h t (fill x y h).1 (fill x y h).0
      filled_from t x y h p q alive =
          subst (λ z. IsCopy L h t (fill z y h).1 (fill z y h).0) p
            (subst (λ z. IsCopy L h t (fill t z h).1 (fill t z h).0) q (deep t h alive))

      filled_new :
          (a out : ℕ) (h h1 : Heap Cell)
          → (h.next ≤ out) × (out < h1.next)
          → h1.cell out ≡ some (H.wrap (start (H.read (h.cell a))))
          → Extends h h1
          → IsAllocated pointer_layout h (some a)
          → let r = fill (H.read (h1.cell a)) (H.read (h1.cell out)) h1 in
            IsCopy pointer_layout h (some a) (write out (H.wrap r.0) r.1) (some out)
      filled_new a out h h1 made held later alive =
          let r = fill (H.read (h1.cell a)) (H.read (h1.cell out)) h1 in
          filled-IsCopy a out h h1 r.1 r.0 made later alive (
            filled_from (H.read (h.cell a)) (H.read (h1.cell a)) (H.read (h1.cell out)) h1
              (ap H.read (sym (later.1 a (alive a (inl refl)))))
              (sym (ap H.read held ∙ H.read-wrap (start (H.read (h.cell a)))))
              (IsAllocated-kept L h h1 (H.read (h.cell a)) (λ b o. alive b (inr o)) later))

      pub new_copy-IsDeep : IsDeep pointer_layout (new_copy start fill)
      unfolding new_copy
      new_copy-IsDeep none h alive = record {
        same = refl;
        fresh = λ b o. absurd o;
        kept = (omega arith, λ b lt. refl);
      }
      new_copy-IsDeep (some a) h alive =
          let c = H.wrap (start (H.read (h.cell a))) in
          let made = alloc-out c h in
          filled_new a (alloc c h).0 h (alloc c h).1 (made.0, made.1) made.2 (alloc-Extends c h)
            alive
