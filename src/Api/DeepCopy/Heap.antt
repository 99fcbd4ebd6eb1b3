-- ===== src/Api/DeepCopy/Heap.antt =====
-- The heap that the deep copies allocate on, and what a deep copy is.
use resourcelimiter.Prelude.{
  ℕ, suc, ◌≤◌, ◌<◌, ◌≡◌, ◌≢◌, refl, ◌∙◌, Option, some, ite, ℕ_discrete, arith,
}

-- Cells by their address; `next` is the first address that has not been allocated.
pub record Heap (Cell : Type 0) : Type 0 where
  pub next : ℕ
  pub cell : ℕ → Option Cell

module _ {Cell : Type 0} where
  unfoldable pub write : ℕ → Cell → Heap Cell → Heap Cell
  write a c h = record h { cell = λ b. ite (ℕ_discrete b a) (some c) (h.cell b) }

  unfoldable pub alloc : Cell → Heap Cell → ℕ × Heap Cell
  unfolding write
  alloc c h = (h.next, record (write h.next c h) { next = suc h.next })

  pub write-same : (a : ℕ) (c : Cell) (h : Heap Cell) → (write a c h).cell a ≡ some c
  unfolding write
  write-same a c h = ground arith

  pub write-other : (a b : ℕ) (c : Cell) (h : Heap Cell) → b ≢ a → (write a c h).cell b ≡ h.cell b
  unfolding write
  write-other a b c h ne = ground (arith, ne)

  pub write-next : (a : ℕ) (c : Cell) (h : Heap Cell) → (write a c h).next ≡ h.next
  unfolding write
  write-next a c h = refl

  -- What is allocated keeps its cell.
  abbrev pub Extends : Heap Cell → Heap Cell → Type 0
  Extends h k = (h.next ≤ k.next) × ((a : ℕ) → a < h.next → k.cell a ≡ h.cell a)

  pub Extends-trans : (h k l : Heap Cell) → Extends h k → Extends k l → Extends h l
  Extends-trans h k l (n, e) (m, f) =
      (omega (arith, n, m), λ a b. f a (omega (arith, b, n)) ∙ e a b)

  pub alloc-Extends : (c : Cell) (h : Heap Cell) → Extends h (alloc c h).1
  unfolding alloc
  alloc-Extends c h = (omega arith, λ a b. write-other h.next a c h (λ e. omega (arith, e, b)))

  -- The address that is allocated is new, and holds the cell.
  pub alloc-out :
      (c : Cell) (h : Heap Cell)
      → (h.next ≤ (alloc c h).0)
        × ((alloc c h).0 < (alloc c h).1.next)
        × ((alloc c h).1.cell (alloc c h).0 ≡ some c)
  unfolding alloc
  alloc-out c h = (omega arith, omega arith, write-same h.next c h)

module _ (Cell : Type 0) where
  -- The value of a reference, and the addresses that it leads to. Where these keep their cells,
  -- the value and the addresses are as before.
  pub record Layout (T : Type 0) : Type 1 where
    pub Value : Type 0
    pub value : Heap Cell → T → Value
    pub Owns : Heap Cell → T → ℕ → Type 0
    pub same_value :
        (h k : Heap Cell) (t : T)
        → ((a : ℕ) → Owns h t a → k.cell a ≡ h.cell a)
        → value k t ≡ value h t
    pub same_Owns :
        (h k : Heap Cell) (t : T)
        → ((a : ℕ) → Owns h t a → k.cell a ≡ h.cell a)
        → (a : ℕ) → Owns k t a
        → Owns h t a

  abbrev pub Copier : Type 0 → Type 0
  Copier T = T → Heap Cell → T × Heap Cell

module _ {Cell T : Type 0} (L : Layout Cell T) where
  open L use {value, Owns}

  -- Every address that the reference leads to is allocated.
  abbrev pub IsAllocated : Heap Cell → T → Type 0
  IsAllocated h t = (a : ℕ) → Owns h t a → a < h.next

  -- A deep copy: it has the value of the original, all that it leads to has been allocated for
  -- it, and no cell that was there before has changed.
  pub record IsCopy (h : Heap Cell) (t : T) (k : Heap Cell) (u : T) : Type 0 where
    pub same : value k u ≡ value h t
    pub fresh : (a : ℕ) → Owns k u a → (h.next ≤ a) × (a < k.next)
    pub kept : Extends h k

  abbrev pub IsDeep : Copier Cell T → Type 0
  IsDeep copy = (t : T) (h : Heap Cell) → IsAllocated h t → IsCopy h t (copy t h).1 (copy t h).0

  -- A reference whose cells are allocated does not notice later allocations.
  module _ (h k : Heap Cell) (t : T) (a : IsAllocated h t) (e : Extends h k) where
    kept_cells : (b : ℕ) → Owns h t b → k.cell b ≡ h.cell b
    kept_cells b o = e.1 b (a b o)

    pub value-kept : value k t ≡ value h t
    value-kept = L.same_value h k t kept_cells

    pub Owns-kept : (b : ℕ) → Owns k t b → Owns h t b
    Owns-kept = L.same_Owns h k t kept_cells

    pub IsAllocated-kept : IsAllocated k t
    IsAllocated-kept b o = omega (arith, a b (Owns-kept b o), e.0)

  -- No write to what the copy leads to changes the original, and none to what the original leads to
  -- changes the copy.
  abbrev pub IsIndependent : Heap Cell → T → Heap Cell → T → Type 0
  IsIndependent h t k u =
      (a : ℕ) (c : Cell)
      → (Owns k u a → value (write a c k) t ≡ value h t)
        × (Owns h t a → value (write a c k) u ≡ value h t)

  pub IsCopy-IsIndependent :
      (h : Heap Cell) (t : T) (k : Heap Cell) (u : T)
      → IsAllocated h t
      → IsCopy h t k u
      → IsIndependent h t k u
  IsCopy-IsIndependent h t k u alive copy a c = (original, copied)
    where
      original : Owns k u a → value (write a c k) t ≡ value h t
      original o =
          L.same_value k (write a c k) t (λ b p. write-other a b c k (λ e.
            omega (arith, e, alive b (Owns-kept h k t alive copy.kept b p), (copy.fresh a o).0)))
          ∙ value-kept h k t alive copy.kept

      copied : Owns h t a → value (write a c k) u ≡ value h t
      copied o =
          L.same_value k (write a c k) u
            (λ b p. write-other a b c k (λ e. omega (arith, e, alive a o, (copy.fresh b p).0)))
          ∙ copy.same

  -- A deep copy that shares nothing with its original.
  abbrev pub IsOwnCopy : Heap Cell → T → T × Heap Cell → Type 0
  IsOwnCopy h t (u, k) = IsCopy h t k u × IsIndependent h t k u

  pub IsDeep-IsOwnCopy :
      (copy : Copier Cell T) (t : T) (h : Heap Cell)
      → IsDeep copy
      → IsAllocated h t
      → IsOwnCopy h t (copy t h)
  IsDeep-IsOwnCopy copy t h deep alive =
      let c = deep t h alive in (c, IsCopy-IsIndependent h t (copy t h).1 (copy t h).0 alive c)
