-- ===== src/Api/DeepCopy/Slices.antt =====
-- What fills a new slice or a new map.
use resourcelimiter.Prelude.{
  String, ℕ, ◌≡◌, refl, ap, ◌∙◌, Option, List, [], ◌∷◌, ◌⊎◌, inl, inr, length, replicate, Map,
  lookup, insert, lookup-insert, eq_iff, arith,
}
use mathlib.Core.Path.{fun_ext}
use resourcelimiter.Api.DeepCopy.Heap.{Heap, Layout, Copier, IsAllocated-kept, IsCopy, IsDeep}
use resourcelimiter.Api.DeepCopy.Layouts.{pair_layout, both-IsCopy}

-- `copy(dst, src)`
abbrev pub copy_elements {ℓ} : {A : Type ℓ} → List A → List A → List A
copy_elements [] src = []
copy_elements (d ∷ dst) [] = d ∷ dst
copy_elements (d ∷ dst) (s ∷ src) = s ∷ copy_elements dst src

-- `for key, val := range entries { out[key] = val }`, from the last entry to the first: Go leaves
-- the order open.
abbrev pub set_entries {ℓ} : {V : Type ℓ} → Map V → Map V → Map V
set_entries [] out = out
set_entries ((k, v) ∷ entries) out = insert k v (set_entries entries out)

-- A new slice or map before it is filled.
abbrev pub zeros {ℓ} : {A : Type ℓ} → A → List A → List A
zeros z xs = replicate (length xs) z

copy_elements-zeros {ℓ} : {A : Type ℓ} (z : A) (xs : List A) → copy_elements (zeros z xs) xs ≡ xs
copy_elements-zeros z [] = refl
copy_elements-zeros z (x ∷ xs) = ap (λ t. x ∷ t) (copy_elements-zeros z xs)

lookup-set_entries :
    {V : Type 0} (m : Map V) (key : String) → lookup key (set_entries m []) ≡ lookup key m
unfolding lookup
lookup-set_entries [] key = refl
lookup-set_entries ((k, v) ∷ m) key =
    lookup-insert k key v (set_entries m [])
    ∙ ground (arith, eq_iff key k, eq_iff k key, lookup-set_entries m key)

module _ (Cell : Type 0) {T V : Type 0} (view : T → V) where
  -- What has no reference in it.
  abbrev pub plain_layout : Layout Cell T
  plain_layout = record {
    Value = V;
    value = λ h t. view t;
    Owns = λ h t a. ⊥;
    same_value = λ h k t e. refl;
    same_Owns = λ h k t e a o. o;
  }

  pub plain-IsDeep :
      (f : T → T) → ((t : T) → view (f t) ≡ view t) → IsDeep plain_layout (λ t h. (f t, h))
  plain-IsDeep f same t h alive = record {
    same = same t;
    fresh = λ b o. absurd o;
    kept = (omega arith, λ b lt. refl);
  }

module _ {Cell A : Type 0} where
  abbrev pub copy_slice : List A → List A → Heap Cell → List A × Heap Cell
  copy_slice src dst h = (copy_elements dst src, h)

  abbrev pub copy_map : Map A → Map A → Heap Cell → Map A × Heap Cell
  copy_map entries out h = (set_entries entries out, h)

  abbrev pub slice_layout : Layout Cell (List A)
  slice_layout = plain_layout Cell (λ xs. xs)

  -- A map is what its keys lead to.
  abbrev pub map_layout : Layout Cell (Map A)
  map_layout = plain_layout Cell {V = String → Option A} (λ m key. lookup key m)

  pub copy_slice-IsDeep : (z : A) → IsDeep slice_layout (λ xs. copy_slice xs (zeros z xs))
  copy_slice-IsDeep z =
      plain-IsDeep Cell (λ xs. xs) (λ xs. copy_elements (zeros z xs) xs) (copy_elements-zeros z)

  pub copy_map-IsDeep : IsDeep map_layout (λ m. copy_map m [])
  copy_map-IsDeep =
      plain-IsDeep Cell {V = String → Option A} (λ m key. lookup key m) (λ m. set_entries m [])
        (λ m. fun_ext (lookup-set_entries m))

module _ {Cell T : Type 0} (into : Copier Cell T) where
  -- `for i := range *in { (*in)[i].DeepCopyInto(&(*out)[i]) }`, over slices of one length.
  unfoldable pub copy_items : List T → List T → Heap Cell → List T × Heap Cell
  copy_items [] outs h = (outs, h)
  copy_items (x ∷ xs) [] h = ([], h)
  copy_items (x ∷ xs) (o ∷ outs) h =
      let (y, h1) = into x h in let (ys, h2) = copy_items xs outs h1 in (y ∷ ys, h2)

module _ {Cell T : Type 0} (L : Layout Cell T) where
  abbrev pub values : Heap Cell → List T → List L.Value
  values h [] = []
  values h (x ∷ xs) = L.value h x ∷ values h xs

  abbrev pub OwnsSome : Heap Cell → List T → ℕ → Type 0
  OwnsSome h [] a = ⊥
  OwnsSome h (x ∷ xs) a = L.Owns h x a ⊎ OwnsSome h xs a

  pub same_values :
      (h k : Heap Cell) (xs : List T)
      → ((a : ℕ) → OwnsSome h xs a → k.cell a ≡ h.cell a)
      → values k xs ≡ values h xs
  same_values h k [] e i = []
  same_values h k (x ∷ xs) e i =
      L.same_value h k x (λ a o. e a (inl o)) i ∷ same_values h k xs (λ a o. e a (inr o)) i

  pub same_OwnsSome :
      (h k : Heap Cell) (xs : List T)
      → ((a : ℕ) → OwnsSome h xs a → k.cell a ≡ h.cell a)
      → (a : ℕ) → OwnsSome k xs a
      → OwnsSome h xs a
  same_OwnsSome h k [] e b o = o
  same_OwnsSome h k (x ∷ xs) e b (inl p) = inl (L.same_Owns h k x (λ a o. e a (inl o)) b p)
  same_OwnsSome h k (x ∷ xs) e b (inr p) = inr (same_OwnsSome h k xs (λ a o. e a (inr o)) b p)

  abbrev pub items_layout : Layout Cell (List T)
  items_layout = record {
    Value = List L.Value;
    value = values;
    Owns = OwnsSome;
    same_value = same_values;
    same_Owns = same_OwnsSome;
  }

  cons-IsCopy :
      (x y : T) (xs ys : List T) (h k : Heap Cell)
      → IsCopy (pair_layout L items_layout) h (x, xs) k (y, ys)
      → IsCopy items_layout h (x ∷ xs) k (y ∷ ys)
  cons-IsCopy x y xs ys h k c = record {
    same = ap (λ p. p.0 ∷ p.1) c.same;
    fresh = c.fresh;
    kept = c.kept;
  }

  pub copy_items-IsDeep :
      (into : Copier Cell T) (z : T)
      → IsDeep L into
      → IsDeep items_layout (λ xs. copy_items into xs (zeros z xs))
  unfolding copy_items
  copy_items-IsDeep into z deep [] h alive = record {
    same = refl;
    fresh = λ b o. absurd o;
    kept = (omega arith, λ b lt. refl);
  }
  copy_items-IsDeep into z deep (x ∷ xs) h alive =
      let first = deep x h (λ b o. alive b (inl o)) in
      let h1 = (into x h).1 in
      let rest = copy_items into xs (zeros z xs) h1 in
      cons-IsCopy x (into x h).0 xs rest.0 h rest.1 (
        both-IsCopy L items_layout x (into x h).0 xs rest.0 h h1 rest.1 alive first (
          copy_items-IsDeep into z deep xs h1
            (IsAllocated-kept items_layout h h1 xs (λ b o. alive b (inr o)) first.kept)))
