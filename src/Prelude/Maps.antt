-- ===== src/Prelude/Maps.antt =====
-- Go maps with string keys as association lists. The program never depends on their order.
use Prim.Native.String.{String}
use mathlib.Core.Path.{◌≡◌}
use mathlib.Core.Option.{Option, none, some}
use mathlib.Core.List.{List, [], ◌∷◌}
use native.Mathlib.Omega.{arith}
use text.Mathlib.Text.{◌==◌}
use text.Mathlib.TextEquality.{eq_iff}
use resourcelimiter.Prelude.Tests.{if◌then◌else◌}

abbrev pub Map {ℓ} : Type ℓ → Type ℓ
Map V = List (String × V)

module _ {ℓ} {V : Type ℓ} where
  -- `v, found := entries[key]`
  unfoldable pub lookup : String → Map V → Option V
  lookup key ((k, held) ∷ others) = if key == k then some held else lookup key others
  lookup key [] = none

  -- `entries[key] = value`: the entry is replaced, or added behind the others.
  unfoldable pub insert : String → V → Map V → Map V
  insert key value ((k, held) ∷ others) =
      if key == k then (k, value) ∷ others else (k, held) ∷ insert key value others
  insert key value [] = (key, value) ∷ []

  -- `delete(entries, key)`
  unfoldable pub erase : String → Map V → Map V
  erase key ((k, held) ∷ others) =
      let kept = erase key others in if key == k then kept else (k, held) ∷ kept
  erase key [] = []

  abbrev or_zero : V → Option V → V
  or_zero z none = z
  or_zero z (some v) = v

  -- `m[k]`, which is the zero value `z` if the key is missing.
  abbrev pub at_key : V → String → Map V → V
  at_key z k m = or_zero z (lookup k m)

  pub lookup-insert :
      (key other : String) (value : V) (entries : Map V)
      → lookup other (insert key value entries)
        ≡ (if key == other then some value else lookup other entries)
  unfolding lookup insert
  lookup-insert key other value ((k, held) ∷ others) =
      ground (
        arith,
        lookup-insert key other value others,
        eq_iff key k,
        eq_iff other k,
        eq_iff key other,
      )
  lookup-insert key other value [] = ground (arith, eq_iff key other, eq_iff other key)

  pub lookup-erase :
      (key other : String) (entries : Map V)
      → lookup other (erase key entries) ≡ (if key == other then none else lookup other entries)
  unfolding lookup erase
  lookup-erase key other ((k, held) ∷ others) =
      ground (arith, eq_iff key k, eq_iff other k, eq_iff key other, lookup-erase key other others)
  lookup-erase key other [] = ground arith

pub ruleset map_laws = (lookup-insert, lookup-erase)
