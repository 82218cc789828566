-- ===== src/Base/Once.antt =====
-- Maps with one entry for each key.
use mathlib.Core.Path.{◌≡◌, refl}
use mathlib.Core.Logic.{inl, inr}
use mathlib.Core.List.{[], ◌∷◌}
use mathlib.Core.Option.{none}
use native.Mathlib.Omega.{arith}
use calm_trading_system.Base.Tests.{if◌then◌else◌, Eq, ◌==◌, Bool-cases}
use calm_trading_system.Base.HashMap.{Map, lookup, insert, lookup-insert}

module _ {ℓ κ} {K : Type ℓ} {V : Type κ} ⦃e : Eq K⦄ where
  abbrev pub AreOnce : Map K V → Type (ℓ ⊔ κ)
  AreOnce [] = Unit
  AreOnce ((k, v) ∷ m) = (lookup k m ≡ none) × AreOnce m

  pub AreOnce-insert : (k : K) (v : V) (m : Map K V) → AreOnce m → AreOnce (insert k v m)
  unfolding insert lookup
  AreOnce-insert k v [] h = (refl, tt)
  AreOnce-insert k v ((j, w) ∷ m) h = elim (Bool-cases (k == j)) [
    | inl here ↦ rw here (ground (arith, e.beq_iff k j, h.0), h.1)
    | inr other ↦ rw other (
      ground (arith, lookup-insert k j v m, e.beq_iff j k, e.beq_iff k j, h.0),
      AreOnce-insert k v m h.1,
    )
  ]

  -- The map without an entry.
  abbrev pub remove : K → Map K V → Map K V
  remove k [] = []
  remove k ((j, w) ∷ m) = let rest = remove k m in if k == j then m else (j, w) ∷ rest

  pub lookup-remove :
      (k j : K) (m : Map K V)
      → AreOnce m
      → lookup j (remove k m) ≡ (if j == k then none else lookup j m)
  unfolding lookup
  lookup-remove k j [] h = ground arith
  lookup-remove k j ((i, w) ∷ m) h =
      ground (arith, lookup-remove k j m, h.0, h.1, e.beq_iff k i, e.beq_iff j i, e.beq_iff j k)

  pub AreOnce-remove : (k : K) (m : Map K V) → AreOnce m → AreOnce (remove k m)
  unfolding lookup
  AreOnce-remove k [] h = tt
  AreOnce-remove k ((i, w) ∷ m) h = elim (Bool-cases (k == i)) [
    | inl here ↦ rw here h.1
    | inr other ↦ rw other (ground (arith, lookup-remove k i m h.1, h.0), AreOnce-remove k m h.1)
  ]
