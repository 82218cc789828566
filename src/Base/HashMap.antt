-- ===== src/Base/HashMap.antt =====
-- `std::unordered_map` as an association list with one entry for each key. The order of the
-- entries stands for the unspecified order of iteration.
use mathlib.Core.Path.{◌≡◌, refl}
use mathlib.Core.Bool.{Bool, true, false}
use mathlib.Core.List.{List, [], ◌∷◌}
use mathlib.Core.Option.{Option, none, some}
use native.Mathlib.Omega.{arith}
use calm_trading_system.Base.Tests.{if◌then◌else◌, Eq, ◌==◌}

abbrev pub Map {ℓ κ} : Type ℓ → Type κ → Type (ℓ ⊔ κ)
Map K V = List (K × V)

module _ {ℓ κ} {K : Type ℓ} {V : Type κ} ⦃e : Eq K⦄ where
  unfoldable pub lookup : K → Map K V → Option V
  lookup k [] = none
  lookup k ((j, v) ∷ m) = if k == j then some v else lookup k m

  -- `m.contains(k)`
  unfoldable pub contains : K → Map K V → Bool
  contains k m = elim (lookup k m) [ none ↦ false | some _ ↦ true ]

  -- `m[k] = v`
  unfoldable pub insert : K → V → Map K V → Map K V
  insert k v [] = (k, v) ∷ []
  insert k v ((j, w) ∷ m) = if k == j then (k, v) ∷ m else (j, w) ∷ insert k v m

  pub lookup-insert :
      (k j : K) (v : V) (m : Map K V)
      → lookup j (insert k v m) ≡ (if j == k then some v else lookup j m)
  unfolding lookup insert
  lookup-insert k j v [] = refl
  lookup-insert k j v ((i, w) ∷ m) =
      ground (arith, e.beq_iff k i, e.beq_iff j i, e.beq_iff j k, lookup-insert k j v m)

  pub contains-eq_true_of_lookup :
      (k : K) (m : Map K V) {v : V} → lookup k m ≡ some v → contains k m ≡ true
  unfolding contains
  contains-eq_true_of_lookup k m h = ground arith

  pub contains-cases : (k : K) (m : Map K V) → contains k m ≡ true → (v : V) × (lookup k m ≡ some v)
  unfolding contains
  contains-cases k m h = ground arith

  pub contains-insert :
      (k j : K) (v : V) (m : Map K V)
      → contains j (insert k v m) ≡ (if j == k then true else contains j m)
  unfolding contains
  contains-insert k j v m = ground (arith, lookup-insert k j v m)
