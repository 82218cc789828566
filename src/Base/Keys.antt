-- ===== src/Base/Keys.antt =====
-- The keys of a map whose keys are texts.
use Prim.Native.Nat.{suc}
use Prim.Native.String.{String}
use mathlib.Core.Path.{◌≡◌, refl, ap}
use mathlib.Core.Bool.{Bool, true, false, not, ◌&&◌, ◌||◌}
use mathlib.Core.List.{List, [], ◌∷◌}
use native.Mathlib.Omega.{arith}
use text.Mathlib.TextEquality.{eq_iff}
use calm_trading_system.Base.Tests.{◌==◌, string_eq}
use calm_trading_system.Base.Lists.{length}
use calm_trading_system.Base.HashMap.{Map, lookup, contains, insert}

abbrev pub has : String → List String → Bool
has k [] = false
has k (j ∷ ks) = (k == j) || has k ks

abbrev pub distinct : List String → Bool
distinct [] = true
distinct (k ∷ ks) = not (has k ks) && distinct ks

-- The keys of a map.
abbrev pub keys {ℓ} : {V : Type ℓ} → Map String V → List String
keys [] = []
keys ((k, v) ∷ m) = k ∷ keys m

pub has-insert {ℓ} :
    {V : Type ℓ} (j k : String) (v : V) (m : Map String V)
    → has j (keys (insert k v m)) ≡ ((j == k) || has j (keys m))
unfolding insert
has-insert j k v [] = refl
has-insert j k v ((i, w) ∷ m) =
    ground (arith, has-insert j k v m, eq_iff j k, eq_iff k i, eq_iff j i)

pub distinct-insert {ℓ} :
    {V : Type ℓ} (k : String) (v : V) (m : Map String V)
    → distinct (keys m) ≡ true
    → distinct (keys (insert k v m)) ≡ true
unfolding insert
distinct-insert k v [] h = refl
distinct-insert k v ((i, w) ∷ m) h =
    ground (arith, distinct-insert k v m, has-insert i k v m, eq_iff i k, eq_iff k i)

pub contains-has {ℓ} : {V : Type ℓ} (k : String) (m : Map String V) → has k (keys m) ≡ contains k m
unfolding contains lookup
contains-has k [] = refl
contains-has k ((i, w) ∷ m) = ground (arith, contains-has k m)

pub length-keys {ℓ} : {V : Type ℓ} (m : Map String V) → length (keys m) ≡ length m
length-keys [] = refl
length-keys ((k, v) ∷ m) = ap suc (length-keys m)
