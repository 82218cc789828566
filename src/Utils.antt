-- ===== src/Utils.antt =====
-- lib/utils/utils.cpp: `split`, over the bytes of a text, and `is_unset_double`.
pub mod Split
pub mod Join
use calm_trading_system.Base.{
  ℕ, zero, suc, ◌+◌, Bool, true, false, ◌||◌, ◌&&◌, ◌==◌, nat_eq, Option, none, some, List, [], ◌∷◌,
  if◌then◌else◌, Result, ok, err, out_of_range, length, take, drop, String,
}
use Prim.Native.Char.{code}
use Prim.Native.String
use calm_trading_system.Double.{Double}
use mathlib.Core.Option

-- A text after another.
infixr 60 ◌&◌
abbrev pub ◌&◌ : String → String → String
a & b = String.◌++◌ a b

abbrev pub Bytes : Type 0
Bytes = List ℕ

-- The bytes of a text, if it is ASCII.
abbrev pub codes : String → Bytes
codes String.[] = []
codes (String.◌∷◌ c s) = code c ∷ codes s

starts_with : Bytes → Bytes → Bool
starts_with [] s = true
starts_with (c ∷ delim) [] = false
starts_with (c ∷ delim) (x ∷ s) = (c == x) && starts_with delim s

-- `find(delim)` in what is left of the text; `none` is `npos`.
unfoldable pub find : Bytes → Bytes → Option ℕ
unfolding starts_with
find delim [] = if starts_with delim [] then some 0 else none
find delim (x ∷ s) =
    if starts_with delim (x ∷ s) then some 0 else Option.map (λ k. suc k) (find delim s)

-- The loop: `rest` is the text from `last` on, and `last = next + 1` steps over one byte.
split_loop : ℕ → Bytes → Bytes → List Bytes
split_loop zero delim rest = []
split_loop (suc fuel) delim rest = elim (find delim rest) [
  | none ↦ rest ∷ []
  | some k ↦ take k rest ∷ split_loop fuel delim (drop (suc k) rest)
]

-- An empty delimiter is found at every place up to the end, and then `substr` is called beyond it.
unfoldable pub split : Bytes → Bytes → Result (List Bytes)
unfolding split_loop
split s [] = err out_of_range
split s (c ∷ delim) = ok (split_loop (length s + 1) (c ∷ delim) s)

-- `UnsetDouble` and `DBL_MAX` are the same number.
module _ {D : Type 0} ⦃d : Double D⦄ where
  unfoldable pub is_unset_double : D → Bool
  is_unset_double num = d.same num d.dbl_max || d.same num d.dbl_max
