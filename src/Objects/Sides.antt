-- ===== src/Objects/Sides.antt =====
-- The sides of orders (lib/objects/enums.h) as signs.
use calm_trading_system.Base.{ℤ, pos, ◌-ℤ◌, int_laws, ◌≡◌, refl}
use calm_trading_system.Objects.Enums.{Action, buy, sell}

-- What is bought counts up, and what is sold counts down.
abbrev pub signed : Action → ℤ → ℤ
signed buy v = v
signed sell v = pos 0 -ℤ v

pub signed-zero : (a : Action) (v : ℤ) → v ≡ pos 0 → signed a v ≡ pos 0
unfolding ◌-ℤ◌
signed-zero buy v e = e
signed-zero sell v e = rw e refl

pub signed_sub : (a : Action) (m n : ℤ) → signed a (m -ℤ n) ≡ signed a m -ℤ signed a n
signed_sub buy m n = refl
signed_sub sell m n = omega int_laws
