-- ===== src/Tests/Feed.antt =====
-- The theorems on the gateway and the market data, at concrete states.
use calm_trading_system.Base.{
  String, ℕ, ℤ, negsuc, ◌<◌, ◌≤◌, false, true, List, [], ◌∷◌, ok, arith, lookup, inl, some, none,
}
use calm_trading_system.Double.{ℤ_double}
use calm_trading_system.Gateway.{init, Api}
use calm_trading_system.Gateway.Machine.{Input, starts, subscribes, sends, step}
use calm_trading_system.Gateway.Routing.{IsRouted, init-IsRouted}
use calm_trading_system.Gateway.Subscriptions.{step-IsRouted}
use calm_trading_system.Gateway.Ticks
use calm_trading_system.Gateway.Book.{IsFiled, Follows}
use calm_trading_system.Gateway.Life.{step-Follows}
use calm_trading_system.Tests.{decimals, new_request, connected}

abbrev vod : String
vod = "VOD-STK-GBP.LSEETF"

step-IsRouted_example : IsRouted (step {D = ℤ} decimals (subscribes vod false) init)
step-IsRouted_example = step-IsRouted decimals (subscribes vod false) init init-IsRouted

abbrev opening : List (Input ℤ)
opening = starts true ∷ subscribes vod false ∷ []

connected-IsFiled : IsFiled connected
unfolding lookup
connected-IsFiled = λ id o e. cc

step-Follows_example : Follows connected (step decimals (sends new_request) connected)
step-Follows_example = step-Follows decimals (sends new_request) connected connected-IsFiled
