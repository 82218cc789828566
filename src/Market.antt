-- ===== src/Market.antt =====
-- lib/core/market_data.h and lib/core/market_data.cpp: the last tick of each symbol. The manager
-- passes subscriptions on to the gateway, whose state it is given.
pub mod Subscribed
use calm_trading_system.Base.{
  String, string_eq, Bool, true, false, List, [], Option, none, some, Result, ok, err, ◌>>=◌, Map,
  lookup, insert, contains, if◌then◌else◌,
}
use calm_trading_system.Double.{Double}
use calm_trading_system.Objects.{TickData}
use calm_trading_system.Gateway.{Api}
use calm_trading_system.Gateway.Ticks
use calm_trading_system.Gateway.Ticks.{fresh_tick}

abbrev pub LastTicks : Type 0 → Type 0
LastTicks D = Map String (TickData D)

module _ {D : Type 0} where
  unfoldable pub update_ticks : TickData D → LastTicks D → LastTicks D
  update_ticks t last_ticks = insert t.symbol t last_ticks

  -- `none` is the null pointer.
  unfoldable pub get_last_tick : String → LastTicks D → Option (TickData D)
  get_last_tick symbol last_ticks = lookup symbol last_ticks

module _ {D : Type 0} ⦃d : Double D⦄ where
  unfoldable pub subscribe : String → Bool → LastTicks D → Api D → Result (LastTicks D × Api D)
  subscribe symbol delayed last_ticks api =
      if contains symbol last_ticks then ok (last_ticks, api) else (do
        api' ← Ticks.subscribe symbol delayed api
        ok (insert symbol (fresh_tick "") last_ticks, api'))
