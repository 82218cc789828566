-- ===== src/Trading.antt =====
-- lib/core/trading_engine.cpp: what the algos can ask for. The record holds the parts that the engine
-- refers to; each request goes to one of them.
use calm_trading_system.Base.{ℤ, negsuc, String, Bool, Option, Result, ok, ◌>>=◌, if◌then◌else◌}
use calm_trading_system.Double.{Double}
use calm_trading_system.Objects.{OrderReq, TickData}
use calm_trading_system.Gateway.{Decimals, Api}
use calm_trading_system.Gateway.Orders
use calm_trading_system.Market
use calm_trading_system.Market.{LastTicks}
use calm_trading_system.Portfolio.{Portfolio}
use calm_trading_system.Risk.{RiskManager, check_risk}

pub record TradingEngine (D : Type 0) : Type 0 where
  pub api : Api D
  pub last_ticks : LastTicks D
  pub portfolio : Portfolio D
  pub risk_manager : RiskManager D

module _ {D : Type 0} where
  unfoldable pub get_last_tick : String → TradingEngine D → Option (TickData D)
  get_last_tick symbol e = Market.get_last_tick symbol e.last_ticks

  unfoldable pub update_ticks : TickData D → TradingEngine D → TradingEngine D
  update_ticks t e = record e { last_ticks = Market.update_ticks t e.last_ticks }

  unfoldable pub cancel_order : ℤ → TradingEngine D → TradingEngine D
  cancel_order id e = record e { api = Orders.cancel id e.api }

module _ {D : Type 0} ⦃d : Double D⦄ where
  unfoldable pub subscribe : String → Bool → TradingEngine D → Result (TradingEngine D)
  subscribe symbol delayed e = do
    (ticks, api) ← Market.subscribe symbol delayed e.last_ticks e.api
    ok (record e { last_ticks = ticks; api = api })

  unfoldable pub send_order :
      Decimals D → OrderReq D → TradingEngine D → Result (ℤ × TradingEngine D)
  send_order q req e =
      let (passed, risk, portfolio) = check_risk req e.portfolio e.risk_manager in
      if passed
      then (do
        (id, api) ← Orders.send_order q req e.api
        ok (id, record e { risk_manager = risk; portfolio = portfolio; api = api }))
      else ok (negsuc 0, record e { risk_manager = risk; portfolio = portfolio })
