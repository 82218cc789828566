-- ===== src/Portfolio/Machine.antt =====
-- All the ways in which the state of lib/core/portfolio.cpp changes: the calls of the other parts and the
-- rounds of `run_actions`, in any order. The first component of a state is the variable `event`.
use calm_trading_system.Base.{String, List, [], ◌∷◌, if◌then◌else◌}
use calm_trading_system.Double.{Double}
use calm_trading_system.Objects.{Event}
use calm_trading_system.Market.{LastTicks}
use calm_trading_system.Portfolio.{
  Portfolio, start, stop, add_market_data_mapping, add_to_portfolio, event_engine_cb, action_round,
  get_algo_pnl,
}

pub data Input (D : Type 0) : Type 0 where
  starts : Input D
  stops : Input D
  maps : String → String → String → Input D
  adds : String → String → Input D
  queues : Event D → Input D
  asks_pnl : String → Input D
  rounds : LastTicks D → Input D

module _ {D : Type 0} ⦃d : Double D⦄ where
  unfoldable pub step : Input D → Event D × Portfolio D → Event D × Portfolio D
  unfolding start stop add_market_data_mapping add_to_portfolio event_engine_cb get_algo_pnl
      action_round
  step starts (e, p) = (e, start p)
  step stops (e, p) = (e, stop p)
  step (maps algo order_symbol market_symbol) (e, p) =
      (e, add_market_data_mapping algo order_symbol market_symbol p)
  step (adds algo symbol) (e, p) = (e, add_to_portfolio algo symbol p)
  step (queues event) (e, p) = (e, event_engine_cb event p)
  step (asks_pnl algo) (e, p) = (e, (get_algo_pnl algo p).1)
  step (rounds last_ticks) (e, p) =
      if p.running then (let (e', p', sent) = action_round last_ticks e p in (e', p')) else (e, p)

  unfoldable pub run : List (Input D) → Event D × Portfolio D → Event D × Portfolio D
  run [] s = s
  run (i ∷ is) s = run is (step i s)
