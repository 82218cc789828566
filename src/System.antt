-- ===== src/System.antt =====
-- The objects of `Trader` (lib/core/trader.h) together: what the event engine's callbacks work on, and the
-- callbacks that the constructors register. The engine hands a callback only events of its type.
pub mod Wiring
pub mod Fanout
pub mod Machine
pub mod Pending
pub mod Reports
pub mod Agreement
pub mod Rounds
pub mod Posting
pub mod Flow
pub mod Start
pub mod Settling
pub mod Told
pub mod Accounts
pub mod Bookkeeping
pub mod Kept
pub mod Books
pub mod Soundness
pub mod Bystanders
pub mod Reliable
pub mod Failures
use calm_trading_system.Base.{String, List, [], ◌∷◌, Option}
use calm_trading_system.Double.{Double}
use calm_trading_system.Objects.{Event, tick, order, timer}
use calm_trading_system.Market.{LastTicks}
use calm_trading_system.Market
use calm_trading_system.Portfolio
use calm_trading_system.Portfolio.{Portfolio}
use calm_trading_system.Risk
use calm_trading_system.Risk.{RiskManager}
use calm_trading_system.Algo
use calm_trading_system.Algo.{AlgoEngine}
use calm_trading_system.Recorder
use calm_trading_system.Recorder.{DataRecorder}

pub record World (D : Type 0) : Type 0 where
  pub last_ticks : LastTicks D
  pub portfolio : Portfolio D
  pub risk_manager : RiskManager D
  pub algo_engine : AlgoEngine D
  pub data_recorder : DataRecorder D

-- The callbacks, by the object and what it listens to.
pub data Listener : Type 0 where
  trading_engine_tick portfolio_timer portfolio_order risk_order : Listener
  algo_tick algo_timer algo_order recorder_copy : Listener

module _ {D : Type 0} where
  unfoldable pub listen : Listener → Event D → World D → World D
  unfolding Market.update_ticks Portfolio.event_engine_cb Risk.event_engine_order_cb
      Algo.event_engine_tick_cb Algo.event_engine_timer_cb Algo.event_engine_order_cb
      Recorder.copy_to_queue
  listen trading_engine_tick (tick t) w = record w {
    last_ticks = Market.update_ticks t w.last_ticks;
  }
  listen portfolio_timer e w = record w { portfolio = Portfolio.event_engine_cb e w.portfolio }
  listen portfolio_order e w = record w { portfolio = Portfolio.event_engine_cb e w.portfolio }
  listen risk_order (order o) w = record w {
    risk_manager = Risk.event_engine_order_cb o w.risk_manager;
  }
  listen algo_tick (tick t) w = record w { algo_engine = Algo.event_engine_tick_cb t w.algo_engine }
  listen algo_timer (timer t) w = record w {
    algo_engine = Algo.event_engine_timer_cb t w.algo_engine;
  }
  listen algo_order (order o) w = record w {
    algo_engine = Algo.event_engine_order_cb o w.algo_engine;
  }
  listen recorder_copy e w = record w { data_recorder = Recorder.copy_to_queue e w.data_recorder }
  listen _ e w = w
