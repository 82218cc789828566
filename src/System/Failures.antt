-- ===== src/System/Failures.antt =====
-- The exceptions that can end the program, while the threads of `Trader` (lib/core/trader.h) run.
use calm_trading_system.Base.{none, String, lookup, ℤ, out_of_range}
use calm_trading_system.Objects.{OrderReq}
use calm_trading_system.Objects.Enums.{order_status_to_calm}
use calm_trading_system.Gateway.{HistCall}
use calm_trading_system.Gateway.Ticks
use calm_trading_system.Gateway.Orders
use calm_trading_system.Gateway.History
use calm_trading_system.Gateway.Machine
use calm_trading_system.Gateway.Machine.{subscribes, status, sends, asks_details, asks_bars}
use calm_trading_system.Base.{
  pos, ltb_ℤ, runtime_error, ℕ, ℤ_eq, string_eq, ◌≡◌, Bool, true, false, nat_eq, err,
}
use calm_trading_system.Double.{Double}
use calm_trading_system.Objects.{Timer, timer}
use calm_trading_system.Queue.{try_pop}
use calm_trading_system.Gateway.Machine
use calm_trading_system.Algo.Actions
use calm_trading_system.System.Machine.{System, Action, broker, algo_turn, listener_lost}
use calm_trading_system.Base.{Error}
use calm_trading_system.Gateway.Contracts.{generate_contract}
use calm_trading_system.Algo.Actions.{act}

-- What is thrown by an action, with no one to catch it.
pub data Fails {D : Type 0} (x : System D) : Action D → Error → Type 0 where
  too_late :
      ltb_ℤ (pos 0) x.world.algo_engine.inflight_order_id ≡ true
      → x.world.algo_engine.order_cancelled ≡ true
      → {answers : Bool} → Fails x (algo_turn answers) runtime_error
  unanswered :
      {t : Timer}
      → (try_pop x.algo_event x.world.algo_engine.q).0 ≡ true
      → (try_pop x.algo_event x.world.algo_engine.q).1 ≡ timer t
      → Fails x (algo_turn false) runtime_error
  unheard : Fails x listener_lost runtime_error
  unknown_status :
      {id : ℤ} {word : String} {filled : ℕ} {price : D}
      → lookup word order_status_to_calm ≡ none
      → Fails x (broker (status id word filled price)) out_of_range
  unreadable_subscription :
      {symbol : String} {delayed : Bool} {e : Error}
      → generate_contract symbol ≡ err e
      → Fails x (broker (subscribes symbol delayed)) e
  unreadable_order :
      {req : OrderReq D} {e : Error}
      → generate_contract req.symbol ≡ err e
      → Fails x (broker (sends req)) e
  unreadable_details :
      {symbol : String} {e : Error}
      → generate_contract symbol ≡ err e
      → Fails x (broker (asks_details symbol)) e
  unreadable_bars :
      {symbol : String} {h : HistCall} {e : Error}
      → generate_contract symbol ≡ err e
      → Fails x (broker (asks_bars symbol h)) e
