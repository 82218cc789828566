-- ===== src/Algo.antt =====
-- lib/algo/algo_engine.h and lib/algo/algo_engine.cpp: the state of `AlgoEngine`, and the callbacks
-- that run on the event engine's thread and on the message thread.
pub mod Actions
pub mod Tracking
pub mod Target
pub mod Inflight
pub mod Known
pub mod Failures
pub mod Config
use calm_trading_system.Base.{
  ℕ, zero, suc, ℤ, negsuc, ℤ_eq, nat_eq, String, string_eq, Bool, true, false, ◌||◌, ◌==◌, List, [],
  ◌∷◌, ◌++◌, Option, none, some, Result, ok, err, ◌>>=◌, Map, if◌then◌else◌,
}
use calm_trading_system.Double.{Double}
use calm_trading_system.Utils.{Bytes}
use calm_trading_system.Objects.{
  OrderReq, OrderData, TickData, Timer, PosUpdate, Event, tick, order, timer, pos_update,
}
use calm_trading_system.Objects.Enums.{OrderStatus}
use calm_trading_system.Queue.{wait_push}
use calm_trading_system.Portfolio.{Portfolio, add_market_data_mapping, add_to_portfolio}
use calm_trading_system.Trading
use calm_trading_system.Trading.{TradingEngine}

-- `TickMsg` and `PosMsg`: `symbol` is an array of 32 bytes.
pub record TickMsg (D : Type 0) : Type 0 where
  pub symbol : Bytes
  pub last_price : D
  pub timestamp : ℕ

pub record PosMsg (D : Type 0) : Type 0 where
  pub symbol : Bytes
  pub position : D
  pub timestamp : ℕ

-- What the constructor reads from the configuration file.
pub record AlgoConfig : Type 0 where
  pub mkt_data_symbol : String
  pub order_symbol : String
  pub redis_host : String
  pub redis_port : ℤ
  pub tick_channel : String
  pub action_channel : String
  pub sentinel_token : String

-- `published` is what `pub_redis` was asked to publish, oldest first.
pub record AlgoEngine (D : Type 0) : Type 0 where
  pub cfg : AlgoConfig
  pub open cfg use *
  pub running : Bool
  pub q : List (Event D)
  pub target_pos : D
  pub curr_pos : D
  pub order_status : Map ℤ OrderStatus
  pub order_data : Map ℤ (Option (OrderData D))
  pub order_reqs : Map ℤ (OrderReq D)
  pub inflight_order_id : ℤ
  pub order_cancelled : Bool
  pub order_target : D
  pub order_filled : D
  pub published : List (String × TickMsg D)

abbrev pub name : String
name = "algo_engine"

-- A C string ends at the first zero byte.
abbrev pub c_string : Bytes → Bytes
c_string [] = []
c_string (x ∷ xs) = if x == 0 then [] else x ∷ c_string xs

-- `strncpy(dst, src, n)`: at most `n` bytes, and zeros up to `n`.
abbrev pub strncpy : ℕ → Bytes → Bytes
strncpy zero src = []
strncpy (suc n) [] = 0 ∷ strncpy n []
strncpy (suc n) (x ∷ src) = x ∷ strncpy n src

module _ {D : Type 0} ⦃d : Double D⦄ where
  unfoldable pub init : AlgoConfig → AlgoEngine D
  init cfg = record {
    cfg = cfg;
    running = false;
    q = [];
    target_pos = d.zero;
    curr_pos = d.zero;
    order_status = [];
    order_data = [];
    order_reqs = [];
    inflight_order_id = negsuc 0;
    order_cancelled = false;
    order_target = d.zero;
    order_filled = d.zero;
    published = [];
  }

  -- What the constructor does to the portfolio.
  unfoldable pub register_symbols : AlgoConfig → Portfolio D → Portfolio D
  register_symbols cfg p =
      add_to_portfolio name cfg.order_symbol
        (add_market_data_mapping name cfg.order_symbol cfg.mkt_data_symbol p)

  -- `start`, up to the start of the two threads, where Redis can be reached; `connect` throws where it cannot.
  unfoldable pub start : AlgoEngine D → TradingEngine D → Result (AlgoEngine D × TradingEngine D)
  start s e = do
    e' ← Trading.subscribe s.mkt_data_symbol false e
    ok (record s { running = true }, e')

module _ {D : Type 0} where
  abbrev pub push : Event D → AlgoEngine D → AlgoEngine D
  push e s = record s { q = wait_push e s.q }

  unfoldable pub event_engine_timer_cb : Timer → AlgoEngine D → AlgoEngine D
  event_engine_timer_cb t s =
      if s.running then (if (t.sec == 0) || (t.sec == 30) then push (timer t) s else s) else s

  unfoldable pub event_engine_order_cb : OrderData D → AlgoEngine D → AlgoEngine D
  event_engine_order_cb o s = if s.running then push (order o) s else s

  unfoldable pub event_engine_tick_cb : TickData D → AlgoEngine D → AlgoEngine D
  event_engine_tick_cb t s =
      if s.running then (if t.symbol == s.mkt_data_symbol then push (tick t) s else s) else s

  -- The bytes of the message are taken to be a `PosMsg`, with a zero byte in `symbol`; the code does not test this.
  unfoldable pub mq_message_cb : PosMsg D → AlgoEngine D → AlgoEngine D
  mq_message_cb m s =
      push
        (pos_update (record {
          symbol = c_string m.symbol;
          position = m.position;
          timestamp = m.timestamp;
          retry = false;
        }))
        s
