-- ===== src/Objects.antt =====
-- lib/objects/objects.h and lib/core/event.h: the data that the components exchange, over a type
-- `D` of doubles. Ids and error codes are integers, which do not overflow here; times are seconds
-- since the epoch, not negative.
pub mod Enums
pub mod Tables
pub mod Status
pub mod Sides
pub mod Printing
use calm_trading_system.Base.{List, ℕ, ℤ, pos, String, Bool, ◌^◌, ◌-◌}
use Enums.{Action, OrderType, OrderStatus, EventType}

-- `UnsetLong` of lib/objects/constants.h
abbrev pub unset_long : ℤ
unset_long = pos (2 ^ 63 - 1)

pub record ErrMsg : Type 0 where
  pub id : ℤ
  pub error_code : ℤ
  pub message : String
  pub order_rejection_json : String

pub record TickData (D : Type 0) : Type 0 where
  pub symbol : String
  pub last_price : D
  pub last_size : D
  pub bid_price : D
  pub bid_size : D
  pub ask_price : D
  pub ask_size : D
  pub timestamp : ℕ

pub record OrderReq (D : Type 0) : Type 0 where
  pub symbol : String
  pub exchange : String
  pub source : String
  pub action : Action
  pub order_type : OrderType
  pub quantity : D
  pub price : D
  pub order_id : ℤ

pub record OrderData (D : Type 0) : Type 0 where
  pub order_id : ℤ
  pub symbol : String
  pub exchange : String
  pub source : String
  pub order_type : OrderType
  pub action : Action
  pub total_quantity : D
  pub traded_quantity : D
  pub avg_trade_price : D
  pub commission : D
  pub status : OrderStatus
  pub error_code : ℤ

pub record HistBar (D : Type 0) : Type 0 where
  pub id : ℤ
  pub time : String
  pub high : D
  pub low : D
  pub open_price : D
  pub close : D
  pub wap : D
  pub volume : D
  pub count : ℤ

pub record HistBarEnd : Type 0 where
  pub id : ℤ
  pub start : String
  pub end : String

pub record Timer : Type 0 where
  pub sec : ℕ
  pub timestamp : ℕ

pub record AlgoPnL (D : Type 0) : Type 0 where
  pub algo : String
  pub pnl : D
  pub timestamp : ℕ

pub record TotalPnL (D : Type 0) : Type 0 where
  pub pnl : D
  pub timestamp : ℕ

-- `PosUpdate` of lib/algo/algo_engine.h
pub record PosUpdate (D : Type 0) : Type 0 where
  pub symbol : List ℕ
  pub position : D
  pub timestamp : ℕ
  pub retry : Bool

-- `Event`: the tag `e_type` fixes what `data` points to, so the payload is one of these.
pub data Event (D : Type 0) : Type 0 where
  engine_stop engine_test engine_test_1 : Event D
  tick : TickData D → Event D
  order : OrderData D → Event D
  err_msg : ErrMsg → Event D
  bar : HistBar D → Event D
  bar_end : HistBarEnd → Event D
  timer : Timer → Event D
  pos_update : PosUpdate D → Event D
  algo_pnl : AlgoPnL D → Event D
  total_pnl : TotalPnL D → Event D

unfoldable pub e_type : {D : Type 0} → Event D → EventType
e_type engine_stop = EventType.event_engine_stop
e_type engine_test = EventType.event_engine_test
e_type engine_test_1 = EventType.event_engine_test_1
e_type (tick _) = EventType.tick_data
e_type (order _) = EventType.order_data
e_type (err_msg _) = EventType.ib_err_msg
e_type (bar _) = EventType.hist_bar
e_type (bar_end _) = EventType.hist_bar_end
e_type (timer _) = EventType.timer
e_type (pos_update _) = EventType.algo_pos_update
e_type (algo_pnl _) = EventType.algo_pnl
e_type (total_pnl _) = EventType.total_pnl
