-- ===== src/Gateway.antt =====
-- lib/gateway/gateway.h and lib/gateway/gateway.cpp: the state of `IBApi` and the events that
-- `IBGateway` passes on. The client library (external/tws) is seen through the calls made of it,
-- which the state lists, and through the conversions of its `Decimal`, a 64-bit word.
pub mod Contracts
pub mod Parsing
pub mod Ticks
pub mod Orders
pub mod History
pub mod Session
pub mod Machine
pub mod Routing
pub mod Subscriptions
pub mod Bounds
pub mod OrderIds
pub mod Numbered
pub mod Placing
pub mod Delivery
pub mod Book
pub mod Reports
pub mod Life
use calm_trading_system.Base.{
  ℕ, ℤ, pos, negsuc, String, Bool, false, List, [], ◌∷◌, ◌++◌, Map, Option,
}
use calm_trading_system.Utils.{Bytes}
use calm_trading_system.Objects.{
  TickData, OrderData, ErrMsg, HistBar, HistBarEnd, Event, tick, order, err_msg, bar, bar_end,
}

-- The fields of the client library's `Contract` that the code sets.
pub record Contract : Type 0 where
  pub symbol : Bytes
  pub sec_type : Bytes
  pub currency : Bytes
  pub exchange : Bytes

-- The fields of the client library's `Order` that the code sets. `none` is its default limit price.
pub record IbOrder (D : Type 0) : Type 0 where
  pub action : String
  pub total_quantity : ℕ
  pub order_type : String
  pub lmt_price : Option D
  pub tif : String

-- A historical request as the client library takes it.
pub record HistCall : Type 0 where
  pub end_time : String
  pub duration : String
  pub bar_size : String
  pub wts : String
  pub use_rth : ℕ
  pub format : ℕ

-- The calls of `m_pClient`.
pub data ClientCall (D : Type 0) : Type 0 where
  req_market_data_type : ℕ → ClientCall D
  req_tick_by_tick : ℤ → Contract → String → ClientCall D
  place_order : ℤ → Contract → IbOrder D → ClientCall D
  cancel_order : ℤ → ClientCall D
  req_global_cancel : ClientCall D
  req_contract_details : ℤ → Contract → ClientCall D
  req_historical_data : ℤ → Contract → HistCall → ClientCall D
  e_disconnect : ClientCall D

-- `decimalToDouble` and `doubleToDecimal` of the client library.
pub record Decimals (D : Type 0) : Type 0 where
  pub decimal_to_double : ℕ → D
  pub double_to_decimal : D → ℕ

-- `calls` is what `m_pClient` has been asked to do and `published` what the event engine has been
-- sent, oldest first. The locks make each block of the code one step.
pub record Api (D : Type 0) : Type 0 where
  pub running : Bool
  pub req_id : ℕ
  pub ticks : Map String (TickData D)
  pub sym2req_ids : Map String (ℕ × ℕ)
  pub req_id2sym : Map ℕ String
  pub next_order_id : ℤ
  pub orders : Map ℤ (OrderData D)
  pub calls : List (ClientCall D)
  pub published : List (Event D)

module _ {D : Type 0} where
  -- The state after construction: `m_req_id{10'000'000}`, `m_order_id{-1}`.
  unfoldable pub init : Api D
  init = record {
    running = false;
    req_id = 10_000_000;
    ticks = [];
    sym2req_ids = [];
    req_id2sym = [];
    next_order_id = negsuc 0;
    orders = [];
    calls = [];
    published = [];
  }

  abbrev pub call : ClientCall D → Api D → Api D
  call c s = record s { calls = s.calls ++ c ∷ [] }

  -- `on_event`: `event_engine.send`.
  unfoldable pub on_event : Event D → Api D → Api D
  on_event e s = record s { published = s.published ++ e ∷ [] }

  unfoldable pub on_order : OrderData D → Api D → Api D
  unfolding on_event
  on_order o = on_event (order o)

  unfoldable pub on_tick : TickData D → Api D → Api D
  unfolding on_event
  on_tick t = on_event (tick t)

  unfoldable pub on_error : ErrMsg → Api D → Api D
  unfolding on_event
  on_error m = on_event (err_msg m)

  unfoldable pub on_hist_bar : HistBar D → Api D → Api D
  unfolding on_event
  on_hist_bar b = on_event (bar b)

  unfoldable pub on_hist_bar_end : HistBarEnd → Api D → Api D
  unfolding on_event
  on_hist_bar_end b = on_event (bar_end b)
