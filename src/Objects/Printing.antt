-- ===== src/Objects/Printing.antt =====
-- `to_string` of lib/objects/objects.cpp for the records of the trading system. How the formatting library writes numbers is
-- an argument.
use calm_trading_system.Base.{ℕ, ℤ, String, Result, ok, or_fail, out_of_range, ◌>>=◌, lookup}
use calm_trading_system.Utils.{◌&◌}
use calm_trading_system.Objects.{
  ErrMsg, TickData, OrderReq, OrderData, HistBar, HistBarEnd, Timer, AlgoPnL, TotalPnL,
}
use calm_trading_system.Objects.Enums.{
  Action, OrderType, OrderStatus, action_eq, order_type_eq, order_status_eq, action_to_ib,
  order_type_to_ib, order_status_to_ib,
}

-- What `{}` stands for.
pub record Formats (D : Type 0) : Type 0 where
  pub double : D → String
  pub integer : ℤ → String
  pub time : ℕ → String

-- `action_to_ib.at(...)`, and the same for the other two tables.
abbrev pub action_word : Action → Result String
action_word a = or_fail out_of_range (lookup a action_to_ib)

abbrev pub type_word : OrderType → Result String
type_word t = or_fail out_of_range (lookup t order_type_to_ib)

abbrev pub status_word : OrderStatus → Result String
status_word s = or_fail out_of_range (lookup s order_status_to_ib)

module _ {D : Type 0} (f : Formats D) where
  unfoldable pub err_msg_string : ErrMsg → String
  err_msg_string m =
      "ErrMsg(id:"
      & f.integer m.id
      & ", error_code:"
      & f.integer m.error_code
      & ", message:"
      & m.message
      & ", order_rejection_json:"
      & m.order_rejection_json
      & ")"

  unfoldable pub tick_string : TickData D → String
  tick_string t =
      "TickData(symbol:"
      & t.symbol
      & ", last_price:"
      & f.double t.last_price
      & ", last_size:"
      & f.double t.last_size
      & ", bid_price:"
      & f.double t.bid_price
      & ", bid_size:"
      & f.double t.bid_size
      & ", ask_price:"
      & f.double t.ask_price
      & ", ask_size:"
      & f.double t.ask_size
      & ", timestamp:"
      & f.time t.timestamp
      & ")"

  unfoldable pub req_string : OrderReq D → Result String
  req_string r = do
    action ← action_word r.action
    order_type ← type_word r.order_type
    ok (
        "OrderReq(symbol:"
        & r.symbol
        & ", exchange:"
        & r.exchange
        & ", source:"
        & r.source
        & ", action:"
        & action
        & ", order_type:"
        & order_type
        & ", quantity:"
        & f.double r.quantity
        & ", price:"
        & f.double r.price
        & ", order_id:"
        & f.integer r.order_id
        & ")")

  unfoldable pub order_string : OrderData D → Result String
  order_string o = do
    order_type ← type_word o.order_type
    action ← action_word o.action
    status ← status_word o.status
    ok (
        "OrderData(order_id:"
        & f.integer o.order_id
        & ", symbol:"
        & o.symbol
        & ", exchange:"
        & o.exchange
        & ", source:"
        & o.source
        & ", order_type:"
        & order_type
        & ", action:"
        & action
        & ", total_quantity:"
        & f.double o.total_quantity
        & ", traded_quantity:"
        & f.double o.traded_quantity
        & ", avg_trade_price:"
        & f.double o.avg_trade_price
        & ", commission:"
        & f.double o.commission
        & ", OrderStatus:"
        & status
        & ", error_code:"
        & f.integer o.error_code
        & ")")

  unfoldable pub bar_string : HistBar D → String
  bar_string b =
      "HistBar(id:"
      & f.integer b.id
      & ", time:"
      & b.time
      & ", high:"
      & f.double b.high
      & ", low:"
      & f.double b.low
      & ", open:"
      & f.double b.open_price
      & ", close:"
      & f.double b.close
      & ", wap:"
      & f.double b.wap
      & ", volume:"
      & f.double b.volume
      & ", count:"
      & f.integer b.count
      & ")"

  unfoldable pub bar_end_string : HistBarEnd → String
  bar_end_string e =
      "HistBarEnd(id:" & f.integer e.id & ", start:" & e.start & ", end:" & e.end & ")"

  unfoldable pub timer_string : Timer → String
  timer_string t = "Timer(sec:" & f.time t.sec & ")"

  unfoldable pub algo_pnl_string : AlgoPnL D → String
  algo_pnl_string p =
      "AlgoPnL(algo:"
      & p.algo
      & ", pnl:"
      & f.double p.pnl
      & ", timestamp:"
      & f.time p.timestamp
      & ")"

  unfoldable pub total_pnl_string : TotalPnL D → String
  total_pnl_string p = "TotalPnl(pnl:" & f.double p.pnl & ", timestamp:" & f.time p.timestamp & ")"
