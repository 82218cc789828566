-- ===== src/Recorder.antt =====
-- lib/data/data_recorder.cpp: what is written to MongoDB. A document is the list of its fields.
pub mod Documents
pub mod Rounds
use calm_trading_system.Base.{
  ℕ, ℤ, pos, String, Bool, true, false, List, [], ◌∷◌, ◌++◌, Result, ok, err, or_fail, ◌>>=◌,
  out_of_range, lookup, if◌then◌else◌,
}
use calm_trading_system.Objects.{TickData, OrderReq, OrderData, Event, tick, order}
use calm_trading_system.Objects.Enums.{
  action_to_ib, order_type_to_ib, order_status_to_ib, action_eq, order_type_eq, order_status_eq,
}
use calm_trading_system.Queue.{wait_push, try_pop}

pub data Value (D : Type 0) : Type 0 where
  text : String → Value D
  double : D → Value D
  integer : ℤ → Value D

abbrev pub Document : Type 0 → Type 0
Document D = List (String × Value D)

module _ {D : Type 0} where
  unfoldable pub tick_doc : TickData D → Document D
  tick_doc t =
      ("symbol", text t.symbol)
      ∷ ("last_price", double t.last_price)
      ∷ ("last_size", double t.last_size)
      ∷ ("bid_price", double t.bid_price)
      ∷ ("bid_size", double t.bid_size)
      ∷ ("ask_price", double t.ask_size)
      ∷ ("timestamp", integer (pos t.timestamp))
      ∷ []

  unfoldable pub req_doc : OrderReq D → Result (Document D)
  req_doc r = do
    action ← or_fail out_of_range (lookup r.action action_to_ib)
    order_type ← or_fail out_of_range (lookup r.order_type order_type_to_ib)
    ok (
        ("symbol", text r.symbol)
        ∷ ("exchange", text r.exchange)
        ∷ ("action", text action)
        ∷ ("order_type", text order_type)
        ∷ ("quantity", double r.quantity)
        ∷ ("price", double r.price)
        ∷ ("order_id", integer r.order_id)
        ∷ [])

  unfoldable pub order_doc : OrderData D → Result (Document D)
  order_doc o = do
    order_type ← or_fail out_of_range (lookup o.order_type order_type_to_ib)
    action ← or_fail out_of_range (lookup o.action action_to_ib)
    status ← or_fail out_of_range (lookup o.status order_status_to_ib)
    ok (
        ("order_id", integer o.order_id)
        ∷ ("symbol", text o.symbol)
        ∷ ("exchange", text o.exchange)
        ∷ ("source", text o.source)
        ∷ ("order_type", text order_type)
        ∷ ("action", text action)
        ∷ ("total_quantity", double o.total_quantity)
        ∷ ("traded_quantity", double o.traded_quantity)
        ∷ ("avg_trade_price", double o.avg_trade_price)
        ∷ ("commission", double o.commission)
        ∷ ("status", text status)
        ∷ ("error_code", integer o.error_code)
        ∷ [])

-- `ticks` and `orders` are the two collections, oldest document first.
pub record DataRecorder (D : Type 0) : Type 0 where
  pub running : Bool
  pub q : List (Event D)
  pub ticks : List (Document D)
  pub orders : List (Document D)

module _ {D : Type 0} where
  unfoldable pub start : DataRecorder D → DataRecorder D
  start r = if r.running then r else record r { running = true }

  unfoldable pub stop : DataRecorder D → DataRecorder D
  stop r = if r.running then record r { running = false } else r

  unfoldable pub copy_to_queue : Event D → DataRecorder D → DataRecorder D
  copy_to_queue e r = record r { q = wait_push e r.q }

  unfoldable pub save_tick : TickData D → DataRecorder D → DataRecorder D
  save_tick t r = record r { ticks = r.ticks ++ tick_doc t ∷ [] }

  unfoldable pub save_order_data : OrderData D → DataRecorder D → Result (DataRecorder D)
  save_order_data o r = do doc ← order_doc o; ok (record r { orders = r.orders ++ doc ∷ [] })

  -- `inserts` is whether the database takes the document; what it throws is caught and logged. Any
  -- other exception ends the program.
  unfoldable pub save : Bool → Event D → DataRecorder D → Result (DataRecorder D)
  unfolding save_tick save_order_data
  save inserts (order o) r = if inserts then save_order_data o r else ok r
  save inserts (tick t) r = if inserts then ok (save_tick t r) else ok r
  save inserts _ r = ok r

  -- One round of `run_action` while it runs. The result of `try_pop` is not looked at.
  unfoldable pub action_round : Bool → Event D → DataRecorder D → Result (Event D × DataRecorder D)
  unfolding try_pop save
  action_round inserts event r =
      let (_, event', rest) = try_pop event r.q in
      do r' ← save inserts event' (record r { q = rest }); ok (event', r')
