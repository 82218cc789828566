-- ===== src/Recorder/Documents.antt =====
-- What can be read back from the documents of lib/data/data_recorder.cpp, field by field under the fields' names.
use calm_trading_system.Base.{
  ℕ, ℤ, pos, String, string_eq, ◌≡◌, refl, [], ◌∷◌, ◌++◌, Result, ok, err, or_fail, out_of_range,
  runtime_error, ◌>>=◌, lookup,
}
use calm_trading_system.Objects.{TickData, OrderData}
use calm_trading_system.Objects.Enums.{order_type_to_calm, action_to_calm, order_status_to_calm}
use calm_trading_system.Objects.Tables.{
  tables_round_trip, action_word, order_type_word, order_status_word,
}
use calm_trading_system.Recorder.{Value, text, double, integer, Document, tick_doc, order_doc}

module _ {D : Type 0} where
  abbrev as_text : Value D → Result String
  as_text (text v) = ok v
  as_text _ = err runtime_error

  abbrev as_double : Value D → Result D
  as_double (double v) = ok v
  as_double _ = err runtime_error

  abbrev as_integer : Value D → Result ℤ
  as_integer (integer v) = ok v
  as_integer _ = err runtime_error

  abbrev as_time : Value D → Result ℕ
  as_time (integer (pos n)) = ok n
  as_time _ = err runtime_error

  abbrev field {ℓ} : {A : Type ℓ} → (Value D → Result A) → String → Document D → Result A
  field as_ name doc = do v ← or_fail out_of_range (lookup name doc); as_ v

  -- A tick from its document, each field under its own name.
  abbrev pub read_tick : Document D → Result (TickData D)
  read_tick doc = do
    symbol ← field as_text "symbol" doc
    last_price ← field as_double "last_price" doc
    last_size ← field as_double "last_size" doc
    bid_price ← field as_double "bid_price" doc
    bid_size ← field as_double "bid_size" doc
    ask_price ← field as_double "ask_price" doc
    ask_size ← field as_double "ask_size" doc
    timestamp ← field as_time "timestamp" doc
    ok (record {
      symbol = symbol;
      last_price = last_price;
      last_size = last_size;
      bid_price = bid_price;
      bid_size = bid_size;
      ask_price = ask_price;
      ask_size = ask_size;
      timestamp = timestamp;
    })

  -- An order from its document, the words by the tables of the client library's words.
  abbrev pub read_order : Document D → Result (OrderData D)
  read_order doc = do
    order_id ← field as_integer "order_id" doc
    symbol ← field as_text "symbol" doc
    exchange ← field as_text "exchange" doc
    source ← field as_text "source" doc
    type_word ← field as_text "order_type" doc
    order_type ← or_fail out_of_range (lookup type_word order_type_to_calm)
    side_word ← field as_text "action" doc
    action ← or_fail out_of_range (lookup side_word action_to_calm)
    total_quantity ← field as_double "total_quantity" doc
    traded_quantity ← field as_double "traded_quantity" doc
    avg_trade_price ← field as_double "avg_trade_price" doc
    commission ← field as_double "commission" doc
    status_word ← field as_text "status" doc
    status ← or_fail out_of_range (lookup status_word order_status_to_calm)
    error_code ← field as_integer "error_code" doc
    ok (record {
      order_id = order_id;
      symbol = symbol;
      exchange = exchange;
      source = source;
      order_type = order_type;
      action = action;
      total_quantity = total_quantity;
      traded_quantity = traded_quantity;
      avg_trade_price = avg_trade_price;
      commission = commission;
      status = status;
      error_code = error_code;
    })

  abbrev order_fields : String → String → String → OrderData D → Document D
  order_fields type_word side_word status_word o =
      ("order_id", integer o.order_id)
      ∷ ("symbol", text o.symbol)
      ∷ ("exchange", text o.exchange)
      ∷ ("source", text o.source)
      ∷ ("order_type", text type_word)
      ∷ ("action", text side_word)
      ∷ ("total_quantity", double o.total_quantity)
      ∷ ("traded_quantity", double o.traded_quantity)
      ∷ ("avg_trade_price", double o.avg_trade_price)
      ∷ ("commission", double o.commission)
      ∷ ("status", text status_word)
      ∷ ("error_code", integer o.error_code)
      ∷ []

  order_read_back :
      (o : OrderData D) → (doc : Document D) × (order_doc o ≡ ok doc) × (read_order doc ≡ ok o)
  unfolding order_doc lookup
  order_read_back o =
      let (t, types) = order_type_word o.order_type in
      let (a, acts) = action_word o.action in
      let (s, states) = order_status_word o.status in
      let acts_back = (tables_round_trip.0 o.action a).0 acts in
      let types_back = (tables_round_trip.1 o.order_type t).0 types in
      let states_back = (tables_round_trip.2 o.status s).0 states in
      (
        order_fields t a s o,
        rw (types, acts, states) refl,
        rw (types_back, acts_back, states_back) refl,
      )

  -- Every order has a document, and reading the document gives the order back. A tick's document has no field
  -- "ask_size" to read, and the field "ask_price" holds the ask size: with any number `v` in that missing field, what is
  -- read is the tick with its ask size for its ask price and `v` for its ask size.
  pub documents_read_back :
      ((o : OrderData D) → (doc : Document D) × (order_doc o ≡ ok doc) × (read_order doc ≡ ok o))
      × ((t : TickData D) → read_tick (tick_doc t) ≡ err out_of_range)
      × ((t : TickData D) (v : D)
          → read_tick (tick_doc t ++ ("ask_size", double v) ∷ [])
            ≡ ok (record t { ask_price = t.ask_size; ask_size = v }))
  unfolding tick_doc order_doc lookup
  documents_read_back = (order_read_back, λ t. refl, λ t v. refl)
