-- ===== src/Gateway/Subscriptions.antt =====
-- The routing of ticks through each request and callback of lib/gateway/gateway.cpp.
use calm_trading_system.Base.{
  string_eq, nat_eq, if◌then◌else◌, Result-cases, Bool-cases, Error, Option-cases, contains, ℕ, ℤ,
  String, Bool, true, false, ◌≡◌, List, [], ◌∷◌, ◌⊎◌, inl, inr, ok, err, arith, lookup,
}
use calm_trading_system.Double.{Double}
use calm_trading_system.Objects.{OrderReq, ErrMsg, OrderData}
use calm_trading_system.Gateway.{
  req_market_data_type, ClientCall, Contract, Decimals, Api, HistCall, call,
}
use calm_trading_system.Gateway.Ticks.{
  type_asked, add_subscription, subscribe, tick_by_tick_bid_ask, tick_by_tick_all_last,
}
use calm_trading_system.Gateway.Orders.{
  error, next_valid_id, order_status, open_order, send_order, update_order, record_order,
}
use calm_trading_system.Gateway.History.{
  contract_details, historical_bar, historical_data, historical_data_end,
}
use calm_trading_system.Gateway.Contracts.{generate_contract}
use calm_trading_system.Gateway.Session.{start, stop}
use calm_trading_system.Gateway.Routing.{
  IsRouted, SameRoutes, SameRoutes-IsRouted, add_subscription-IsRouted, put_tick-IsRouted,
  tick_at-symbol,
}
use calm_trading_system.Gateway.Machine.{
  Input, starts, stops, subscribes, bid_ask, all_last, errs, valid_id, status, opened, sends,
  cancels, cancels_all, asks_details, asks_bars, has_bar, bars_end, state_or, second_or, step, run,
}

module _ {D : Type 0} ⦃d : Double D⦄ where
  update_order-SameRoutes :
      (id : ℤ) (f : OrderData D → OrderData D) (s : Api D) → SameRoutes s (update_order id f s)
  unfolding update_order
  update_order-SameRoutes id f s = ground arith

  record_order-SameRoutes :
      (id : ℤ) (r : OrderReq D) (s : Api D) → SameRoutes s (record_order id r s)
  unfolding record_order
  record_order-SameRoutes id r s = ground arith

  error-SameRoutes : (m : ErrMsg) (s : Api D) → SameRoutes s (error m s)
  unfolding error
  error-SameRoutes m s = ground arith

  pub subscribe_refused :
      (sym : String) (delayed : Bool) (s : Api D)
      → (s.running ≡ false) ⊎ (contains sym s.sym2req_ids ≡ true)
      → subscribe sym delayed s ≡ ok s
  unfolding subscribe
  subscribe_refused sym delayed s h = ground arith

  pub subscribe_failed :
      (sym : String) (delayed : Bool) (s : Api D) (e : Error)
      → s.running ≡ true
      → contains sym s.sym2req_ids ≡ false
      → generate_contract sym ≡ err e
      → state_or (type_asked sym delayed s) (subscribe sym delayed s)
        ≡ call (req_market_data_type (if delayed then 4 else 1)) s
  unfolding subscribe type_asked
  subscribe_failed sym delayed s e on new h = ground arith

  pub subscribe_done :
      (sym : String) (delayed : Bool) (s : Api D) (c : Contract)
      → s.running ≡ true
      → contains sym s.sym2req_ids ≡ false
      → generate_contract sym ≡ ok c
      → subscribe sym delayed s
        ≡ ok (add_subscription sym c (call (req_market_data_type (if delayed then 4 else 1)) s))
  unfolding subscribe
  subscribe_done sym delayed s c h k e = rw (h, k, e)

  call-IsRouted : (c : ClientCall D) (s : Api D) → IsRouted s → IsRouted (call c s)
  call-IsRouted c s r = SameRoutes-IsRouted {s = s} (ground arith) r

  subscribe-IsRouted :
      (sym : String) (delayed : Bool) (s : Api D)
      → IsRouted s
      → IsRouted (state_or (type_asked sym delayed s) (subscribe sym delayed s))
  subscribe-IsRouted sym delayed s r = elim (Bool-cases s.running) [
    | inr off ↦ rw (subscribe_refused sym delayed s (inl off)) r
    | inl on ↦ elim (Bool-cases (contains sym s.sym2req_ids)) [
      | inl old ↦ rw (subscribe_refused sym delayed s (inr old)) r
      | inr new ↦ elim (Result-cases (generate_contract sym)) [
        | inr (e, bad) ↦ rw (subscribe_failed sym delayed s e on new bad) (call-IsRouted _ s r)
        | inl (c, good) ↦
            rw (subscribe_done sym delayed s c on new good)
              (add_subscription-IsRouted sym c _ (call-IsRouted _ s r))
      ]
    ]
  ]

  module _ (q : Decimals D) where
    order_status-SameRoutes :
        (id : ℤ) (word : String) (filled : ℕ) (price : D) (s : Api D)
        → SameRoutes s (state_or s (order_status q id word filled price s))
    unfolding order_status
    order_status-SameRoutes id word filled price s = ground arith

    open_order-SameRoutes : (id : ℤ) (c : D) (s : Api D) → SameRoutes s (open_order id c s)
    unfolding open_order
    open_order-SameRoutes id c s = ground arith

    send_order-SameRoutes :
        (req : OrderReq D) (s : Api D) → SameRoutes s (second_or s (send_order q req s))
    unfolding send_order
    send_order-SameRoutes req s = ground arith

    contract_details-SameRoutes :
        (sym : String) (s : Api D) → SameRoutes s (state_or s (contract_details sym s))
    unfolding contract_details
    contract_details-SameRoutes sym s = ground arith

    historical_bar-SameRoutes :
        (sym : String) (h : HistCall) (s : Api D)
        → SameRoutes s (second_or s (historical_bar sym h s))
    unfolding historical_bar
    historical_bar-SameRoutes sym h s = ground arith

    tick_by_tick_bid_ask-IsRouted :
        (id time : ℕ) (bid ask : D) (bid_size ask_size : ℕ) (s : Api D)
        → IsRouted s
        → IsRouted (tick_by_tick_bid_ask q id time bid ask bid_size ask_size s)
    unfolding tick_by_tick_bid_ask
    tick_by_tick_bid_ask-IsRouted id time bid ask bid_size ask_size s r =
        elim (Option-cases (lookup id s.req_id2sym)) [
          | inl e ↦ rw (tick_by_tick_bid_ask, e) r
          | inr (sym, e) ↦
              rw (tick_by_tick_bid_ask, e)
                (put_tick-IsRouted sym _ s (tick_at-symbol id sym s r e) r)
        ]

    tick_by_tick_all_last-IsRouted :
        (id time : ℕ) (price : D) (size : ℕ) (s : Api D)
        → IsRouted s
        → IsRouted (tick_by_tick_all_last q id time price size s)
    unfolding tick_by_tick_all_last
    tick_by_tick_all_last-IsRouted id time price size s r =
        elim (Option-cases (lookup id s.req_id2sym)) [
          | inl e ↦ rw (tick_by_tick_all_last, e) r
          | inr (sym, e) ↦
              rw (tick_by_tick_all_last, e)
                (put_tick-IsRouted sym _ s (tick_at-symbol id sym s r e) r)
        ]

    -- Whatever is asked of the gateway and whatever the client library calls back: the ids of each subscription
    -- stay tied to its symbol, no id beyond `m_req_id` is in use, each id in use has a tick entry, and each
    -- tick entry carries its own symbol.
    pub step-IsRouted : (i : Input D) (s : Api D) → IsRouted s → IsRouted (step q i s)
    unfolding step start stop next_valid_id historical_data historical_data_end
    step-IsRouted (starts connected) s r = SameRoutes-IsRouted {s = s} (ground arith) r
    step-IsRouted stops s r = SameRoutes-IsRouted {s = s} (ground arith) r
    step-IsRouted (subscribes sym delayed) s r = subscribe-IsRouted sym delayed s r
    step-IsRouted (bid_ask id time bid ask bs as_) s r =
        tick_by_tick_bid_ask-IsRouted id time bid ask bs as_ s r
    step-IsRouted (all_last id time price size) s r =
        tick_by_tick_all_last-IsRouted id time price size s r
    step-IsRouted (errs m) s r = SameRoutes-IsRouted (error-SameRoutes m s) r
    step-IsRouted (valid_id id) s r = SameRoutes-IsRouted {s = s} (ground arith) r
    step-IsRouted (status id word filled price) s r =
        SameRoutes-IsRouted (order_status-SameRoutes id word filled price s) r
    step-IsRouted (opened id c) s r = SameRoutes-IsRouted (open_order-SameRoutes id c s) r
    step-IsRouted (sends req) s r = SameRoutes-IsRouted (send_order-SameRoutes req s) r
    step-IsRouted (cancels id) s r = SameRoutes-IsRouted {s = s} (ground arith) r
    step-IsRouted cancels_all s r = SameRoutes-IsRouted {s = s} (ground arith) r
    step-IsRouted (asks_details sym) s r = SameRoutes-IsRouted (contract_details-SameRoutes sym s) r
    step-IsRouted (asks_bars sym h) s r = SameRoutes-IsRouted (historical_bar-SameRoutes sym h s) r
    step-IsRouted (has_bar id b) s r = SameRoutes-IsRouted {s = s} (ground arith) r
    step-IsRouted (bars_end id st en) s r = SameRoutes-IsRouted {s = s} (ground arith) r

    pub run-IsRouted : (is : List (Input D)) (s : Api D) → IsRouted s → IsRouted (run q is s)
    unfolding run
    run-IsRouted [] s r = r
    run-IsRouted (i ∷ is) s r = run-IsRouted is (step q i s) (step-IsRouted i s r)
