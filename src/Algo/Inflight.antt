-- ===== src/Algo/Inflight.antt =====
-- The orders that the action thread of lib/algo/algo_engine.cpp places.
use calm_trading_system.Base.{
  String, ℕ, ◌+◌, ◌≤◌, ℤ, pos, ltb_ℤ, ℤ_eq, ◌≡◌, true, Bool-cases, inl, inr, List, [], ◌∷◌, ◌++◌,
  ok, Result-cases, arith,
}
use calm_trading_system.Double.{Double, ◌⊖◌}
use calm_trading_system.Objects.{OrderReq, PosUpdate, Event, tick, timer, pos_update}
use calm_trading_system.Objects.Enums.{OrderType, market}
use calm_trading_system.Gateway.{
  Decimals, Api, ClientCall, place_order, cancel_order, req_market_data_type,
}
use calm_trading_system.Gateway.Contracts.{generate_contract, generate_ib_order}
use calm_trading_system.Gateway.Orders
use calm_trading_system.Gateway.Orders.{override_exchange, take_order_id, record_order}
use calm_trading_system.Risk.{check_risk}
use calm_trading_system.Trading
use calm_trading_system.Trading.{TradingEngine}
use calm_trading_system.Base.{Bool}
use calm_trading_system.Algo.{AlgoEngine}
use calm_trading_system.Algo.Actions.{
  request, send_order, defer_pos, update_pos_cb, tick_cb, timer_cb, act,
}

-- How many orders the client library was asked to place.
abbrev is_place : {D : Type 0} → ClientCall D → ℕ
is_place (place_order id c o) = 1
is_place (req_market_data_type n) = 0
is_place _ = 0

abbrev pub placed : {D : Type 0} → List (ClientCall D) → ℕ
placed [] = 0
placed (c ∷ cs) = is_place c + placed cs

placed-append :
    {D : Type 0} (cs ds : List (ClientCall D)) → placed (cs ++ ds) ≡ placed cs + placed ds
placed-append [] ds = omega arith
placed-append (c ∷ cs) ds = omega (arith, placed-append cs ds)

module _ {D : Type 0} ⦃d : Double D⦄ where
  calls-recorded :
      (req : OrderReq D) (s : Api D)
      → (record_order (take_order_id req s).0 req (take_order_id req s).1).calls ≡ s.calls
  unfolding record_order
  calls-recorded req s = ground arith

  -- A request to the gateway places one order, if it returns.
  gateway_places :
      (q : Decimals D) (req : OrderReq D) (s s' : Api D) (id : ℤ)
      → Orders.send_order q req s ≡ ok (id, s')
      → placed s'.calls ≡ placed s.calls + 1
  unfolding Orders.send_order
  gateway_places q req s s' id h = elim (Result-cases (generate_contract req.symbol)) [
    | inr (e, bad) ↦ ground arith
    | inl (c, good) ↦ elim (Result-cases (generate_ib_order q req)) [
      | inr (e, bad) ↦ ground arith
      | inl (o, built) ↦
          let cmd : ClientCall D =
            place_order (take_order_id req s).0 (override_exchange req.exchange c) o in
          let calls : s'.calls ≡ s.calls ++ cmd ∷ [] = ground (arith, calls-recorded req s) in
          rw calls (placed-append s.calls (cmd ∷ []))
    ]
  ]

  engine_places :
      (q : Decimals D) (req : OrderReq D) (e e' : TradingEngine D) (id : ℤ)
      → Trading.send_order q req e ≡ ok (id, e')
      → placed e'.api.calls ≤ placed e.api.calls + 1
  unfolding Trading.send_order
  engine_places q req e e' id h = elim (Bool-cases (check_risk req e.portfolio e.risk_manager).0) [
    | inr refused ↦ ground arith
    | inl passed ↦ elim (Result-cases (Orders.send_order q req e.api)) [
      | inr (err_, bad) ↦ ground arith
      | inl ((n, api), sent) ↦ ground (arith, gateway_places q req e.api api n sent)
    ]
  ]

  algo_places :
      (q : Decimals D) (symbol : String) (quantity : D) (t : OrderType) (s s' : AlgoEngine D)
      (e e' : TradingEngine D)
      → send_order q symbol quantity t s e ≡ ok (s', e')
      → placed e'.api.calls ≤ placed e.api.calls + 1
  unfolding send_order
  algo_places q symbol quantity t s s' e e' h =
      elim (Result-cases (Trading.send_order q (request symbol quantity) e)) [
        | inr (err_, bad) ↦ ground arith
        | inl ((n, e1), sent) ↦
            ground (arith, engine_places q (request symbol quantity) e e1 n sent)
      ]

  -- Deferring a request makes no order.
  defer_places :
      (p : PosUpdate D) (s s' : AlgoEngine D) (e e' : TradingEngine D)
      → defer_pos p s e ≡ ok (s', e')
      → placed e'.api.calls ≡ placed e.api.calls
  unfolding defer_pos Trading.cancel_order
  defer_places p s s' e e' h =
      ground (arith, placed-append e.api.calls (cancel_order s.inflight_order_id ∷ []))

  -- Whenever the handling of an event by the action thread returns, it has placed at most one order,
  -- and none if an order was in flight.
  pub one_order_at_a_time :
      (q : Decimals D) (answers : Bool) (event : Event D) (s s' : AlgoEngine D)
      (e e' : TradingEngine D)
      → act q answers event s e ≡ ok (s', e')
      → (placed e'.api.calls ≤ placed e.api.calls + 1)
        × (ltb_ℤ (pos 0) s.inflight_order_id ≡ true → placed e'.api.calls ≡ placed e.api.calls)
  unfolding act update_pos_cb
  one_order_at_a_time q answers (pos_update p) s s' e e' h =
      elim (Bool-cases (ltb_ℤ (pos 0) s.inflight_order_id)) [
        | inl busy ↦
            let deferred : defer_pos p s e ≡ ok (s', e') = rw busy at h in
            let none_placed = defer_places p s s' e e' deferred in
            (omega (arith, none_placed), λ _. none_placed)
        | inr idle ↦
            let s1 : AlgoEngine D = record s { target_pos = p.position } in
            let diff = p.position ⊖ s.curr_pos in
            (
              ground (arith, algo_places q s.order_symbol diff market s1 s' e e'),
              λ busy. cc (busy, idle),
            )
      ]
  one_order_at_a_time q answers (tick t) s s' e e' h = elim (Result-cases (tick_cb s)) [
    | inl (s1, done) ↦ ground arith
    | inr (e1, bad) ↦ ground arith
  ]
  one_order_at_a_time q answers (timer t) s s' e e' h = elim (Result-cases (timer_cb answers s e)) [
    | inl (s1, done) ↦ ground arith
    | inr (e1, bad) ↦ ground arith
  ]
  one_order_at_a_time q answers _ s s' e e' h = ground arith
