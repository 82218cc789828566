-- ===== src/Algo/Failures.antt =====
-- The exceptions that can leave a handler of the action thread of lib/algo/algo_engine.cpp.
use calm_trading_system.Base.{
  Bool, false, ◌⊎◌, String, string_eq, ℤ, pos, ℤ_eq, ltb_ℤ, contains, contains-cases, true, ◌≡◌,
  subst, Bool-cases, Result-cases, inl, inr, ok, err, Error, runtime_error, arith,
}
use calm_trading_system.Double.{Double, ◌⊖◌}
use calm_trading_system.Base.{refl}
use calm_trading_system.Objects.{
  Timer, OrderReq, PosUpdate, Event, engine_stop, tick, timer, pos_update,
}
use calm_trading_system.Objects.Enums.{OrderType, market}
use calm_trading_system.Gateway.{Decimals, Contract, IbOrder}
use calm_trading_system.Objects.Tables.{action_word, order_type_word}
use calm_trading_system.Gateway.Contracts.{generate_contract, generate_ib_order}
use calm_trading_system.Gateway.Orders
use calm_trading_system.Risk.{check_risk}
use calm_trading_system.Trading
use calm_trading_system.Trading.{TradingEngine}
use calm_trading_system.Algo.{AlgoEngine}
use calm_trading_system.Queue.{try_pop}
use calm_trading_system.Algo.Actions.{
  request, send_order, defer_pos, update_pos_cb, tick_cb, timer_cb, act, action_round,
}
use calm_trading_system.Algo.Known.{IsKnown}

module _ {D : Type 0} where
  -- The order in flight has been cancelled, and a new position has come before it was.
  abbrev pub IsLate : AlgoEngine D → Error → Type 0
  IsLate s x =
      (x ≡ runtime_error) × (ltb_ℤ (pos 0) s.inflight_order_id ≡ true) × (s.order_cancelled ≡ true)

  -- Redis has not replied to what a timer made the engine publish.
  abbrev pub IsUnanswered : Bool → Event D → Error → Type 0
  IsUnanswered answers e x = (x ≡ runtime_error) × (answers ≡ false) × ((t : Timer) × (e ≡ timer t))

module _ {D : Type 0} ⦃d : Double D⦄ where
  tick_cb_known : (s : AlgoEngine D) → IsKnown s → tick_cb s ≡ ok s
  unfolding tick_cb
  tick_cb_known s (inl none_now) = ground arith
  tick_cb_known s (inr (req, here)) = ground arith

  -- What is published, or thrown where Redis does not reply.
  timer_cb_known :
      (s : AlgoEngine D) (e : TradingEngine D)
      → contains s.mkt_data_symbol e.last_ticks ≡ true
      → ((t : AlgoEngine D) × (timer_cb true s e ≡ ok t)) × (timer_cb false s e ≡ err runtime_error)
  unfolding timer_cb Trading.get_last_tick calm_trading_system.Market.get_last_tick
  timer_cb_known s e h =
      let (u, there) = contains-cases s.mkt_data_symbol e.last_ticks h in
      (
        elim (Result-cases (timer_cb true s e)) [
          | inl (t, done) ↦ (t, done)
          | inr (x, bad) ↦ ground arith
        ],
        ground arith,
      )

  -- A request becomes an order of the client library.
  pub generate_ib_order_ok :
      (q : Decimals D) (req : OrderReq D) → (o : IbOrder D) × (generate_ib_order q req ≡ ok o)
  unfolding generate_ib_order
  generate_ib_order_ok q req =
      let (a, acts) = action_word req.action in
      let (t, types) = order_type_word req.order_type in
      elim (Result-cases (generate_ib_order q req)) [
        | inl (o, done) ↦ (o, done)
        | inr (x, bad) ↦ ground arith
      ]

  -- Whether the risk manager lets it through or not, a request for a symbol that can be read returns.
  trading_ok :
      (q : Decimals D) (req : OrderReq D) (c : Contract) (e : TradingEngine D)
      → generate_contract req.symbol ≡ ok c
      → (r : ℤ × TradingEngine D) × (Trading.send_order q req e ≡ ok r)
  unfolding Trading.send_order Orders.send_order
  trading_ok q req c e good =
      let (o, built) = generate_ib_order_ok q req in
      elim (Result-cases (Trading.send_order q req e)) [
        | inl (r, done) ↦ (r, done)
        | inr (x, bad) ↦ elim (Bool-cases (check_risk req e.portfolio e.risk_manager).0) [
          | inl passed ↦ ground arith
          | inr refused ↦ ground arith
        ]
      ]

  send_order_ok :
      (q : Decimals D) (symbol : String) (quantity : D) (t : OrderType) (s : AlgoEngine D)
      (c : Contract) (e : TradingEngine D)
      → generate_contract symbol ≡ ok c
      → (r : AlgoEngine D × TradingEngine D) × (send_order q symbol quantity t s e ≡ ok r)
  unfolding send_order
  send_order_ok q symbol quantity t s c e good =
      let ((id, g), sent) = trading_ok q (request symbol quantity) c e good in
      elim (Result-cases (send_order q symbol quantity t s e)) [
        | inl (r, done) ↦ (r, done)
        | inr (x, bad) ↦ ground arith
      ]

  defer_pos-IsLate :
      (p : PosUpdate D) (s : AlgoEngine D) (e : TradingEngine D) (x : Error)
      → IsKnown s
      → ltb_ℤ (pos 0) s.inflight_order_id ≡ true
      → defer_pos p s e ≡ err x
      → IsLate s x
  unfolding defer_pos
  defer_pos-IsLate p s e x (inl none_now) busy h = (ground arith, busy, ground arith)
  defer_pos-IsLate p s e x (inr (req, here)) busy h = elim (Bool-cases s.order_cancelled) [
    | inl cancelled ↦ (ground arith, busy, cancelled)
    | inr first ↦ ground arith
  ]

  module _ (q : Decimals D) where
    update_pos_cb-IsLate :
        (p : PosUpdate D) (s : AlgoEngine D) (e : TradingEngine D) (c : Contract) (x : Error)
        → IsKnown s
        → generate_contract s.order_symbol ≡ ok c
        → update_pos_cb q p s e ≡ err x
        → IsLate s x
    unfolding update_pos_cb
    update_pos_cb-IsLate p s e c x k good h =
        elim (Bool-cases (ltb_ℤ (pos 0) s.inflight_order_id)) [
          | inl busy ↦ defer_pos-IsLate p s e x k busy (ground arith)
          | inr idle ↦
              let diff = p.position ⊖ s.curr_pos in
              let t : AlgoEngine D = record s { target_pos = p.position } in
              let (r, sent) = send_order_ok q s.order_symbol diff market t c e good in
              (ground arith, ground arith, ground arith)
        ]

    -- If no order is in flight or one that was asked for, and market data has been subscribed to, and the order
    -- symbol can be read: a handler throws only when the order in flight has been cancelled and a new position comes, or when Redis does not
    -- reply to a message.
    pub act-IsLate :
        (answers : Bool) (event : Event D) (s : AlgoEngine D) (e : TradingEngine D) (c : Contract)
        (x : Error)
        → IsKnown s
        → contains s.mkt_data_symbol e.last_ticks ≡ true
        → generate_contract s.order_symbol ≡ ok c
        → act q answers event s e ≡ err x
        → IsLate s x ⊎ IsUnanswered answers event x
    unfolding act
    act-IsLate answers (tick t) s e c x k there good h = let done = tick_cb_known s k in cc
    act-IsLate answers (timer t) s e c x k there good h =
        let ((u, done), bad) = timer_cb_known s e there in
        elim (Bool-cases answers) [
          | inl replied ↦ ground arith
          | inr silent ↦ inr (ground arith, silent, (t, refl))
        ]
    act-IsLate answers (pos_update p) s e c x k there good h =
        inl (update_pos_cb-IsLate p s e c x k good h)
    act-IsLate answers engine_stop s e c x k there good h = cc
    act-IsLate answers _ s e c x k there good h = cc

    pub action_round-IsLate :
        (answers : Bool) (event : Event D) (s : AlgoEngine D) (e : TradingEngine D) (c : Contract)
        (x : Error)
        → IsKnown s
        → contains s.mkt_data_symbol e.last_ticks ≡ true
        → generate_contract s.order_symbol ≡ ok c
        → action_round q answers event s e ≡ err x
        → IsLate s x ⊎ ((try_pop event s.q).0 ≡ true) × IsUnanswered answers (try_pop event s.q).1 x
    unfolding action_round
    action_round-IsLate answers event s e c x k there good h =
        let popped = try_pop event s.q in
        let t : AlgoEngine D = record s { q = popped.2 } in
        elim (Bool-cases popped.0) [
          | inr idle ↦ ground arith
          | inl got ↦ elim (Result-cases (act q answers popped.1 t e)) [
            | inl ((u, g), done) ↦ ground arith
            | inr (y, bad) ↦
                let same : y ≡ x = ground arith in
                elim (act-IsLate answers popped.1 t e c y k there good bad) [
                  | inl late ↦ inl (subst (IsLate s) same late)
                  | inr silent ↦ inr (got, subst (IsUnanswered answers popped.1) same silent)
                ]
          ]
        ]
