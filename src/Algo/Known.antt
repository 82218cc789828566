-- ===== src/Algo/Known.antt =====
-- What the handlers of the action thread of lib/algo/algo_engine.cpp keep.
use calm_trading_system.Base.{
  String, string_eq, ℤ, pos, ℤ_eq, beq_ℤ_iff, ltb_ℤ, contains, lookup, insert, lookup-insert, true,
  ◌≡◌, refl, sym, ap, ◌∙◌, subst, ◌⊎◌, Bool-cases, Result-cases, inl, inr, some, ok, arith,
}
use calm_trading_system.Double.{Double, ◌⊖◌}
use calm_trading_system.Objects.{
  OrderData, OrderReq, PosUpdate, Event, engine_stop, tick, order, timer, pos_update,
}
use calm_trading_system.Objects.Enums.{OrderType, market}
use calm_trading_system.Gateway.{Decimals}
use calm_trading_system.Gateway.Orders
use calm_trading_system.Risk.{check_risk}
use calm_trading_system.Trading
use calm_trading_system.Trading.{TradingEngine}
use calm_trading_system.Base.{Bool}
use calm_trading_system.Algo.{AlgoEngine}
use calm_trading_system.Queue.{try_pop}
use calm_trading_system.Algo.Actions.{
  request, send_order, defer_pos, update_pos_cb, order_cb, tick_cb, timer_cb, act, action_round,
  is_due, note_order, is_active,
}

module _ {D : Type 0} where
  -- No order is in flight, or one that was asked for.
  abbrev pub IsKnown : AlgoEngine D → Type 0
  IsKnown s =
      (ltb_ℤ s.inflight_order_id (pos 0) ≡ true)
      ⊎ ((r : OrderReq D) × (lookup s.inflight_order_id s.order_reqs ≡ some r))

  -- What a handler keeps.
  pub record Stays (s : AlgoEngine D) (e : TradingEngine D) (t : AlgoEngine D) (f : TradingEngine D)
      : Type 0 where
    pub known : IsKnown t
    pub cfg-eq : t.cfg ≡ s.cfg
    pub ticks-eq : f.last_ticks ≡ e.last_ticks

module _ {D : Type 0} ⦃d : Double D⦄ where
  unmoved-Stays :
      (s t : AlgoEngine D) (e f : TradingEngine D)
      → IsKnown s
      → t.inflight_order_id ≡ s.inflight_order_id
      → t.order_reqs ≡ s.order_reqs
      → t.cfg ≡ s.cfg
      → f.last_ticks ≡ e.last_ticks
      → Stays s e t f
  unmoved-Stays s t e f k i r c l = record { known = same k; cfg-eq = c; ticks-eq = l }
    where
      same : IsKnown s → IsKnown t
      same (inl none_now) = inl (ap (λ n. ltb_ℤ n (pos 0)) i ∙ none_now)
      same (inr (req, here)) =
          inr (req, ap (λ n. lookup n t.order_reqs) i ∙ ap (lookup s.inflight_order_id) r ∙ here)

  pub tick_cb-ok : (s t : AlgoEngine D) → tick_cb s ≡ ok t → t ≡ s
  unfolding tick_cb
  tick_cb-ok s t h = ground arith

  trading_ticks :
      (q : Decimals D) (req : OrderReq D) (e f : TradingEngine D) (id : ℤ)
      → Trading.send_order q req e ≡ ok (id, f)
      → f.last_ticks ≡ e.last_ticks
  unfolding Trading.send_order
  trading_ticks q req e f id h = elim (Bool-cases (check_risk req e.portfolio e.risk_manager).0) [
    | inr refused ↦ ground arith
    | inl passed ↦ elim (Result-cases (Orders.send_order q req e.api)) [
      | inl ((n, api), sent) ↦ ground arith
      | inr (x, bad) ↦ ground arith
    ]
  ]

  send_order-Stays :
      (q : Decimals D) (symbol : String) (quantity : D) (t : OrderType) (s s' : AlgoEngine D)
      (e f : TradingEngine D)
      → IsKnown s
      → send_order q symbol quantity t s e ≡ ok (s', f)
      → Stays s e s' f
  unfolding send_order
  send_order-Stays q symbol quantity t s s' e f k h =
      elim (Result-cases (Trading.send_order q (request symbol quantity) e)) [
        | inr (x, bad) ↦ ground arith
        | inl ((id, g), sent) ↦
            let ticks = trading_ticks q (request symbol quantity) e g id sent in
            elim (Bool-cases (ltb_ℤ (pos 0) id)) [
              | inr refused ↦
                  unmoved-Stays s s' e f k (ground arith) (ground arith) (ground arith)
                    (ground (arith, ticks))
              | inl placed ↦
                  let req = request symbol quantity in
                  let noted : s' ≡ note_order id quantity req s = ground arith in
                  let there : lookup id (insert id req s.order_reqs) ≡ some req =
                    ground (arith, lookup-insert id id req s.order_reqs, beq_ℤ_iff id id) in
                  record {
                    known = subst IsKnown (sym noted) (inr (req, there));
                    cfg-eq = ap (λ v. v.cfg) noted;
                    ticks-eq = ground (arith, ticks);
                  }
            ]
      ]

  order_cb-Stays :
      (o : OrderData D) (s : AlgoEngine D) (e : TradingEngine D)
      → IsKnown s
      → Stays s e (order_cb o s) e
  unfolding order_cb
  order_cb-Stays o s e k = elim (Bool-cases (contains o.order_id s.order_status)) [
    | inr other ↦ unmoved-Stays s _ e e k (ground arith) (ground arith) (ground arith) refl
    | inl own ↦ elim (Bool-cases (is_active o)) [
      | inl active ↦ unmoved-Stays s _ e e k (ground arith) (ground arith) (ground arith) refl
      | inr over ↦ record { known = inl (ground arith); cfg-eq = ground arith; ticks-eq = refl }
    ]
  ]

  defer_pos-Stays :
      (p : PosUpdate D) (s s' : AlgoEngine D) (e f : TradingEngine D)
      → IsKnown s
      → defer_pos p s e ≡ ok (s', f)
      → Stays s e s' f
  unfolding defer_pos Trading.cancel_order
  defer_pos-Stays p s s' e f k h =
      unmoved-Stays s s' e f k (ground arith) (ground arith) (ground arith) (ground arith)

  module _ (q : Decimals D) where
    update_pos_cb-Stays :
        (p : PosUpdate D) (s s' : AlgoEngine D) (e f : TradingEngine D)
        → IsKnown s
        → update_pos_cb q p s e ≡ ok (s', f)
        → Stays s e s' f
    unfolding update_pos_cb
    update_pos_cb-Stays p s s' e f k h = elim (Bool-cases (ltb_ℤ (pos 0) s.inflight_order_id)) [
      | inl busy ↦ defer_pos-Stays p s s' e f k (ground arith)
      | inr idle ↦
          let diff = p.position ⊖ s.curr_pos in
          let t : AlgoEngine D = record s { target_pos = p.position } in
          elim (Bool-cases (is_due diff)) [
            | inl due ↦
                let r = send_order-Stays q s.order_symbol diff market t s' e f k (ground arith) in
                record { known = r.known; cfg-eq = r.cfg-eq; ticks-eq = r.ticks-eq }
            | inr not_due ↦
                unmoved-Stays s s' e f k (ground arith) (ground arith) (ground arith) (ground arith)
          ]
    ]

    pub act-Stays :
        (answers : Bool) (event : Event D) (s s' : AlgoEngine D) (e f : TradingEngine D)
        → IsKnown s
        → act q answers event s e ≡ ok (s', f)
        → Stays s e s' f
    unfolding act timer_cb
    act-Stays answers (tick t) s s' e f k h = elim (Result-cases (tick_cb s)) [
      | inl (u, done) ↦
          let same = tick_cb-ok s u done in
          unmoved-Stays s s' e f k (ground (arith, same)) (ground (arith, same))
            (ground (arith, same)) (ground (arith, same))
      | inr (x, bad) ↦ ground arith
    ]
    act-Stays answers (timer t) s s' e f k h =
        unmoved-Stays s s' e f k (ground arith) (ground arith) (ground arith) (ground arith)
    act-Stays answers (pos_update p) s s' e f k h = update_pos_cb-Stays p s s' e f k h
    act-Stays answers (order o) s s' e f k h =
        let there : (order_cb o s, e) ≡ (s', f) = ground arith in
        subst (λ (v : AlgoEngine D × TradingEngine D). Stays s e v.0 v.1) there
          (order_cb-Stays o s e k)
    act-Stays answers engine_stop s s' e f k h =
        unmoved-Stays s s' e f k (ground arith) (ground arith) (ground arith) (ground arith)
    act-Stays answers _ s s' e f k h =
        unmoved-Stays s s' e f k (ground arith) (ground arith) (ground arith) (ground arith)

    pub action_round-Stays :
        (answers : Bool) (event event' : Event D) (s s' : AlgoEngine D) (e f : TradingEngine D)
        → IsKnown s
        → action_round q answers event s e ≡ ok (event', s', f)
        → Stays s e s' f
    unfolding action_round
    action_round-Stays answers event event' s s' e f k h =
        let popped = try_pop event s.q in
        let t : AlgoEngine D = record s { q = popped.2 } in
        elim (Bool-cases popped.0) [
          | inr idle ↦
              unmoved-Stays s s' e f k (ground arith) (ground arith) (ground arith) (ground arith)
          | inl got ↦ elim (Result-cases (act q answers popped.1 t e)) [
            | inr (x, bad) ↦ ground arith
            | inl ((u, g), done) ↦
                let r = act-Stays answers popped.1 t u e g k done in
                let there : (u, g) ≡ (s', f) = ground arith in
                let kept : Stays s e u g = record {
                  known = r.known;
                  cfg-eq = r.cfg-eq;
                  ticks-eq = r.ticks-eq;
                } in
                subst (λ (v : AlgoEngine D × TradingEngine D). Stays s e v.0 v.1) there kept
          ]
        ]
