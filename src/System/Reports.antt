-- ===== src/System/Reports.antt =====
-- What an action of the algo's thread (lib/algo/algo_engine.cpp) does to the gateway and to the portfolio.
use calm_trading_system.Base.{
  Bool, ℤ, pos, ltb_ℤ, ℤ_eq, String, string_eq, ◌≡◌, sym, ap, subst, Bool-cases, Result-cases, inl,
  inr, ok, arith,
}
use calm_trading_system.Double.{Double, ◌⊖◌}
use calm_trading_system.Objects.{OrderReq, PosUpdate, Event, engine_stop, tick, timer, pos_update}
use calm_trading_system.Objects.Enums.{OrderType, market}
use calm_trading_system.Queue.{try_pop}
use calm_trading_system.Gateway.{Decimals}
use calm_trading_system.Gateway.Machine.{second_or}
use calm_trading_system.Gateway.Orders
use calm_trading_system.Gateway.Book.{IsFiled, Follows}
use calm_trading_system.Gateway.Reports.{quiet, send_order-Follows}
use calm_trading_system.Portfolio.{Portfolio, get_algo_pnl}
use calm_trading_system.Risk.{RiskManager, check_risk}
use calm_trading_system.Trading
use calm_trading_system.Trading.{TradingEngine}
use calm_trading_system.Algo.{AlgoEngine}
use calm_trading_system.Algo.Actions
use calm_trading_system.Algo.Actions.{
  request, send_order, defer_pos, update_pos_cb, tick_cb, timer_cb, act, action_round,
}

module _ {D : Type 0} ⦃d : Double D⦄ where
  -- The gateway goes on as it may, and the portfolio keeps its queue, its orders, its positions and whether it runs.
  pub record Touches (e f : TradingEngine D) : Type 0 where
    pub follows : Follows e.api f.api
    pub queue-eq : f.portfolio.q ≡ e.portfolio.q
    pub orders-eq : f.portfolio.active_orders ≡ e.portfolio.active_orders
    pub positions-eq : f.portfolio.algo_portfolio ≡ e.portfolio.algo_portfolio

  untouched :
      (e f : TradingEngine D)
      → IsFiled e.api
      → f.api ≡ e.api
      → f.portfolio ≡ e.portfolio
      → Touches e f
  untouched e f filed a p = record {
    follows = quiet e.api f.api filed (ap (λ s. s.orders) a) (ap (λ s. s.published) a);
    queue-eq = ap (λ s. s.q) p;
    orders-eq = ap (λ s. s.active_orders) p;
    positions-eq = ap (λ s. s.algo_portfolio) p;
  }

  check_risk-queue :
      (req : OrderReq D) (p : Portfolio D) (r : RiskManager D)
      → ((check_risk req p r).2.q ≡ p.q)
        × ((check_risk req p r).2.active_orders ≡ p.active_orders)
        × ((check_risk req p r).2.algo_portfolio ≡ p.algo_portfolio)
  unfolding check_risk get_algo_pnl
  check_risk-queue req p r = ground arith

  engine_sends :
      (q : Decimals D) (req : OrderReq D) (e f : TradingEngine D) (id : ℤ)
      → IsFiled e.api
      → Trading.send_order q req e ≡ ok (id, f)
      → Touches e f
  unfolding Trading.send_order
  engine_sends q req e f id filed h =
      let kept = check_risk-queue req e.portfolio e.risk_manager in
      elim (Bool-cases (check_risk req e.portfolio e.risk_manager).0) [
        | inr refused ↦
            let same : f.api ≡ e.api = ground arith in
            record {
              follows =
                  quiet e.api f.api filed (ap (λ s. s.orders) same) (ap (λ s. s.published) same);
              queue-eq = ground (arith, kept);
              orders-eq = ground (arith, kept);
              positions-eq = ground (arith, kept);
            }
        | inl passed ↦ elim (Result-cases (Orders.send_order q req e.api)) [
          | inr (x, bad) ↦ ground arith
          | inl ((n, api), sent) ↦
              let now : f.api ≡ second_or e.api (Orders.send_order q req e.api) = ground arith in
              record {
                follows = subst (Follows e.api) (sym now) (send_order-Follows q req e.api filed);
                queue-eq = ground (arith, kept);
                orders-eq = ground (arith, kept);
                positions-eq = ground (arith, kept);
              }
        ]
      ]

  algo_sends :
      (q : Decimals D) (symbol : String) (quantity : D) (t : OrderType) (s s' : AlgoEngine D)
      (e f : TradingEngine D)
      → IsFiled e.api
      → send_order q symbol quantity t s e ≡ ok (s', f)
      → Touches e f
  unfolding send_order
  algo_sends q symbol quantity t s s' e f filed h =
      elim (Result-cases (Trading.send_order q (request symbol quantity) e)) [
        | inr (x, bad) ↦ ground arith
        | inl ((n, g), sent) ↦
            let same : g ≡ f = ground arith in
            subst (Touches e) same (engine_sends q (request symbol quantity) e g n filed sent)
      ]

  deferred :
      (p : PosUpdate D) (s s' : AlgoEngine D) (e f : TradingEngine D)
      → IsFiled e.api
      → defer_pos p s e ≡ ok (s', f)
      → Touches e f
  unfolding defer_pos Trading.cancel_order
  deferred p s s' e f filed h = record {
    follows = quiet e.api f.api filed (ground arith) (ground arith);
    queue-eq = ground arith;
    orders-eq = ground arith;
    positions-eq = ground arith;
  }

  act-Touches :
      (q : Decimals D) (answers : Bool) (event : Event D) (s s' : AlgoEngine D)
      (e f : TradingEngine D)
      → IsFiled e.api
      → act q answers event s e ≡ ok (s', f)
      → Touches e f
  unfolding act update_pos_cb
  act-Touches q answers (pos_update p) s s' e f filed h =
      elim (Bool-cases (ltb_ℤ (pos 0) s.inflight_order_id)) [
        | inl busy ↦ deferred p s s' e f filed (rw busy at h)
        | inr idle ↦
            let s1 : AlgoEngine D = record s { target_pos = p.position } in
            let diff = p.position ⊖ s.curr_pos in
            elim (Bool-cases (Actions.is_due diff)) [
              | inl due ↦ algo_sends q s.order_symbol diff market s1 s' e f filed (ground arith)
              | inr not_due ↦
                  let same : f ≡ e = ground arith in
                  untouched e f filed (ap (λ t. t.api) same) (ap (λ t. t.portfolio) same)
            ]
      ]
  act-Touches q answers (tick t) s s' e f filed h = elim (Result-cases (tick_cb s)) [
    | inl (s1, done) ↦
        let same : f ≡ e = ground arith in
        untouched e f filed (ap (λ t. t.api) same) (ap (λ t. t.portfolio) same)
    | inr (x, bad) ↦ ground arith
  ]
  act-Touches q answers (timer t) s s' e f filed h = elim (Result-cases (timer_cb answers s e)) [
    | inl (s1, done) ↦
        let same : f ≡ e = ground arith in
        untouched e f filed (ap (λ t. t.api) same) (ap (λ t. t.portfolio) same)
    | inr (x, bad) ↦ ground arith
  ]
  act-Touches q answers engine_stop s s' e f filed h =
      let same : f ≡ e = ground arith in
      untouched e f filed (ap (λ t. t.api) same) (ap (λ t. t.portfolio) same)
  act-Touches q answers _ s s' e f filed h =
      let same : f ≡ e = ground arith in
      untouched e f filed (ap (λ t. t.api) same) (ap (λ t. t.portfolio) same)

  pub action_round-Touches :
      (q : Decimals D) (answers : Bool) (event event' : Event D) (s s' : AlgoEngine D)
      (e f : TradingEngine D)
      → IsFiled e.api
      → action_round q answers event s e ≡ ok (event', s', f)
      → Touches e f
  unfolding action_round
  action_round-Touches q answers event event' s s' e f filed h =
      elim (Bool-cases (try_pop event s.q).0) [
        | inr idle ↦
            let same : f ≡ e = ground arith in
            untouched e f filed (ap (λ t. t.api) same) (ap (λ t. t.portfolio) same)
        | inl got ↦
            let popped = try_pop event s.q in
            elim (Result-cases (act q answers popped.1 (record s { q = popped.2 }) e)) [
              | inr (x, bad) ↦ ground arith
              | inl ((s1, g), done) ↦
                  let same : g ≡ f = ground arith in
                  subst (Touches e) same
                    (act-Touches q answers popped.1 (record s { q = popped.2 }) s1 e g filed done)
            ]
      ]
