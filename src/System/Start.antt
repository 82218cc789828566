-- ===== src/System/Start.antt =====
-- `Trader` (lib/core/trader.h) from its construction on.
use mathlib.Core.List.Permᴰ
use calm_trading_system.Base.{
  contains, ℕ, ℤ, ℤ_eq, String, string_eq, ◌≡◌, refl, sym, ap, ◌∙◌, subst, Bool, true, false,
  nat_eq, Bool-cases, Result-cases, inl, inr, List, [], ◌∷◌, ◌++◌, Option, none, some, ok, arith,
  lookup, All,
}
use calm_trading_system.Double.{Double}
use calm_trading_system.Objects.{OrderData, Event, engine_stop, order}
use calm_trading_system.Gateway.{Decimals, Api}
use calm_trading_system.Gateway.Machine
use calm_trading_system.Gateway.Book.{IsFiled, Follows}
use calm_trading_system.Gateway.Life.{step-Follows}
use calm_trading_system.Events.{EventEngine, callbacks, handle, send, run_round}
use calm_trading_system.Market.{LastTicks}
use calm_trading_system.Portfolio.{
  ContractPos, Portfolio, entry, touch, order_data_cb, revalue, timer_cb, dispatch, action_round,
  pnl_events, event_engine_cb,
}
use calm_trading_system.Trading.{TradingEngine}
use calm_trading_system.Recorder
use calm_trading_system.System.Wiring.{listeners}
use calm_trading_system.System.Pending.{pending, in_portfolio, in_gateway, from_source}
use calm_trading_system.System.Machine.{System, Action, trading_of, with_trading, run}
use calm_trading_system.Gateway
use calm_trading_system.Gateway.Session
use calm_trading_system.Gateway.Ticks
use calm_trading_system.Gateway.Reports.{quiet}
use calm_trading_system.Gateway.Machine.{starts, subscribes}
use calm_trading_system.Events
use calm_trading_system.Market
use calm_trading_system.Trading
use calm_trading_system.Algo
use calm_trading_system.Algo.{AlgoConfig}
use calm_trading_system.Risk.{RiskManager}
use calm_trading_system.Portfolio
use calm_trading_system.System.Wiring.{construct_lem}
use calm_trading_system.System.Machine.{start, constructed}
use calm_trading_system.System.Agreement.{IsSeen, Agrees, Agrees-unmoved}
use calm_trading_system.System.Flow.{with_trading-Agrees, run-Agrees}

module _ {D : Type 0} where
  abbrev pub is_report : Event D → Bool
  is_report (order o) = true
  is_report _ = false

  no_report-IsSeen : (e : Event D) (p : Portfolio D) → is_report e ≡ false → IsSeen e p
  no_report-IsSeen (order o) p h = cc
  no_report-IsSeen engine_stop p h = tt
  no_report-IsSeen _ p h = tt

  none_pending :
      (algo : String) (id : ℤ) (es : List (Event D)) (old : Option (OrderData D))
      → All (λ e. is_report e ≡ false) es
      → pending algo id es old ≡ old
  none_pending algo id [] old f = refl
  none_pending algo id (order o ∷ es) old f = cc (f.0)
  none_pending algo id (engine_stop ∷ es) old f = none_pending algo id es old f.1
  none_pending algo id (_ ∷ es) old f = none_pending algo id es old f.1

module _ {D : Type 0} ⦃d : Double D⦄ (q : Decimals D) where
  -- The system before the algo engine starts.
  abbrev pub connected_to : Bool → System D → System D
  connected_to connected x = record x {
    engine = Events.start x.engine;
    world = record x.world {
      data_recorder = Recorder.start x.world.data_recorder;
      portfolio = Portfolio.start x.world.portfolio;
    };
    api = Session.start connected x.api;
  }

  pub no_orders :
      (connected : Bool) (cfg : AlgoConfig) (limits : RiskManager D) (event : Event D) (target : ℕ)
      → (connected_to connected (constructed cfg limits event target)).api.orders ≡ []
  unfolding constructed Session.start Gateway.init
  no_orders true cfg limits event target = refl
  no_orders false cfg limits event target = refl

  pub connected_to-Agrees :
      (connected : Bool) (cfg : AlgoConfig) (limits : RiskManager D) (event : Event D) (target : ℕ)
      → is_report event ≡ false
      → Agrees (connected_to connected (constructed cfg limits event target))
  unfolding constructed Algo.register_symbols Portfolio.add_to_portfolio
      Portfolio.add_market_data_mapping Portfolio.start Events.start lookup
  connected_to-Agrees connected cfg limits event target quiet =
      let none_yet = no_orders connected cfg limits event target in
      record {
        filed = λ id o h.
            let none_here : none ≡ some o = ap (lookup id) (sym none_yet) ∙ h in ground arith;
        wired = λ t. (listeners t, Permᴰ.refl (listeners t), construct_lem.0 t);
        seen = no_report-IsSeen event _ quiet;
        flow = λ algo id. ap (λ m. from_source algo (lookup id m)) (sym none_yet);
      }

  subscribed :
      (symbol : String) (delayed : Bool) (s t : Api D)
      → IsFiled s
      → Ticks.subscribe symbol delayed s ≡ ok t
      → Follows s t
  subscribed symbol delayed s t filed h =
      let same : Machine.step q (subscribes symbol delayed) s ≡ t =
        unfold Machine.step in rw h refl in
      subst (Follows s) same (step-Follows q (subscribes symbol delayed) s filed)

  pub trading_subscribed :
      (symbol : String) (delayed : Bool) (e f : TradingEngine D)
      → IsFiled e.api
      → Trading.subscribe symbol delayed e ≡ ok f
      → Follows e.api f.api × (f.portfolio ≡ e.portfolio)
  unfolding Trading.subscribe Market.subscribe
  trading_subscribed symbol delayed e f filed h = elim (Bool-cases (contains symbol e.last_ticks)) [
    | inl known ↦
        let same : e.api ≡ f.api = ground arith in
        (subst (Follows e.api) same (quiet e.api e.api filed refl refl), ground arith)
    | inr new ↦ elim (Result-cases (Ticks.subscribe symbol delayed e.api)) [
      | inr (x, bad) ↦ ground arith
      | inl (s, done) ↦
          let same : s ≡ f.api = ground arith in
          (subst (Follows e.api) same (subscribed symbol delayed e.api s filed done), ground arith)
    ]
  ]

  pub start-Agrees :
      (connected : Bool) (cfg : AlgoConfig) (limits : RiskManager D) (event : Event D) (target : ℕ)
      (x : System D)
      → is_report event ≡ false
      → start connected (constructed cfg limits event target) ≡ ok x
      → Agrees x
  unfolding start Algo.start
  start-Agrees connected cfg limits event target x quiet h =
      let y = connected_to connected (constructed cfg limits event target) in
      let a = connected_to-Agrees connected cfg limits event target quiet in
      elim (Result-cases
        (Trading.subscribe y.world.algo_engine.mkt_data_symbol false (trading_of y))) [
          | inr (e, bad) ↦ ground arith
          | inl (e, done) ↦
              let t =
                trading_subscribed y.world.algo_engine.mkt_data_symbol false (trading_of y) e
                  a.filed done in
              let z : System D = record y {
                world = record y.world {
                  algo_engine = record y.world.algo_engine { running = true };
                };
              } in
              let same : with_trading e z ≡ x = ground arith in
              subst Agrees same (
                with_trading-Agrees z e (Agrees-unmoved y z refl refl a.seen (λ algo id. refl) a)
                  t.0 (ap (λ p. p.q) t.1) (ap (λ p. p.active_orders) t.1))
        ]

  -- From the program's start, with thread variables that hold no report of an order, and through any actions of the
  -- threads after which the program still runs: for every algo and id, the order that the portfolio has, brought up
  -- to date by the reports in the portfolio's queue and then by those in the event engine's, is the
  -- gateway's order with the id, if that is of the algo.
  pub run-orders :
      (connected : Bool) (cfg : AlgoConfig) (limits : RiskManager D) (event : Event D) (target : ℕ)
      → (x : System D) (acts : List (Action D)) (y : System D) (algo : String) (id : ℤ)
      → is_report event ≡ false
      → start connected (constructed cfg limits event target) ≡ ok x
      → run q acts x ≡ ok y
      → pending algo id (y.world.portfolio.q ++ y.engine.q) (in_portfolio algo id y.world.portfolio)
        ≡ in_gateway algo id y.api
  run-orders connected cfg limits event target x acts y algo id quiet started ran =
      (run-Agrees q acts x y (start-Agrees connected cfg limits event target x quiet started)
          ran).flow
        algo id
