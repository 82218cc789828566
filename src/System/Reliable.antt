-- ===== src/System/Reliable.antt =====
-- What the algo engine (lib/algo/algo_engine.cpp) can rely on, from the start of `Trader` (lib/core/trader.h) on.
use calm_trading_system.Gateway.Machine
use calm_trading_system.Gateway.Machine.{
  Input, starts, stops, subscribes, status, sends, asks_details, asks_bars,
}
use calm_trading_system.Base.{
  ℕ, ℤ_eq, string_eq, ◌≡◌, refl, sym, ap, ◌∙◌, subst, Bool, true, false, nat_eq, Bool-cases,
  Result-cases, inl, inr, List, [], ◌∷◌, ok, arith,
}
use calm_trading_system.Double.{Double}
use calm_trading_system.Objects.{Event}
use calm_trading_system.Gateway.{Decimals}
use calm_trading_system.Gateway.Machine
use calm_trading_system.Market.{LastTicks}
use calm_trading_system.Trading.{TradingEngine}
use calm_trading_system.Algo.Actions
use calm_trading_system.System.Machine.{
  System, Action, broker, clock, strategy, engine_turn, portfolio_turn, algo_turn, listener_lost,
  recorder_turn, with_api, trading_of, with_trading, engine_round, main_round, message,
  portfolio_round, algo_round, step, run,
}
use calm_trading_system.Base.{contains}
use calm_trading_system.Risk.{RiskManager}
use calm_trading_system.Algo
use calm_trading_system.Algo.{AlgoConfig, AlgoEngine}
use calm_trading_system.Algo.Known.{IsKnown, action_round-Stays}
use calm_trading_system.Algo.Actions.{act}
use calm_trading_system.Market
use calm_trading_system.Trading
use calm_trading_system.Market.Subscribed.{contains-subscribe}
use calm_trading_system.System.Machine.{start, constructed}
use calm_trading_system.System.Agreement.{Agrees}
use calm_trading_system.System.Flow.{step-Agrees}
use calm_trading_system.System.Start.{connected_to}
use calm_trading_system.System.Soundness.{
  IsReliable, unmoved-IsReliable, heard-IsReliable, engine_round-world,
}
use calm_trading_system.System.Bystanders.{recorder_round-world, portfolio_round-world}

module _ {D : Type 0} ⦃d : Double D⦄ (q : Decimals D) (cfg : AlgoConfig) where
  algo_round-IsReliable :
      (answers : Bool) (x y : System D)
      → IsReliable cfg x.world
      → algo_round q answers x ≡ ok y
      → IsReliable cfg y.world
  unfolding algo_round with_trading with_api
  algo_round-IsReliable answers x y k h = elim (Bool-cases x.world.algo_engine.running) [
    | inr off ↦
        let same : x ≡ y = ground arith in subst (λ (v : System D). IsReliable cfg v.world) same k
    | inl on ↦
        elim (Result-cases
          (Actions.action_round q answers x.algo_event x.world.algo_engine (trading_of x))) [
            | inr (e, bad) ↦ ground arith
            | inl ((event, s, e), done) ↦
                let r =
                  action_round-Stays q answers x.algo_event event x.world.algo_engine s
                    (trading_of x) e k.known done in
                let z : System D = record x {
                  algo_event = event;
                  world = record x.world { algo_engine = s };
                } in
                let same : with_trading e z ≡ y = ground arith in
                subst (λ (v : System D). IsReliable cfg v.world) same
                  (record {
                    known = r.known;
                    cfg-eq = r.cfg-eq ∙ k.cfg-eq;
                    subscribed = ap (contains cfg.mkt_data_symbol) r.ticks-eq ∙ k.subscribed;
                  })
          ]
  ]

  step-IsReliable :
      (a : Action D) (x y : System D)
      → Agrees x
      → IsReliable cfg x.world
      → step q a x ≡ ok y
      → IsReliable cfg y.world
  unfolding step with_api main_round Algo.mq_message_cb
  step-IsReliable (broker i) x y g k h = elim (Result-cases (Machine.attempt q i x.api)) [
    | inr (e, bad) ↦ ground arith
    | inl (api, done) ↦
        let same : with_api api x ≡ y = ground arith in
        subst (λ (v : System D). IsReliable cfg v.world) same k
  ]
  step-IsReliable (clock now) x y g k h =
      let same : main_round now x ≡ y = ground arith in
      subst (λ (v : System D). IsReliable cfg v.world) same k
  step-IsReliable (strategy m) x y g k h =
      let same : message m x ≡ y = ground arith in
      subst (λ (v : System D). IsReliable cfg v.world) same
        (unmoved-IsReliable cfg x.world (message m x).world k refl refl refl refl)
  step-IsReliable engine_turn x y g k h =
      let same : engine_round x ≡ y = ground arith in
      elim (engine_round-world x g) [
        | inl still ↦ subst (IsReliable cfg) (sym still ∙ ap (λ v. v.world) same) k
        | inr (e, told) ↦
            subst (IsReliable cfg) (sym told ∙ ap (λ v. v.world) same)
              (heard-IsReliable cfg e x.world k)
      ]
  step-IsReliable portfolio_turn x y g k h =
      let same : portfolio_round x ≡ y = ground arith in
      let w = portfolio_round-world x in
      subst (λ (v : System D). IsReliable cfg v.world) same
        (unmoved-IsReliable cfg x.world (portfolio_round x).world k
          (ap (λ s. s.inflight_order_id) w.0) (ap (λ s. s.order_reqs) w.0) (ap (λ s. s.cfg) w.0)
          w.1)
  step-IsReliable listener_lost x y g k h = cc
  step-IsReliable (algo_turn answers) x y g k h = algo_round-IsReliable answers x y k h
  step-IsReliable (recorder_turn inserts) x y g k h =
      let w = recorder_round-world inserts x y h in
      unmoved-IsReliable cfg x.world y.world k (ap (λ s. s.inflight_order_id) w.0)
        (ap (λ s. s.order_reqs) w.0) (ap (λ s. s.cfg) w.0) w.1

  pub run-IsReliable :
      (acts : List (Action D)) (x y : System D)
      → Agrees x
      → IsReliable cfg x.world
      → run q acts x ≡ ok y
      → IsReliable cfg y.world
  unfolding run
  run-IsReliable [] x y g k h =
      let same : x ≡ y = ground arith in subst (λ (v : System D). IsReliable cfg v.world) same k
  run-IsReliable (a ∷ acts) x y g k h = elim (Result-cases (step q a x)) [
    | inl (z, done) ↦
        run-IsReliable acts z y (step-Agrees q a x z g done) (step-IsReliable a x z g k done)
          (ground arith)
    | inr (e, bad) ↦ ground arith
  ]

  pub start-IsReliable :
      (connected : Bool) (limits : RiskManager D) (event : Event D) (target : ℕ) (x : System D)
      → start connected (constructed cfg limits event target) ≡ ok x
      → IsReliable cfg x.world
  unfolding start constructed Algo.start Algo.init with_trading with_api Trading.subscribe
  start-IsReliable connected limits event target x h =
      let y = connected_to q connected (constructed cfg limits event target) in
      elim (Result-cases (Market.subscribe cfg.mkt_data_symbol false y.world.last_ticks y.api)) [
        | inr (e, bad) ↦ ground arith
        | inl ((ticks, api), done) ↦
            let there =
              contains-subscribe cfg.mkt_data_symbol false y.world.last_ticks ticks y.api api
                done in
            let engine : x.world.algo_engine ≡ record y.world.algo_engine { running = true } =
              ground arith in
            let table : x.world.last_ticks ≡ ticks = ground arith in
            record {
              known = subst IsKnown (sym engine) (inl refl);
              cfg-eq = ap (λ s. s.cfg) engine;
              subscribed = ap (contains cfg.mkt_data_symbol) table ∙ there;
            }
      ]
