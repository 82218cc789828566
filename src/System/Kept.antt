-- ===== src/System/Kept.antt =====
-- The books of the portfolio through runs of the threads of `Trader` (lib/core/trader.h).
use calm_trading_system.Base.{
  Bool, ℤ_eq, string_eq, nat_eq, ◌≡◌, refl, sym, subst, Bool-cases, Result-cases, inl, inr, List,
  [], ◌∷◌, All, ok, arith,
}
use calm_trading_system.Double.{Double, IsExact}
use calm_trading_system.Gateway.{Decimals}
use calm_trading_system.Gateway.Machine
use calm_trading_system.Gateway.Machine.{attempt-step}
use calm_trading_system.Gateway.Book.{Follows}
use calm_trading_system.Gateway.Life.{step-Follows}
use calm_trading_system.Trading.{TradingEngine}
use calm_trading_system.Algo.Actions
use calm_trading_system.System.Agreement.{Agrees}
use calm_trading_system.System.Flow.{step-Agrees}
use calm_trading_system.System.Reports.{action_round-Touches}
use calm_trading_system.System.Told.{IsTold}
use calm_trading_system.System.Machine.{
  System, Action, broker, clock, strategy, engine_turn, portfolio_turn, algo_turn, listener_lost,
  recorder_turn, with_api, trading_of, with_trading, engine_round, main_round, message,
  portfolio_round, algo_round, step, run,
}
use calm_trading_system.System.Accounts.{AreAccounts, with_api-AreAccounts, unmoved-AreAccounts}
use calm_trading_system.System.Bookkeeping.{
  engine_round-AreAccounts, portfolio_round-AreAccounts, main_round-AreAccounts,
  recorder_round-AreAccounts,
}

module _ {D : Type 0} ⦃d : Double D⦄ (q : Decimals D) (x : IsExact D) where
  -- An algo's action, as the rest of the system sees it.
  pub with_trading-AreAccounts :
      (s : System D) (e : TradingEngine D)
      → Follows s.api e.api
      → e.portfolio.q ≡ s.world.portfolio.q
      → e.portfolio.active_orders ≡ s.world.portfolio.active_orders
      → e.portfolio.algo_portfolio ≡ s.world.portfolio.algo_portfolio
      → AreAccounts x s
      → AreAccounts x (with_trading e s)
  unfolding with_trading
  with_trading-AreAccounts s e f queue orders positions k =
      let t : System D = record s {
        world = record s.world {
          last_ticks = e.last_ticks;
          portfolio = e.portfolio;
          risk_manager = e.risk_manager;
        };
      } in
      with_api-AreAccounts x t e.api f (
        unmoved-AreAccounts x s t refl refl positions orders
          (subst (All (IsTold s.api)) (sym queue) k.queued) k.coming k)

  algo_round-AreAccounts :
      (answers : Bool) (s t : System D)
      → Agrees s
      → AreAccounts x s
      → algo_round q answers s ≡ ok t
      → AreAccounts x t
  unfolding algo_round
  algo_round-AreAccounts answers s t a k h = elim (Bool-cases s.world.algo_engine.running) [
    | inr off ↦ let same : s ≡ t = ground arith in subst (AreAccounts x) same k
    | inl on ↦
        elim (Result-cases
          (Actions.action_round q answers s.algo_event s.world.algo_engine (trading_of s))) [
            | inr (e, bad) ↦ ground arith
            | inl ((event, engine, e), done) ↦
                let touch =
                  action_round-Touches q answers s.algo_event event s.world.algo_engine engine
                    (trading_of s) e a.filed done in
                let s' : System D = record s {
                  algo_event = event;
                  world = record s.world { algo_engine = engine };
                } in
                let same : with_trading e s' ≡ t = ground arith in
                subst (AreAccounts x) same (
                  with_trading-AreAccounts s' e touch.follows touch.queue-eq touch.orders-eq
                    touch.positions-eq
                    (unmoved-AreAccounts x s s' refl refl refl refl k.queued k.coming k))
          ]
  ]

  step-AreAccounts :
      (act : Action D) (s t : System D)
      → Agrees s
      → AreAccounts x s
      → step q act s ≡ ok t
      → AreAccounts x t
  unfolding step
  step-AreAccounts (broker i) s t a k h = elim (Result-cases (Machine.attempt q i s.api)) [
    | inr (e, bad) ↦ ground arith
    | inl (api, done) ↦
        let same : with_api api s ≡ t = ground arith in
        let stepped = attempt-step q i s.api api done in
        subst (AreAccounts x) same (
          with_api-AreAccounts x s api
            (subst (Follows s.api) stepped (step-Follows q i s.api a.filed)) k)
  ]
  step-AreAccounts (clock now) s t a k h =
      let same : main_round now s ≡ t = ground arith in
      subst (AreAccounts x) same (main_round-AreAccounts x now s k)
  step-AreAccounts (strategy m) s t a k h =
      let same : message m s ≡ t = ground arith in
      subst (AreAccounts x) same
        (unmoved-AreAccounts x s (message m s) refl refl refl refl k.queued k.coming k)
  step-AreAccounts engine_turn s t a k h =
      let same : engine_round s ≡ t = ground arith in
      subst (AreAccounts x) same (engine_round-AreAccounts x s a k)
  step-AreAccounts portfolio_turn s t a k h =
      let same : portfolio_round s ≡ t = ground arith in
      subst (AreAccounts x) same (portfolio_round-AreAccounts x s k)
  step-AreAccounts listener_lost s t a k h = cc
  step-AreAccounts (algo_turn answers) s t a k h = algo_round-AreAccounts answers s t a k h
  step-AreAccounts (recorder_turn inserts) s t a k h = recorder_round-AreAccounts x inserts s t k h

  pub run-AreAccounts :
      (acts : List (Action D)) (s t : System D)
      → Agrees s
      → AreAccounts x s
      → run q acts s ≡ ok t
      → AreAccounts x t
  unfolding run
  run-AreAccounts [] s t a k h = let same : s ≡ t = ground arith in subst (AreAccounts x) same k
  run-AreAccounts (act ∷ acts) s t a k h = elim (Result-cases (step q act s)) [
    | inl (u, done) ↦
        run-AreAccounts acts u t (step-Agrees q act s u a done) (step-AreAccounts act s u a k done)
          (ground arith)
    | inr (e, bad) ↦ ground arith
  ]
