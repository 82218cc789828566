-- ===== src/System/Flow.antt =====
-- Every action of a thread of `Trader` (lib/core/trader.h), and every run.
use calm_trading_system.Base.{
  ℕ, ℤ_eq, string_eq, ◌≡◌, refl, sym, ap, ◌∙◌, subst, Bool, nat_eq, Bool-cases, Result-cases, inl,
  inr, List, [], ◌∷◌, ◌++◌, append_assoc, Option, none, some, ok, arith, lookup,
}
use calm_trading_system.Double.{Double}
use calm_trading_system.Objects.{timer, Timer}
use calm_trading_system.Gateway.{Decimals}
use calm_trading_system.Gateway.Machine
use calm_trading_system.Gateway.Machine.{attempt-step}
use calm_trading_system.Gateway.Book.{Follows}
use calm_trading_system.Gateway.Life.{step-Follows}
use calm_trading_system.Events.{send}
use calm_trading_system.Portfolio.{entry}
use calm_trading_system.Trading.{TradingEngine}
use calm_trading_system.Algo.Actions
use calm_trading_system.Recorder
use calm_trading_system.Trader.{send_timer}
use calm_trading_system.System.Pending.{pending, in_portfolio, pending-append}
use calm_trading_system.System.Reports.{action_round-Touches}
use calm_trading_system.System.Machine.{
  System, Action, broker, clock, strategy, engine_turn, portfolio_turn, algo_turn, listener_lost,
  recorder_turn, with_api, trading_of, with_trading, engine_round, main_round, recorder_round,
  message, portfolio_round, algo_round, step, run,
}
use calm_trading_system.Gateway.Machine.{starts, subscribes}
use calm_trading_system.System.Agreement.{Agrees, Agrees-unmoved, IsSeen-portfolio, with_api-Agrees}
use calm_trading_system.System.Rounds.{engine_round-Agrees}
use calm_trading_system.System.Posting.{portfolio_round-Agrees}

module _ {D : Type 0} where
  main_round-Agrees : (now : ℕ) (x : System D) → Agrees x → Agrees (main_round now x)
  unfolding main_round send
  main_round-Agrees now x a = by_timer (send_timer now x.target).1 refl
    where
      by_timer :
          (sent : Option Timer) → (send_timer now x.target).1 ≡ sent → Agrees (main_round now x)
      by_timer none h =
          subst
            (λ l. Agrees (record x {
              target = (send_timer now x.target).0;
              engine = elim l [ none ↦ x.engine | some t ↦ send (timer t) x.engine ];
            }))
            (sym h) (Agrees-unmoved x _ refl refl a.seen (λ algo id. refl) a)
      by_timer (some t) h =
          subst
            (λ l. Agrees (record x {
              target = (send_timer now x.target).0;
              engine = elim l [ none ↦ x.engine | some u ↦ send (timer u) x.engine ];
            }))
            (sym h)
            (Agrees-unmoved x _ refl refl a.seen
              (λ algo id.
                let old = in_portfolio algo id x.world.portfolio in
                ap (λ l. pending algo id l old)
                  (sym (append_assoc x.world.portfolio.q x.engine.q (timer t ∷ [])))
                ∙ pending-append algo id (x.world.portfolio.q ++ x.engine.q) (timer t ∷ []) old)
              a)

  -- An algo's action, as the rest of the system sees it.
  pub with_trading-Agrees :
      (x : System D) (e : TradingEngine D)
      → Agrees x
      → Follows x.api e.api
      → e.portfolio.q ≡ x.world.portfolio.q
      → e.portfolio.active_orders ≡ x.world.portfolio.active_orders
      → Agrees (with_trading e x)
  unfolding with_trading
  with_trading-Agrees x e a f queue orders =
      let y : System D = record x {
        world = record x.world {
          last_ticks = e.last_ticks;
          portfolio = e.portfolio;
          risk_manager = e.risk_manager;
        };
      } in
      with_api-Agrees y e.api
        (Agrees-unmoved x y refl refl
          (IsSeen-portfolio x.portfolio_event x.world.portfolio e.portfolio orders a.seen)
          (λ algo id.
            ap (λ l. pending algo id (l ++ x.engine.q) (in_portfolio algo id e.portfolio)) queue
            ∙ ap
                (λ m.
                  pending algo id (x.world.portfolio.q ++ x.engine.q) (lookup id (entry algo m)))
                orders)
          a)
        f

  recorder_round-Agrees :
      (inserts : Bool) (x y : System D) → Agrees x → recorder_round inserts x ≡ ok y → Agrees y
  unfolding recorder_round
  recorder_round-Agrees inserts x y a h = elim (Bool-cases x.world.data_recorder.running) [
    | inr off ↦ let same : x ≡ y = ground arith in subst Agrees same a
    | inl on ↦
        elim (Result-cases (Recorder.action_round inserts x.recorder_event x.world.data_recorder)) [
          | inr (e, bad) ↦ ground arith
          | inl ((event, r), done) ↦
              let same : record x {
                recorder_event = event;
                world = record x.world { data_recorder = r };
              }
                  ≡ y =
                ground arith in
              subst Agrees same (Agrees-unmoved x _ refl refl a.seen (λ algo id. refl) a)
        ]
  ]

module _ {D : Type 0} ⦃d : Double D⦄ (q : Decimals D) where
  algo_round-Agrees :
      (answers : Bool) (x y : System D) → Agrees x → algo_round q answers x ≡ ok y → Agrees y
  unfolding algo_round
  algo_round-Agrees answers x y a h = elim (Bool-cases x.world.algo_engine.running) [
    | inr off ↦ let same : x ≡ y = ground arith in subst Agrees same a
    | inl on ↦
        elim (Result-cases
          (Actions.action_round q answers x.algo_event x.world.algo_engine (trading_of x))) [
            | inr (e, bad) ↦ ground arith
            | inl ((event, s, e), done) ↦
                let t =
                  action_round-Touches q answers x.algo_event event x.world.algo_engine s
                    (trading_of x) e a.filed done in
                let x' : System D = record x {
                  algo_event = event;
                  world = record x.world { algo_engine = s };
                } in
                let same : with_trading e x' ≡ y = ground arith in
                subst Agrees same (
                  with_trading-Agrees x' e
                    (Agrees-unmoved x x' refl refl a.seen (λ algo id. refl) a) t.follows t.queue-eq
                    t.orders-eq)
          ]
  ]

  pub step-Agrees : (act : Action D) (x y : System D) → Agrees x → step q act x ≡ ok y → Agrees y
  unfolding step
  step-Agrees (broker i) x y a h = elim (Result-cases (Machine.attempt q i x.api)) [
    | inr (e, bad) ↦ ground arith
    | inl (api, done) ↦
        let same : with_api api x ≡ y = ground arith in
        let stepped = attempt-step q i x.api api done in
        subst Agrees same
          (with_api-Agrees x api a (subst (Follows x.api) stepped (step-Follows q i x.api a.filed)))
  ]
  step-Agrees (clock now) x y a h =
      let same : main_round now x ≡ y = ground arith in
      subst Agrees same (main_round-Agrees now x a)
  step-Agrees (strategy m) x y a h =
      let same : message m x ≡ y = ground arith in
      subst Agrees same (Agrees-unmoved x (message m x) refl refl a.seen (λ algo id. refl) a)
  step-Agrees engine_turn x y a h =
      let same : engine_round x ≡ y = ground arith in subst Agrees same (engine_round-Agrees x a)
  step-Agrees portfolio_turn x y a h =
      let same : portfolio_round x ≡ y = ground arith in
      subst Agrees same (portfolio_round-Agrees x a)
  step-Agrees listener_lost x y a h = cc
  step-Agrees (algo_turn answers) x y a h = algo_round-Agrees answers x y a h
  step-Agrees (recorder_turn inserts) x y a h = recorder_round-Agrees inserts x y a h

  pub run-Agrees :
      (acts : List (Action D)) (x y : System D) → Agrees x → run q acts x ≡ ok y → Agrees y
  unfolding run
  run-Agrees [] x y a h = let same : x ≡ y = ground arith in subst Agrees same a
  run-Agrees (act ∷ acts) x y a h = elim (Result-cases (step q act x)) [
    | inl (z, done) ↦ run-Agrees acts z y (step-Agrees act x z a done) (ground arith)
    | inr (e, bad) ↦ ground arith
  ]
