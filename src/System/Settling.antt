-- ===== src/System/Settling.antt =====
-- The system after a while in which only the event engine (lib/core/event.cpp) and then the portfolio
-- (lib/core/portfolio.cpp) take turns.
use calm_trading_system.Base.{
  ◌-◌, ℕ, ℤ, ℤ_eq, String, string_eq, ◌≡◌, refl, sym, ap, ◌∙◌, subst, Bool, true, false, nat_eq,
  List-cases, inl, inr, List, [], ◌∷◌, ◌++◌, length, Option, ok, arith, All,
}
use calm_trading_system.Double.{Double}
use calm_trading_system.Objects.{OrderData, Event, engine_stop, tick, order, timer}
use calm_trading_system.Queue.{try_pop}
use calm_trading_system.Gateway.{Decimals}
use calm_trading_system.Events.{EventEngine}
use calm_trading_system.Events.Delivery.{is_stop, run_round_empty, run_round_next}
use calm_trading_system.Portfolio.{Portfolio, dispatch, event_engine_cb}
use calm_trading_system.System.{World}
use calm_trading_system.System.Fanout.{heard}
use calm_trading_system.System.Pending.{pending, in_portfolio, in_gateway, pending-append}
use calm_trading_system.System.Machine.{
  System, Action, engine_turn, portfolio_turn, engine_round, portfolio_round, step, run,
}
use calm_trading_system.Gateway.Reports.{quiet}
use calm_trading_system.Algo.{AlgoConfig}
use calm_trading_system.Risk.{RiskManager}
use calm_trading_system.System.Machine.{start, constructed}
use calm_trading_system.System.Agreement.{Agrees, send_all-queue}
use calm_trading_system.System.Rounds.{engine_round-Agrees}
use calm_trading_system.System.Posting.{portfolio_round-Agrees}
use calm_trading_system.System.Flow.{run-Agrees}
use calm_trading_system.Base.{zero, length-append, suc, ◌+◌, ◌≤◌}
use calm_trading_system.Portfolio.Effects.{dispatch-queue, dispatch-running}
use calm_trading_system.System.Start.{is_report, start-Agrees}
use calm_trading_system.System.Rounds.{handled, after_round}
use calm_trading_system.System.Posting.{posted, round_with, dispatch-sent}

module _ {D : Type 0} where
  abbrev pub turns : Action D → ℕ → List (Action D)
  turns a zero = []
  turns a (suc n) = a ∷ turns a n

  abbrev times : (System D → System D) → ℕ → System D → System D
  times f zero x = x
  times f (suc n) x = times f n (f x)

  -- The event engine goes on until its queue is empty.
  record IsReady (x : System D) : Type 0 where
    agrees : Agrees x
    running : x.engine.running ≡ true
    no_stop : All (λ e. is_stop e ≡ false) x.engine.q

  engine_round_next :
      (x : System D) (e : Event D) (rest : List (Event D))
      → IsReady x
      → x.engine.q ≡ e ∷ rest
      → engine_round x ≡ after_round x (e, record x.engine { q = rest }, heard e x.world)
  unfolding engine_round
  engine_round_next x e rest r k =
      let s : EventEngine D (World D) = record x.engine { q = rest } in
      let live : is_stop e ≡ false = (subst (All (λ f. is_stop f ≡ false)) k r.no_stop).0 in
      ap (after_round x) (
        run_round_next x.engine_event e x.engine rest x.world r.running k
        ∙ ap (λ v. (e, v.0, v.1)) (handled e s x.world r.agrees.wired live))

  heard-queue :
      (e : Event D) (w : World D) → length (heard e w).portfolio.q ≤ length w.portfolio.q + 1
  unfolding heard event_engine_cb
  heard-queue (order o) w = omega (arith, length-append w.portfolio.q (order o ∷ []))
  heard-queue (timer t) w = omega (arith, length-append w.portfolio.q (timer t ∷ []))
  heard-queue (tick t) w = omega arith
  heard-queue engine_stop w = omega arith
  heard-queue _ w = omega arith

  heard-running : (e : Event D) (w : World D) → (heard e w).portfolio.running ≡ w.portfolio.running
  unfolding heard event_engine_cb
  heard-running (order o) w = refl
  heard-running (timer t) w = refl
  heard-running (tick t) w = refl
  heard-running engine_stop w = refl
  heard-running _ w = refl

  record Drains (x y : System D) : Type 0 where
    agrees : Agrees y
    empty : y.engine.q ≡ []
    api-eq : y.api ≡ x.api
    running-eq : y.world.portfolio.running ≡ x.world.portfolio.running
    grows : length y.world.portfolio.q ≤ length x.world.portfolio.q + length x.engine.q

  engine-Drains :
      (n : ℕ) (x : System D) → IsReady x → length x.engine.q ≤ n → Drains x (times engine_round n x)
  engine-Drains zero x r h = elim (List-cases x.engine.q) [
    | inl none_queued ↦ record {
      agrees = r.agrees;
      empty = none_queued;
      api-eq = refl;
      running-eq = refl;
      grows = omega arith;
    }
    | inr (e, rest, k) ↦ let too_long : 1 ≤ 0 = omega (arith, ap length k) in ground arith
  ]
  engine-Drains (suc n) x r h = elim (List-cases x.engine.q) [
    | inl none_queued ↦
        let idle : engine_round x ≡ x =
          unfold engine_round in
          ap (after_round x) (run_round_empty x.engine_event x.engine x.world none_queued) in
        subst (λ y. Drains x (times engine_round n y)) (sym idle)
          (engine-Drains n x r (omega (arith, ap length none_queued)))
    | inr (e, rest, k) ↦
        let y : System D = after_round x (e, record x.engine { q = rest }, heard e x.world) in
        let next = engine_round_next x e rest r k in
        let ready : IsReady y = record {
          agrees = subst Agrees next (engine_round-Agrees x r.agrees);
          running = r.running;
          no_stop = (subst (All (λ f. is_stop f ≡ false)) k r.no_stop).1;
        } in
        let d = engine-Drains n y ready (omega (arith, ap length k)) in
        subst (λ z. Drains x (times engine_round n z)) (sym next)
          (record {
            agrees = d.agrees;
            empty = d.empty;
            api-eq = d.api-eq;
            running-eq = d.running-eq ∙ heard-running e x.world;
            grows = omega (arith, d.grows, heard-queue e x.world, ap length k);
          })
  ]

  -- The portfolio goes on until its queue is empty.
  abbrev IsSilent : System D → Type 0
  IsSilent x =
      (algo : String) (id : ℤ) (old : Option (OrderData D)) → pending algo id x.engine.q old ≡ old

  none-IsSilent : (x : System D) → x.engine.q ≡ [] → IsSilent x
  none-IsSilent x e algo id old = ap (λ l. pending algo id l old) e

module _ {D : Type 0} ⦃d : Double D⦄ where
  posted-IsSilent :
      (x : System D) (e : Event D) (rest : List (Event D)) → IsSilent x → IsSilent (posted x e rest)
  posted-IsSilent x e rest s algo id old =
      let p : Portfolio D = record x.world.portfolio { q = rest } in
      let sent = (dispatch x.world.last_ticks e p).1 in
      ap (λ l. pending algo id l old) (send_all-queue sent x.engine).0
      ∙ pending-append algo id x.engine.q sent old
      ∙ dispatch-sent algo id x.world.last_ticks e p (pending algo id x.engine.q old)
      ∙ s algo id old

  -- One round leaves one event less, if there was one.
  portfolio_round_next :
      (x : System D)
      → x.world.portfolio.running ≡ true
      → (e : Event D) × (rest : List (Event D)) × (portfolio_round x ≡ posted x e rest)
        × (length rest ≡ length x.world.portfolio.q - 1)
  portfolio_round_next x on = elim (List-cases x.world.portfolio.q) [
    | inl none_queued ↦ (
      x.portfolio_event,
      [],
      sym (round_with x (false, x.portfolio_event, []) on (unfold try_pop in rw none_queued refl)),
      omega (arith, ap length none_queued),
    )
    | inr (e, rest, queued) ↦ (
      e,
      rest,
      sym (round_with x (true, e, rest) on (unfold try_pop in rw queued refl)),
      omega (arith, ap length queued),
    )
  ]

  portfolio_drains :
      (k : ℕ) (x : System D)
      → Agrees x
      → x.world.portfolio.running ≡ true
      → IsSilent x
      → length x.world.portfolio.q ≤ k
      → (algo : String) (id : ℤ)
      → in_portfolio algo id (times portfolio_round k x).world.portfolio ≡ in_gateway algo id x.api
  portfolio_drains zero x a on s h algo id = elim (List-cases x.world.portfolio.q) [
    | inl none_queued ↦
        sym (s algo id (in_portfolio algo id x.world.portfolio))
        ∙ ap (λ l. pending algo id (l ++ x.engine.q) (in_portfolio algo id x.world.portfolio))
            (sym none_queued)
        ∙ a.flow algo id
    | inr (e, rest, queued) ↦ let too_long : 1 ≤ 0 = omega (arith, ap length queued) in ground arith
  ]
  portfolio_drains (suc k) x a on s h algo id =
      let (e, rest, next, less) = portfolio_round_next x on in
      let p : Portfolio D = record x.world.portfolio { q = rest } in
      let y = posted x e rest in
      ap (λ z. in_portfolio algo id (times portfolio_round k z).world.portfolio) next
      ∙ portfolio_drains k y (subst Agrees next (portfolio_round-Agrees x a))
          (dispatch-running x.world.last_ticks e p ∙ on) (posted-IsSilent x e rest s)
          (omega (arith, less, ap length (dispatch-queue x.world.last_ticks e p))) algo id

  module _ (q : Decimals D) where
    run-turns_engine :
        (n : ℕ) (acts : List (Action D)) (x : System D)
        → run q (turns engine_turn n ++ acts) x ≡ run q acts (times engine_round n x)
    unfolding run step
    run-turns_engine zero acts x = refl
    run-turns_engine (suc n) acts x = run-turns_engine n acts (engine_round x)

    run-turns_portfolio :
        (n : ℕ) (x : System D) → run q (turns portfolio_turn n) x ≡ ok (times portfolio_round n x)
    unfolding run step
    run-turns_portfolio zero x = refl
    run-turns_portfolio (suc n) x = run-turns_portfolio n (portfolio_round x)

    -- From the program's start, with thread variables that hold no report of an order, and after any actions of the
    -- threads after which the event engine and the portfolio still run, with no stop event queued: if the event
    -- engine then takes as many turns as it has events queued, or more, and after it the portfolio as many as both had,
    -- or more, the portfolio has of every algo exactly the orders that the gateway has of it.
    pub run_settles :
        (connected : Bool) (cfg : AlgoConfig) (limits : RiskManager D) (event : Event D)
        (target : ℕ)
        → (x : System D) (acts : List (Action D)) (y : System D) (n k : ℕ) → is_report event ≡ false
        → start connected (constructed cfg limits event target) ≡ ok x
        → run q acts x ≡ ok y
        → y.engine.running ≡ true
        → y.world.portfolio.running ≡ true
        → All (λ e. is_stop e ≡ false) y.engine.q
        → length y.engine.q ≤ n
        → length y.world.portfolio.q + length y.engine.q ≤ k
        → (z : System D) × (run q (turns engine_turn n ++ turns portfolio_turn k) y ≡ ok z)
          × ((algo : String) (id : ℤ)
              → in_portfolio algo id z.world.portfolio ≡ in_gateway algo id y.api)
    run_settles connected cfg limits event target x acts y n k quiet started ran on open_ live
          enough more =
        let a =
          run-Agrees q acts x y (start-Agrees q connected cfg limits event target x quiet started)
            ran in
        let ready : IsReady y = record { agrees = a; running = on; no_stop = live } in
        let d = engine-Drains n y ready enough in
        let v = times engine_round n y in
        (
          times portfolio_round k v,
          run-turns_engine n (turns portfolio_turn k) y ∙ run-turns_portfolio k v,
          λ algo id.
              portfolio_drains k v d.agrees (d.running-eq ∙ open_) (none-IsSilent v d.empty)
                (omega (arith, d.grows, more)) algo id
              ∙ ap (in_gateway algo id) d.api-eq,
        )
