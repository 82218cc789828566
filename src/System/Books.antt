-- ===== src/System/Books.antt =====
-- The books of the portfolio over whole runs of `Trader` (lib/core/trader.h).
use calm_trading_system.Base.{
  AreOnce, ℕ, ℤ_eq, string_eq, nat_eq, ◌≡◌, refl, sym, ap, subst, Bool, Bool-cases, Result-cases,
  inl, inr, true, false, List, All, ok, arith, lookup,
}
use calm_trading_system.Double.{Double, IsExact}
use calm_trading_system.Objects.{Event, engine_stop, order}
use calm_trading_system.Gateway.{Decimals, Api}
use calm_trading_system.Events.{send, run_round, EventEngine, handle}
use calm_trading_system.Portfolio.{
  Portfolio, entry, position_in, dispatch, event_engine_cb, pnl_events, revalue, timer_cb,
}
use calm_trading_system.Portfolio.Booking.{IsBooked}
use calm_trading_system.Trading
use calm_trading_system.Trading.{TradingEngine}
use calm_trading_system.Events
use calm_trading_system.System.Told.{IsTold}
use calm_trading_system.System.Machine.{
  System, Action, engine_turn, portfolio_turn, trading_of, with_trading, run,
}
use calm_trading_system.System.Accounts.{AreAccounts, same-IsBooked, unmoved-AreAccounts}
use calm_trading_system.System.Machine.{start, constructed}
use calm_trading_system.System.Start.{
  is_report, connected_to, connected_to-Agrees, trading_subscribed, start-Agrees,
}
use calm_trading_system.Objects.Enums.{buy}
use calm_trading_system.Algo
use calm_trading_system.Algo.{AlgoConfig}
use calm_trading_system.Risk.{RiskManager}
use calm_trading_system.Portfolio
use calm_trading_system.Portfolio.Booking.{init-IsBooked}
use calm_trading_system.Portfolio.Kept.{add-SameBooks}
use calm_trading_system.System.Kept.{with_trading-AreAccounts, run-AreAccounts}
use calm_trading_system.System.Settling.{turns, run_settles}
use calm_trading_system.System.Flow.{run-Agrees}
use calm_trading_system.System.Pending.{in_portfolio, in_gateway, from_source}
use calm_trading_system.Events.Delivery.{is_stop}
use calm_trading_system.Portfolio.Ledger.{share, total, total_same}
use calm_trading_system.Portfolio.Booking.{qty_of, cost_of}
use calm_trading_system.Objects.{OrderData}
use calm_trading_system.Base.{
  ℤ, pos, String, ◌∙◌, ◌++◌, ◌≤◌, ◌+◌, ◌==◌, if◌then◌else◌, none, some, Option, length,
}
use calm_trading_system.System.Start.{no_orders}

module _ {D : Type 0} where
  -- What an order adds to a sum over the orders of one algo.
  abbrev pub of_algo : String → (OrderData D → ℤ) → OrderData D → ℤ
  of_algo algo f o = if algo == o.source then f o else pos 0

  share-from_source :
      (algo : String) (f : OrderData D → ℤ) (old : Option (OrderData D))
      → share f (from_source algo old) ≡ share (of_algo algo f) old
  share-from_source algo f none = refl
  share-from_source algo f (some o) = elim (Bool-cases (algo == o.source)) [
    | inl own ↦ rw own refl
    | inr other ↦ rw other refl
  ]

module _ {D : Type 0} ⦃d : Double D⦄ (q : Decimals D) (x : IsExact D) where
  no_report-IsTold : (s : Api D) (e : Event D) → is_report e ≡ false → IsTold s e
  no_report-IsTold s (order o) h = cc
  no_report-IsTold s engine_stop h = tt
  no_report-IsTold s _ h = tt

  -- The symbols that the algo engine enters leave the books right.
  registered-IsBooked : (cfg : AlgoConfig) → IsBooked x (Algo.register_symbols cfg Portfolio.init)
  unfolding Algo.register_symbols Portfolio.add_market_data_mapping
  registered-IsBooked cfg =
      let mapped =
        Portfolio.add_market_data_mapping Algo.name cfg.order_symbol cfg.mkt_data_symbol
          Portfolio.init in
      let same =
        add-SameBooks (λ algo id. "") (λ algo id. buy) x Algo.name cfg.order_symbol mapped in
      let b = init-IsBooked x in
      record {
        quantities = λ algo symbol.
            rw (same.positions algo symbol, same.orders algo) (b.quantities algo symbol);
        costs =
            λ algo symbol. rw (same.positions algo symbol, same.orders algo) (b.costs algo symbol);
      }

  connected_to-AreAccounts :
      (connected : Bool) (cfg : AlgoConfig) (limits : RiskManager D) (event : Event D) (target : ℕ)
      → is_report event ≡ false
      → AreAccounts x (connected_to q connected (constructed cfg limits event target))
  unfolding constructed Algo.register_symbols Portfolio.add_to_portfolio
      Portfolio.add_market_data_mapping Portfolio.start Events.start lookup
  connected_to-AreAccounts connected cfg limits event target quiet =
      let s = connected_to q connected (constructed cfg limits event target) in
      record {
        booked =
            same-IsBooked x (Algo.register_symbols cfg Portfolio.init) s.world.portfolio refl refl
              (registered-IsBooked cfg);
        stored = λ algo id o e. cc;
        event = no_report-IsTold s.api event quiet;
        queued = tt;
        coming = tt;
        once_api = subst AreOnce (sym (no_orders q connected cfg limits event target)) tt;
        once = λ algo. tt;
      }

  start-AreAccounts :
      (connected : Bool) (cfg : AlgoConfig) (limits : RiskManager D) (event : Event D) (target : ℕ)
      (t : System D)
      → is_report event ≡ false
      → start connected (constructed cfg limits event target) ≡ ok t
      → AreAccounts x t
  unfolding start Algo.start
  start-AreAccounts connected cfg limits event target t quiet h =
      let s = connected_to q connected (constructed cfg limits event target) in
      let a = connected_to-Agrees q connected cfg limits event target quiet in
      let k = connected_to-AreAccounts connected cfg limits event target quiet in
      elim (Result-cases
        (Trading.subscribe s.world.algo_engine.mkt_data_symbol false (trading_of s))) [
          | inr (e, bad) ↦ ground arith
          | inl (e, done) ↦
              let sub =
                trading_subscribed q s.world.algo_engine.mkt_data_symbol false (trading_of s) e
                  a.filed done in
              let z : System D = record s {
                world = record s.world {
                  algo_engine = record s.world.algo_engine { running = true };
                };
              } in
              let same : with_trading e z ≡ t = ground arith in
              subst (AreAccounts x) same (
                with_trading-AreAccounts q x z e sub.0 (ap (λ p. p.q) sub.1)
                  (ap (λ p. p.active_orders) sub.1) (ap (λ p. p.algo_portfolio) sub.1)
                  (unmoved-AreAccounts x s z refl refl refl refl k.queued k.coming k))
        ]

  -- From the program's start, with thread variables that hold no report of an order, and through any actions of the
  -- threads after which the program still runs, every position and cost that the portfolio keeps is what the
  -- algo's orders, as it last heard of them, have traded and paid in the symbol: quantities count negative for
  -- sales, and a cost is price times signed quantity plus commission. Amounts are exact.
  pub system_books :
      (connected : Bool) (cfg : AlgoConfig) (limits : RiskManager D) (event : Event D) (target : ℕ)
      (s t : System D) (acts : List (Action D))
      → is_report event ≡ false
      → start connected (constructed cfg limits event target) ≡ ok s
      → run q acts s ≡ ok t
      → IsBooked x t.world.portfolio
  system_books connected cfg limits event target s t acts quiet started ran =
      (run-AreAccounts q x acts s t
        (start-Agrees q connected cfg limits event target s quiet started)
        (start-AreAccounts connected cfg limits event target s quiet started) ran).booked

  settled_total :
      (f : OrderData D → ℤ) (algo : String) (s : Api D) (p : Portfolio D)
      → AreOnce s.orders
      → AreOnce (entry algo p.active_orders)
      → ((id : ℤ) → in_portfolio algo id p ≡ in_gateway algo id s)
      → total f (entry algo p.active_orders) ≡ total (of_algo algo f) s.orders
  settled_total f algo s p a b h =
      total_same f (of_algo algo f) (entry algo p.active_orders) s.orders b a
        (λ id. ap (share f) (h id) ∙ share-from_source algo f (lookup id s.orders))

  -- From the program's start, with thread variables that hold no report of an order, and after any actions of the
  -- threads after which the event engine and the portfolio still run, with no stop event queued: if the event
  -- engine then takes as many turns as it has events queued, or more, and after it the portfolio as many as both had,
  -- or more, every position and cost that the portfolio keeps of an algo is what the gateway's orders of the algo have
  -- traded and paid in the symbol: quantities count negative for sales, and a cost is price times signed
  -- quantity plus commission. Amounts are exact.
  pub books_settle :
      (connected : Bool) (cfg : AlgoConfig) (limits : RiskManager D) (event : Event D) (target : ℕ)
      (s : System D) (acts : List (Action D)) (y : System D) (n k : ℕ)
      → is_report event ≡ false
      → start connected (constructed cfg limits event target) ≡ ok s
      → run q acts s ≡ ok y
      → y.engine.running ≡ true
      → y.world.portfolio.running ≡ true
      → All (λ e. is_stop e ≡ false) y.engine.q
      → length y.engine.q ≤ n
      → length y.world.portfolio.q + length y.engine.q ≤ k
      → (z : System D) × (run q (turns engine_turn n ++ turns portfolio_turn k) y ≡ ok z)
        × ((algo symbol : String)
            → let c = position_in symbol (entry algo z.world.portfolio.algo_portfolio) in
              (x.value c.position ≡ total (of_algo algo (qty_of x symbol)) y.api.orders)
              × (x.value c.cost ≡ total (of_algo algo (cost_of x symbol)) y.api.orders))
  books_settle connected cfg limits event target s acts y n k quiet started ran on open_ live enough
        more =
      let a =
        run-Agrees q acts s y (start-Agrees q connected cfg limits event target s quiet started)
          ran in
      let before =
        run-AreAccounts q x acts s y
          (start-Agrees q connected cfg limits event target s quiet started)
          (start-AreAccounts connected cfg limits event target s quiet started) ran in
      let (z, done, same) =
        run_settles q connected cfg limits event target s acts y n k quiet started ran on open_ live
          enough more in
      let after =
        run-AreAccounts q x (turns engine_turn n ++ turns portfolio_turn k) y z a before done in
      let settled = λ (f : OrderData D → ℤ) (algo : String).
        settled_total f algo y.api z.world.portfolio before.once_api (after.once algo)
          (same algo) in
      (
        z,
        done,
        λ algo symbol. (
          after.booked.quantities algo symbol ∙ settled (qty_of x symbol) algo,
          after.booked.costs algo symbol ∙ settled (cost_of x symbol) algo,
        ),
      )
