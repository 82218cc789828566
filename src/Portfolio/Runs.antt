-- ===== src/Portfolio/Runs.antt =====
-- The books over whole runs of the portfolio.
use calm_trading_system.Base.{
  ℤ, ℤ_eq, String, string_eq, ◌≡◌, refl, sym, ap, subst, Bool, true, false, List, [], ◌∷◌, arith,
  lookup, All, All-append, if◌then◌else◌,
}
use calm_trading_system.Double.{Double, IsExact}
use calm_trading_system.Objects.{Event}
use calm_trading_system.Objects.Enums.{Action}
use calm_trading_system.Market.{LastTicks}
use calm_trading_system.Queue.{try_pop}
use calm_trading_system.Portfolio.{
  Portfolio, entry, position_in, action_round, init, start, stop, add_market_data_mapping,
  add_to_portfolio, event_engine_cb, get_algo_pnl,
}
use calm_trading_system.Portfolio.Booking.{IsBooked, init-IsBooked}
use calm_trading_system.Portfolio.Effects.{dispatch-queue}
use calm_trading_system.Portfolio.Kept.{
  IsProperEvent, AreKept, SameBooks-AreKept, SameBooks-same, dispatch-AreKept, add-SameBooks,
}
use calm_trading_system.Portfolio.Machine.{
  Input, starts, stops, maps, adds, queues, asks_pnl, rounds, step, run,
}

module _ {D : Type 0} ⦃d : Double D⦄ (symbol_of : String → ℤ → String)
    (action_of : String → ℤ → Action) where
  abbrev pub IsProperInput : Input D → Type 0
  IsProperInput (queues e) = IsProperEvent symbol_of action_of e
  IsProperInput _ = Unit

  module _ (x : IsExact D) where
    -- What holds of the variable `event`, the queue, the books and the orders at any time.
    record IsSound (s : Event D × Portfolio D) : Type 0 where
      event : IsProperEvent symbol_of action_of s.0
      queue : All (IsProperEvent symbol_of action_of) s.1.q
      kept : AreKept symbol_of action_of x s.1

    -- A step that leaves the variable, the queue, the positions and the orders.
    same-IsSound :
        (e : Event D) (p q : Portfolio D)
        → q.q ≡ p.q
        → q.algo_portfolio ≡ p.algo_portfolio
        → q.active_orders ≡ p.active_orders
        → IsSound (e, p)
        → IsSound (e, q)
    same-IsSound e p q a b c s = record {
      event = s.event;
      queue = rw a s.queue;
      kept =
          SameBooks-AreKept symbol_of action_of x p q
            (record {
              positions = λ a sym. ap (λ m. position_in sym (entry a m)) b;
              orders = λ a. ap (entry a) c;
            })
            s.kept;
    }

    add-queue : (algo symbol : String) (p : Portfolio D) → (add_to_portfolio algo symbol p).q ≡ p.q
    unfolding add_to_portfolio
    add-queue algo symbol p = ground arith

    proper_after_pop :
        (e : Event D) (q : List (Event D))
        → IsProperEvent symbol_of action_of e
        → All (IsProperEvent symbol_of action_of) q
        → IsProperEvent symbol_of action_of (try_pop e q).1
          × All (IsProperEvent symbol_of action_of) (try_pop e q).2
    unfolding try_pop
    proper_after_pop e [] h k = (h, k)
    proper_after_pop e (f ∷ q) h k = k

    round-IsSound :
        (ticks : LastTicks D) (e : Event D) (p : Portfolio D)
        → IsSound (e, p)
        → IsSound ((action_round ticks e p).0, (action_round ticks e p).1)
    unfolding action_round
    round-IsSound ticks e p s =
        let popped = proper_after_pop e p.q s.event s.queue in
        let p' : Portfolio D = record p { q = (try_pop e p.q).2 } in
        record {
          event = popped.0;
          queue =
              subst (All (IsProperEvent symbol_of action_of))
                (sym (dispatch-queue ticks (try_pop e p.q).1 p')) popped.1;
          kept = dispatch-AreKept symbol_of action_of x ticks (try_pop e p.q).1 p' popped.0 (
              SameBooks-AreKept symbol_of action_of x p p'
                (record { positions = λ _ _. refl; orders = λ _. refl }) s.kept);
        }

    choice-IsSound :
        (b : Bool) (s t : Event D × Portfolio D)
        → IsSound s
        → IsSound t
        → IsSound (if b then s else t)
    choice-IsSound true s t h k = h
    choice-IsSound false s t h k = k

    step-IsSound :
        (i : Input D) (s : Event D × Portfolio D) → IsProperInput i → IsSound s → IsSound (step i s)
    unfolding step start stop add_market_data_mapping event_engine_cb get_algo_pnl
    step-IsSound starts (e, p) h s =
        same-IsSound e p _ (ground arith) (ground arith) (ground arith) s
    step-IsSound stops (e, p) h s =
        same-IsSound e p _ (ground arith) (ground arith) (ground arith) s
    step-IsSound (maps a o m) (e, p) h s =
        same-IsSound e p _ (ground arith) (ground arith) (ground arith) s
    step-IsSound (adds algo symbol) (e, p) h s = record {
      event = s.event;
      queue =
          subst (All (IsProperEvent symbol_of action_of)) (sym (add-queue algo symbol p)) s.queue;
      kept =
          SameBooks-AreKept symbol_of action_of x p _
            (add-SameBooks symbol_of action_of x algo symbol p) s.kept;
    }
    step-IsSound (queues event) (e, p) h s = record {
      event = s.event;
      queue = All-append (IsProperEvent symbol_of action_of) p.q (event ∷ []) s.queue (h, tt);
      kept =
          SameBooks-AreKept symbol_of action_of x p _
            (SameBooks-same symbol_of action_of x p p _
              (record { positions = λ _ _. refl; orders = λ _. refl }) refl refl)
            s.kept;
    }
    step-IsSound (asks_pnl algo) (e, p) h s =
        same-IsSound e p _ (ground arith) (ground arith) (ground arith) s
    step-IsSound (rounds ticks) (e, p) h s =
        choice-IsSound p.running _ _ (round-IsSound ticks e p s) s

    run-IsSound :
        (is : List (Input D)) (s : Event D × Portfolio D)
        → All IsProperInput is
        → IsSound s
        → IsSound (run is s)
    unfolding run
    run-IsSound [] s h k = k
    run-IsSound (i ∷ is) s h k = run-IsSound is (step i s) h.1 (step-IsSound i s h.0 k)

    -- Give every order id of an algo one symbol and one action. Then, whatever calls and rounds of
    -- `run_actions` follow each other, if each queued order report has its id's symbol and action, and so has the
    -- event that the thread's variable starts with, the books are at all times what the orders, as
    -- last reported, have traded and paid, although an event may be handled more than once. Amounts are exact.
    pub run-IsBooked :
        (is : List (Input D)) (event : Event D)
        → All IsProperInput is
        → IsProperEvent symbol_of action_of event
        → IsBooked x (run is (event, init)).1
    unfolding lookup
    run-IsBooked is event h e =
        (run-IsSound is (event, init) h
          (record {
            event = e;
            queue = tt;
            kept = record { booked = init-IsBooked x; proper = λ algo id o k. cc };
          })).kept.booked
