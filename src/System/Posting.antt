-- ===== src/System/Posting.antt =====
-- What a round of the portfolio (lib/core/portfolio.cpp) does to the reports on their way.
use calm_trading_system.Base.{
  ℤ, ℤ_eq, beq_ℤ_iff, String, string_eq, eq_iff, ◌≡◌, refl, sym, ap, ◌∙◌, subst, Bool, true, false,
  ◌&&◌, ◌||◌, ◌==◌, nat_eq, Bool-cases, List-cases, inl, inr, List, [], ◌∷◌, ◌++◌, append_assoc,
  Option, some, arith, Map, lookup, lookup-insert, if◌then◌else◌,
}
use calm_trading_system.Double.{Double}
use calm_trading_system.Objects.{OrderData, Event, engine_stop, order, timer, Timer}
use calm_trading_system.Queue.{try_pop}
use calm_trading_system.Market.{LastTicks}
use calm_trading_system.Portfolio.{
  Portfolio, entry, order_data_cb, revalue, timer_cb, dispatch, action_round, pnl_events,
}
use calm_trading_system.Portfolio.Postings.{entry_orders}
use calm_trading_system.System.Pending.{pending, in_portfolio, pending-append}
use calm_trading_system.System.Machine.{System, send_all, portfolio_round}
use calm_trading_system.Portfolio.Effects.{revalue-orders, dispatch-queue}
use calm_trading_system.System.Agreement.{
  IsSeen-portfolio, IsSeen, Agrees, Agrees-unmoved, send_all-queue,
}

module _ {D : Type 0} ⦃d : Double D⦄ where
  pub in_portfolio-order_data_cb :
      (algo : String) (id : ℤ) (o : OrderData D) (p : Portfolio D)
      → in_portfolio algo id (order_data_cb o p)
        ≡ (if (algo == o.source) && (id == o.order_id) then some o else in_portfolio algo id p)
  in_portfolio-order_data_cb algo id o p =
      ap (lookup id) (entry_orders o p algo)
      ∙ ground (
        arith,
        lookup-insert o.order_id id o (entry o.source p.active_orders),
        eq_iff algo o.source,
      )

  pub in_portfolio-timer_cb :
      (algo : String) (id : ℤ) (ticks : LastTicks D) (t : Timer) (p : Portfolio D)
      → in_portfolio algo id (timer_cb ticks t p).0 ≡ in_portfolio algo id p
  unfolding timer_cb
  in_portfolio-timer_cb algo id ticks t p =
      ap (lookup id) (revalue-orders ticks p.algo_portfolio _ algo)

  dispatch-pending :
      (algo : String) (id : ℤ) (ticks : LastTicks D) (e : Event D) (rest : List (Event D))
      (p : Portfolio D)
      → pending algo id rest (in_portfolio algo id (dispatch ticks e p).0)
        ≡ pending algo id (e ∷ rest) (in_portfolio algo id p)
  unfolding dispatch
  dispatch-pending algo id ticks (order o) rest p =
      ap (pending algo id rest) (in_portfolio-order_data_cb algo id o p)
  dispatch-pending algo id ticks (timer t) rest p =
      ap (pending algo id rest) (in_portfolio-timer_cb algo id ticks t p)
  dispatch-pending algo id ticks engine_stop rest p = refl
  dispatch-pending algo id ticks _ rest p = refl

  dispatch-IsSeen :
      (ticks : LastTicks D) (e : Event D) (p : Portfolio D) → IsSeen e (dispatch ticks e p).0
  unfolding dispatch
  dispatch-IsSeen ticks (order o) p =
      in_portfolio-order_data_cb o.source o.order_id o p
      ∙ ground (arith, eq_iff o.source o.source, beq_ℤ_iff o.order_id o.order_id)
  dispatch-IsSeen ticks (timer t) p = tt
  dispatch-IsSeen ticks _ p = tt

  -- An event that is handled once more changes no order.
  dispatch_again :
      (algo : String) (id : ℤ) (ticks : LastTicks D) (e : Event D) (p : Portfolio D)
      → IsSeen e p
      → in_portfolio algo id (dispatch ticks e p).0 ≡ in_portfolio algo id p
  dispatch_again algo id ticks e p h = dispatch-pending algo id ticks e [] p ∙ seen_before e h
    where
      seen_before :
          (f : Event D)
          → IsSeen f p
          → pending algo id (f ∷ []) (in_portfolio algo id p) ≡ in_portfolio algo id p
      seen_before (order o) k = ground (arith, eq_iff algo o.source, beq_ℤ_iff id o.order_id)
      seen_before engine_stop k = refl
      seen_before _ k = refl

  pnl_events-pending :
      (algo : String) (id : ℤ) (t : Timer) (m : Map String D) (es : List (Event D))
      (old : Option (OrderData D))
      → pending algo id (pnl_events t m ++ es) old ≡ pending algo id es old
  pnl_events-pending algo id t [] es old = refl
  pnl_events-pending algo id t ((k, v) ∷ m) es old = pnl_events-pending algo id t m es old

  pub dispatch-sent :
      (algo : String) (id : ℤ) (ticks : LastTicks D) (e : Event D) (p : Portfolio D)
      (old : Option (OrderData D))
      → pending algo id (dispatch ticks e p).1 old ≡ old
  unfolding dispatch timer_cb
  dispatch-sent algo id ticks (timer t) p old =
      let r = revalue ticks p.algo_portfolio (record p { total_pnl = d.zero }) in
      let last : List (Event D) =
        Event.total_pnl (record { pnl = r.total_pnl; timestamp = t.timestamp }) ∷ [] in
      elim (Bool-cases ((t.sec == 30) || (t.sec == 0))) [
        | inl due ↦ rw due (pnl_events-pending algo id t r.algo_pnl last old)
        | inr not_due ↦ rw not_due refl
      ]
  dispatch-sent algo id ticks (order o) p old = refl
  dispatch-sent algo id ticks _ p old = refl

  -- The system after a round of the portfolio that handled `e`, with `rest` left in its queue.
  abbrev pub posted : System D → Event D → List (Event D) → System D
  posted x e rest =
      let r = dispatch x.world.last_ticks e (record x.world.portfolio { q = rest }) in
      record x {
        portfolio_event = e;
        world = record x.world { portfolio = r.0 };
        engine = send_all r.1 x.engine;
      }

  posted-Agrees :
      (x : System D) (e : Event D) (rest : List (Event D))
      → Agrees x
      → ((algo : String) (id : ℤ)
          → pending algo id (rest ++ x.engine.q) (
              in_portfolio algo id
                (dispatch x.world.last_ticks e (record x.world.portfolio { q = rest })).0)
            ≡ pending algo id
                (x.world.portfolio.q ++ x.engine.q)
                (in_portfolio algo id x.world.portfolio))
      → Agrees (posted x e rest)
  posted-Agrees x e rest a same =
      let p : Portfolio D = record x.world.portfolio { q = rest } in
      let r = dispatch x.world.last_ticks e p in
      let sent = send_all-queue r.1 x.engine in
      Agrees-unmoved x (posted x e rest) refl sent.1 (dispatch-IsSeen x.world.last_ticks e p)
        (λ algo id.
          let old = in_portfolio algo id r.0 in
          ap (λ l. pending algo id (r.0.q ++ l) old) sent.0
          ∙ ap (λ l. pending algo id (l ++ (x.engine.q ++ r.1)) old)
              (dispatch-queue x.world.last_ticks e p)
          ∙ ap (λ l. pending algo id l old) (sym (append_assoc rest x.engine.q r.1))
          ∙ pending-append algo id (rest ++ x.engine.q) r.1 old
          ∙ dispatch-sent algo id x.world.last_ticks e p (pending algo id (rest ++ x.engine.q) old)
          ∙ same algo id)
        a

  pub round_with :
      (x : System D) (r : Bool × Event D × List (Event D))
      → x.world.portfolio.running ≡ true
      → try_pop x.portfolio_event x.world.portfolio.q ≡ r
      → posted x r.1 r.2 ≡ portfolio_round x
  unfolding portfolio_round action_round
  round_with x r on h =
      ap (λ (v : Bool × Event D × List (Event D)). posted x v.1 v.2) (sym h) ∙ taken
    where
      taken :
          posted x
            (try_pop x.portfolio_event x.world.portfolio.q).1
            (try_pop x.portfolio_event x.world.portfolio.q).2
          ≡ portfolio_round x
      taken = ground arith

  pub round_off : (x : System D) → x.world.portfolio.running ≡ false → x ≡ portfolio_round x
  unfolding portfolio_round
  round_off x off = rw off refl

  pub portfolio_round-Agrees : (x : System D) → Agrees x → Agrees (portfolio_round x)
  portfolio_round-Agrees x a = elim (Bool-cases x.world.portfolio.running) [
    | inr off ↦ subst Agrees (round_off x off) a
    | inl on ↦ elim (List-cases x.world.portfolio.q) [
      | inl none_queued ↦
          subst Agrees
            (round_with x (false, x.portfolio_event, []) on (unfold try_pop in rw none_queued refl))
            (posted-Agrees x x.portfolio_event [] a (λ algo id.
              let p : Portfolio D = record x.world.portfolio { q = [] } in
              ap (pending algo id x.engine.q) (
                dispatch_again algo id x.world.last_ticks x.portfolio_event p
                  (IsSeen-portfolio x.portfolio_event x.world.portfolio p refl a.seen))
              ∙ ap (λ l. pending algo id (l ++ x.engine.q) (in_portfolio algo id x.world.portfolio))
                  (sym none_queued)))
      | inr (e, rest, queued) ↦
          subst Agrees (round_with x (true, e, rest) on (unfold try_pop in rw queued refl)) (
            posted-Agrees x e rest a (λ algo id.
              let p : Portfolio D = record x.world.portfolio { q = rest } in
              dispatch-pending algo id x.world.last_ticks e (rest ++ x.engine.q) p
              ∙ ap (λ l. pending algo id (l ++ x.engine.q) (in_portfolio algo id x.world.portfolio))
                  (sym queued)))
    ]
  ]
