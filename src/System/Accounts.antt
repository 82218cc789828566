-- ===== src/System/Accounts.antt =====
-- The books of the portfolio while the threads of `Trader` (lib/core/trader.h) run.
use calm_trading_system.Base.{
  AreOnce, AreOnce-insert, ◌||◌, String, ◌==◌, ℤ_eq, string_eq, nat_eq, ◌≡◌, refl, sym, ap, ◌∙◌,
  subst, Bool-cases, inl, inr, List, [], ◌∷◌, ◌++◌, All, All-append, length, drop, lookup, Map,
}
use calm_trading_system.Double.{Double, IsExact}
use calm_trading_system.Objects.{Event, order, timer, Timer}
use calm_trading_system.Market.{LastTicks}
use calm_trading_system.Gateway.{Api}
use calm_trading_system.Gateway.Book.{Follows}
use calm_trading_system.Portfolio.{Portfolio, entry, dispatch, pnl_events, revalue, timer_cb}
use calm_trading_system.Portfolio.Effects.{dispatch-queue, revalue-orders}
use calm_trading_system.Portfolio.Postings.{entry_orders}
use calm_trading_system.Portfolio.Booking.{IsBooked}
use calm_trading_system.System.Pending.{drop-append}
use calm_trading_system.System.Agreement.{send_all-queue}
use calm_trading_system.System.Posting.{posted}
use calm_trading_system.System.Told.{
  IsTold, AreStored, Follows-IsTold, Follows-AreTold, Follows-AreStored, current-AreTold,
  dispatch-AreStored, dispatch-IsBooked,
}
use calm_trading_system.System.Machine.{System, with_api}

module _ {D : Type 0} ⦃d : Double D⦄ (x : IsExact D) where
  -- The books are right, all reports and stored orders have the gateway's symbols and sides, and no
  -- order is stored twice.
  pub record AreAccounts (s : System D) : Type 0 where
    pub booked : IsBooked x s.world.portfolio
    pub stored : AreStored s.api s.world.portfolio
    pub event : IsTold s.api s.portfolio_event
    pub queued : All (IsTold s.api) s.world.portfolio.q
    pub coming : All (IsTold s.api) s.engine.q
    pub once_api : AreOnce s.api.orders
    pub once : (algo : String) → AreOnce (entry algo s.world.portfolio.active_orders)

  pub same-IsBooked :
      (p r : Portfolio D)
      → r.algo_portfolio ≡ p.algo_portfolio
      → r.active_orders ≡ p.active_orders
      → IsBooked x p
      → IsBooked x r
  same-IsBooked p r a b k = record {
    quantities = λ algo symbol. rw (a, b) (k.quantities algo symbol);
    costs = λ algo symbol. rw (a, b) (k.costs algo symbol);
  }

  same-AreStored :
      (s : Api D) (p r : Portfolio D)
      → r.active_orders ≡ p.active_orders
      → AreStored s p
      → AreStored s r
  same-AreStored s p r b k algo id o e =
      k algo id o (ap (λ m. lookup id (entry algo m)) (sym b) ∙ e)

  -- A step of the gateway, which sends what it publishes.
  pub with_api-AreAccounts :
      (s : System D) (t : Api D) → Follows s.api t → AreAccounts s → AreAccounts (with_api t s)
  unfolding with_api
  with_api-AreAccounts s t f k =
      let news : drop (length s.api.published) t.published ≡ f.news =
        ap (drop (length s.api.published)) f.published-eq ∙ drop-append s.api.published f.news in
      let sent = (send_all-queue (drop (length s.api.published) t.published) s.engine).0 in
      record {
        booked = k.booked;
        stored = Follows-AreStored s.api t s.world.portfolio f k.stored;
        event = Follows-IsTold s.api t s.portfolio_event f k.event;
        queued = Follows-AreTold s.api t s.world.portfolio.q f k.queued;
        coming = subst (All (IsTold t)) (sym (sent ∙ ap (λ l. s.engine.q ++ l) news)) (
            All-append (IsTold t) s.engine.q f.news (Follows-AreTold s.api t s.engine.q f k.coming)
              (current-AreTold t f.news f.current));
        once_api = f.once k.once_api;
        once = k.once;
      }

  -- A step that leaves the gateway, and what the portfolio keeps of orders and positions.
  pub unmoved-AreAccounts :
      (s t : System D)
      → t.api ≡ s.api
      → t.portfolio_event ≡ s.portfolio_event
      → t.world.portfolio.algo_portfolio ≡ s.world.portfolio.algo_portfolio
      → t.world.portfolio.active_orders ≡ s.world.portfolio.active_orders
      → All (IsTold s.api) t.world.portfolio.q
      → All (IsTold s.api) t.engine.q
      → AreAccounts s
      → AreAccounts t
  unmoved-AreAccounts s t a e p o q c k = record {
    booked = same-IsBooked s.world.portfolio t.world.portfolio p o k.booked;
    stored =
        subst (λ v. AreStored v t.world.portfolio) (sym a)
          (same-AreStored s.api s.world.portfolio t.world.portfolio o k.stored);
    event = rw (a, e) k.event;
    queued = rw a q;
    coming = rw a c;
    once_api = subst (λ v. AreOnce v.orders) (sym a) k.once_api;
    once = subst (λ m. (algo : String) → AreOnce (entry algo m)) (sym o) k.once;
  }

  pnl_events-AreTold :
      (s : Api D) (t : Timer) (m : Map String D) (es : List (Event D))
      → All (IsTold s) es
      → All (IsTold s) (pnl_events t m ++ es)
  pnl_events-AreTold s t [] es h = h
  pnl_events-AreTold s t ((k, v) ∷ m) es h = (tt, pnl_events-AreTold s t m es h)

  dispatch-AreTold :
      (s : Api D) (ticks : LastTicks D) (e : Event D) (p : Portfolio D)
      → All (IsTold s) (dispatch ticks e p).1
  unfolding dispatch timer_cb
  dispatch-AreTold s ticks (timer t) p =
      let r = revalue ticks p.algo_portfolio (record p { total_pnl = d.zero }) in
      elim (Bool-cases ((t.sec == 30) || (t.sec == 0))) [
        | inl due ↦ rw due (pnl_events-AreTold s t r.algo_pnl _ (tt, tt))
        | inr not_due ↦ rw not_due tt
      ]
  dispatch-AreTold s ticks (order o) p = tt
  dispatch-AreTold s ticks _ p = tt

  dispatch-AreOnce :
      (ticks : LastTicks D) (e : Event D) (p : Portfolio D)
      → ((algo : String) → AreOnce (entry algo p.active_orders))
      → (algo : String) → AreOnce (entry algo (dispatch ticks e p).0.active_orders)
  unfolding dispatch timer_cb
  dispatch-AreOnce ticks (order o) p k algo =
      subst AreOnce (sym (entry_orders o p algo)) (elim (Bool-cases (algo == o.source)) [
        | inl own ↦
            rw own (AreOnce-insert o.order_id o (entry o.source p.active_orders) (k o.source))
        | inr other ↦ rw other (k algo)
      ])
  dispatch-AreOnce ticks (timer t) p k algo =
      subst AreOnce
        (sym (revalue-orders ticks p.algo_portfolio (record p { total_pnl = d.zero }) algo))
        (k algo)
  dispatch-AreOnce ticks _ p k algo = k algo

  -- A round of the portfolio that handled an event.
  pub posted-AreAccounts :
      (s : System D) (e : Event D) (rest : List (Event D))
      → IsTold s.api e
      → All (IsTold s.api) rest
      → AreAccounts s
      → AreAccounts (posted s e rest)
  posted-AreAccounts s e rest h r k =
      let p : Portfolio D = record s.world.portfolio { q = rest } in
      let booked = same-IsBooked s.world.portfolio p refl refl k.booked in
      let stored = same-AreStored s.api s.world.portfolio p refl k.stored in
      let sent = (dispatch s.world.last_ticks e p).1 in
      record {
        booked = dispatch-IsBooked x s.api s.world.last_ticks e p h stored booked;
        stored = dispatch-AreStored s.api s.world.last_ticks e p h stored;
        event = h;
        queued = subst (All (IsTold s.api)) (sym (dispatch-queue s.world.last_ticks e p)) r;
        coming = subst (All (IsTold s.api)) (sym (send_all-queue sent s.engine).0) (
            All-append (IsTold s.api) s.engine.q sent k.coming
              (dispatch-AreTold s.api s.world.last_ticks e p));
        once_api = k.once_api;
        once = dispatch-AreOnce s.world.last_ticks e p k.once;
      }
