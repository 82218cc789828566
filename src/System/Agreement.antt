-- ===== src/System/Agreement.antt =====
-- The orders of the gateway and those of the portfolio, while the threads of `Trader` (lib/core/trader.h) run.
use mathlib.Core.List.{Permᴰ}
use calm_trading_system.Base.{
  ℤ, ℤ_eq, String, string_eq, ◌≡◌, refl, sym, ap, ◌∙◌, subst, nat_eq, List, [], ◌∷◌, ◌++◌,
  append-nil, append_assoc, length, drop, map, some, lookup,
}
use calm_trading_system.Objects.{Event, engine_stop, order}
use calm_trading_system.Objects.Enums.{EventType}
use calm_trading_system.Gateway.{Api}
use calm_trading_system.Gateway.Book.{IsFiled, Follows}
use calm_trading_system.Events.{EventEngine, callbacks, send}
use calm_trading_system.Portfolio.{Portfolio, entry}
use calm_trading_system.System.{World, Listener}
use calm_trading_system.System.Wiring.{named, listeners}
use calm_trading_system.System.Pending.{
  pending, in_portfolio, in_gateway, pending-append, in_gateway-Follows, drop-append,
}
use calm_trading_system.System.Machine.{System, send_all, with_api}

module _ {D : Type 0} where
  -- The engine's table has, for each type of event, the callbacks of those who listen to it, in any order.
  abbrev pub IsWired : EventEngine D (World D) → Type 0
  IsWired s =
      (t : EventType)
      → (ls : List (String × Listener)) × Permᴰ ls (listeners t)
        × (callbacks t s.m_cbs ≡ map named ls)

  -- An event about an order has reached the portfolio's orders.
  abbrev pub IsSeen : Event D → Portfolio D → Type 0
  IsSeen (order o) p = in_portfolio o.source o.order_id p ≡ some o
  IsSeen _ p = Unit

  -- The portfolio's orders, brought up to date by what is queued for the portfolio and then by what is
  -- queued for the event engine, are the gateway's.
  pub record Agrees (x : System D) : Type 0 where
    pub filed : IsFiled x.api
    pub wired : IsWired x.engine
    pub seen : IsSeen x.portfolio_event x.world.portfolio
    pub flow :
        (algo : String) (id : ℤ)
        → pending algo id
            (x.world.portfolio.q ++ x.engine.q)
            (in_portfolio algo id x.world.portfolio)
          ≡ in_gateway algo id x.api

  pub send_all-queue :
      (es : List (Event D)) (s : EventEngine D (World D))
      → ((send_all es s).q ≡ s.q ++ es) × ((send_all es s).m_cbs ≡ s.m_cbs)
  unfolding send_all send
  send_all-queue [] s = (sym (append-nil s.q), refl)
  send_all-queue (e ∷ es) s =
      let r = send_all-queue es (send e s) in (r.0 ∙ append_assoc s.q (e ∷ []) es, r.1)

  pub IsSeen-portfolio :
      (e : Event D) (p r : Portfolio D)
      → r.active_orders ≡ p.active_orders
      → IsSeen e p
      → IsSeen e r
  IsSeen-portfolio (order o) p r h k = ap (λ m. lookup o.order_id (entry o.source m)) h ∙ k
  IsSeen-portfolio engine_stop p r h k = tt
  IsSeen-portfolio _ p r h k = tt

  -- A step of the gateway, which sends what it publishes, beside which the portfolio keeps its orders.
  pub with_api-Agrees :
      (x : System D) (t : Api D) → Agrees x → Follows x.api t → Agrees (with_api t x)
  unfolding with_api
  with_api-Agrees x t a f =
      let news : drop (length x.api.published) t.published ≡ f.news =
        ap (drop (length x.api.published)) f.published-eq ∙ drop-append x.api.published f.news in
      let sent = send_all-queue (drop (length x.api.published) t.published) x.engine in
      record {
        filed = f.filed;
        wired = λ k. let w = a.wired k in (w.0, w.1, ap (callbacks k) sent.1 ∙ w.2);
        seen = a.seen;
        flow = λ algo id.
            let old = in_portfolio algo id x.world.portfolio in
            let before = x.world.portfolio.q ++ x.engine.q in
            ap (λ l. pending algo id (x.world.portfolio.q ++ l) old)
              (sent.0 ∙ ap (λ l. x.engine.q ++ l) news)
            ∙ ap (λ l. pending algo id l old)
                (sym (append_assoc x.world.portfolio.q x.engine.q f.news))
            ∙ pending-append algo id before f.news old
            ∙ ap (pending algo id f.news) (a.flow algo id)
            ∙ sym (in_gateway-Follows algo id x.api t f);
      }

  -- A step that leaves the gateway alone, and the reports on their way.
  pub Agrees-unmoved :
      (x y : System D)
      → y.api ≡ x.api
      → y.engine.m_cbs ≡ x.engine.m_cbs
      → IsSeen y.portfolio_event y.world.portfolio
      → ((algo : String) (id : ℤ)
          → pending algo id
              (y.world.portfolio.q ++ y.engine.q)
              (in_portfolio algo id y.world.portfolio)
            ≡ pending algo id
                (x.world.portfolio.q ++ x.engine.q)
                (in_portfolio algo id x.world.portfolio))
      → Agrees x
      → Agrees y
  Agrees-unmoved x y e m seen same a = record {
    filed = subst IsFiled (sym e) a.filed;
    wired = λ k. let w = a.wired k in (w.0, w.1, ap (callbacks k) m ∙ w.2);
    seen = seen;
    flow = λ algo id. same algo id ∙ a.flow algo id ∙ ap (in_gateway algo id) (sym e);
  }
