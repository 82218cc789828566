-- ===== src/Gateway/Life.antt =====
-- The life of an order under any requests and callbacks of lib/gateway/gateway.cpp.
use calm_trading_system.Base.{
  string_eq, nat_eq, ℕ, ℤ_eq, String, Bool, ◌≡◌, refl, inl, inr, arith, lookup, Option-cases,
}
use calm_trading_system.Double.{Double}
use calm_trading_system.Gateway.{Decimals, Api, HistCall}
use calm_trading_system.Gateway.Ticks.{
  type_asked, subscribe, tick_by_tick_bid_ask, tick_by_tick_all_last,
}
use calm_trading_system.Gateway.Orders.{next_valid_id}
use calm_trading_system.Gateway.History.{
  contract_details, historical_bar, historical_data, historical_data_end,
}
use calm_trading_system.Gateway.Session.{start, stop}
use calm_trading_system.Gateway.Machine.{
  Input, starts, stops, subscribes, bid_ask, all_last, errs, valid_id, status, opened, sends,
  cancels, cancels_all, asks_details, asks_bars, has_bar, bars_end, state_or, second_or, step,
}
use calm_trading_system.Gateway.Book.{IsFiled, Follows, Follows-quiet}
use calm_trading_system.Gateway.Reports.{
  quiet, error-Follows, open_order-Follows, order_status-Follows, send_order-Follows,
}

module _ {D : Type 0} ⦃d : Double D⦄ where
  -- What a step that has nothing to do with orders leaves alone.
  record Unrelated (s t : Api D) : Type 0 where
    orders-eq : t.orders ≡ s.orders
    published-eq : t.published ≡ s.published

  of_Unrelated : (s t : Api D) → IsFiled s → Unrelated s t → Follows s t
  of_Unrelated s t filed u = quiet s t filed u.orders-eq u.published-eq

  subscribe-Unrelated :
      (sym : String) (delayed : Bool) (s : Api D)
      → Unrelated s (state_or (type_asked sym delayed s) (subscribe sym delayed s))
  unfolding subscribe type_asked
  subscribe-Unrelated sym delayed s = ground arith

  details-Unrelated : (sym : String) (s : Api D) → Unrelated s (state_or s (contract_details sym s))
  unfolding contract_details
  details-Unrelated sym s = ground arith

  bars-Unrelated :
      (sym : String) (h : HistCall) (s : Api D) → Unrelated s (second_or s (historical_bar sym h s))
  unfolding historical_bar
  bars-Unrelated sym h s = ground arith

  module _ (q : Decimals D) where
    bid_ask-Follows :
        (id time : ℕ) (bid ask : D) (n m : ℕ) (s : Api D)
        → IsFiled s
        → Follows s (tick_by_tick_bid_ask q id time bid ask n m s)
    unfolding tick_by_tick_bid_ask
    bid_ask-Follows id time bid ask n m s filed = elim (Option-cases (lookup id s.req_id2sym)) [
      | inl e ↦ rw (e, tick_by_tick_bid_ask) (quiet s s filed refl refl)
      | inr (sym, e) ↦
          rw (e, tick_by_tick_bid_ask)
            (Follows-quiet s _ _ filed refl refl (tt, tt) (λ id old. refl))
    ]

    all_last-Follows :
        (id time : ℕ) (price : D) (n : ℕ) (s : Api D)
        → IsFiled s
        → Follows s (tick_by_tick_all_last q id time price n s)
    unfolding tick_by_tick_all_last
    all_last-Follows id time price n s filed = elim (Option-cases (lookup id s.req_id2sym)) [
      | inl e ↦ rw (e, tick_by_tick_all_last) (quiet s s filed refl refl)
      | inr (sym, e) ↦
          rw (e, tick_by_tick_all_last)
            (Follows-quiet s _ _ filed refl refl (tt, tt) (λ id old. refl))
    ]

    -- From a state whose orders stand under their own ids, every request and callback keeps every
    -- order with its id, symbol, exchange, source, type, action and total, keeps the orders under
    -- their ids, and takes no event back; each order event that it adds shows the order as it stands after the
    -- step, and the orders after the step are those before it, brought up to date by these events.
    pub step-Follows : (i : Input D) (s : Api D) → IsFiled s → Follows s (step q i s)
    unfolding step start stop next_valid_id historical_data historical_data_end
    step-Follows (starts connected) s f = of_Unrelated s _ f (ground arith)
    step-Follows stops s f = of_Unrelated s _ f (ground arith)
    step-Follows (subscribes sym delayed) s f =
        of_Unrelated s _ f (subscribe-Unrelated sym delayed s)
    step-Follows (bid_ask id time bid ask n m) s f = bid_ask-Follows id time bid ask n m s f
    step-Follows (all_last id time price n) s f = all_last-Follows id time price n s f
    step-Follows (errs m) s f = error-Follows m s f
    step-Follows (valid_id id) s f = quiet s _ f refl refl
    step-Follows (status id word filled price) s f = order_status-Follows q id word filled price s f
    step-Follows (opened id c) s f = open_order-Follows id c s f
    step-Follows (sends req) s f = send_order-Follows q req s f
    step-Follows (cancels id) s f = quiet s _ f refl refl
    step-Follows cancels_all s f = quiet s _ f refl refl
    step-Follows (asks_details sym) s f = of_Unrelated s _ f (details-Unrelated sym s)
    step-Follows (asks_bars sym h) s f = of_Unrelated s _ f (bars-Unrelated sym h s)
    step-Follows (has_bar id b) s f = Follows-quiet s _ _ f refl refl (tt, tt) (λ id old. refl)
    step-Follows (bars_end id st en) s f = Follows-quiet s _ _ f refl refl (tt, tt) (λ id old. refl)
