-- ===== src/System/Told.antt =====
-- What the reports of orders that are on their way, and the orders that the portfolio has, say of an order's symbol and side.
use calm_trading_system.Base.{
  ℤ, ℤ_eq, String, string_eq, ◌≡◌, refl, sym, ◌∙◌, subst, Bool-cases, ◌==◌, ◌&&◌, beq_ℤ_iff, inl,
  inr, List, [], ◌∷◌, All, none, some, arith, lookup,
}
use calm_trading_system.Double.{Double, IsExact}
use calm_trading_system.Objects.{OrderData, Event, engine_stop, order, timer}
use calm_trading_system.Objects.Enums.{Action, buy}
use calm_trading_system.Market.{LastTicks}
use calm_trading_system.Gateway.{Api}
use calm_trading_system.Gateway.Book.{IsCurrent, Follows}
use calm_trading_system.Portfolio.{Portfolio, dispatch}
use calm_trading_system.Portfolio.Booking.{IsBooked}
use calm_trading_system.Portfolio.Kept.{IsProperEvent, dispatch-AreKept}
use calm_trading_system.System.Pending.{in_portfolio}
use calm_trading_system.System.Posting.{in_portfolio-order_data_cb, in_portfolio-timer_cb}

module _ {D : Type 0} where
  -- The gateway's order with the id has this symbol and this side.
  abbrev pub Fits : Api D → ℤ → String → Action → Type 0
  Fits s id symbol action =
      (p : OrderData D) × (lookup id s.orders ≡ some p) × (p.symbol ≡ symbol) × (p.action ≡ action)

  abbrev pub IsTold : Api D → Event D → Type 0
  IsTold s (order o) = Fits s o.order_id o.symbol o.action
  IsTold s _ = Unit

  abbrev pub AreStored : Api D → Portfolio D → Type 0
  AreStored s p =
      (algo : String) (id : ℤ) (o : OrderData D)
      → in_portfolio algo id p ≡ some o
      → Fits s id o.symbol o.action

  Follows-Fits :
      (s t : Api D) (id : ℤ) (symbol : String) (action : Action)
      → Follows s t
      → Fits s id symbol action
      → Fits t id symbol action
  Follows-Fits s t id symbol action f (p, here, a, b) =
      let (r, there, same) = f.lasting id p here in
      (r, there, same.same_symbol ∙ a, same.same_action ∙ b)

  pub Follows-IsTold : (s t : Api D) (e : Event D) → Follows s t → IsTold s e → IsTold t e
  Follows-IsTold s t (order o) f h = Follows-Fits s t o.order_id o.symbol o.action f h
  Follows-IsTold s t engine_stop f h = tt
  Follows-IsTold s t _ f h = tt

  pub Follows-AreTold :
      (s t : Api D) (es : List (Event D)) → Follows s t → All (IsTold s) es → All (IsTold t) es
  Follows-AreTold s t [] f h = tt
  Follows-AreTold s t (e ∷ es) f h = (Follows-IsTold s t e f h.0, Follows-AreTold s t es f h.1)

  pub Follows-AreStored :
      (s t : Api D) (p : Portfolio D) → Follows s t → AreStored s p → AreStored t p
  Follows-AreStored s t p f h algo id o e = Follows-Fits s t id o.symbol o.action f (h algo id o e)

  pub current-AreTold : (s : Api D) (es : List (Event D)) → All (IsCurrent s) es → All (IsTold s) es
  current-AreTold s [] h = tt
  current-AreTold s (order o ∷ es) h = ((o, h.0, refl, refl), current-AreTold s es h.1)
  current-AreTold s (engine_stop ∷ es) h = (tt, current-AreTold s es h.1)
  current-AreTold s (_ ∷ es) h = (tt, current-AreTold s es h.1)

  -- The gateway's symbol and side of an id.
  abbrev symbol_at : Api D → String → ℤ → String
  symbol_at s algo id = elim (lookup id s.orders) [ none ↦ "" | some p ↦ p.symbol ]

  abbrev action_at : Api D → String → ℤ → Action
  action_at s algo id = elim (lookup id s.orders) [ none ↦ buy | some p ↦ p.action ]

  Fits-at :
      (s : Api D) (algo : String) (id : ℤ) (symbol : String) (action : Action)
      → Fits s id symbol action
      → (symbol ≡ symbol_at s algo id) × (action ≡ action_at s algo id)
  Fits-at s algo id symbol action (p, here, a, b) =
      (rw (symbol_at, here) (sym a), rw (action_at, here) (sym b))

module _ {D : Type 0} ⦃d : Double D⦄ where
  -- What the portfolio does with an event keeps its orders to the gateway's symbols and sides.
  pub dispatch-AreStored :
      (s : Api D) (ticks : LastTicks D) (e : Event D) (p : Portfolio D)
      → IsTold s e
      → AreStored s p
      → AreStored s (dispatch ticks e p).0
  unfolding dispatch
  dispatch-AreStored s ticks (order o) p h k algo id r e =
      elim (Bool-cases ((algo == o.source) && (id == o.order_id))) [
        | inl own ↦
            let same : o ≡ r = ground (arith, in_portfolio-order_data_cb algo id o p) in
            let one : o.order_id ≡ id = ground (arith, beq_ℤ_iff id o.order_id) in
            subst (λ (v : OrderData D). Fits s id v.symbol v.action) same
              (subst (λ i. Fits s i o.symbol o.action) one h)
        | inr other ↦ k algo id r (ground (arith, in_portfolio-order_data_cb algo id o p))
      ]
  dispatch-AreStored s ticks (timer t) p h k algo id r e =
      k algo id r (sym (in_portfolio-timer_cb algo id ticks t p) ∙ e)
  dispatch-AreStored s ticks _ p h k algo id r e = k algo id r e

  -- It keeps the books, too.
  pub dispatch-IsBooked :
      (x : IsExact D) (s : Api D) (ticks : LastTicks D) (e : Event D) (p : Portfolio D)
      → IsTold s e
      → AreStored s p
      → IsBooked x p
      → IsBooked x (dispatch ticks e p).0
  dispatch-IsBooked x s ticks e p h k b =
      (dispatch-AreKept (symbol_at s) (action_at s) x ticks e p (proper e h) (record {
        booked = b;
        proper = λ algo id o l. Fits-at s algo id o.symbol o.action (k algo id o l);
      })).booked
    where
      proper : (f : Event D) → IsTold s f → IsProperEvent (symbol_at s) (action_at s) f
      proper (order o) t = Fits-at s o.source o.order_id o.symbol o.action t
      proper engine_stop t = tt
      proper _ t = tt
