-- ===== src/Market/Subscribed.antt =====
-- What a subscription of lib/core/market_data.cpp leaves in the table of last ticks.
use calm_trading_system.Base.{
  String, string_eq, Bool, true, false, ◌≡◌, refl, List, [], ◌∷◌, some, ok, arith, insert, contains,
  contains-insert, contains-cases, eq_iff,
}
use calm_trading_system.Double.{Double}
use calm_trading_system.Objects.{TickData}
use calm_trading_system.Gateway.{Api}
use calm_trading_system.Gateway.Ticks
use calm_trading_system.Gateway.Ticks.{fresh_tick}
use calm_trading_system.Market.{LastTicks, update_ticks, get_last_tick, subscribe}

module _ {D : Type 0} where
  unfoldable pub update_all : List (TickData D) → LastTicks D → LastTicks D
  update_all [] m = m
  update_all (t ∷ ts) m = update_all ts (update_ticks t m)

  contains-update_all :
      (sym : String) (ts : List (TickData D)) (m : LastTicks D)
      → contains sym m ≡ true
      → contains sym (update_all ts m) ≡ true
  unfolding update_all update_ticks
  contains-update_all sym [] m h = h
  contains-update_all sym (t ∷ ts) m h =
      contains-update_all sym ts (update_ticks t m)
        (ground (arith, contains-insert t.symbol sym t m))

module _ {D : Type 0} ⦃d : Double D⦄ where
  pub contains-subscribe :
      (sym : String) (delayed : Bool) (m m' : LastTicks D) (api api' : Api D)
      → subscribe sym delayed m api ≡ ok (m', api')
      → contains sym m' ≡ true
  unfolding subscribe
  contains-subscribe sym delayed m m' api api' h =
      ground (arith, contains-insert sym sym (fresh_tick "") m, eq_iff sym sym)

  -- After a subscription has returned, the last tick of its symbol is never a null pointer, whatever
  -- ticks arrive later.
  last_tick_stays :
      (sym : String) (delayed : Bool) (m m' : LastTicks D) (api api' : Api D)
      (ts : List (TickData D))
      → subscribe sym delayed m api ≡ ok (m', api')
      → (t : TickData D) × (get_last_tick sym (update_all ts m') ≡ some t)
  unfolding get_last_tick
  last_tick_stays sym delayed m m' api api' ts h =
      contains-cases sym (update_all ts m')
        (contains-update_all sym ts m' (contains-subscribe sym delayed m m' api api' h))

  -- A subscription made before the gateway runs is lost: it asks nothing of the client library, and yet every later
  -- subscription to the symbol, also once the gateway runs, changes nothing either.
  subscription_lost :
      (sym : String) (delayed again : Bool) (m : LastTicks D) (api later : Api D)
      → contains sym m ≡ false
      → api.running ≡ false
      → let m' = insert sym (fresh_tick "") m in
        (subscribe sym delayed m api ≡ ok (m', api))
        × (subscribe sym again m' later ≡ ok (m', later))
  unfolding subscribe Ticks.subscribe
  subscription_lost sym delayed again m api later h off = (
    rw (h, off) refl,
    ground (arith, contains-insert sym sym (fresh_tick {D = D} "") m, eq_iff sym sym),
  )
