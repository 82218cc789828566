-- ===== src/Portfolio/Effects.antt =====
-- What an action of lib/core/portfolio.cpp leaves alone.
use calm_trading_system.Base.{String, string_eq, ◌≡◌, refl, ◌∙◌, [], ◌∷◌, Map}
use calm_trading_system.Double.{Double}
use calm_trading_system.Objects.{Event, order, timer}
use calm_trading_system.Market.{LastTicks}
use calm_trading_system.Portfolio.{
  ContractPos, Portfolio, entry, order_data_cb, revalue, timer_cb, dispatch,
}
use calm_trading_system.Portfolio.Kept.{entry-touch}

module _ {D : Type 0} ⦃d : Double D⦄ where
  pub revalue-queue :
      (ticks : LastTicks D) (ports : Map String (Map String (ContractPos D))) (p : Portfolio D)
      → (revalue ticks ports p).q ≡ p.q
  unfolding revalue
  revalue-queue ticks [] p = refl
  revalue-queue ticks ((algo, port) ∷ ports) p = revalue-queue ticks ports _

  pub dispatch-queue :
      (ticks : LastTicks D) (e : Event D) (p : Portfolio D) → (dispatch ticks e p).0.q ≡ p.q
  unfolding dispatch order_data_cb timer_cb
  dispatch-queue ticks (order o) p = refl
  dispatch-queue ticks (timer t) p = revalue-queue ticks p.algo_portfolio _
  dispatch-queue ticks _ p = refl

  pub revalue-orders :
      (ticks : LastTicks D) (ports : Map String (Map String (ContractPos D))) (p : Portfolio D)
      (a : String)
      → entry a (revalue ticks ports p).active_orders ≡ entry a p.active_orders
  unfolding revalue
  revalue-orders ticks [] p a = refl
  revalue-orders ticks ((algo, port) ∷ ports) p a =
      revalue-orders ticks ports _ a ∙ entry-touch algo a p.active_orders

  revalue-running :
      (ticks : LastTicks D) (ports : Map String (Map String (ContractPos D))) (p : Portfolio D)
      → (revalue ticks ports p).running ≡ p.running
  unfolding revalue
  revalue-running ticks [] p = refl
  revalue-running ticks ((algo, port) ∷ ports) p = revalue-running ticks ports _

  pub dispatch-running :
      (ticks : LastTicks D) (e : Event D) (p : Portfolio D)
      → (dispatch ticks e p).0.running ≡ p.running
  unfolding dispatch order_data_cb timer_cb
  dispatch-running ticks (order o) p = refl
  dispatch-running ticks (timer t) p = revalue-running ticks p.algo_portfolio _
  dispatch-running ticks _ p = refl
