-- ===== src/Portfolio/Unpriced.antt =====
-- The profit of lib/core/portfolio.cpp when a market price is missing.
use calm_trading_system.Base.{
  String, string_eq, ◌≡◌, refl, sym, ◌∙◌, Bool, true, false, Bool-cases, Option-cases, inl, inr, [],
  ◌∷◌, none, some, arith, Map, lookup, if◌then◌else◌,
}
use calm_trading_system.Double.{Double}
use calm_trading_system.Utils.{is_unset_double}
use calm_trading_system.Objects.{Timer}
use calm_trading_system.Market.{LastTicks, get_last_tick}
use calm_trading_system.Portfolio.{
  ContractPos, Portfolio, entry, touch, pnl_of, add_total, revalue, timer_cb, get_total_pnl,
}
use calm_trading_system.Portfolio.Kept.{entry-touch}

module _ {D : Type 0} ⦃d : Double D⦄ (ticks : LastTicks D) where
  abbrev pub market_symbol : String → Map String String → String
  market_symbol sym mapping = elim (lookup sym mapping) [ none ↦ sym | some s ↦ s ]

  -- Whether the market symbol of some position has no last tick.
  abbrev pub is_unpriced : Map String String → Map String (ContractPos D) → Bool
  is_unpriced mapping [] = false
  is_unpriced mapping ((s, c) ∷ port) = elim (get_last_tick (market_symbol s mapping) ticks) [
    | none ↦ true
    | some t ↦ is_unpriced mapping port
  ]

  abbrev pub any_unpriced :
      Map String (Map String String) → Map String (Map String (ContractPos D)) → Bool
  any_unpriced mappings [] = false
  any_unpriced mappings ((algo, port) ∷ ports) =
      if is_unpriced (entry algo mappings) port then true else any_unpriced mappings ports

  pub any_unpriced-touch :
      (algo : String) (mappings : Map String (Map String String))
      (ports : Map String (Map String (ContractPos D)))
      → any_unpriced (touch algo mappings) ports ≡ any_unpriced mappings ports
  any_unpriced-touch algo mappings [] = refl
  any_unpriced-touch algo mappings ((k, port) ∷ ports) =
      rw (entry-touch algo k mappings, any_unpriced-touch algo mappings ports) refl

  module _ (unset : d.same d.dbl_max d.dbl_max ≡ true) where
    max-unset : is_unset_double d.dbl_max ≡ true
    unfolding is_unset_double
    max-unset = ground (arith, unset)

    pnl_stays_unset :
        (mapping : Map String String) (port : Map String (ContractPos D))
        → pnl_of ticks mapping port d.dbl_max ≡ d.dbl_max
    unfolding pnl_of
    pnl_stays_unset mapping [] = refl
    pnl_stays_unset mapping ((s, c) ∷ port) =
        ground (arith, max-unset, pnl_stays_unset mapping port)

    pnl_unpriced :
        (mapping : Map String String) (port : Map String (ContractPos D)) (pnl : D)
        → is_unpriced mapping port ≡ true
        → pnl_of ticks mapping port pnl ≡ d.dbl_max
    unfolding pnl_of
    pnl_unpriced mapping [] pnl h = cc
    pnl_unpriced mapping ((s, c) ∷ port) pnl h =
        elim (Option-cases (get_last_tick (market_symbol s mapping) ticks)) [
          | inl e ↦ rw e (pnl_stays_unset mapping port)
          | inr (t, e) ↦ rw e (pnl_unpriced mapping port _ (ground arith))
        ]

    total_stays_unset :
        (ports : Map String (Map String (ContractPos D))) (p : Portfolio D)
        → p.total_pnl ≡ d.dbl_max
        → (revalue ticks ports p).total_pnl ≡ d.dbl_max
    unfolding revalue add_total
    total_stays_unset [] p h = h
    total_stays_unset ((algo, port) ∷ ports) p h =
        total_stays_unset ports _ (ground (arith, max-unset))

    revalue_unpriced :
        (ports : Map String (Map String (ContractPos D))) (p : Portfolio D)
        → any_unpriced p.mktd_mapping ports ≡ true
        → (revalue ticks ports p).total_pnl ≡ d.dbl_max
    unfolding revalue add_total
    revalue_unpriced [] p h = cc
    revalue_unpriced ((algo, port) ∷ ports) p h =
        elim (Bool-cases (is_unpriced (entry algo p.mktd_mapping) port)) [
          | inl here ↦
              total_stays_unset ports _ (
                ground
                  (arith, max-unset, pnl_unpriced (entry algo p.mktd_mapping) port d.zero here))
          | inr later ↦
              revalue_unpriced ports _ (any_unpriced-touch algo p.mktd_mapping ports ∙ ground arith)
        ]

    -- Where `DBL_MAX == DBL_MAX`: if the market symbol of any position of any algo has no last tick, the total
    -- profit after `timer_cb` is `UnsetDouble`, whatever the other positions are worth.
    pub total_unset :
        (t : Timer) (p : Portfolio D)
        → any_unpriced p.mktd_mapping p.algo_portfolio ≡ true
        → get_total_pnl (timer_cb ticks t p).0 ≡ d.dbl_max
    unfolding timer_cb get_total_pnl
    total_unset t p h = revalue_unpriced p.algo_portfolio (record p { total_pnl = d.zero }) h
