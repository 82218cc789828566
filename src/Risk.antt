-- ===== src/Risk.antt =====
-- lib/core/risk.h and lib/core/risk.cpp: the checks before an order is sent.
pub mod Check
pub mod Flow
pub mod Limits
use calm_trading_system.Base.{
  ℕ, suc, ℤ, ℤ_eq, String, string_eq, Bool, true, false, not, ◌==◌, List, [], ◌∷◌, Option, none,
  some, Map, lookup, length, leb, if◌then◌else◌,
}
use calm_trading_system.Double.{Double}
use calm_trading_system.Objects.{OrderReq, OrderData}
use calm_trading_system.Objects.Status.{is_active_order}
use calm_trading_system.Portfolio.{Portfolio, get_total_pnl, get_algo_pnl}

-- `active_orders` is a hash set: a list with no element twice.
pub record RiskManager (D : Type 0) : Type 0 where
  pub algo_pnl_lmt : Map String D
  pub total_pnl_lmt : D
  pub order_flow_lmt : ℕ
  pub active_orders : List ℤ

abbrev pub mem_of : ℤ → List ℤ → Bool
mem_of a [] = false
mem_of a (x ∷ xs) = if a == x then true else mem_of a xs

unfoldable pub set_insert : ℤ → List ℤ → List ℤ
set_insert a xs = if mem_of a xs then xs else a ∷ xs

unfoldable pub set_erase : ℤ → List ℤ → List ℤ
set_erase a [] = []
set_erase a (x ∷ xs) = if a == x then xs else x ∷ set_erase a xs

module _ {D : Type 0} ⦃d : Double D⦄ where
  -- `algo_pnl_lmt.contains(algo) && portfolio.get_algo_pnl(algo) < algo_pnl_lmt[algo]`
  abbrev pub below_algo_limit : String → Portfolio D → RiskManager D → Bool
  below_algo_limit algo p r = elim (lookup algo r.algo_pnl_lmt) [
    | none ↦ false
    | some lmt ↦ d.lt (get_algo_pnl algo p).0 lmt
  ]

  -- The portfolio after that test, which reads the profit only of an algo with a limit.
  abbrev pub after_algo_limit : String → Portfolio D → RiskManager D → Portfolio D
  after_algo_limit algo p r = elim (lookup algo r.algo_pnl_lmt) [
    | none ↦ p
    | some lmt ↦ (get_algo_pnl algo p).1
  ]

  unfoldable pub check_risk :
      OrderReq D → Portfolio D → RiskManager D → Bool × RiskManager D × Portfolio D
  unfolding set_insert
  check_risk req p r =
      if d.lt (get_total_pnl p) r.total_pnl_lmt
      then (false, r, p)
      else if below_algo_limit req.source p r
      then (false, r, after_algo_limit req.source p r)
      else if leb r.order_flow_lmt (length r.active_orders)
      then (false, r, after_algo_limit req.source p r)
      else (
        true,
        record r { active_orders = set_insert req.order_id r.active_orders },
        after_algo_limit req.source p r,
      )

module _ {D : Type 0} where
  unfoldable pub event_engine_order_cb : OrderData D → RiskManager D → RiskManager D
  unfolding set_erase
  event_engine_order_cb o r =
      if not (is_active_order o.status)
      then record r { active_orders = set_erase o.order_id r.active_orders }
      else r
