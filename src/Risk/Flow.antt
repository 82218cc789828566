-- ===== src/Risk/Flow.antt =====
-- The flow limit over a history of checks and reports.
use calm_trading_system.Base.{
  ◌↔◌, ◌≤◌, ℤ_eq, beq_ℤ_iff, ◌≡◌, ◌≢◌, ◌⊎◌, inl, true, false, List, [], ◌∷◌, arith, All,
}
use calm_trading_system.Double.{Double}
use calm_trading_system.Objects.{OrderReq, OrderData, unset_long}
use calm_trading_system.Portfolio.{Portfolio, get_total_pnl}
use calm_trading_system.Risk.{
  RiskManager, set_insert, set_erase, below_algo_limit, check_risk, event_engine_order_cb,
}

-- A check of a request, with the portfolio as it then is, or a report of an order.
pub data Happening (D : Type 0) : Type 0 where
  checks : OrderReq D → Portfolio D → Happening D
  reports : OrderData D → Happening D

module _ {D : Type 0} ⦃d : Double D⦄ where
  unfoldable pub happen : Happening D → RiskManager D → RiskManager D
  happen (checks req p) r = (check_risk req p r).1
  happen (reports o) r = event_engine_order_cb o r

  unfoldable pub happen_all : List (Happening D) → RiskManager D → RiskManager D
  happen_all [] r = r
  happen_all (h ∷ hs) r = happen_all hs (happen h r)

  -- Requests for new orders, which leave `order_id` unset, as `AlgoEngine::send_order` does; and
  -- reports under the ids of orders that were sent.
  abbrev pub IsUsual : Happening D → Type 0
  IsUsual (checks req p) = req.order_id ≡ unset_long
  IsUsual (reports o) = o.order_id ≢ unset_long

  -- Only the id that stands for "unset" is ever active.
  abbrev OnlyUnset : RiskManager D → Type 0
  OnlyUnset r = (r.active_orders ≡ []) ⊎ (r.active_orders ≡ unset_long ∷ [])

  happen-OnlyUnset :
      (h : Happening D) (r : RiskManager D) → IsUsual h → OnlyUnset r → OnlyUnset (happen h r)
  unfolding happen check_risk event_engine_order_cb set_insert set_erase
  happen-OnlyUnset (checks req p) r u o = ground (arith, beq_ℤ_iff unset_long unset_long)
  happen-OnlyUnset (reports o) r u p = ground (arith, beq_ℤ_iff o.order_id unset_long)

  happen_all-OnlyUnset :
      (hs : List (Happening D)) (r : RiskManager D)
      → All IsUsual hs
      → OnlyUnset r
      → OnlyUnset (happen_all hs r)
  unfolding happen_all
  happen_all-OnlyUnset [] r us o = o
  happen_all-OnlyUnset (h ∷ hs) r us o =
      happen_all-OnlyUnset hs (happen h r) us.1 (happen-OnlyUnset h r us.0 o)

  -- No happening changes a limit.
  record SameLimits (r s : RiskManager D) : Type 0 where
    same_algo : s.algo_pnl_lmt ≡ r.algo_pnl_lmt
    same_total : s.total_pnl_lmt ≡ r.total_pnl_lmt
    same_flow : s.order_flow_lmt ≡ r.order_flow_lmt

  happen-SameLimits : (h : Happening D) (r : RiskManager D) → SameLimits r (happen h r)
  unfolding happen check_risk event_engine_order_cb
  happen-SameLimits (checks req p) r = ground arith
  happen-SameLimits (reports o) r = ground arith

  happen_all-SameLimits :
      (hs : List (Happening D)) (r : RiskManager D) → SameLimits r (happen_all hs r)
  unfolding happen_all
  happen_all-SameLimits [] r = ground arith
  happen_all-SameLimits (h ∷ hs) r =
      ground (arith, happen-SameLimits h r, happen_all-SameLimits hs (happen h r))

  -- The flow limit never refuses: start with no active order and a flow limit of two or more, let any checks of
  -- new orders and any reports of sent orders happen, as many orders as may be active by then. A
  -- request still passes exactly when the two profit checks pass.
  pub flow_limit_idle :
      (hs : List (Happening D)) (r : RiskManager D) (req : OrderReq D) (p : Portfolio D)
      → All IsUsual hs
      → r.active_orders ≡ []
      → 2 ≤ r.order_flow_lmt
      → ((check_risk req p (happen_all hs r)).0 ≡ true) ↔ (
          (d.lt (get_total_pnl p) r.total_pnl_lmt ≡ false)
          × (below_algo_limit req.source p r ≡ false))
  unfolding check_risk
  flow_limit_idle hs r req p us none_yet two =
      let only = happen_all-OnlyUnset hs r us (inl none_yet) in
      let same = happen_all-SameLimits hs r in (λ h. ground arith, λ h. ground arith)

  stays_full :
      (h : Happening D) (r : RiskManager D)
      → IsUsual h
      → r.active_orders ≡ unset_long ∷ []
      → (happen h r).active_orders ≡ unset_long ∷ []
  unfolding happen check_risk event_engine_order_cb set_insert set_erase
  stays_full (checks req p) r u e = ground (arith, beq_ℤ_iff req.order_id unset_long)
  stays_full (reports o) r u e = ground (arith, beq_ℤ_iff o.order_id unset_long)

  every_stays_full :
      (hs : List (Happening D)) (r : RiskManager D)
      → All IsUsual hs
      → r.active_orders ≡ unset_long ∷ []
      → (happen_all hs r).active_orders ≡ unset_long ∷ []
  unfolding happen_all
  every_stays_full [] r us e = e
  every_stays_full (h ∷ hs) r us e = every_stays_full hs (happen h r) us.1 (stays_full h r us.0 e)

  -- A flow limit of one refuses for good: once a new order has passed with no order active, no
  -- later request passes, whatever is reported of the orders that were sent.
  pub flow_limit_one :
      (hs : List (Happening D)) (r : RiskManager D) (first req : OrderReq D) (p0 p : Portfolio D)
      → All IsUsual hs
      → r.active_orders ≡ []
      → r.order_flow_lmt ≡ 1
      → first.order_id ≡ unset_long
      → (check_risk first p0 r).0 ≡ true
      → (check_risk req p (happen_all hs (check_risk first p0 r).1)).0 ≡ false
  flow_limit_one hs r first req p0 p us none_yet one unset passed =
      let r' = (check_risk first p0 r).1 in
      let full : r'.active_orders ≡ unset_long ∷ [] =
        unfold check_risk set_insert in ground arith in
      let same1 : SameLimits r r' = unfold check_risk in ground arith in
      let full' = every_stays_full hs r' us full in
      let same = happen_all-SameLimits hs r' in unfold check_risk in ground arith
