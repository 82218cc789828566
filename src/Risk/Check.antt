-- ===== src/Risk/Check.antt =====
-- When `check_risk` lets a request through.
use calm_trading_system.Base.{
  ◌<◌, ◌≡◌, ◌↔◌, ◌⊎◌, subst, sym, refl, true, false, inl, inr, Bool-cases, Option-cases, Option,
  none, some, arith, length, lookup, lookup-insert, String, string_eq, eq_iff,
}
use calm_trading_system.Double.{Double}
use calm_trading_system.Objects.{OrderReq}
use calm_trading_system.Portfolio.{Portfolio, get_total_pnl, get_algo_pnl}
use calm_trading_system.Risk.{
  RiskManager, set_insert, below_algo_limit, after_algo_limit, check_risk,
}

-- Whether a limit of an algo, if there is one, is kept.
abbrev pub IsWithin : {D : Type 0} ⦃d : Double D⦄ → D → Option D → Type 0
IsWithin pnl none = Unit
IsWithin ⦃d = d⦄ pnl (some lmt) = d.lt pnl lmt ≡ false

module _ {D : Type 0} ⦃d : Double D⦄ where
  -- All that is asked of a portfolio about profit, and what it keeps of orders and positions, is the same.
  pub record SameProfit (p p' : Portfolio D) : Type 0 where
    pub total : get_total_pnl p' ≡ get_total_pnl p
    pub of_algo : (algo : String) → (get_algo_pnl algo p').0 ≡ (get_algo_pnl algo p).0
    pub rest : p' ≡ record p { algo_pnl = p'.algo_pnl }

  get_algo_pnl-SameProfit : (name : String) (p : Portfolio D) → SameProfit p (get_algo_pnl name p).1
  unfolding get_algo_pnl get_total_pnl
  get_algo_pnl-SameProfit name p = elim (Option-cases (lookup name p.algo_pnl)) [
    | inr (v, there) ↦
        rw (get_algo_pnl, there) (record { total = refl; of_algo = λ algo. refl; rest = refl })
    | inl unknown ↦
        rw (get_algo_pnl, unknown)
          (record {
            total = refl;
            of_algo = λ algo.
                ground
                  (arith, unknown, lookup-insert name algo d.zero p.algo_pnl, eq_iff algo name);
            rest = refl;
          })
  ]

  module _ (req : OrderReq D) (p : Portfolio D) (r : RiskManager D) where
    below_limit_iff :
        (lmt : Option D)
        → lookup req.source r.algo_pnl_lmt ≡ lmt
        → (below_algo_limit req.source p r ≡ false) ↔ IsWithin (get_algo_pnl req.source p).0 lmt
    below_limit_iff none h = ((λ k. tt), (λ k. rw (below_algo_limit, h) refl))
    below_limit_iff (some lmt) h = ((λ k. ground arith), (λ k. rw (below_algo_limit, h) k))

    after_limit-SameProfit : SameProfit p (after_algo_limit req.source p r)
    after_limit-SameProfit = elim (Option-cases (lookup req.source r.algo_pnl_lmt)) [
      | inl no_limit ↦
          rw (after_algo_limit, no_limit)
            (record { total = refl; of_algo = λ algo. refl; rest = refl })
      | inr (lmt, there) ↦ rw (after_algo_limit, there) (get_algo_pnl-SameProfit req.source p)
    ]

    cascade_iff : ((check_risk req p r).0 ≡ true) ↔ (
        (d.lt (get_total_pnl p) r.total_pnl_lmt ≡ false)
        × (below_algo_limit req.source p r ≡ false)
        × (length r.active_orders < r.order_flow_lmt))
    unfolding check_risk
    cascade_iff = (λ h. ground arith, λ h. ground arith)

    check_risk-portfolio :
        ((check_risk req p r).2 ≡ p) ⊎ ((check_risk req p r).2 ≡ after_algo_limit req.source p r)
    unfolding check_risk
    check_risk-portfolio = elim (Bool-cases (d.lt (get_total_pnl p) r.total_pnl_lmt)) [
      | inl low ↦ inl (ground arith)
      | inr high ↦ inr (ground arith)
    ]

    check_risk-SameProfit : SameProfit p (check_risk req p r).2
    check_risk-SameProfit = elim check_risk-portfolio [
      | inl still ↦
          subst (SameProfit p) (sym still)
            (record { total = refl; of_algo = λ algo. refl; rest = refl })
      | inr read ↦ subst (SameProfit p) (sym read) after_limit-SameProfit
    ]

    -- A request passes exactly when the total profit is not below its limit, the profit of the request's algo is not
    -- below the limit that the map has for the algo, if it has one, and fewer orders are active than the flow limit;
    -- then its id is added to the active orders, and nothing else of the risk manager changes. A request that fails
    -- leaves the risk manager unchanged. Either way the portfolio answers with the same profit, in total and for every
    -- algo, and keeps its orders and positions.
    pub check_risk_iff :
        (((check_risk req p r).0 ≡ true) ↔ (
          (d.lt (get_total_pnl p) r.total_pnl_lmt ≡ false)
          × IsWithin (get_algo_pnl req.source p).0 (lookup req.source r.algo_pnl_lmt)
          × (length r.active_orders < r.order_flow_lmt)))
        × ((check_risk req p r).0 ≡ true
            → (check_risk req p r).1
              ≡ record r { active_orders = set_insert req.order_id r.active_orders })
        × ((check_risk req p r).0 ≡ false → (check_risk req p r).1 ≡ r)
        × SameProfit p (check_risk req p r).2
    unfolding check_risk
    check_risk_iff =
        let within = below_limit_iff (lookup req.source r.algo_pnl_lmt) refl in
        (
          (
            (λ h. let c = cascade_iff.0 h in (c.0, within.0 c.1, c.2)),
            (λ h. cascade_iff.1 (h.0, within.1 h.1, h.2)),
          ),
          λ h. ground arith,
          λ h. ground arith,
          check_risk-SameProfit,
        )
