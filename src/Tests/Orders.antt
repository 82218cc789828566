-- ===== src/Tests/Orders.antt =====
-- The theorems on orders, positions and limits, at concrete states.
use calm_trading_system.Base.{
  lookup, contains, ℕ, ℤ, pos, negsuc, ◌≡◌, refl, ◌<◌, ◌≤◌, false, true, List, [], ◌∷◌, ok, arith,
  All,
}
use calm_trading_system.Double.{ℤ_double, ℤ-IsExact}
use calm_trading_system.Objects.{Timer, order, engine_test, PosUpdate, pos_update}
use calm_trading_system.Objects.Enums.{sell, submitted, filled}
use calm_trading_system.Portfolio.{get_algo_pnl, Portfolio, get_total_pnl, timer_cb, order_data_cb}
use calm_trading_system.Portfolio.Booking.{IsBooked}
use calm_trading_system.Portfolio.Machine.{Input, adds, starts, queues, rounds, run}
use calm_trading_system.Portfolio.Unpriced.{total_unset}
use calm_trading_system.Portfolio.Profit.{profit_exact}
use calm_trading_system.Portfolio.{entry}
use calm_trading_system.Market.{LastTicks, get_last_tick}
use calm_trading_system.Portfolio.Runs.{run-IsBooked}
use calm_trading_system.Risk.{check_risk}
use calm_trading_system.Risk.Check.{SameProfit, check_risk_iff}
use calm_trading_system.Risk.Flow.{checks, reports, flow_limit_idle, flow_limit_one, happen_all}
use calm_trading_system.Algo.Actions.{act, note_order, order_cb}
use calm_trading_system.Algo.Tracking.{
  position_follows_order, late_report_counts_again, order_cb_all,
}
use calm_trading_system.Algo.Inflight.{one_order_at_a_time, placed}
use calm_trading_system.Gateway.{cancel_order}
use calm_trading_system.Algo.{AlgoEngine}
use calm_trading_system.Trading.{TradingEngine}
use calm_trading_system.Tests.{
  last_tick, connected, decimals, report, new_request, limits, books, algo, trading,
}

-- The algo has lost 150, and may lose 99.
abbrev lossy : Portfolio ℤ
lossy = record books { algo_pnl = ("algo_engine", negsuc 149) ∷ [] }

check_risk_iff_example :
    ((check_risk new_request lossy (limits 2)).0 ≡ true
      → ℤ_double.lt (negsuc 149) (negsuc 99) ≡ false)
    × SameProfit lossy (check_risk new_request lossy (limits 2)).2
unfolding calm_trading_system.Base.lookup calm_trading_system.Portfolio.get_algo_pnl
    calm_trading_system.Portfolio.get_total_pnl
check_risk_iff_example =
    let r = check_risk_iff new_request lossy (limits 2) in ((λ h. (r.0.0 h).1), r.3)

flow_limit_idle_example :
    ((check_risk new_request books (
        happen_all
          (checks new_request books ∷ reports (report (pos 6) (pos 0) submitted) ∷ [])
          (limits 2))).0
      ≡ true)
unfolding calm_trading_system.Base.lookup calm_trading_system.Portfolio.get_algo_pnl
    calm_trading_system.Portfolio.get_total_pnl
flow_limit_idle_example =
    (flow_limit_idle (checks new_request books ∷ reports (report (pos 6) (pos 0) submitted) ∷ [])
        (limits 2) new_request books (refl, (λ e. cc, tt)) refl (omega arith)).1
      (refl, refl)

flow_limit_one_example :
    (check_risk new_request books (
      happen_all
        (reports (report (pos 6) (pos 10) filled) ∷ [])
        (check_risk new_request books (limits 1)).1)).0
    ≡ false
unfolding calm_trading_system.Base.lookup calm_trading_system.Portfolio.get_algo_pnl
    calm_trading_system.Portfolio.get_total_pnl check_risk
flow_limit_one_example =
    flow_limit_one (reports (report (pos 6) (pos 10) filled) ∷ []) (limits 1) new_request
      new_request books books (λ e. cc, tt) refl refl refl refl

position_follows_order_example :
    (order_cb (report (pos 6) (pos 10) filled) (
      order_cb_all
        (report (pos 6) (pos 4) submitted ∷ [])
        (note_order (pos 6) (negsuc 9) new_request algo))).curr_pos
    ≡ negsuc 6
unfolding calm_trading_system.Base.◌+ℤ◌ calm_trading_system.Base.◌-ℤ◌
position_follows_order_example =
    (position_follows_order ℤ-IsExact (pos 6) sell (negsuc 9) new_request algo
      (report (pos 6) (pos 4) submitted ∷ []) (report (pos 6) (pos 10) filled) ((refl, refl), tt)
      (refl, refl)).0

late_report_counts_again_example :
    (order_cb
      (report (pos 5) (pos 10) filled)
      (note_order (pos 6) (negsuc 9) new_request algo)).curr_pos
    ≡ negsuc 6
unfolding calm_trading_system.Base.lookup calm_trading_system.Base.◌+ℤ◌
    calm_trading_system.Base.◌-ℤ◌ contains
late_report_counts_again_example =
    (late_report_counts_again ℤ-IsExact (pos 6) (negsuc 9) new_request algo
      (report (pos 5) (pos 10) filled) (λ e. cc) refl).0

abbrev move_to : PosUpdate ℤ
move_to = record { symbol = []; position = pos 13; timestamp = 60; retry = false }

abbrev busy : AlgoEngine ℤ
busy = record algo { inflight_order_id = pos 6; order_reqs = (pos 6, new_request) ∷ [] }

abbrev deferred : AlgoEngine ℤ
deferred = record busy {
  q = pos_update (record move_to { retry = true }) ∷ [];
  order_cancelled = true;
}

abbrev cancelling : TradingEngine ℤ
cancelling = record trading { api = record connected { calls = cancel_order (pos 6) ∷ [] } }

one_order_at_a_time_example : placed cancelling.api.calls ≡ placed trading.api.calls
unfolding act calm_trading_system.Algo.Actions.update_pos_cb calm_trading_system.Base.lookup
    calm_trading_system.Queue.wait_push calm_trading_system.Trading.cancel_order
one_order_at_a_time_example =
    (one_order_at_a_time decimals true (pos_update move_to) busy deferred trading cancelling refl).1
      refl

abbrev one_report : List (Input ℤ)
one_report =
    adds "algo_engine" "VOD-STK-GBP.LSEETF"
    ∷ starts
    ∷ queues (order (report (pos 6) (pos 4) submitted))
    ∷ rounds []
    ∷ rounds []
    ∷ []

run-IsBooked_example : IsBooked ℤ-IsExact (run one_report (engine_test, books)).1
run-IsBooked_example =
    run-IsBooked (λ algo id. "VOD-STK-GBP.LSEETF") (λ algo id. sell) ℤ-IsExact one_report
      engine_test (tt, (tt, ((refl, refl), (tt, (tt, tt))))) tt

-- One position, and no tick.
abbrev holding : Portfolio ℤ
holding = record books {
  algo_portfolio =
      (
        "algo_engine",
        ("VOD-STK-GBP.LSEETF", record { symbol = ""; position = pos 3; cost = pos 20 }) ∷ [],
      )
      ∷ [];
}

total_unset_example :
    get_total_pnl (timer_cb [] (record { sec = 30; timestamp = 90 }) holding).0 ≡ ℤ_double.dbl_max
unfolding lookup get_last_tick
total_unset_example = total_unset [] refl (record { sec = 30; timestamp = 90 }) holding refl

-- Two algos, one of them with a position that is priced at another symbol.
abbrev invested : Portfolio ℤ
invested = record holding {
  algo_portfolio =
      (
        "pairs",
        ("VOD-STK-GBP.LSEETF", record { symbol = ""; position = negsuc 3; cost = negsuc 29 })
            ∷ ("VOD-STK-GBP.SMART", record { symbol = ""; position = pos 2; cost = pos 5 })
            ∷ [],
      )
      ∷ holding.algo_portfolio;
  mktd_mapping = ("pairs", ("VOD-STK-GBP.SMART", "VOD-STK-GBP.LSEETF") ∷ []) ∷ [];
}

abbrev half_past : Timer
half_past = record { sec = 30; timestamp = 90 }

abbrev quotes : LastTicks ℤ
quotes = ("VOD-STK-GBP.LSEETF", last_tick) ∷ []

profit_exact_example :
    (get_total_pnl (timer_cb quotes half_past invested).0 ≡ pos 13)
    × ((get_algo_pnl "pairs" (timer_cb quotes half_past invested).0).0 ≡ pos 9)
unfolding lookup get_last_tick calm_trading_system.Base.◌+ℤ◌ calm_trading_system.Base.◌-ℤ◌
    calm_trading_system.Base.◌*ℤ◌
profit_exact_example =
    profit_exact ℤ-IsExact quotes half_past invested "pairs" (entry "pairs" invested.algo_portfolio)
      refl refl (omega arith) refl
