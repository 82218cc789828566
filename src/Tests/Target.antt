-- ===== src/Tests/Target.antt =====
-- A position that is asked for and reached.
use calm_trading_system.Base.{ℤ, pos, negsuc, ltb_ℤ, ◌≡◌, refl, List, [], ◌∷◌, ok, err, true, false}
use calm_trading_system.Double.{ℤ_double, ℤ-IsExact}
use calm_trading_system.Objects.{OrderData, PosUpdate}
use calm_trading_system.Objects.Enums.{submitted, filled, sell, market, pending_submit}
use calm_trading_system.Trading.{TradingEngine}
use calm_trading_system.Algo.{AlgoEngine}
use calm_trading_system.Algo.Actions.{order_cb, update_pos_cb}
use calm_trading_system.Algo.Tracking.{order_cb_all}
use calm_trading_system.Algo.Target.{target_reached}
use calm_trading_system.Tests.{decimals, report, algo, trading}

abbrev short : PosUpdate ℤ
short = record { symbol = []; position = negsuc 7; timestamp = 60; retry = false }

abbrev sent : AlgoEngine ℤ × TradingEngine ℤ
sent = elim (update_pos_cb decimals short algo trading) [ err _ ↦ (algo, trading) | ok v ↦ v ]

abbrev first_reports : List (OrderData ℤ)
first_reports = report (pos 6) (pos 0) submitted ∷ report (pos 6) (pos 4) submitted ∷ []

abbrev last_report : OrderData ℤ
last_report = report (pos 6) (pos 11) filled

abbrev placed : OrderData ℤ
placed = record {
  order_id = pos 6;
  symbol = algo.order_symbol;
  exchange = "";
  source = "algo_engine";
  order_type = market;
  action = sell;
  total_quantity = pos 11;
  traded_quantity = pos 0;
  avg_trade_price = pos 0;
  commission = pos 0;
  status = pending_submit;
  error_code = pos 0;
}

abbrev arrived : AlgoEngine ℤ
arrived = order_cb last_report (order_cb_all first_reports sent.0)

target_reached_example :
    (arrived.curr_pos ≡ negsuc 7)
    × (arrived.inflight_order_id ≡ negsuc 0)
    × (update_pos_cb decimals short arrived trading
        ≡ ok (record arrived { target_pos = negsuc 7 }, trading))
unfolding update_pos_cb calm_trading_system.Base.◌-ℤ◌ calm_trading_system.Algo.Actions.send_order
    calm_trading_system.Trading.send_order calm_trading_system.Risk.check_risk
    calm_trading_system.Portfolio.get_total_pnl calm_trading_system.Base.lookup
    calm_trading_system.Portfolio.get_algo_pnl calm_trading_system.Gateway.Orders.send_order
    calm_trading_system.Gateway.Contracts.generate_contract calm_trading_system.Utils.split
    calm_trading_system.Utils.find calm_trading_system.Gateway.Contracts.generate_ib_order
    calm_trading_system.Objects.Enums.action_to_ib
    calm_trading_system.Objects.Enums.order_type_to_ib
    calm_trading_system.Objects.Status.is_active_order calm_trading_system.Base.contains
    calm_trading_system.Base.insert
target_reached_example =
    target_reached decimals ℤ-IsExact short algo sent.0 trading sent.1 trading first_reports placed
      last_report refl refl refl refl refl ((refl, refl), ((refl, refl), tt)) (refl, refl) refl refl
