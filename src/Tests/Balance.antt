-- ===== src/Tests/Balance.antt =====
-- The theorems on the portfolio's books, at concrete runs of the program (lib/core/trader.h).
use calm_trading_system.Base.{
  String, ℕ, ℤ, pos, negsuc, ◌≡◌, refl, ◌≤◌, false, true, List, [], ◌∷◌, ◌++◌, Option, none, some,
  Result, ok, err, arith, All, map, lookup, length,
}
use calm_trading_system.Double.{ℤ_double}
use calm_trading_system.Objects.{Event, engine_stop, timer, order}
use calm_trading_system.Objects.Enums.{EventType}
use calm_trading_system.Gateway.Machine.{valid_id, sends, status}
use calm_trading_system.Events.{EventEngine, handle}
use calm_trading_system.System.{World, Listener, algo_timer, portfolio_timer}
use calm_trading_system.System.Machine.{System, Action, engine_turn, portfolio_turn, start, run}
use calm_trading_system.System.Settling.{turns}
use calm_trading_system.Base.{runtime_error, ltb_ℤ}
use calm_trading_system.Utils.{codes}
use calm_trading_system.Algo.{PosMsg}
use calm_trading_system.Gateway.{Contract}
use calm_trading_system.Tests.{decimals, config, limits, new_request}
use calm_trading_system.System.Books.{system_books, books_settle, of_algo}
use calm_trading_system.Portfolio.{entry, position_in}
use calm_trading_system.Portfolio.Ledger.{total}
use calm_trading_system.Portfolio.Booking.{IsBooked, qty_of, cost_of}
use calm_trading_system.Double.{ℤ-IsExact}
use calm_trading_system.Tests.Composition.{result_or, made, started, actions, later}

-- The reports have reached the portfolio.
abbrev reported : List (Action ℤ)
reported =
    actions ++ engine_turn ∷ engine_turn ∷ portfolio_turn ∷ portfolio_turn ∷ portfolio_turn ∷ []

abbrev accounted : System ℤ
accounted = result_or made (run decimals reported started)

system_books_example : IsBooked ℤ-IsExact accounted.world.portfolio
unfolding calm_trading_system.Algo.init calm_trading_system.Algo.register_symbols
    calm_trading_system.Algo.start calm_trading_system.Base.contains calm_trading_system.Base.insert
    calm_trading_system.Events.run_round calm_trading_system.Events.send
    calm_trading_system.Events.start calm_trading_system.Gateway.Contracts.generate_contract
    calm_trading_system.Gateway.Contracts.generate_ib_order
    calm_trading_system.Gateway.Machine.attempt calm_trading_system.Gateway.Machine.step
    calm_trading_system.Gateway.Orders.next_valid_id calm_trading_system.Gateway.Orders.order_status
    calm_trading_system.Gateway.Orders.send_order calm_trading_system.Gateway.Session.start
    calm_trading_system.Gateway.Ticks.subscribe calm_trading_system.Gateway.init
    calm_trading_system.Market.subscribe calm_trading_system.Objects.Enums.action_to_ib
    calm_trading_system.Objects.Enums.order_status_to_calm
    calm_trading_system.Objects.Enums.order_type_to_ib calm_trading_system.Objects.e_type
    calm_trading_system.Portfolio.add_market_data_mapping
    calm_trading_system.Portfolio.add_to_portfolio calm_trading_system.Portfolio.start
    calm_trading_system.System.listen calm_trading_system.Trader.send_timer
    calm_trading_system.Trading.subscribe calm_trading_system.Utils.find
    calm_trading_system.Utils.split lookup run start
system_books_example =
    system_books decimals ℤ-IsExact true config (limits 2) engine_stop 0 started accounted reported
      refl refl refl

books_settle_example :
    (z : System ℤ) × (run decimals (turns engine_turn 5 ++ turns portfolio_turn 9) later ≡ ok z)
    × (let c =
          position_in new_request.symbol (entry "algo_engine" z.world.portfolio.algo_portfolio) in
        (c.position
          ≡ total (of_algo "algo_engine" (qty_of ℤ-IsExact new_request.symbol)) later.api.orders)
        × (c.cost
            ≡ total
                (of_algo "algo_engine" (cost_of ℤ-IsExact new_request.symbol))
                later.api.orders))
unfolding calm_trading_system.Algo.init calm_trading_system.Algo.register_symbols
    calm_trading_system.Algo.start calm_trading_system.Base.contains calm_trading_system.Base.insert
    calm_trading_system.Events.run_round calm_trading_system.Events.send
    calm_trading_system.Events.start calm_trading_system.Gateway.Contracts.generate_contract
    calm_trading_system.Gateway.Contracts.generate_ib_order
    calm_trading_system.Gateway.Machine.attempt calm_trading_system.Gateway.Machine.step
    calm_trading_system.Gateway.Orders.next_valid_id calm_trading_system.Gateway.Orders.order_status
    calm_trading_system.Gateway.Orders.send_order calm_trading_system.Gateway.Session.start
    calm_trading_system.Gateway.Ticks.subscribe calm_trading_system.Gateway.init
    calm_trading_system.Market.subscribe calm_trading_system.Objects.Enums.action_to_ib
    calm_trading_system.Objects.Enums.order_status_to_calm
    calm_trading_system.Objects.Enums.order_type_to_ib calm_trading_system.Objects.e_type
    calm_trading_system.Portfolio.add_market_data_mapping
    calm_trading_system.Portfolio.add_to_portfolio calm_trading_system.Portfolio.start
    calm_trading_system.System.listen calm_trading_system.Trader.send_timer
    calm_trading_system.Trading.subscribe calm_trading_system.Utils.find
    calm_trading_system.Utils.split lookup run start
books_settle_example =
    let r =
      books_settle decimals ℤ-IsExact true config (limits 2) engine_stop 0 started actions later 5 9
        refl refl refl refl refl (refl, (refl, tt)) (omega arith) (omega arith) in
    (r.0, r.1, r.2 "algo_engine" new_request.symbol)
