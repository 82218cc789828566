-- ===== src/Tests/Composition.antt =====
-- The theorems on the program's parts together, at concrete states.
use mathlib.Core.List.Permᴰ.{swap}
use calm_trading_system.Base.{
  String, ℕ, ℤ, pos, negsuc, ◌≡◌, refl, ◌≤◌, false, true, List, [], ◌∷◌, ◌++◌, Option, none, some,
  Result, ok, err, arith, All, map, lookup, length,
}
use calm_trading_system.Double.{ℤ_double}
use calm_trading_system.Objects.{Event, engine_stop, timer, order}
use calm_trading_system.Objects.Enums.{EventType}
use calm_trading_system.Gateway.Machine.{valid_id, sends, status}
use calm_trading_system.Events.{EventEngine, handle}
use calm_trading_system.System.{World, Listener, algo_timer, portfolio_timer}
use calm_trading_system.System.Wiring.{named}
use calm_trading_system.System.Fanout.{heard, handle-heard}
use calm_trading_system.System.Machine.{
  System, Action, broker, clock, engine_turn, portfolio_turn, start, constructed, run,
}
use calm_trading_system.System.Pending.{pending, in_portfolio, in_gateway}
use calm_trading_system.System.Start.{run-orders}
use calm_trading_system.System.Settling.{turns, run_settles}
use calm_trading_system.Base.{ltb_ℤ}
use calm_trading_system.Utils.{codes}
use calm_trading_system.Algo.{PosMsg}
use calm_trading_system.Gateway.{Contract}
use calm_trading_system.System.Machine.{strategy, algo_turn}
use calm_trading_system.Tests.{decimals, config, limits, new_request}

abbrev pub result_or : System ℤ → Result (System ℤ) → System ℤ
result_or x (ok y) = y
result_or x (err _) = x

abbrev pub made : System ℤ
made = constructed config (limits 2) engine_stop 0

abbrev pub started : System ℤ
started = result_or made (start true made)

-- The gateway has filed an order and heard of it, and the portfolio has handled neither of the reports.
abbrev pub actions : List (Action ℤ)
actions =
    broker (valid_id (pos 6))
    ∷ broker (sends new_request)
    ∷ broker (status (pos 6) "Submitted" 4 (pos 7))
    ∷ clock 60
    ∷ engine_turn
    ∷ []

abbrev pub later : System ℤ
later = result_or made (run decimals actions started)

run-orders_example :
    pending "algo_engine"
      (pos 6)
      (later.world.portfolio.q ++ later.engine.q)
      (in_portfolio "algo_engine" (pos 6) later.world.portfolio)
    ≡ in_gateway "algo_engine" (pos 6) later.api
unfolding calm_trading_system.Algo.init calm_trading_system.Algo.start
    calm_trading_system.Base.contains calm_trading_system.Base.insert
    calm_trading_system.Gateway.Contracts.generate_contract
    calm_trading_system.Gateway.Contracts.generate_ib_order
    calm_trading_system.Gateway.Machine.attempt calm_trading_system.Gateway.Orders.order_status
    calm_trading_system.Gateway.Orders.send_order calm_trading_system.Gateway.Session.start
    calm_trading_system.Gateway.Ticks.subscribe calm_trading_system.Gateway.init
    calm_trading_system.Market.subscribe calm_trading_system.Objects.Enums.action_to_ib
    calm_trading_system.Objects.Enums.order_status_to_calm
    calm_trading_system.Objects.Enums.order_type_to_ib calm_trading_system.Trading.subscribe
    calm_trading_system.Utils.find calm_trading_system.Utils.split lookup run start
run-orders_example =
    run-orders decimals true config (limits 2) engine_stop 0 started actions later "algo_engine"
      (pos 6) refl refl refl

run_settles_example :
    (z : System ℤ) × (run decimals (turns engine_turn 5 ++ turns portfolio_turn 9) later ≡ ok z)
    × (in_portfolio "algo_engine" (pos 6) z.world.portfolio
        ≡ in_gateway "algo_engine" (pos 6) later.api)
unfolding calm_trading_system.Algo.init calm_trading_system.Algo.register_symbols
    calm_trading_system.Algo.start calm_trading_system.Base.contains calm_trading_system.Base.insert
    calm_trading_system.Events.run_round calm_trading_system.Events.send
    calm_trading_system.Events.start calm_trading_system.Gateway.Contracts.generate_contract
    calm_trading_system.Gateway.Contracts.generate_ib_order
    calm_trading_system.Gateway.Machine.attempt calm_trading_system.Gateway.Machine.step
    calm_trading_system.Gateway.Orders.next_valid_id calm_trading_system.Gateway.Orders.order_status
    calm_trading_system.Gateway.Orders.send_order calm_trading_system.Gateway.Session.start
    calm_trading_system.Gateway.Ticks.subscribe calm_trading_system.Gateway.init
    calm_trading_system.Market.subscribe calm_trading_system.Objects.Enums.action_to_ib
    calm_trading_system.Objects.Enums.order_status_to_calm
    calm_trading_system.Objects.Enums.order_type_to_ib calm_trading_system.Objects.e_type
    calm_trading_system.Portfolio.add_market_data_mapping
    calm_trading_system.Portfolio.add_to_portfolio calm_trading_system.Portfolio.start
    calm_trading_system.System.listen calm_trading_system.Trader.send_timer
    calm_trading_system.Trading.subscribe calm_trading_system.Utils.find
    calm_trading_system.Utils.split lookup run start
run_settles_example =
    let r =
      run_settles decimals true config (limits 2) engine_stop 0 started actions later 5 9 refl refl
        refl refl refl (refl, (refl, tt)) (omega arith) (omega arith) in
    (r.0, r.1, r.2 "algo_engine" (pos 6))

-- With the callbacks of the timer not in the order of registration.
abbrev swapped : List (String × Listener)
swapped = ("algo_engine_timer", algo_timer) ∷ ("portfolio_timer_cb", portfolio_timer) ∷ []

abbrev wired : EventEngine ℤ (World ℤ)
wired = record { running = true; q = []; m_cbs = (EventType.timer, map named swapped) ∷ [] }

handle-heard_example :
    handle (timer (record { sec = 0; timestamp = 60 })) wired made.world
    ≡ (wired, heard (timer (record { sec = 0; timestamp = 60 })) made.world)
unfolding lookup calm_trading_system.Objects.e_type
handle-heard_example =
    handle-heard (timer (record { sec = 0; timestamp = 60 })) wired made.world swapped refl
      (swap refl refl) refl

abbrev target_of : ℤ → PosMsg ℤ
target_of position = record { symbol = codes "VOD"; position = position; timestamp = 60 }

-- An order is placed, cancelled for a second target, and a third target comes before the cancellation.
abbrev hurry : List (Action ℤ)
hurry =
    broker (valid_id (pos 6))
    ∷ strategy (target_of (pos 10))
    ∷ algo_turn true
    ∷ strategy (target_of (pos 20))
    ∷ algo_turn true
    ∷ strategy (target_of (pos 30))
    ∷ algo_turn true
    ∷ []

abbrev hurried : System ℤ
hurried = result_or made (run decimals hurry started)

abbrev share : Contract
share = record {
  symbol = codes "VOD";
  sec_type = codes "STK";
  currency = codes "GBP";
  exchange = codes "LSEETF";
}
