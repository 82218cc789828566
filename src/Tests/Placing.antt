-- ===== src/Tests/Placing.antt =====
-- Orders placed one after the other.
use calm_trading_system.Base.{ℤ, pos, negsuc, ◌≡◌, refl, true, List, [], ◌∷◌, arith}
use calm_trading_system.Double.{ℤ_double}
use calm_trading_system.Gateway
use calm_trading_system.Gateway.Machine
use calm_trading_system.Gateway.Machine.{Input, starts, valid_id, sends, cancels, status}
use calm_trading_system.Gateway.OrderIds.{IsRising, ids, ordered}
use calm_trading_system.Gateway.Book.{IsFiled}
use calm_trading_system.Gateway.Placing.{orders_numbered}
use calm_trading_system.Tests.{decimals, new_request}

abbrev orders : List (Input ℤ)
orders =
    starts true
    ∷ valid_id (pos 6)
    ∷ sends new_request
    ∷ sends new_request
    ∷ cancels (pos 6)
    ∷ status (pos 6) "Cancelled" 0 (pos 0)
    ∷ valid_id (pos 9)
    ∷ sends new_request
    ∷ []

orders_numbered_example :
    let s = Machine.run decimals orders Gateway.init in
    IsRising (negsuc 0) (ordered s.calls) s.next_order_id
    × (ids s.orders ≡ ordered s.calls)
    × IsFiled s
unfolding Gateway.init Machine.step calm_trading_system.Base.insert calm_trading_system.Base.lookup
    calm_trading_system.Base.contains calm_trading_system.Base.◌+ℤ◌
    calm_trading_system.Gateway.Orders.order_status calm_trading_system.Gateway.Orders.send_order
    calm_trading_system.Gateway.Orders.next_valid_id calm_trading_system.Gateway.Orders.update_order
    calm_trading_system.Gateway.Orders.record_order calm_trading_system.Gateway.on_order
    calm_trading_system.Gateway.on_event calm_trading_system.Gateway.Session.start
    calm_trading_system.Gateway.Contracts.generate_contract
    calm_trading_system.Gateway.Contracts.generate_ib_order
    calm_trading_system.Objects.Enums.order_status_to_calm
    calm_trading_system.Objects.Enums.order_status_to_ib
    calm_trading_system.Objects.Enums.action_to_ib
    calm_trading_system.Objects.Enums.order_type_to_ib calm_trading_system.Objects.Enums.invert_kv
    calm_trading_system.Objects.Enums.invert_from calm_trading_system.Utils.find
    calm_trading_system.Utils.split
orders_numbered_example =
    orders_numbered decimals orders
      (tt, (omega arith, (refl, (refl, (tt, (tt, (omega arith, (refl, tt))))))))
