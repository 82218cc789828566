-- ===== src/Gateway/Orders.antt =====
-- The order requests and callbacks of lib/gateway/gateway.cpp.
use calm_trading_system.Base.{
  ℕ, ℤ, pos, ℤ_eq, string_eq, ◌+ℤ◌, beq_ℤ, String, none, some, Result, ok, or_fail, out_of_range,
  ◌>>=◌, lookup, insert, contains, if◌then◌else◌,
}
use calm_trading_system.Double.{Double}
use calm_trading_system.Utils.{codes, is_unset_double}
use calm_trading_system.Objects.{OrderReq, OrderData, ErrMsg, unset_long}
use calm_trading_system.Objects.Enums.{pending_submit, order_status_to_calm}
use calm_trading_system.Gateway.{
  Contract, place_order, cancel_order, req_global_cancel, Decimals, Api, call, on_order, on_error,
}
use calm_trading_system.Gateway.Contracts.{generate_contract, generate_ib_order}

-- `if (!order_req.exchange.empty()) contract.exchange = order_req.exchange`
abbrev pub override_exchange : String → Contract → Contract
override_exchange String.[] c = c
override_exchange (String.◌∷◌ x xs) c = record c { exchange = codes (String.◌∷◌ x xs) }

module _ {D : Type 0} where
  -- The id of the request, or the next one; `m_order_id++`.
  abbrev pub take_order_id : OrderReq D → Api D → ℤ × Api D
  take_order_id req s =
      if beq_ℤ req.order_id unset_long
      then (s.next_order_id, record s { next_order_id = s.next_order_id +ℤ pos 1 })
      else (req.order_id, s)

  -- `if (orders.contains(id)) { ... }` after a change of the entry, which is published.
  unfoldable pub update_order : ℤ → (OrderData D → OrderData D) → Api D → Api D
  unfolding on_order
  update_order id change s = elim (lookup id s.orders) [
    | none ↦ s
    | some o ↦ on_order (change o) (record s { orders = insert id (change o) s.orders })
  ]

  unfoldable pub error : ErrMsg → Api D → Api D
  unfolding update_order on_error
  error m s = update_order m.id (λ o. record o { error_code = m.error_code }) (on_error m s)

  unfoldable pub next_valid_id : ℤ → Api D → Api D
  next_valid_id id s = record s { next_order_id = id }

  abbrev pub cancel : ℤ → Api D → Api D
  cancel id s = call (cancel_order id) s

  abbrev pub cancel_all_orders : Api D → Api D
  cancel_all_orders s = call req_global_cancel s

  module _ (q : Decimals D) where
    unfoldable pub order_status : ℤ → String → ℕ → D → Api D → Result (Api D)
    unfolding update_order
    order_status id status filled avg_fill_price s = do
      status_ ← or_fail out_of_range (lookup status order_status_to_calm)
      ok (
          update_order id
            (λ o. record o {
              status = status_;
              traded_quantity = q.decimal_to_double filled;
              avg_trade_price = avg_fill_price;
            })
            s)

module _ {D : Type 0} ⦃d : Double D⦄ where
  unfoldable pub open_order : ℤ → D → Api D → Api D
  unfolding update_order
  open_order id commission s =
      if is_unset_double commission
      then s
      else update_order id (λ o. record o { commission = commission }) s

  -- `OrderData order_data{...}`: the members that are not named have their defaults.
  abbrev pub new_order : ℤ → OrderReq D → OrderData D
  new_order id req = record {
    order_id = id;
    symbol = req.symbol;
    exchange = req.exchange;
    source = req.source;
    order_type = req.order_type;
    action = req.action;
    total_quantity = req.quantity;
    traded_quantity = d.zero;
    avg_trade_price = d.zero;
    commission = d.zero;
    status = pending_submit;
    error_code = pos 0;
  }

  unfoldable pub record_order : ℤ → OrderReq D → Api D → Api D
  unfolding on_order
  record_order id req s =
      if contains id s.orders
      then s
      else on_order (new_order id req) (record s { orders = insert id (new_order id req) s.orders })

  unfoldable pub send_order : Decimals D → OrderReq D → Api D → Result (ℤ × Api D)
  unfolding record_order
  send_order q req s = do
    contract ← generate_contract req.symbol
    let (id, s') = take_order_id req s
    ib_order ← generate_ib_order q req
    ok (
      id,
      call (place_order id (override_exchange req.exchange contract) ib_order)
          (record_order id req s'),
    )
