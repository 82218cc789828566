-- ===== src/Gateway/Contracts.antt =====
-- `generate_contract` and `generate_ib_order` of lib/gateway/gateway.cpp.
use calm_trading_system.Base.{
  ℕ, String, List, Option, none, some, Result, ok, or_fail, ◌>>=◌, undefined_behaviour,
  out_of_range, get_elem?, lookup,
}
use calm_trading_system.Utils.{Bytes, codes, split}
use calm_trading_system.Objects.{OrderReq}
use calm_trading_system.Objects.Enums.{
  OrderType, limit, market, action_to_ib, order_type_to_ib, action_eq, order_type_eq,
}
use calm_trading_system.Gateway.{Contract, IbOrder, Decimals}

-- `v[i]`: beyond the end C++ promises nothing.
abbrev pub at_index : List Bytes → ℕ → Result Bytes
at_index v i = or_fail undefined_behaviour (get_elem? v i)

unfoldable pub generate_contract : String → Result Contract
generate_contract symbol = do
  sym_ex ← split (codes symbol) (codes ".")
  fields_ ← at_index sym_ex 0
  exchange ← at_index sym_ex 1
  fields ← split fields_ (codes "-")
  symbol_ ← at_index fields 0
  sec_type ← at_index fields 1
  curr ← at_index fields 2
  ok (record { symbol = symbol_; sec_type = sec_type; currency = curr; exchange = exchange })

abbrev lmt_price_of : {D : Type 0} → OrderType → D → Option D
lmt_price_of limit price = some price
lmt_price_of market price = none

module _ {D : Type 0} (q : Decimals D) where
  unfoldable pub generate_ib_order : OrderReq D → Result (IbOrder D)
  generate_ib_order req = do
    action ← or_fail out_of_range (lookup req.action action_to_ib)
    order_type ← or_fail out_of_range (lookup req.order_type order_type_to_ib)
    ok (record {
      action = action;
      total_quantity = q.double_to_decimal req.quantity;
      order_type = order_type;
      lmt_price = lmt_price_of req.order_type req.price;
      tif = "DAY";
    })
