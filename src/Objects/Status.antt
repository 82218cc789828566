-- ===== src/Objects/Status.antt =====
-- lib/objects/utils.cpp: `is_active_order`.
use calm_trading_system.Base.{Bool, true, false}
use calm_trading_system.Objects.Enums.{
  OrderStatus, pending_submit, pending_cancel, pre_submitted, submitted,
}

unfoldable pub is_active_order : OrderStatus → Bool
is_active_order pending_submit = true
is_active_order pending_cancel = true
is_active_order pre_submitted = true
is_active_order submitted = true
is_active_order _ = false
