-- ===== src/Gateway/Session.antt =====
-- `start` and `stop` of lib/gateway/gateway.cpp, and the interface that the threads share.
use calm_trading_system.Base.{Bool, true, false, if◌then◌else◌}
use calm_trading_system.Gateway.{e_disconnect, Api, call}

module _ {D : Type 0} where
  -- `connected` is what `eConnect` answers. The wait for `nextValidId` is not in the step.
  unfoldable pub start : Bool → Api D → Api D
  start connected s = if s.running then s else if connected then record s { running = true } else s

  unfoldable pub stop : Api D → Api D
  stop s = if s.running then call e_disconnect (record s { running = false }) else s
