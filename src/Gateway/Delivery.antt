-- ===== src/Gateway/Delivery.antt =====
-- Which event a tick callback sends, in the states that the gateway can reach.
use calm_trading_system.Base.{string_eq, nat_eq}
use calm_trading_system.Double.{Double}
