-- ===== src/Algo/Config.antt =====
-- The constructor of `AlgoEngine` in lib/algo/algo_engine.cpp, up to the registration of its callbacks. It enters
-- the symbols before it reads the rest, but when it throws the portfolio is gone with the trader.
use calm_trading_system.Base.{[], ◌∷◌, some, Result, ok, ◌>>=◌, ◌≡◌, refl}
use calm_trading_system.Double.{Double}
use calm_trading_system.Portfolio.{Portfolio}
use calm_trading_system.Yaml.{Document, as_value}
use calm_trading_system.Algo.{AlgoConfig, AlgoEngine, init, register_symbols}

module _ {D : Type 0} ⦃d : Double D⦄ where
  unfoldable pub construct : Document D → Portfolio D → Result (AlgoEngine D × Portfolio D)
  construct cfg portfolio = do
    mkt_data_symbol ← as_value (cfg.texts "market_data_symbol")
    order_symbol ← as_value (cfg.texts "order_symbol")
    redis_host ← as_value (cfg.text_at ("redis_cfg" ∷ "host" ∷ []))
    redis_port ← as_value (cfg.whole_at ("redis_cfg" ∷ "port" ∷ []))
    tick_channel ← as_value (cfg.text_at ("mq" ∷ "channels" ∷ "tick" ∷ []))
    action_channel ← as_value (cfg.text_at ("mq" ∷ "channels" ∷ "action" ∷ []))
    sentinel_token ← as_value (cfg.text_at ("mq" ∷ "sentinel_token" ∷ []))
    let c : AlgoConfig = record {
      mkt_data_symbol = mkt_data_symbol;
      order_symbol = order_symbol;
      redis_host = redis_host;
      redis_port = redis_port;
      tick_channel = tick_channel;
      action_channel = action_channel;
      sentinel_token = sentinel_token;
    }
    ok (init c, register_symbols c portfolio)

  -- The configuration file holds `c`.
  pub record Has (cfg : Document D) (c : AlgoConfig) : Type 0 where
    pub market_data : cfg.texts "market_data_symbol" ≡ some c.mkt_data_symbol
    pub ordered : cfg.texts "order_symbol" ≡ some c.order_symbol
    pub host : cfg.text_at ("redis_cfg" ∷ "host" ∷ []) ≡ some c.redis_host
    pub port : cfg.whole_at ("redis_cfg" ∷ "port" ∷ []) ≡ some c.redis_port
    pub ticks : cfg.text_at ("mq" ∷ "channels" ∷ "tick" ∷ []) ≡ some c.tick_channel
    pub actions : cfg.text_at ("mq" ∷ "channels" ∷ "action" ∷ []) ≡ some c.action_channel
    pub sentinel : cfg.text_at ("mq" ∷ "sentinel_token" ∷ []) ≡ some c.sentinel_token

  -- A configuration with all its keys is taken over, and its symbols are entered in the portfolio.
  construct_lem :
      (cfg : Document D) (c : AlgoConfig) (p : Portfolio D)
      → Has cfg c
      → construct cfg p ≡ ok (init c, register_symbols c p)
  unfolding construct
  construct_lem cfg c p h =
      rw (h.market_data, h.ordered, h.host, h.port, h.ticks, h.actions, h.sentinel) refl
