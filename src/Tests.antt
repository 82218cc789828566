-- ===== src/Tests.antt =====
-- Concrete data for the witnesses: whole numbers as doubles, and one of each state.
pub mod Orders
pub mod Feed
pub mod Plumbing
pub mod Downloads
pub mod Texts
pub mod Composition
pub mod Bars
pub mod Requests
pub mod Config
pub mod Target
pub mod Placing
pub mod Balance
use calm_trading_system.Base.{ℕ, ℤ, pos, negsuc, String, false, true, List, [], ◌∷◌, ◌+◌, Map}
use calm_trading_system.Double.{Double, ℤ_double}
use calm_trading_system.Objects.{TickData, OrderData, OrderReq, unset_long}
use calm_trading_system.Objects.Enums.{Action, buy, sell, market, OrderStatus, submitted, filled}
use calm_trading_system.Gateway.{Decimals, Api}
use calm_trading_system.Gateway
use calm_trading_system.Portfolio.{Portfolio}
use calm_trading_system.Portfolio
use calm_trading_system.Risk.{RiskManager}
use calm_trading_system.Algo.{AlgoEngine, AlgoConfig}
use calm_trading_system.Trading.{TradingEngine}

abbrev pub decimals : Decimals ℤ
decimals = record {
  decimal_to_double = pos;
  double_to_decimal = λ x. elim x [ pos n ↦ n | negsuc n ↦ 0 ];
}

abbrev pub report : ℤ → ℤ → OrderStatus → OrderData ℤ
report id traded status = record {
  order_id = id;
  symbol = "VOD-STK-GBP.LSEETF";
  exchange = "";
  source = "algo_engine";
  order_type = market;
  action = sell;
  total_quantity = pos 10;
  traded_quantity = traded;
  avg_trade_price = pos 7;
  commission = pos 2;
  status = status;
  error_code = pos 0;
}

abbrev pub new_request : OrderReq ℤ
new_request = record {
  symbol = "VOD-STK-GBP.LSEETF";
  exchange = "";
  source = "algo_engine";
  action = sell;
  order_type = market;
  quantity = pos 10;
  price = pos 0;
  order_id = unset_long;
}

abbrev pub limits : ℕ → RiskManager ℤ
limits flow = record {
  algo_pnl_lmt = ("algo_engine", negsuc 99) ∷ [];
  total_pnl_lmt = negsuc 999;
  order_flow_lmt = flow;
  active_orders = [];
}

abbrev pub books : Portfolio ℤ
books = Portfolio.init

abbrev pub config : AlgoConfig
config = record {
  mkt_data_symbol = "VOD-STK-GBP.LSEETF";
  order_symbol = "VOD-STK-GBP.LSEETF";
  tick_channel = "ticks";
  action_channel = "actions";
  redis_host = "127.0.0.1";
  redis_port = pos 6379;
  sentinel_token = "stop";
}

-- With an order of id 5 that was sent before.
abbrev pub algo : AlgoEngine ℤ
algo = record {
  cfg = config;
  running = true;
  q = [];
  target_pos = pos 0;
  curr_pos = pos 3;
  order_status = (pos 5, filled) ∷ [];
  order_data = [];
  order_reqs = [];
  inflight_order_id = negsuc 0;
  order_cancelled = false;
  order_target = pos 0;
  order_filled = pos 0;
  published = [];
}

abbrev pub connected : Api ℤ
connected = record {
  running = true;
  req_id = 10_000_000;
  ticks = [];
  sym2req_ids = [];
  req_id2sym = [];
  next_order_id = pos 6;
  orders = [];
  calls = [];
  published = [];
}

abbrev pub last_tick : TickData ℤ
last_tick = record {
  symbol = "VOD-STK-GBP.LSEETF";
  last_price = pos 8;
  last_size = pos 1;
  bid_price = pos 7;
  bid_size = pos 1;
  ask_price = pos 9;
  ask_size = pos 1;
  timestamp = 60;
}

abbrev pub trading : TradingEngine ℤ
trading = record {
  api = connected;
  last_ticks = ("VOD-STK-GBP.LSEETF", last_tick) ∷ [];
  portfolio = books;
  risk_manager = limits 2;
}
