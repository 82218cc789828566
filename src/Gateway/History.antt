-- ===== src/Gateway/History.antt =====
-- Contract and historical requests of lib/gateway/gateway.cpp, and their answers.
use calm_trading_system.Base.{ℕ, ℤ, pos, ◌+◌, String, Result, ok, ◌>>=◌}
use calm_trading_system.Gateway.{
  HistCall, req_contract_details, req_historical_data, Decimals, Api, call, on_hist_bar,
  on_hist_bar_end,
}
use calm_trading_system.Gateway.Contracts.{generate_contract}

-- `Bar` of the client library.
pub record Bar (D : Type 0) : Type 0 where
  pub time : String
  pub high : D
  pub low : D
  pub open_price : D
  pub close : D
  pub wap : ℕ
  pub volume : ℕ
  pub count : ℤ

module _ {D : Type 0} where
  unfoldable pub contract_details : String → Api D → Result (Api D)
  contract_details symbol s = do
    contract ← generate_contract symbol
    ok (call (req_contract_details (pos s.req_id) contract) (record s { req_id = s.req_id + 1 }))

  unfoldable pub historical_bar : String → HistCall → Api D → Result (ℕ × Api D)
  historical_bar symbol h s = do
    contract ← generate_contract symbol
    ok (
      s.req_id,
      call (req_historical_data (pos s.req_id) contract h) (record s { req_id = s.req_id + 1 }),
    )

  unfoldable pub historical_data : Decimals D → ℤ → Bar D → Api D → Api D
  unfolding on_hist_bar
  historical_data q req_id b s =
      on_hist_bar
        (record {
          id = req_id;
          time = b.time;
          high = b.high;
          low = b.low;
          open_price = b.open_price;
          close = b.close;
          wap = q.decimal_to_double b.wap;
          volume = q.decimal_to_double b.volume;
          count = b.count;
        })
        s

  unfoldable pub historical_data_end : ℤ → String → String → Api D → Api D
  unfolding on_hist_bar_end
  historical_data_end req_id start_str end_str s =
      on_hist_bar_end (record { id = req_id; start = start_str; end = end_str }) s
