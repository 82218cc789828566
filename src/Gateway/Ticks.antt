-- ===== src/Gateway/Ticks.antt =====
-- `subscribe` and the tick callbacks of lib/gateway/gateway.cpp.
use calm_trading_system.Base.{
  ℕ, ◌+◌, pos, String, string_eq, nat_eq, Bool, none, some, Result, ok, ◌>>=◌, lookup, insert,
  contains, if◌then◌else◌,
}
use calm_trading_system.Double.{Double}
use calm_trading_system.Objects.{TickData}
use calm_trading_system.Gateway.{
  Contract, req_market_data_type, req_tick_by_tick, Decimals, Api, call, on_tick,
}
use calm_trading_system.Gateway.Contracts.{generate_contract}

module _ {D : Type 0} ⦃d : Double D⦄ where
  -- `TickData{symbol}`
  abbrev pub fresh_tick : String → TickData D
  fresh_tick symbol = record {
    symbol = symbol;
    last_price = d.zero;
    last_size = d.zero;
    bid_price = d.zero;
    bid_size = d.zero;
    ask_price = d.zero;
    ask_size = d.zero;
    timestamp = 0;
  }

  unfoldable pub add_subscription : String → Contract → Api D → Api D
  add_subscription symbol contract s =
      call (req_tick_by_tick (pos (s.req_id + 1)) contract "BidAsk") (
        call (req_tick_by_tick (pos s.req_id) contract "Last") (record s {
          req_id = s.req_id + 2;
          sym2req_ids = insert symbol (s.req_id, s.req_id + 1) s.sym2req_ids;
          req_id2sym = insert (s.req_id + 1) symbol (insert s.req_id symbol s.req_id2sym);
          ticks = insert symbol (fresh_tick symbol) s.ticks;
        }))

  -- What `subscribe` has done by the time that it parses the symbol, and leaves behind where it cannot.
  unfoldable pub type_asked : String → Bool → Api D → Api D
  type_asked symbol delayed s =
      if s.running
      then (if contains symbol s.sym2req_ids
          then s
          else call (req_market_data_type (if delayed then 4 else 1)) s)
      else s

  unfoldable pub subscribe : String → Bool → Api D → Result (Api D)
  unfolding add_subscription
  subscribe symbol delayed s =
      if s.running
      then (if contains symbol s.sym2req_ids then ok s else (do
        contract ← generate_contract symbol
        ok (
            add_subscription symbol contract
              (call (req_market_data_type (if delayed then 4 else 1)) s))))
      else ok s

  -- `ticks[symbol]`, which makes an empty entry where there is none.
  abbrev pub tick_at : String → Api D → TickData D
  tick_at symbol s = elim (lookup symbol s.ticks) [ none ↦ fresh_tick "" | some t ↦ t ]

  unfoldable pub put_tick : String → TickData D → Api D → Api D
  unfolding on_tick
  put_tick symbol tick s = on_tick tick (record s { ticks = insert symbol tick s.ticks })

  module _ (q : Decimals D) where
    unfoldable pub tick_by_tick_bid_ask : ℕ → ℕ → D → D → ℕ → ℕ → Api D → Api D
    unfolding put_tick
    tick_by_tick_bid_ask req_id time bid_price ask_price bid_size ask_size s =
        elim (lookup req_id s.req_id2sym) [
          | none ↦ s
          | some symbol ↦
              put_tick symbol
                (record (tick_at symbol s) {
                  ask_price = ask_price;
                  ask_size = q.decimal_to_double ask_size;
                  bid_price = bid_price;
                  bid_size = q.decimal_to_double bid_size;
                  timestamp = time;
                })
                s
        ]

    unfoldable pub tick_by_tick_all_last : ℕ → ℕ → D → ℕ → Api D → Api D
    unfolding put_tick
    tick_by_tick_all_last req_id time price size s = elim (lookup req_id s.req_id2sym) [
      | none ↦ s
      | some symbol ↦
          put_tick symbol
            (record (tick_at symbol s) {
              last_price = price;
              last_size = q.decimal_to_double size;
              timestamp = time;
            })
            s
    ]
