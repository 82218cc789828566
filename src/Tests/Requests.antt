-- ===== src/Tests/Requests.antt =====
-- A download in two chunks, for two symbols.
use calm_trading_system.Base.{
  ℤ, suc, string_eq, nat_eq, insert, lookup, String, ◌==◌, ◌≡◌, refl, List, [], ◌∷◌, ◌++◌, take,
  some, none, ok, err, if◌then◌else◌, pos,
}
use calm_trading_system.Objects.{bar_end}
use calm_trading_system.Gateway
use calm_trading_system.Gateway.{Api, ClientCall}
use calm_trading_system.History.{HistBarReq, IbHistBarReq, Texts}
use calm_trading_system.History.Getter.{
  HistBarGetter, saved, empty, init, push_first, chunk_id_of, chunks_of,
}
use calm_trading_system.History.Machine.{Happening, rounds, events, happen_all}
use calm_trading_system.History.Order.{for_symbol}
use calm_trading_system.History.Sending.{AreSent}
use calm_trading_system.History.Requests.{requests_in_order}

-- The range is a day and an hour.
abbrev texts : Texts
texts = record {
  parse = λ t. if t == "from" then 0 else 90_000;
  format_utc = λ n. if n == 86_400 then "20240102-00:00:00" else "20240102-01:00:00";
  format_local = λ n. "20240102 01:00:00";
  number = λ n. if n == 1 then "1" else "3600";
}

abbrev bars_of : String → HistBarReq
bars_of symbol = record {
  symbol = symbol;
  start = "from";
  end = "to";
  tz = "UTC";
  wts = "TRADES";
  save_path = "bars.csv";
}

abbrev both : List HistBarReq
both = bars_of "VOD-STK-GBP.LSEETF" ∷ bars_of "AAPL-STK-USD.NASDAQ" ∷ []

abbrev made : HistBarGetter ℤ
made = elim (init {D = ℤ} texts 1 both) [ none ↦ empty | some s ↦ s ]

abbrev pushed : HistBarGetter ℤ
pushed = elim (push_first made.sym_chunks made) [ err _ ↦ empty | ok s ↦ s ]

-- Both first chunks are sent, the second symbol's bars end first, and its next chunk is sent.
abbrev three_rounds : List (Happening ℤ)
three_rounds =
    rounds
    ∷ rounds
    ∷ events saved (bar_end (record { id = pos 10_000_001; start = "a"; end = "b" }))
    ∷ rounds
    ∷ []

abbrev idle : Api ℤ
idle = Gateway.init

abbrev later : HistBarGetter ℤ × Api ℤ
later = elim (happen_all (λ l. l) 1 three_rounds (pushed, idle)) [
  | err _ ↦ (empty, idle)
  | ok v ↦ v
]

requests_in_order_example :
    (sent : List IbHistBarReq) × (calls : List (ClientCall ℤ)) × (later.1.calls
      ≡ idle.calls ++ calls)
    × AreSent 1 idle.req_id sent calls
    × ((symbol : String)
        → for_symbol symbol sent ++ for_symbol symbol later.0.q
          ≡ take (suc (chunk_id_of symbol later.0)) (chunks_of symbol made))
unfolding Gateway.init calm_trading_system.Gateway.Contracts.generate_contract
    calm_trading_system.Gateway.History.historical_bar calm_trading_system.History.generate_ib_reqs
    calm_trading_system.Utils.find calm_trading_system.Utils.split happen_all init insert lookup
    push_first
requests_in_order_example =
    requests_in_order texts 1 1 (λ l. l) both made pushed later.0 three_rounds idle later.1 refl
      refl refl
