-- ===== src/Tests/Bars.antt =====
-- The theorems on historical bars and on request ids, at concrete values.
use mathlib.Core.List.{Memᴰ}
use mathlib.Core.List.Permᴰ.{swap}
use calm_trading_system.Base.{
  keys, string_eq, nat_eq, lookup, insert, contains, ℤ, pos, ◌==◌, ◌≡◌, ◌≤◌, ◌<◌, ◌+◌, ◌*◌, ◌^◌,
  refl, false, true, List, [], ◌∷◌, some, none, ok, err, arith, All, length, String, if◌then◌else◌,
}
use calm_trading_system.Double.{ℤ_double}
use calm_trading_system.Objects.{HistBar, bar, bar_end}
use calm_trading_system.Gateway
use calm_trading_system.Gateway.{Api}
use calm_trading_system.Gateway.Bounds.{IsAscending, IsInt, asked, run_ids}
use calm_trading_system.Gateway.Machine
use calm_trading_system.Gateway.Machine.{Input, starts, subscribes, asks_details}
use calm_trading_system.History.{HistBarReq, Texts}
use calm_trading_system.History.Getter.{
  HistBarGetter, saved, empty, init, push_first, data_of, status_of, process_data,
}
use calm_trading_system.History.Machine.{Happening, rounds, events, happen_all}
use calm_trading_system.History.Counting.{in_progress, is_in_prog}
use calm_trading_system.History.Merging.{IsRising, has_time, merged}
use calm_trading_system.History.Finish.{remaining_bounds, none_in_progress}
use calm_trading_system.Tests.{decimals}

abbrev bar_at : String → ℤ → HistBar ℤ
bar_at time price = record {
  id = pos 10_000_000;
  time = time;
  high = price;
  low = price;
  open_price = price;
  close = price;
  wap = price;
  volume = pos 1;
  count = pos 1;
}

abbrev received : HistBarGetter ℤ
received = record empty { sym_data = ("VOD", bar_at "2" (pos 8) ∷ bar_at "1" (pos 7) ∷ []) ∷ [] }

abbrev swapped : List (HistBar ℤ) → List (HistBar ℤ)
swapped (x ∷ y ∷ xs) = y ∷ x ∷ xs
swapped xs = xs

merged_example :
    let kept = data_of "VOD" (process_data swapped "VOD" received) in
    IsRising kept
    × All (λ b. Memᴰ b (data_of "VOD" received)) kept
    × ((time : String) → has_time time kept ≡ has_time time (data_of "VOD" received))
unfolding lookup
merged_example = merged swapped "VOD" received (swap refl refl) ((refl, tt), (tt, tt))

abbrev requests : List (Input ℤ)
requests =
    starts true ∷ subscribes "VOD-STK-GBP.LSEETF" false ∷ asks_details "VOD-STK-GBP.LSEETF" ∷ []

run_ids_example :
    let s = Machine.run decimals requests Gateway.init in
    IsAscending 10_000_000 (asked s.calls) s.req_id
    × (s.req_id ≤ 10_000_000 + 2 * length requests)
    × (s.req_id < 2 ^ 31)
    × All IsInt (asked s.calls)
run_ids_example = run_ids decimals requests (omega arith)

abbrev texts : Texts
texts = record {
  parse = λ t. if t == "from" then 0 else 3_600;
  format_utc = λ n. "20240101-01:00:00";
  format_local = λ n. "20240101 01:00:00";
  number = λ n. "3600";
}

abbrev hour : HistBarReq
hour = record {
  symbol = "VOD-STK-GBP.LSEETF";
  start = "from";
  end = "to";
  tz = "UTC";
  wts = "TRADES";
  save_path = "bars.csv";
}

abbrev made : HistBarGetter ℤ
made = elim (init {D = ℤ} texts 1 (hour ∷ [])) [ none ↦ empty | some s ↦ s ]

abbrev pushed : HistBarGetter ℤ
pushed = elim (push_first made.sym_chunks made) [ err _ ↦ empty | ok s ↦ s ]

-- The request is sent, a bar and the end of the bars arrive.
abbrev day_of_bars : List (Happening ℤ)
day_of_bars =
    rounds
    ∷ events saved (bar (bar_at "1" (pos 7)))
    ∷ events saved (bar_end (record { id = pos 10_000_000; start = "a"; end = "b" }))
    ∷ []

abbrev done : HistBarGetter ℤ × Api ℤ
done = elim (happen_all (λ l. l) 1 day_of_bars (pushed, Gateway.init)) [
  | err _ ↦ (empty, Gateway.init)
  | ok v ↦ v
]

remaining_bounds_example :
    (in_progress (keys made.sym_chunk_id) done.0.sym_status ≤ done.0.remaining)
    × (done.0.remaining ≤ length made.sym_chunk_id)
unfolding Gateway.init calm_trading_system.Gateway.Contracts.generate_contract
    calm_trading_system.Gateway.History.historical_bar calm_trading_system.History.generate_ib_reqs
    calm_trading_system.Utils.find calm_trading_system.Utils.split happen_all init insert lookup
    push_first
remaining_bounds_example =
    remaining_bounds texts 1 1 (λ l. l) (hour ∷ []) made pushed done.0 day_of_bars Gateway.init
      done.1 refl refl refl

none_in_progress_example : is_in_prog (status_of "VOD-STK-GBP.LSEETF" done.0) ≡ false
unfolding Gateway.init calm_trading_system.Gateway.Contracts.generate_contract
    calm_trading_system.Gateway.History.historical_bar calm_trading_system.History.generate_ib_reqs
    calm_trading_system.Utils.find calm_trading_system.Utils.split contains happen_all init insert
    lookup push_first
none_in_progress_example =
    none_in_progress texts 1 1 (λ l. l) (hour ∷ []) made pushed done.0 day_of_bars Gateway.init
      done.1 "VOD-STK-GBP.LSEETF" refl refl refl refl refl
