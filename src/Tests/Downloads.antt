-- ===== src/Tests/Downloads.antt =====
-- The theorems on historical downloads, at concrete values.
use calm_trading_system.Base.{
  ℤ_eq, beq_ℤ_iff, string_eq, ℕ, ℤ, pos, negsuc, zero, suc, ◌≡◌, refl, ◌≤◌, ◌+◌, ◌-◌, List, [], ◌∷◌,
  some, none, arith, Option, ok, lookup, String,
}
use calm_trading_system.Objects.{HistBarEnd, bar_end}
use calm_trading_system.History.{Chunk, chunk_loop, IbHistBarReq, in_prog, error}
use calm_trading_system.History.Chunks.{Covers, chunk_loop-Covers}
use calm_trading_system.History.Getter.{HistBarGetter, failed, saved, empty, process_hist_bar_end}
use calm_trading_system.History.Stuck.{process_all, failed_save_stays}

-- A day and an hour, in windows of a day.
chunk_loop-Covers_example :
    (cs : List Chunk) × (chunk_loop 90_002 1 0 90_000 ≡ some cs) × Covers 0 90_000 cs
chunk_loop-Covers_example =
    let r = chunk_loop-Covers 90_002 1 0 90_000 (omega arith) (omega arith) (omega arith) in
    (r.0, r.1, r.2)

abbrev day : IbHistBarReq
day = record {
  symbol = "VOD";
  end = "20240102-00:00:00";
  dur = "1 D";
  bar_size = "5 secs";
  wts = "TRADES";
}

abbrev downloading : HistBarGetter ℤ
downloading = record {
  q = [];
  sym_req = [];
  sym_chunks = ("VOD", day ∷ []) ∷ [];
  sym_chunk_id = ("VOD", 0) ∷ [];
  sym_status = [];
  req_id_sym = (pos 1, "VOD") ∷ [];
  remaining = 1;
  sym_data = [];
}

abbrev end_of : ℤ → HistBarEnd
end_of id = record { id = id; start = "a"; end = "b" }

abbrev after_failure : HistBarGetter ℤ
after_failure = record downloading {
  sym_chunk_id = ("VOD", 1) ∷ [];
  sym_status = ("VOD", error) ∷ [];
  sym_data = ("VOD", []) ∷ [];
}

only_vod : (id : ℤ) (other : String) → lookup id downloading.req_id_sym ≡ some other → other ≡ "VOD"
unfolding lookup
only_vod id other e = ground (arith, beq_ℤ_iff id (pos 1))

failed_save_stays_example : after_failure.remaining ≡ downloading.remaining
unfolding calm_trading_system.Base.insert calm_trading_system.History.Getter.process lookup
    process_all
failed_save_stays_example =
    failed_save_stays (λ l. l) (end_of (pos 1)) "VOD" ((saved, bar_end (end_of (pos 2))) ∷ [])
      downloading after_failure refl only_vod refl refl
