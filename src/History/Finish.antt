-- ===== src/History/Finish.antt =====
-- The end of `run` of `HistBarGetter` (lib/data/historical_data.cpp).
use calm_trading_system.Base.{
  has, keys, contains-has, ℕ, ◌≤◌, ℤ_eq, String, string_eq, nat_eq, eq_iff, true, false, ◌≡◌, ◌∙◌,
  List, [], ◌∷◌, length, some, Map, lookup, ok, arith,
}
use calm_trading_system.Objects.{HistBar}
use calm_trading_system.Gateway.{Api}
use calm_trading_system.History.{HistBarStatus, in_prog}
use calm_trading_system.History.Getter.{HistBarGetter, or_default, status_of}
use calm_trading_system.History.Machine.{Happening, happen_all}
use calm_trading_system.Base.{contains}
use calm_trading_system.History.{HistBarReq, Texts}
use calm_trading_system.History.Getter.{init, push_first}
use calm_trading_system.History.Counting.{is_in_prog, in_progress, Counts, Counts-Counts}
use calm_trading_system.History.Progress.{all-Counts}
use calm_trading_system.History.Prepared.{init-IsCounted, push_first-Counts}

-- A symbol in progress is counted.
counted_in :
    (ks : List String) (k : String) (m : Map String HistBarStatus)
    → has k ks ≡ true
    → in_progress ks m ≡ 0
    → is_in_prog (or_default in_prog (lookup k m)) ≡ false
counted_in [] k m h e = cc
counted_in (j ∷ ks) k m h e = ground (arith, counted_in ks k m, eq_iff k j)

module _ {D : Type 0} (x : Texts) (n format : ℕ) (sort : List (HistBar D) → List (HistBar D)) where
  downloads-Counts :
      (reqs : List HistBarReq) (s t u : HistBarGetter D) (hs : List (Happening D))
      (api api' : Api D)
      → init x n reqs ≡ some s
      → push_first s.sym_chunks s ≡ ok t
      → happen_all sort format hs (t, api) ≡ ok (u, api')
      → Counts (keys s.sym_chunk_id) s u
  downloads-Counts reqs s t u hs api api' made pushed ran =
      let ks = keys s.sym_chunk_id in
      let (one_each, k, left) = init-IsCounted x n reqs s made in
      let first = push_first-Counts ks s.sym_chunks s t k.chunked k pushed in
      Counts-Counts ks one_each s t u first
        (all-Counts ks one_each sort format hs t u api api' first.after ran)

  -- From the constructor on and through any rounds of `run` and any events, however files are written: there are no more
  -- symbols in progress than `remaining`, which is at most the number of symbols that have chunks.
  pub remaining_bounds :
      (reqs : List HistBarReq) (s t u : HistBarGetter D) (hs : List (Happening D))
      (api api' : Api D)
      → init x n reqs ≡ some s
      → push_first s.sym_chunks s ≡ ok t
      → happen_all sort format hs (t, api) ≡ ok (u, api')
      → (in_progress (keys s.sym_chunk_id) u.sym_status ≤ u.remaining)
        × (u.remaining ≤ length s.sym_chunk_id)
  remaining_bounds reqs s t u hs api api' made pushed ran =
      let c = downloads-Counts reqs s t u hs api api' made pushed ran in
      (c.after.counted, omega (arith, c.no_more, (init-IsCounted x n reqs s made).2))

  -- From the constructor on and through any rounds of `run` and any events: when `remaining` is 0, which ends `run`, no
  -- symbol that has chunks is still in progress.
  pub none_in_progress :
      (reqs : List HistBarReq) (s t u : HistBarGetter D) (hs : List (Happening D))
      (api api' : Api D) (symbol : String)
      → init x n reqs ≡ some s
      → push_first s.sym_chunks s ≡ ok t
      → happen_all sort format hs (t, api) ≡ ok (u, api')
      → contains symbol s.sym_chunk_id ≡ true
      → u.remaining ≡ 0
      → is_in_prog (status_of symbol u) ≡ false
  none_in_progress reqs s t u hs api api' symbol made pushed ran ours over =
      let c = (remaining_bounds reqs s t u hs api api' made pushed ran).0 in
      counted_in (keys s.sym_chunk_id) symbol u.sym_status
        (contains-has symbol s.sym_chunk_id ∙ ours) (omega (arith, c, over))
