-- ===== src/History/Getter.antt =====
-- `HistBarGetter` of lib/data/historical_data.cpp: its state, its callbacks and the rounds of `run`.
use calm_trading_system.Base.{
  ℕ, zero, suc, ◌-◌, ◌^◌, nat_eq, ℤ, pos, ℤ_eq, string_eq, String, ◌==◌, List, [], ◌∷◌, ◌++◌,
  length, get_elem?, Option, none, some, Map, lookup, insert, Result, ok, or_fail, ◌>>=◌,
  undefined_behaviour, if◌then◌else◌,
}
use calm_trading_system.Objects.{HistBar, HistBarEnd, ErrMsg, Event, bar, bar_end, err_msg}
use calm_trading_system.Queue.{wait_push, wait_pop}
use calm_trading_system.Gateway.{Api}
use calm_trading_system.Gateway.History.{historical_bar}
use calm_trading_system.History.{
  HistBarReq, IbHistBarReq, HistBarStatus, in_prog, success, error, Texts, generate_ib_reqs,
}

-- How `process_data` ends: the file is written, a status that is not ok is returned, or a call throws.
pub data Save : Type 0 where
  saved failed threw : Save

pub record HistBarGetter (D : Type 0) : Type 0 where
  pub q : List IbHistBarReq
  pub sym_req : Map String HistBarReq
  pub sym_chunks : Map String (List IbHistBarReq)
  pub sym_chunk_id : Map String ℕ
  pub sym_status : Map String HistBarStatus
  pub req_id_sym : Map ℤ String
  pub remaining : ℕ
  pub sym_data : Map String (List (HistBar D))

-- `--remaining`, of a `std::size_t`
abbrev pub decrement : ℕ → ℕ
decrement zero = 2 ^ 64 - 1
decrement (suc n) = n

-- `m[symbol]` of a map whose values start as 0, empty or `in_prog`.
abbrev pub or_default {ℓ} : {V : Type ℓ} → V → Option V → V
or_default v none = v
or_default v (some w) = w

module _ {D : Type 0} where
  abbrev pub empty : HistBarGetter D
  empty = record {
    q = [];
    sym_req = [];
    sym_chunks = [];
    sym_chunk_id = [];
    sym_status = [];
    req_id_sym = [];
    remaining = 0;
    sym_data = [];
  }

  abbrev pub status_of : String → HistBarGetter D → HistBarStatus
  status_of symbol s = or_default in_prog (lookup symbol s.sym_status)

  abbrev pub chunk_id_of : String → HistBarGetter D → ℕ
  chunk_id_of symbol s = or_default 0 (lookup symbol s.sym_chunk_id)

  abbrev pub chunks_of : String → HistBarGetter D → List IbHistBarReq
  chunks_of symbol s = or_default [] (lookup symbol s.sym_chunks)

  abbrev pub data_of : String → HistBarGetter D → List (HistBar D)
  data_of symbol s = or_default [] (lookup symbol s.sym_data)

  -- The loop of `init`. `none` is a loop of `generate_ib_reqs` that does not end.
  unfoldable pub add_reqs : Texts → ℕ → List HistBarReq → HistBarGetter D → Option (HistBarGetter D)
  add_reqs x n [] s = some s
  add_reqs x n (r ∷ rs) s =
      let t : HistBarGetter D = record s { sym_req = insert r.symbol r s.sym_req } in
      elim (generate_ib_reqs x r n) [
        | none ↦ none
        | some [] ↦ add_reqs x n rs t
        | some (c ∷ cs) ↦ add_reqs x n rs (record t {
          sym_chunks = insert r.symbol (c ∷ cs) t.sym_chunks;
          sym_chunk_id = insert r.symbol 0 t.sym_chunk_id;
        })
      ]

  unfoldable pub init : Texts → ℕ → List HistBarReq → Option (HistBarGetter D)
  unfolding add_reqs
  init x n reqs = elim (add_reqs x n reqs empty) [
    | none ↦ none
    | some s ↦ some (record s { remaining = length s.sym_chunk_id })
  ]

  -- The loop before the rounds of `run`: the first chunk of each symbol is queued.
  unfoldable pub push_first :
      Map String (List IbHistBarReq) → HistBarGetter D → Result (HistBarGetter D)
  unfolding wait_push
  push_first [] s = ok s
  push_first ((symbol, v) ∷ m) s = do
    c ← or_fail undefined_behaviour (get_elem? v 0)
    push_first m (record s { q = wait_push c s.q })

  -- One round of `while (remaining)`; `format` is `m_cfg.hist_time_format`.
  unfoldable pub run_round : ℕ → HistBarGetter D → Api D → Result (HistBarGetter D × Api D)
  unfolding wait_pop
  run_round format s api = if s.remaining == 0 then ok (s, api) else elim (wait_pop s.q) [
    | none ↦ ok (s, api)
    | some (req, rest) ↦ (do
      (req_id, api') ←
          historical_bar req.symbol
            (record {
              end_time = req.end;
              duration = req.dur;
              bar_size = req.bar_size;
              wts = req.wts;
              use_rth = 1;
              format = format;
            })
            api
      ok (record s { q = rest; req_id_sym = insert (pos req_id) req.symbol s.req_id_sym }, api'))
  ]

  unfoldable pub process_hist_bar : HistBar D → HistBarGetter D → HistBarGetter D
  process_hist_bar b s = elim (lookup b.id s.req_id_sym) [
    | none ↦ s
    | some symbol ↦ record s { sym_data = insert symbol (data_of symbol s ++ b ∷ []) s.sym_data }
  ]

  -- `std::unique`: of neighbours with the same time the first stays.
  unfoldable pub unique_from : HistBar D → List (HistBar D) → List (HistBar D)
  unique_from x [] = []
  unique_from x (y ∷ ys) = if x.time == y.time then unique_from x ys else y ∷ unique_from y ys

  unfoldable pub unique : List (HistBar D) → List (HistBar D)
  unfolding unique_from
  unique [] = []
  unique (x ∷ xs) = x ∷ unique_from x xs

  -- `process_data` up to the writing of the file. `sort` is `std::sort` by time.
  unfoldable pub process_data :
      (List (HistBar D) → List (HistBar D)) → String → HistBarGetter D → HistBarGetter D
  unfolding unique
  process_data sort symbol s = record s {
    sym_data = insert symbol (unique (sort (data_of symbol s))) s.sym_data;
  }

  -- The file that `process_data` writes: `sym_req[symbol].save_path`.
  unfoldable pub out_path : String → HistBarGetter D → String
  out_path symbol s = elim (lookup symbol s.sym_req) [ none ↦ "" | some r ↦ r.save_path ]

  -- What `process_hist_bar_end` does with the outcome of `process_data`.
  unfoldable pub after_save : Save → String → HistBarGetter D → HistBarGetter D
  after_save saved symbol s = elim (status_of symbol s) [
    | in_prog ↦ record s {
      sym_status = insert symbol success s.sym_status;
      remaining = decrement s.remaining;
    }
    | st ↦ s
  ]
  after_save failed symbol s = record s { sym_status = insert symbol error s.sym_status }
  after_save threw symbol s = s

  unfoldable pub process_hist_bar_end :
      (List (HistBar D) → List (HistBar D))
      → Save
      → HistBarEnd
      → HistBarGetter D
      → Result (HistBarGetter D)
  unfolding wait_push process_data after_save
  process_hist_bar_end sort end e s = elim (lookup e.id s.req_id_sym) [
    | none ↦ ok s
    | some symbol ↦
        let t : HistBarGetter D = record s {
          sym_chunk_id = insert symbol (suc (chunk_id_of symbol s)) s.sym_chunk_id;
        } in
        if suc (chunk_id_of symbol s) == length (chunks_of symbol s)
        then ok (after_save end symbol (process_data sort symbol t))
        else (do
          chunk ←
              or_fail undefined_behaviour
                (get_elem? (chunks_of symbol s) (suc (chunk_id_of symbol s)))
          ok (record t { q = wait_push chunk t.q }))
  ]

  unfoldable pub process_err_msg : ErrMsg → HistBarGetter D → HistBarGetter D
  process_err_msg m s = elim (lookup m.id s.req_id_sym) [
    | none ↦ s
    | some symbol ↦ record s {
      remaining = elim (status_of symbol s) [ in_prog ↦ decrement s.remaining | st ↦ s.remaining ];
      sym_status = insert symbol error s.sym_status;
    }
  ]

  -- An event of the engine; `end` is how the file is written if it comes to that.
  unfoldable pub process :
      (List (HistBar D) → List (HistBar D))
      → Save
      → Event D
      → HistBarGetter D
      → Result (HistBarGetter D)
  unfolding process_hist_bar process_hist_bar_end process_err_msg
  process sort end (bar b) s = ok (process_hist_bar b s)
  process sort end (bar_end e) s = process_hist_bar_end sort end e s
  process sort end (err_msg m) s = ok (process_err_msg m s)
  process sort end _ s = ok s
