-- ===== src/History/Stuck.antt =====
-- What becomes of `remaining`, for which `run` waits, when the bars of a symbol cannot be saved.
use calm_trading_system.Base.{
  ℕ, suc, ℤ, ℤ_eq, nat_eq, nat_beq_iff, string_eq, eq_iff, String, Bool-cases, inl, inr, ◌≡◌, ◌==◌,
  List, [], ◌∷◌, length, get_elem?, some, Option-cases, lookup, insert, lookup-insert, Result, ok,
  ◌>>=◌, arith, Result-cases,
}
use calm_trading_system.Objects.{HistBar, HistBarEnd, Event, bar, bar_end, err_msg}
use calm_trading_system.History.{error}
use calm_trading_system.History.Getter.{
  Save, saved, failed, threw, HistBarGetter, chunk_id_of, chunks_of, process, process_hist_bar,
  process_hist_bar_end, process_err_msg, process_data, after_save,
}

module _ {D : Type 0} (sort : List (HistBar D) → List (HistBar D)) where
  unfoldable pub process_all : List (Save × Event D) → HistBarGetter D → Result (HistBarGetter D)
  process_all [] s = ok s
  process_all ((end, e) ∷ es) s = do t ← process sort end e s; process_all es t

  -- Only `symbol` was asked for, it has failed, and `n` symbols remain.
  record IsStuck (symbol : String) (n : ℕ) (s : HistBarGetter D) : Type 0 where
    only : (id : ℤ) (other : String) → lookup id s.req_id_sym ≡ some other → other ≡ symbol
    failed_eq : lookup symbol s.sym_status ≡ some error
    left : s.remaining ≡ n

  -- A step that leaves the three maps that count.
  IsStuck-same :
      (symbol : String) (n : ℕ) (s t : HistBarGetter D)
      → t.req_id_sym ≡ s.req_id_sym
      → t.sym_status ≡ s.sym_status
      → t.remaining ≡ s.remaining
      → IsStuck symbol n s
      → IsStuck symbol n t
  IsStuck-same symbol n s t a b c k = record {
    only = λ id other h. k.only id other (rw a at h);
    failed_eq = rw b k.failed_eq;
    left = rw c k.left;
  }

  -- A step that notes one more failure of the symbol.
  IsStuck-again :
      (symbol : String) (n : ℕ) (s t : HistBarGetter D)
      → t.req_id_sym ≡ s.req_id_sym
      → t.sym_status ≡ insert symbol error s.sym_status
      → t.remaining ≡ s.remaining
      → IsStuck symbol n s
      → IsStuck symbol n t
  IsStuck-again symbol n s t a b c k = record {
    only = λ id other h. k.only id other (rw a at h);
    failed_eq =
        rw b (ground (arith, lookup-insert symbol symbol error s.sym_status, eq_iff symbol symbol));
    left = rw c k.left;
  }

  process_end-IsStuck :
      (symbol : String) (n : ℕ) (end : Save) (e : HistBarEnd) (s t : HistBarGetter D)
      → IsStuck symbol n s
      → process_hist_bar_end sort end e s ≡ ok t
      → IsStuck symbol n t
  unfolding process_hist_bar_end process_data after_save
  process_end-IsStuck symbol n end e s t k h = elim (Option-cases (lookup e.id s.req_id_sym)) [
    | inl none_yet ↦ IsStuck-same symbol n s t (ground arith) (ground arith) (ground arith) k
    | inr (other, own) ↦
        elim (Bool-cases (suc (chunk_id_of other s) == length (chunks_of other s))) [
          | inl last ↦
              let same : other ≡ symbol = k.only e.id other own in
              let stands : lookup other s.sym_status ≡ some error = rw same k.failed_eq in
              by_end end (rw (process_hist_bar_end, own, last) at h) same stands
          | inr more ↦
              elim (Option-cases (get_elem? (chunks_of other s) (suc (chunk_id_of other s)))) [
                | inl beyond ↦ ground arith
                | inr (c, next) ↦
                    IsStuck-same symbol n s t (ground arith) (ground arith) (ground arith) k
              ]
        ]
  ]
    where
      by_end :
          {other : String} (end_ : Save)
          → ok (
              after_save end_ other (
                process_data sort other (record s {
                  sym_chunk_id = insert other (suc (chunk_id_of other s)) s.sym_chunk_id;
                })))
            ≡ ok t
          → other ≡ symbol
          → lookup other s.sym_status ≡ some error
          → IsStuck symbol n t
      by_end saved e same stands =
          IsStuck-same symbol n s t (ground arith) (ground arith) (ground arith) k
      by_end failed e same stands =
          IsStuck-again symbol n s t (ground arith) (ground arith) (ground arith) k
      by_end threw e same stands =
          IsStuck-same symbol n s t (ground arith) (ground arith) (ground arith) k

  process-IsStuck :
      (symbol : String) (n : ℕ) (end : Save) (e : Event D) (s t : HistBarGetter D)
      → IsStuck symbol n s
      → process sort end e s ≡ ok t
      → IsStuck symbol n t
  unfolding process process_hist_bar process_err_msg
  process-IsStuck symbol n end (bar b) s t k h =
      IsStuck-same symbol n s t (ground arith) (ground arith) (ground arith) k
  process-IsStuck symbol n end (bar_end e) s t k h = process_end-IsStuck symbol n end e s t k h
  process-IsStuck symbol n end (err_msg m) s t k h =
      elim (Option-cases (lookup m.id s.req_id_sym)) [
        | inl e ↦ IsStuck-same symbol n s t (ground arith) (ground arith) (ground arith) k
        | inr (other, e) ↦
            let same : other ≡ symbol = k.only m.id other e in
            IsStuck-again symbol n s t (ground (arith, k.failed_eq)) (ground (arith, k.failed_eq))
              (ground (arith, k.failed_eq)) k
      ]
  process-IsStuck symbol n end _ s t k h =
      IsStuck-same symbol n s t (ground arith) (ground arith) (ground arith) k

  all-IsStuck :
      (symbol : String) (n : ℕ) (es : List (Save × Event D)) (s t : HistBarGetter D)
      → IsStuck symbol n s
      → process_all es s ≡ ok t
      → IsStuck symbol n t
  unfolding process_all
  all-IsStuck symbol n [] s t k h =
      IsStuck-same symbol n s t (ground arith) (ground arith) (ground arith) k
  all-IsStuck symbol n ((end, e) ∷ es) s t k h = elim (Result-cases (process sort end e s)) [
    | inl (u, done) ↦
        all-IsStuck symbol n es u t (process-IsStuck symbol n end e s u k done) (ground arith)
    | inr (x, bad) ↦ ground arith
  ]

  -- If all requests so far are for one symbol and its last chunk ends with a file that cannot be written, `remaining` keeps
  -- its value through that event and through any later events that are processed, whatever they
  -- are and however later files are written.
  pub failed_save_stays :
      (e : HistBarEnd) (symbol : String) (es : List (Save × Event D)) (s t : HistBarGetter D)
      → lookup e.id s.req_id_sym ≡ some symbol
      → ((id : ℤ) (other : String) → lookup id s.req_id_sym ≡ some other → other ≡ symbol)
      → suc (chunk_id_of symbol s) ≡ length (chunks_of symbol s)
      → process_all ((failed, bar_end e) ∷ es) s ≡ ok t
      → t.remaining ≡ s.remaining
  unfolding process_all process process_hist_bar_end process_data after_save
  failed_save_stays e symbol es s t own only last h =
      elim (Result-cases (process sort failed (bar_end e) s)) [
        | inr (x, bad) ↦ ground arith
        | inl (u, done) ↦ (all-IsStuck symbol s.remaining es u t (first u done) (ground arith)).left
      ]
    where
      first :
          (u : HistBarGetter D)
          → process sort failed (bar_end e) s ≡ ok u
          → IsStuck symbol s.remaining u
      first u done = record {
        only = λ id other l. only id other (
            ground (arith, nat_beq_iff (suc (chunk_id_of symbol s)) (length (chunks_of symbol s))));
        failed_eq = ground (
          arith,
          nat_beq_iff (suc (chunk_id_of symbol s)) (length (chunks_of symbol s)),
          lookup-insert symbol symbol error s.sym_status,
          eq_iff symbol symbol,
        );
        left =
            ground (arith, nat_beq_iff (suc (chunk_id_of symbol s)) (length (chunks_of symbol s)));
      }
