-- ===== src/History/Replies.antt =====
-- The requests that the callbacks of `HistBarGetter` (lib/data/historical_data.cpp) queue.
use calm_trading_system.Base.{
  suc, ℤ_eq, String, string_eq, nat_eq, ◌==◌, ◌≡◌, refl, subst, Bool-cases, Option-cases, inl, inr,
  List, length, get_elem?, Map, lookup, insert, ok, arith,
}
use calm_trading_system.Objects.{HistBar, Event, HistBarEnd, bar, bar_end, err_msg}
use calm_trading_system.Queue.{wait_push}
use calm_trading_system.History.{IbHistBarReq}
use calm_trading_system.History.Getter.{
  Save, saved, failed, threw, HistBarGetter, chunk_id_of, chunks_of, process, process_hist_bar,
  process_hist_bar_end, process_err_msg, process_data, after_save,
}
use calm_trading_system.History.Order.{
  AreNamed, AreInOrder, same-AreInOrder, next-AreInOrder, last-AreInOrder,
}

module _ {D : Type 0} (m : Map String (List IbHistBarReq)) (named : AreNamed m)
    (sort : List (HistBar D) → List (HistBar D)) where
  after_save-AreInOrder :
      (end : Save) (symbol : String) (sent : List IbHistBarReq) (s : HistBarGetter D)
      → AreInOrder m sent s
      → AreInOrder m sent (after_save end symbol s)
  unfolding after_save
  after_save-AreInOrder saved symbol sent s k =
      same-AreInOrder m sent s _ (ground arith) (ground arith) (ground arith) k
  after_save-AreInOrder failed symbol sent s k = same-AreInOrder m sent s _ refl refl refl k
  after_save-AreInOrder threw symbol sent s k = k

  bar_end-AreInOrder :
      (end : Save) (e : HistBarEnd) (sent : List IbHistBarReq) (s t : HistBarGetter D)
      → process_hist_bar_end sort end e s ≡ ok t
      → AreInOrder m sent s
      → AreInOrder m sent t
  unfolding process_hist_bar_end process_data wait_push
  bar_end-AreInOrder end e sent s t h k = elim (Option-cases (lookup e.id s.req_id_sym)) [
    | inl unknown ↦ let same : s ≡ t = ground arith in subst (AreInOrder m sent) same k
    | inr (symbol, known) ↦
        elim (Bool-cases (suc (chunk_id_of symbol s) == length (chunks_of symbol s))) [
          | inl last ↦
              let u = process_data sort symbol (record s {
                sym_chunk_id = insert symbol (suc (chunk_id_of symbol s)) s.sym_chunk_id;
              }) in
              let same : after_save end symbol u ≡ t = ground arith in
              subst (AreInOrder m sent) same (
                after_save-AreInOrder end symbol sent u
                  (last-AreInOrder m sent symbol s u (ground arith) refl refl refl k))
          | inr more ↦
              elim (Option-cases (get_elem? (chunks_of symbol s) (suc (chunk_id_of symbol s)))) [
                | inl beyond ↦ ground arith
                | inr (c, next) ↦
                    next-AreInOrder m sent symbol c s t named next (ground arith) (ground arith)
                      (ground arith) k
              ]
        ]
  ]

  pub process-AreInOrder :
      (end : Save) (e : Event D) (sent : List IbHistBarReq) (s t : HistBarGetter D)
      → process sort end e s ≡ ok t
      → AreInOrder m sent s
      → AreInOrder m sent t
  unfolding process process_hist_bar process_err_msg
  process-AreInOrder end (bar b) sent s t h k =
      same-AreInOrder m sent s t (ground arith) (ground arith) (ground arith) k
  process-AreInOrder end (bar_end e) sent s t h k = bar_end-AreInOrder end e sent s t h k
  process-AreInOrder end (err_msg e) sent s t h k =
      same-AreInOrder m sent s t (ground arith) (ground arith) (ground arith) k
  process-AreInOrder end _ sent s t h k =
      same-AreInOrder m sent s t (ground arith) (ground arith) (ground arith) k
