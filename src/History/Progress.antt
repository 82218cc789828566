-- ===== src/History/Progress.antt =====
-- `remaining` of `HistBarGetter` (lib/data/historical_data.cpp) from the constructor to the end of `run`.
use calm_trading_system.Base.{
  distinct, ℕ, suc, ℤ_eq, pos, String, string_eq, nat_eq, ◌==◌, true, false, ◌≡◌, refl, ap, subst,
  Bool-cases, Result-cases, inl, inr, List, [], ◌∷◌, length, lookup, insert, lookup-insert, ok,
  arith,
}
use calm_trading_system.Objects.{HistBar, Event, bar, bar_end, err_msg}
use calm_trading_system.Gateway.{Api, HistCall}
use calm_trading_system.Gateway.History.{historical_bar}
use calm_trading_system.History.{IbHistBarReq}
use calm_trading_system.History.Getter.{
  Save, HistBarGetter, run_round, process, process_hist_bar, process_err_msg,
}
use calm_trading_system.History.Machine.{Happening, rounds, events, happen, happen_all}
use calm_trading_system.Queue.{wait_pop}
use calm_trading_system.History.Counting.{
  in_progress, AreOurs, IsCounted, Counts, uncounted-Counts, Counts-Counts, err_msg-Counts,
  bar_end-Counts,
}

module _ {D : Type 0} (ks : List String) (d : distinct ks ≡ true)
    (sort : List (HistBar D) → List (HistBar D)) where
  process-Counts :
      (end : Save) (e : Event D) (s t : HistBarGetter D)
      → IsCounted ks s
      → process sort end e s ≡ ok t
      → Counts ks s t
  unfolding process process_hist_bar
  process-Counts end (bar b) s t k h =
      uncounted-Counts ks s t k (ground arith) (ground arith) (ground arith) (ground arith)
        (ground arith)
  process-Counts end (bar_end e) s t k h = bar_end-Counts ks d sort end e s t k h
  process-Counts end (err_msg m) s t k h =
      let same : process_err_msg m s ≡ t = ground arith in
      subst (Counts ks s) same (err_msg-Counts ks d m s k)
  process-Counts end _ s t k h =
      uncounted-Counts ks s t k (ground arith) (ground arith) (ground arith) (ground arith)
        (ground arith)

  module _ (format : ℕ) where
    -- A request was sent, and has got an id.
    abbrev requested : HistBarGetter D → IbHistBarReq → List IbHistBarReq → ℕ → HistBarGetter D
    requested s req rest id = record s {
      q = rest;
      req_id_sym = insert (pos id) req.symbol s.req_id_sym;
    }

    requested-Counts :
        (s : HistBarGetter D) (req : IbHistBarReq) (rest : List IbHistBarReq) (id : ℕ)
        → IsCounted ks s
        → AreOurs ks (req ∷ rest)
        → Counts ks s (requested s req rest id)
    requested-Counts s req rest id k ours = record {
      after = record {
        served = λ i symbol h.
            ground
              (arith, lookup-insert (pos id) i req.symbol s.req_id_sym, k.served i symbol, ours.0);
        queued = ours.1;
        chunked = k.chunked;
        counted = k.counted;
      };
      no_more = omega arith;
    }

    round-Counts :
        (s t : HistBarGetter D) (api api' : Api D)
        → IsCounted ks s
        → run_round format s api ≡ ok (t, api')
        → Counts ks s t
    unfolding run_round wait_pop
    round-Counts s t api api' k h = elim (Bool-cases (s.remaining == 0)) [
      | inl over ↦
          uncounted-Counts ks s t k (ground arith) (ground arith) (ground arith) (ground arith)
            (ground arith)
      | inr on ↦ by_queue s.q on refl
    ]
      where
        by_queue : (q : List IbHistBarReq) → (s.remaining == 0) ≡ false → s.q ≡ q → Counts ks s t
        by_queue [] on e =
            uncounted-Counts ks s t k (ground arith) (ground arith) (ground arith) (ground arith)
              (ground arith)
        by_queue (req ∷ rest) on e =
            let call : HistCall = record {
              end_time = req.end;
              duration = req.dur;
              bar_size = req.bar_size;
              wts = req.wts;
              use_rth = 1;
              format = format;
            } in
            let ours : AreOurs ks (req ∷ rest) = subst (AreOurs ks) e k.queued in
            elim (Result-cases (historical_bar req.symbol call api)) [
              | inr (x, bad) ↦ ground arith
              | inl ((id, api1), done) ↦
                  let same : requested s req rest id ≡ t = ground arith in
                  subst (Counts ks s) same (requested-Counts s req rest id k ours)
            ]

    happen-Counts :
        (h : Happening D) (s t : HistBarGetter D) (api api' : Api D)
        → IsCounted ks s
        → happen sort format h (s, api) ≡ ok (t, api')
        → Counts ks s t
    unfolding happen
    happen-Counts rounds s t api api' k e = round-Counts s t api api' k e
    happen-Counts (events end v) s t api api' k e = elim (Result-cases (process sort end v s)) [
      | inl (u, done) ↦
          let same : u ≡ t = ground arith in
          subst (Counts ks s) same (process-Counts end v s u k done)
      | inr (x, bad) ↦ ground arith
    ]

    pub all-Counts :
        (hs : List (Happening D)) (s t : HistBarGetter D) (api api' : Api D)
        → IsCounted ks s
        → happen_all sort format hs (s, api) ≡ ok (t, api')
        → Counts ks s t
    unfolding happen_all
    all-Counts [] s t api api' k e =
        let same : s ≡ t = ground arith in
        subst (Counts ks s) same (uncounted-Counts ks s s k refl refl refl refl refl)
    all-Counts (h ∷ hs) s t api api' k e = elim (Result-cases (happen sort format h (s, api))) [
      | inl ((u, api1), done) ↦
          let first = happen-Counts h s u api api1 k done in
          Counts-Counts ks d s u t first (all-Counts hs u t api1 api' first.after (ground arith))
      | inr (x, bad) ↦ ground arith
    ]

pub in_progress-fresh : (ks : List String) → in_progress ks [] ≡ length ks
unfolding lookup
in_progress-fresh [] = refl
in_progress-fresh (k ∷ ks) = ap suc (in_progress-fresh ks)
