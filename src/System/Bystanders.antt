-- ===== src/System/Bystanders.antt =====
-- Rounds of the data recorder (lib/data/data_recorder.cpp) and of the portfolio (lib/core/portfolio.cpp) beside the algo engine.
use calm_trading_system.Base.{
  ℤ_eq, string_eq, ◌≡◌, refl, sym, ap, Bool, true, false, nat_eq, Bool-cases, Result-cases, inl,
  inr, [], ◌∷◌, ◌++◌, ok, ◌>>=◌, arith,
}
use calm_trading_system.Double.{Double}
use calm_trading_system.Objects.{OrderData, Event, engine_stop, tick, order}
use calm_trading_system.Queue.{try_pop}
use calm_trading_system.Recorder
use calm_trading_system.System.Machine.{System, recorder_round, portfolio_round}
use calm_trading_system.Objects.Tables.{action_word, order_type_word, order_status_word}
use calm_trading_system.Recorder.{DataRecorder, order_doc, save, save_order_data}

module _ {D : Type 0} where
  order_doc_ok : (o : OrderData D) → (v : Recorder.Document D) × (order_doc o ≡ ok v)
  unfolding order_doc
  order_doc_ok o =
      let (t, types) = order_type_word o.order_type in
      let (a, acts) = action_word o.action in
      let (s, states) = order_status_word o.status in
      elim (Result-cases (order_doc o)) [ inl (v, done) ↦ (v, done) | inr (x, bad) ↦ ground arith ]

  save_ok :
      (inserts : Bool) (e : Event D) (r : DataRecorder D)
      → (s : DataRecorder D) × (save inserts e r ≡ ok s)
  unfolding save save_order_data
  save_ok false (order o) r = (r, refl)
  save_ok true (order o) r =
      let (v, done) = order_doc_ok o in
      (_, ap (λ b. b >>= (λ doc. ok (record r { orders = r.orders ++ doc ∷ [] }))) done)
  save_ok false (tick t) r = (_, refl)
  save_ok true (tick t) r = (_, refl)
  save_ok inserts engine_stop r = (r, refl)
  save_ok inserts _ r = (r, refl)

  pub recorder_round_ok :
      (inserts : Bool) (x : System D) → (y : System D) × (recorder_round inserts x ≡ ok y)
  unfolding recorder_round Recorder.action_round
  recorder_round_ok inserts x =
      let popped = try_pop x.recorder_event x.world.data_recorder.q in
      let (s, done) = save_ok inserts popped.1 (record x.world.data_recorder { q = popped.2 }) in
      elim (Result-cases (recorder_round inserts x)) [
        | inl (y, ran) ↦ (y, ran)
        | inr (e, bad) ↦ ground arith
      ]

  pub recorder_round-world :
      (inserts : Bool) (x y : System D)
      → recorder_round inserts x ≡ ok y
      → (y.world.algo_engine ≡ x.world.algo_engine) × (y.world.last_ticks ≡ x.world.last_ticks)
  unfolding recorder_round
  recorder_round-world inserts x y h = elim (Bool-cases x.world.data_recorder.running) [
    | inr off ↦
        let same : x ≡ y = ground arith in
        (ap (λ v. v.world.algo_engine) (sym same), ap (λ v. v.world.last_ticks) (sym same))
    | inl on ↦
        elim (Result-cases (Recorder.action_round inserts x.recorder_event x.world.data_recorder)) [
          | inr (e, bad) ↦ ground arith
          | inl ((event, r), done) ↦
              let same : record x {
                recorder_event = event;
                world = record x.world { data_recorder = r };
              }
                  ≡ y =
                ground arith in
              (ap (λ v. v.world.algo_engine) (sym same), ap (λ v. v.world.last_ticks) (sym same))
        ]
  ]

module _ {D : Type 0} ⦃d : Double D⦄ where
  pub portfolio_round-world :
      (x : System D)
      → ((portfolio_round x).world.algo_engine ≡ x.world.algo_engine)
        × ((portfolio_round x).world.last_ticks ≡ x.world.last_ticks)
  unfolding portfolio_round
  portfolio_round-world x = elim (Bool-cases x.world.portfolio.running) [
    | inl on ↦ rw on (refl, refl)
    | inr off ↦ rw off (refl, refl)
  ]
