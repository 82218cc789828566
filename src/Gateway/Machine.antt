-- ===== src/Gateway/Machine.antt =====
-- All the ways in which the state of `IBApi` changes: the requests of the trading system and the
-- callbacks of the client library, in any order.
use calm_trading_system.Base.{
  ◌>>=◌, inr, inl, Result-cases, arith, ◌≡◌, ℕ, ℤ, String, Bool, List, [], ◌∷◌, Result, ok, err,
}
use calm_trading_system.Double.{Double}
use calm_trading_system.Objects.{OrderReq, ErrMsg}
use calm_trading_system.Gateway.{HistCall, Decimals, Api}
use calm_trading_system.Gateway.Ticks.{
  type_asked, subscribe, tick_by_tick_bid_ask, tick_by_tick_all_last,
}
use calm_trading_system.Gateway.Orders.{
  error, next_valid_id, order_status, open_order, send_order, cancel, cancel_all_orders,
}
use calm_trading_system.Gateway.History.{
  Bar, contract_details, historical_bar, historical_data, historical_data_end,
}
use calm_trading_system.Gateway.Session.{start, stop}

pub data Input (D : Type 0) : Type 0 where
  starts : Bool → Input D
  stops : Input D
  subscribes : String → Bool → Input D
  bid_ask : ℕ → ℕ → D → D → ℕ → ℕ → Input D
  all_last : ℕ → ℕ → D → ℕ → Input D
  errs : ErrMsg → Input D
  valid_id : ℤ → Input D
  status : ℤ → String → ℕ → D → Input D
  opened : ℤ → D → Input D
  sends : OrderReq D → Input D
  cancels : ℤ → Input D
  cancels_all : Input D
  asks_details : String → Input D
  asks_bars : String → HistCall → Input D
  has_bar : ℤ → Bar D → Input D
  bars_end : ℤ → String → String → Input D

-- The state after a call, which leaves the first one where it throws or reads beyond a vector.
abbrev pub state_or {ℓ} : {S : Type ℓ} → S → Result S → S
state_or s (ok t) = t
state_or s (err _) = s

abbrev pub second_or {ℓ κ} : {A : Type ℓ} {S : Type κ} → S → Result (A × S) → S
second_or s (ok (_, t)) = t
second_or s (err _) = s

module _ {D : Type 0} ⦃d : Double D⦄ (q : Decimals D) where
  unfoldable pub step : Input D → Api D → Api D
  step (starts connected) s = start connected s
  step stops s = stop s
  step (subscribes symbol delayed) s =
      state_or (type_asked symbol delayed s) (subscribe symbol delayed s)
  step (bid_ask id time bid ask bid_size ask_size) s =
      tick_by_tick_bid_ask q id time bid ask bid_size ask_size s
  step (all_last id time price size) s = tick_by_tick_all_last q id time price size s
  step (errs m) s = error m s
  step (valid_id id) s = next_valid_id id s
  step (status id word filled price) s = state_or s (order_status q id word filled price s)
  step (opened id commission) s = open_order id commission s
  step (sends req) s = second_or s (send_order q req s)
  step (cancels id) s = cancel id s
  step cancels_all s = cancel_all_orders s
  step (asks_details symbol) s = state_or s (contract_details symbol s)
  step (asks_bars symbol h) s = second_or s (historical_bar symbol h s)
  step (has_bar id b) s = historical_data q id b s
  step (bars_end id st en) s = historical_data_end id st en s

  -- The same, with what is thrown: by a callback into the thread of `process_messages`, which catches nothing, and
  -- by a request into its caller.
  unfoldable pub attempt : Input D → Api D → Result (Api D)
  unfolding step
  attempt (subscribes symbol delayed) s = subscribe symbol delayed s
  attempt (status id word filled price) s = order_status q id word filled price s
  attempt (sends req) s = do (id, t) ← send_order q req s; ok t
  attempt (asks_details symbol) s = contract_details symbol s
  attempt (asks_bars symbol h) s = do (id, t) ← historical_bar symbol h s; ok t
  attempt i s = ok (step i s)

  pub attempt-step : (i : Input D) (s t : Api D) → attempt i s ≡ ok t → step i s ≡ t
  unfolding attempt step
  attempt-step (subscribes symbol delayed) s t h = ground arith
  attempt-step (status id word filled price) s t h = ground arith
  attempt-step (sends req) s t h = elim (Result-cases (send_order q req s)) [
    | inl ((id, u), done) ↦ ground arith
    | inr (e, bad) ↦ ground arith
  ]
  attempt-step (asks_details symbol) s t h = ground arith
  attempt-step (asks_bars symbol b) s t h = elim (Result-cases (historical_bar symbol b s)) [
    | inl ((id, u), done) ↦ ground arith
    | inr (e, bad) ↦ ground arith
  ]
  attempt-step (starts connected) s t h = ground arith
  attempt-step stops s t h = ground arith
  attempt-step (bid_ask id time bid ask n m) s t h = ground arith
  attempt-step (all_last id time price n) s t h = ground arith
  attempt-step (errs m) s t h = ground arith
  attempt-step (valid_id id) s t h = ground arith
  attempt-step (opened id c) s t h = ground arith
  attempt-step (cancels id) s t h = ground arith
  attempt-step cancels_all s t h = ground arith
  attempt-step (has_bar id b) s t h = ground arith
  attempt-step (bars_end id st en) s t h = ground arith

  unfoldable pub run : List (Input D) → Api D → Api D
  run [] s = s
  run (i ∷ is) s = run is (step i s)
