-- ===== src/Gateway/Placing.antt =====
-- The orders that are placed over whole runs of lib/gateway/gateway.cpp.
use calm_trading_system.Base.{
  negsuc, ℤ, ℤ_eq, ◌≤ℤ◌, string_eq, ◌≡◌, refl, ◌∙◌, Bool-cases, Option-cases, inl, inr, List, [],
  ◌∷◌, append-nil, arith, lookup,
}
use calm_trading_system.Gateway.OrderIds.{
  IsRising, ids, ordered, ordered-append, AreNumbered, same-AreNumbered,
}
use calm_trading_system.Gateway.Numbered.{
  unmoved-AreNumbered, update_order-AreNumbered, contract_details-AreNumbered,
  historical_bar-AreNumbered, stop-AreNumbered, subscribe-AreNumbered, send_order-AreNumbered,
}
use calm_trading_system.Double.{Double}
use calm_trading_system.Gateway.Book.{IsFiled}
use calm_trading_system.Gateway.Life.{step-Follows}
use calm_trading_system.Objects.Enums.{order_status_to_calm}
use calm_trading_system.Utils.{is_unset_double}
use calm_trading_system.Objects.{unset_long}
use calm_trading_system.Gateway.{on_error, cancel_order, req_global_cancel, Decimals, Api, init}
use calm_trading_system.Gateway.Ticks.{put_tick, tick_by_tick_bid_ask, tick_by_tick_all_last}
use calm_trading_system.Gateway.Orders.{error, next_valid_id, order_status, open_order}
use calm_trading_system.Gateway.History.{historical_data, historical_data_end}
use calm_trading_system.Gateway.Session.{start}
use calm_trading_system.Gateway.Machine.{
  Input, starts, stops, subscribes, bid_ask, all_last, errs, valid_id, status, opened, sends,
  cancels, cancels_all, asks_details, asks_bars, has_bar, bars_end, step, run,
}

-- Whether the next valid id that the client library reports is not below those given out, and an
-- order request asks for a new id.
module _ {D : Type 0} where
  abbrev pub IsForward : Input D → Api D → Type 0
  IsForward (valid_id id) s = s.next_order_id ≤ℤ id
  IsForward (sends req) s = req.order_id ≡ unset_long
  IsForward _ s = Unit

module _ {D : Type 0} ⦃d : Double D⦄ (q : Decimals D) where
  -- All inputs of a run are so, at the state that they meet.
  abbrev pub AreForward : List (Input D) → Api D → Type 0
  AreForward [] s = Unit
  AreForward (i ∷ is) s = IsForward i s × AreForward is (step q i s)

  step-AreNumbered :
      (lo : ℤ) (i : Input D) (s : Api D)
      → IsForward i s
      → AreNumbered lo s
      → AreNumbered lo (step q i s)
  unfolding step start next_valid_id historical_data historical_data_end error open_order
      order_status tick_by_tick_bid_ask tick_by_tick_all_last put_tick on_error
  step-AreNumbered lo (starts connected) s h k =
      unmoved-AreNumbered lo s _ (ground arith) (ground arith) (ground arith) k
  step-AreNumbered lo stops s h k = stop-AreNumbered lo s k
  step-AreNumbered lo (subscribes symbol delayed) s h k =
      subscribe-AreNumbered lo symbol delayed s k
  step-AreNumbered lo (bid_ask id time bid ask n m) s h k =
      unmoved-AreNumbered lo s _ (ground arith) (ground arith) (ground arith) k
  step-AreNumbered lo (all_last id time price n) s h k =
      unmoved-AreNumbered lo s _ (ground arith) (ground arith) (ground arith) k
  step-AreNumbered lo (errs m) s h k = update_order-AreNumbered lo m.id _ s _ refl refl refl k
  step-AreNumbered lo (valid_id id) s h k = same-AreNumbered lo s _ refl refl h k
  step-AreNumbered lo (status id word filled price) s h k =
      elim (Option-cases (lookup word order_status_to_calm)) [
        | inl unknown ↦ rw unknown k
        | inr (st, known) ↦ rw known (update_order-AreNumbered lo id _ s s refl refl refl k)
      ]
  step-AreNumbered lo (opened id c) s h k = elim (Bool-cases (is_unset_double c)) [
    | inl unset ↦ rw unset k
    | inr set ↦ rw set (update_order-AreNumbered lo id _ s s refl refl refl k)
  ]
  step-AreNumbered lo (sends req) s h k = send_order-AreNumbered lo q req s h k
  step-AreNumbered lo (cancels id) s h k =
      unmoved-AreNumbered lo s _ refl
        (ordered-append s.calls (cancel_order id ∷ []) ∙ append-nil (ordered s.calls)) refl k
  step-AreNumbered lo cancels_all s h k =
      unmoved-AreNumbered lo s _ refl
        (ordered-append s.calls (req_global_cancel ∷ []) ∙ append-nil (ordered s.calls)) refl k
  step-AreNumbered lo (asks_details symbol) s h k = contract_details-AreNumbered lo symbol s k
  step-AreNumbered lo (asks_bars symbol b) s h k = historical_bar-AreNumbered lo symbol b s k
  step-AreNumbered lo (has_bar id b) s h k = unmoved-AreNumbered lo s _ refl refl refl k
  step-AreNumbered lo (bars_end id st en) s h k = unmoved-AreNumbered lo s _ refl refl refl k

  run-AreNumbered :
      (lo : ℤ) (is : List (Input D)) (s : Api D)
      → AreForward is s
      → AreNumbered lo s
      → AreNumbered lo (run q is s)
  unfolding run
  run-AreNumbered lo [] s h k = k
  run-AreNumbered lo (i ∷ is) s h k =
      run-AreNumbered lo is (step q i s) h.1 (step-AreNumbered lo i s h.0 k)

  init-IsFiled : IsFiled (init {D = D})
  unfolding init lookup
  init-IsFiled id o found = cc

  run-IsFiled : (is : List (Input D)) (s : Api D) → IsFiled s → IsFiled (run q is s)
  unfolding run
  run-IsFiled [] s f = f
  run-IsFiled (i ∷ is) s f = run-IsFiled is (step q i s) (step-Follows q i s f).filed

  -- From the state after construction and through any requests and callbacks: if each next valid id that the
  -- client library reports is not below the ids given out, and no order request brings an id of its own, then
  -- the ids of the orders that the client library is asked to place rise from -1 on and stay below the next
  -- one, so none is used twice; the gateway keeps an order under each of these ids, in the same order, and under no
  -- other; and each order that it keeps bears the id that it stands under.
  pub orders_numbered :
      (is : List (Input D))
      → AreForward is init
      → let s = run q is init in
        IsRising (negsuc 0) (ordered s.calls) s.next_order_id
        × (ids s.orders ≡ ordered s.calls)
        × IsFiled s
  unfolding init
  orders_numbered is h =
      let k = run-AreNumbered (negsuc 0) is init h (record { kept = refl; rising = omega arith }) in
      (k.rising, k.kept, run-IsFiled is init init-IsFiled)
