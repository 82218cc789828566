-- ===== src/Gateway/Numbered.antt =====
-- The order ids through any requests and callbacks of lib/gateway/gateway.cpp.
use calm_trading_system.Base.{
  ℤ, pos, ℤ_eq, beq_ℤ_iff, ◌+ℤ◌, int_laws, parts, string_eq, String, ◌≡◌, refl, sym, ap, ◌∙◌, Bool,
  Bool-cases, Result-cases, inl, inr, List, [], ◌∷◌, ◌++◌, append-nil, append_assoc, ◌+◌, arith,
  insert, contains, if◌then◌else◌,
}
use calm_trading_system.Gateway.OrderIds.{
  IsRising-next, IsRising-unused, ids, ids-insert_new, ordered, ordered-append, AreNumbered,
  same-AreNumbered, update_order-ids,
}
use calm_trading_system.Double.{Double}
use calm_trading_system.Objects.{OrderReq, OrderData, unset_long}
use calm_trading_system.Gateway.{
  ClientCall, place_order, req_contract_details, req_historical_data, e_disconnect,
  req_market_data_type, req_tick_by_tick, Decimals, Api, HistCall, on_order,
}
use calm_trading_system.Gateway.Contracts.{generate_contract, generate_ib_order}
use calm_trading_system.Gateway.Ticks.{type_asked, add_subscription, subscribe}
use calm_trading_system.Gateway.Orders.{
  override_exchange, record_order, new_order, update_order, send_order,
}
use calm_trading_system.Gateway.History.{contract_details, historical_bar}
use calm_trading_system.Gateway.Session.{stop}
use calm_trading_system.Gateway.Subscriptions.{subscribe_refused, subscribe_failed, subscribe_done}
use calm_trading_system.Gateway.Machine.{state_or, second_or}

module _ {D : Type 0} (lo : ℤ) where
  -- A step that has nothing to do with order ids.
  pub unmoved-AreNumbered :
      (s t : Api D)
      → t.orders ≡ s.orders
      → ordered t.calls ≡ ordered s.calls
      → t.next_order_id ≡ s.next_order_id
      → AreNumbered lo s
      → AreNumbered lo t
  unmoved-AreNumbered s t o c n k =
      same-AreNumbered lo s t (ap ids o) c (omega (int_laws, parts n)) k

  update_order-rest :
      (id : ℤ) (change : OrderData D → OrderData D) (s : Api D)
      → ((update_order id change s).calls ≡ s.calls)
        × ((update_order id change s).next_order_id ≡ s.next_order_id)
  unfolding update_order on_order
  update_order-rest id change s = (ground arith, ground arith)

  pub update_order-AreNumbered :
      (id : ℤ) (change : OrderData D → OrderData D) (s t : Api D)
      → t.orders ≡ s.orders
      → t.calls ≡ s.calls
      → t.next_order_id ≡ s.next_order_id
      → AreNumbered lo s
      → AreNumbered lo (update_order id change t)
  update_order-AreNumbered id change s t o c n k =
      let rest = update_order-rest id change t in
      same-AreNumbered lo s (update_order id change t) (update_order-ids id change t ∙ ap ids o)
        (ap ordered (rest.0 ∙ c)) (omega (int_laws, parts (rest.1 ∙ n))) k

  placed-AreNumbered :
      (o : OrderData D) (s t : Api D) (cmd : ClientCall D)
      → ordered (cmd ∷ []) ≡ s.next_order_id ∷ []
      → t.orders ≡ insert s.next_order_id o s.orders
      → t.calls ≡ s.calls ++ cmd ∷ []
      → t.next_order_id ≡ s.next_order_id +ℤ pos 1
      → AreNumbered lo s
      → AreNumbered lo t
  placed-AreNumbered o s t cmd one orders calls next k =
      let free = IsRising-unused lo s.next_order_id s.orders (rw k.kept k.rising) in
      let more : ordered t.calls ≡ ordered s.calls ++ s.next_order_id ∷ [] =
        ap ordered calls ∙ ordered-append s.calls (cmd ∷ []) ∙ ap (λ l. ordered s.calls ++ l) one in
      record {
        kept =
            ap ids orders
            ∙ ids-insert_new s.next_order_id o s.orders free
            ∙ ap (λ l. l ++ s.next_order_id ∷ []) k.kept
            ∙ sym more;
        rising = rw (more, next) (IsRising-next lo s.next_order_id (ordered s.calls) k.rising);
      }

  -- Calls that place no order.
  called-AreNumbered :
      (s t : Api D) (cmds : List (ClientCall D))
      → ordered cmds ≡ []
      → t.orders ≡ s.orders
      → t.calls ≡ s.calls ++ cmds
      → t.next_order_id ≡ s.next_order_id
      → AreNumbered lo s
      → AreNumbered lo t
  called-AreNumbered s t cmds none_placed o c n k =
      unmoved-AreNumbered s t o
        (ap ordered c
          ∙ ordered-append s.calls cmds
          ∙ ap (λ l. ordered s.calls ++ l) none_placed
          ∙ append-nil (ordered s.calls))
        n k

  pub contract_details-AreNumbered :
      (symbol : String) (s : Api D)
      → AreNumbered lo s
      → AreNumbered lo (state_or s (contract_details symbol s))
  unfolding contract_details
  contract_details-AreNumbered symbol s k = elim (Result-cases (generate_contract symbol)) [
    | inr (e, bad) ↦ unmoved-AreNumbered s _ (ground arith) (ground arith) (ground arith) k
    | inl (c, good) ↦
        called-AreNumbered s _ (req_contract_details (pos s.req_id) c ∷ []) refl (ground arith)
          (ground arith) (ground arith) k
  ]

  pub historical_bar-AreNumbered :
      (symbol : String) (h : HistCall) (s : Api D)
      → AreNumbered lo s
      → AreNumbered lo (second_or s (historical_bar symbol h s))
  unfolding historical_bar
  historical_bar-AreNumbered symbol h s k = elim (Result-cases (generate_contract symbol)) [
    | inr (e, bad) ↦ unmoved-AreNumbered s _ (ground arith) (ground arith) (ground arith) k
    | inl (c, good) ↦
        called-AreNumbered s _ (req_historical_data (pos s.req_id) c h ∷ []) refl (ground arith)
          (ground arith) (ground arith) k
  ]

  pub stop-AreNumbered : (s : Api D) → AreNumbered lo s → AreNumbered lo (stop s)
  unfolding stop
  stop-AreNumbered s k = elim (Bool-cases s.running) [
    | inl on ↦
        called-AreNumbered s _ (e_disconnect ∷ []) refl (ground arith) (ground arith) (ground arith)
          k
    | inr off ↦ unmoved-AreNumbered s _ (ground arith) (ground arith) (ground arith) k
  ]

module _ {D : Type 0} ⦃d : Double D⦄ (lo : ℤ) where
  pub subscribe-AreNumbered :
      (symbol : String) (delayed : Bool) (s : Api D)
      → AreNumbered lo s
      → AreNumbered lo (state_or (type_asked symbol delayed s) (subscribe symbol delayed s))
  unfolding add_subscription
  subscribe-AreNumbered symbol delayed s k = elim (Bool-cases s.running) [
    | inr off ↦ rw (subscribe_refused symbol delayed s (inl off)) k
    | inl on ↦ elim (Bool-cases (contains symbol s.sym2req_ids)) [
      | inl old ↦ rw (subscribe_refused symbol delayed s (inr old)) k
      | inr new ↦ elim (Result-cases (generate_contract symbol)) [
        | inr (e, bad) ↦ rw (subscribe_failed symbol delayed s e on new bad) (
            called-AreNumbered lo s _ (req_market_data_type (if delayed then 4 else 1) ∷ []) refl
              refl refl refl k)
        | inl (c, good) ↦ rw (subscribe_done symbol delayed s c on new good) (
            called-AreNumbered lo s _
              (req_market_data_type (if delayed then 4 else 1)
                ∷ req_tick_by_tick (pos s.req_id) c "Last"
                ∷ req_tick_by_tick (pos (s.req_id + 1)) c "BidAsk"
                ∷ [])
              refl refl
              (append_assoc (s.calls ++ req_market_data_type (if delayed then 4 else 1) ∷ []) _ _
                ∙ append_assoc s.calls _ _)
              refl k)
      ]
    ]
  ]

  module _ (q : Decimals D) where
    pub send_order-AreNumbered :
        (req : OrderReq D) (s : Api D)
        → req.order_id ≡ unset_long
        → AreNumbered lo s
        → AreNumbered lo (second_or s (send_order q req s))
    unfolding send_order record_order contains
    send_order-AreNumbered req s fresh k = elim (Result-cases (generate_contract req.symbol)) [
      | inr (e, bad) ↦ unmoved-AreNumbered lo s _ (ground arith) (ground arith) (ground arith) k
      | inl (c, good) ↦ elim (Result-cases (generate_ib_order q req)) [
        | inr (e, bad) ↦ unmoved-AreNumbered lo s _ (ground arith) (ground arith) (ground arith) k
        | inl (o, well) ↦
            let free = IsRising-unused lo s.next_order_id s.orders (rw k.kept k.rising) in
            placed-AreNumbered lo (new_order s.next_order_id req) s _
              (place_order s.next_order_id (override_exchange req.exchange c) o) refl
              (ground (arith, beq_ℤ_iff req.order_id unset_long))
              (ground (arith, beq_ℤ_iff req.order_id unset_long))
              (ground (arith, beq_ℤ_iff req.order_id unset_long)) k
      ]
    ]
