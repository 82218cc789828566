-- ===== src/Gateway/Bounds.antt =====
-- The request ids that lib/gateway/gateway.cpp gives to the client library, as machine integers.
use calm_trading_system.Base.{
  string_eq, ℕ, ℤ, pos, negsuc, ◌+◌, ◌*◌, ◌^◌, ◌≤◌, ◌<◌, suc, ◌≡◌, refl, sym, ap, ◌∙◌, Bool,
  contains, Bool-cases, Result-cases, inl, inr, List, [], ◌∷◌, ◌++◌, append-nil, append_assoc,
  length, All, String, arith, if◌then◌else◌, subst,
}
use calm_trading_system.Double.{Double}
use calm_trading_system.Objects.{OrderReq}
use calm_trading_system.Gateway.{
  Contract, ClientCall, req_market_data_type, req_tick_by_tick, place_order, cancel_order,
  req_global_cancel, req_contract_details, req_historical_data, e_disconnect, Decimals, Api,
  HistCall, init,
}
use calm_trading_system.Gateway.Contracts.{generate_contract, generate_ib_order}
use calm_trading_system.Gateway.Ticks.{
  type_asked, put_tick, add_subscription, subscribe, tick_by_tick_bid_ask, tick_by_tick_all_last,
}
use calm_trading_system.Gateway.Orders.{
  override_exchange, take_order_id, record_order, update_order, error, next_valid_id, order_status,
  open_order, send_order,
}
use calm_trading_system.Gateway.History.{
  contract_details, historical_bar, historical_data, historical_data_end,
}
use calm_trading_system.Gateway.Session.{start, stop}
use calm_trading_system.Gateway.Subscriptions.{subscribe_refused, subscribe_failed, subscribe_done}
use calm_trading_system.Gateway.Machine.{
  Input, starts, stops, subscribes, bid_ask, all_last, errs, valid_id, status, opened, sends,
  cancels, cancels_all, asks_details, asks_bars, has_bar, bars_end, state_or, second_or, step, run,
}

-- The numbers from the first bound on, in a row without repetition, and below the second.
abbrev pub IsAscending : ℕ → List ℤ → ℕ → Type 0
IsAscending lo [] hi = lo ≤ hi
IsAscending lo (pos x ∷ xs) hi = (lo ≤ x) × IsAscending (suc x) xs hi
IsAscending lo (negsuc x ∷ xs) hi = 1 ≤ 0

IsAscending-append :
    (lo mid hi : ℕ) (xs ys : List ℤ)
    → IsAscending lo xs mid
    → IsAscending mid ys hi
    → IsAscending lo (xs ++ ys) hi
IsAscending-append lo mid hi [] ys h k = lower lo mid ys h k
  where
    lower : (a b : ℕ) (zs : List ℤ) → a ≤ b → IsAscending b zs hi → IsAscending a zs hi
    lower a b [] h k = omega arith
    lower a b (pos z ∷ zs) h k = (omega (arith, k.0), k.1)
    lower a b (negsuc z ∷ zs) h k = k
IsAscending-append lo mid hi (pos x ∷ xs) ys h k =
    (h.0, IsAscending-append (suc x) mid hi xs ys h.1 k)
IsAscending-append lo mid hi (negsuc x ∷ xs) ys h k = h

-- A number of `int` that is not negative.
abbrev pub IsInt : ℤ → Type 0
IsInt (pos n) = n < 2 ^ 31
IsInt (negsuc n) = 1 ≤ 0

IsAscending-IsInt : (lo hi : ℕ) (xs : List ℤ) → IsAscending lo xs hi → hi ≤ 2 ^ 31 → All IsInt xs
IsAscending-IsInt lo hi [] h k = tt
IsAscending-IsInt lo hi (pos x ∷ xs) h k =
    let rest : suc x ≤ hi = end_above (suc x) xs h.1 in
    (omega arith, IsAscending-IsInt (suc x) hi xs h.1 k)
  where
    end_above : (a : ℕ) (zs : List ℤ) → IsAscending a zs hi → a ≤ hi
    end_above a [] h = h
    end_above a (pos z ∷ zs) h = omega (arith, h.0, end_above (suc z) zs h.1)
    end_above a (negsuc z ∷ zs) h = omega arith
IsAscending-IsInt lo hi (negsuc x ∷ xs) h k = let no : 1 ≤ 0 = h in ground arith

module _ {D : Type 0} where
  -- The ids of the requests among the calls.
  abbrev pub asked : List (ClientCall D) → List ℤ
  asked [] = []
  asked (req_tick_by_tick id c word ∷ cs) = id ∷ asked cs
  asked (req_contract_details id c ∷ cs) = id ∷ asked cs
  asked (req_historical_data id c h ∷ cs) = id ∷ asked cs
  asked (e_disconnect ∷ cs) = asked cs
  asked (_ ∷ cs) = asked cs

  asked-append : (xs ys : List (ClientCall D)) → asked (xs ++ ys) ≡ asked xs ++ asked ys
  asked-append [] ys = refl
  asked-append (req_tick_by_tick id c word ∷ xs) ys = ap (λ l. id ∷ l) (asked-append xs ys)
  asked-append (req_contract_details id c ∷ xs) ys = ap (λ l. id ∷ l) (asked-append xs ys)
  asked-append (req_historical_data id c h ∷ xs) ys = ap (λ l. id ∷ l) (asked-append xs ys)
  asked-append (e_disconnect ∷ xs) ys = asked-append xs ys
  asked-append (_ ∷ xs) ys = asked-append xs ys

  -- What a step asks the client library, and how far it takes the counter.
  record Asks (s t : Api D) : Type 0 where
    news : List (ClientCall D)
    calls-eq : t.calls ≡ s.calls ++ news
    ascending : IsAscending s.req_id (asked news) t.req_id
    slow : t.req_id ≤ s.req_id + 2

  no_call-Asks : (s t : Api D) → t.calls ≡ s.calls → t.req_id ≡ s.req_id → Asks s t
  no_call-Asks s t c i = record {
    news = [];
    calls-eq = c ∙ sym (append-nil s.calls);
    ascending = omega arith;
    slow = omega arith;
  }

  other_call-Asks :
      (s t : Api D) (c : ClientCall D)
      → asked (c ∷ []) ≡ []
      → t.calls ≡ s.calls ++ (c ∷ [])
      → t.req_id ≡ s.req_id
      → Asks s t
  other_call-Asks s t c n e i = record {
    news = c ∷ [];
    calls-eq = e;
    ascending = subst (λ l. IsAscending s.req_id l t.req_id) (sym n) (omega arith);
    slow = omega arith;
  }

  request-Asks :
      (s t : Api D) (c : ClientCall D)
      → asked (c ∷ []) ≡ pos s.req_id ∷ []
      → t.calls ≡ s.calls ++ (c ∷ [])
      → t.req_id ≡ s.req_id + 1
      → Asks s t
  request-Asks s t c n e i = record {
    news = c ∷ [];
    calls-eq = e;
    ascending = subst (λ l. IsAscending s.req_id l t.req_id) (sym n) (omega arith, omega arith);
    slow = omega arith;
  }

  cancel-Asks : (id : ℤ) (s : Api D) → Asks s (record s { calls = s.calls ++ cancel_order id ∷ [] })
  cancel-Asks id s = other_call-Asks s _ (cancel_order id) refl refl refl

  contract_details-Asks : (sym : String) (s : Api D) → Asks s (state_or s (contract_details sym s))
  unfolding contract_details
  contract_details-Asks sym s = elim (Result-cases (generate_contract sym)) [
    | inr (e, bad) ↦ no_call-Asks s _ (ground arith) (ground arith)
    | inl (c, good) ↦
        request-Asks s _ (req_contract_details (pos s.req_id) c) refl (ground arith) (ground arith)
  ]

  historical_bar-Asks :
      (sym : String) (h : HistCall) (s : Api D) → Asks s (second_or s (historical_bar sym h s))
  unfolding historical_bar
  historical_bar-Asks sym h s = elim (Result-cases (generate_contract sym)) [
    | inr (e, bad) ↦ no_call-Asks s _ (ground arith) (ground arith)
    | inl (c, good) ↦
        request-Asks s _ (req_historical_data (pos s.req_id) c h) refl (ground arith) (ground arith)
  ]

  stop-Asks : (s : Api D) → Asks s (stop s)
  unfolding stop
  stop-Asks s = elim (Bool-cases s.running) [
    | inl on ↦ other_call-Asks s _ e_disconnect refl (ground arith) (ground arith)
    | inr off ↦ no_call-Asks s _ (ground arith) (ground arith)
  ]

module _ {D : Type 0} ⦃d : Double D⦄ where
  add_subscription-Asks :
      (symbol : String) (c : Contract) (kind : ℕ) (s : Api D)
      → Asks s (
          add_subscription symbol c
            (record s { calls = s.calls ++ req_market_data_type kind ∷ [] }))
  unfolding add_subscription
  add_subscription-Asks symbol c kind s = record {
    news =
        req_market_data_type kind
        ∷ req_tick_by_tick (pos s.req_id) c "Last"
        ∷ req_tick_by_tick (pos (s.req_id + 1)) c "BidAsk"
        ∷ [];
    calls-eq =
        append_assoc (s.calls ++ req_market_data_type kind ∷ []) _ _ ∙ append_assoc s.calls _ _;
    ascending = (omega arith, (omega arith, omega arith));
    slow = omega arith;
  }

  subscribe-Asks :
      (symbol : String) (delayed : Bool) (s : Api D)
      → Asks s (state_or (type_asked symbol delayed s) (subscribe symbol delayed s))
  subscribe-Asks symbol delayed s = elim (Bool-cases s.running) [
    | inr off ↦ rw (subscribe_refused symbol delayed s (inl off)) (no_call-Asks s s refl refl)
    | inl on ↦ elim (Bool-cases (contains symbol s.sym2req_ids)) [
      | inl old ↦ rw (subscribe_refused symbol delayed s (inr old)) (no_call-Asks s s refl refl)
      | inr new ↦ elim (Result-cases (generate_contract symbol)) [
        | inr (e, bad) ↦
            rw (subscribe_failed symbol delayed s e on new bad)
              (other_call-Asks s _ (req_market_data_type (if delayed then 4 else 1)) refl refl refl)
        | inl (c, good) ↦
            rw (subscribe_done symbol delayed s c on new good)
              (add_subscription-Asks symbol c (if delayed then 4 else 1) s)
      ]
    ]
  ]

  module _ (q : Decimals D) where
    send_order-Asks : (req : OrderReq D) (s : Api D) → Asks s (second_or s (send_order q req s))
    unfolding send_order record_order
    send_order-Asks req s = elim (Result-cases (generate_contract req.symbol)) [
      | inr (e, bad) ↦ no_call-Asks s _ (ground arith) (ground arith)
      | inl (c, good) ↦ elim (Result-cases (generate_ib_order q req)) [
        | inr (e, bad) ↦ no_call-Asks s _ (ground arith) (ground arith)
        | inl (o, well) ↦
            let id = (take_order_id req s).0 in
            other_call-Asks s _ (place_order id (override_exchange req.exchange c) o) refl
              (ground arith) (ground arith)
      ]
    ]

    step-Asks : (i : Input D) (s : Api D) → Asks s (step q i s)
    unfolding step start next_valid_id historical_data historical_data_end error open_order
        order_status update_order tick_by_tick_bid_ask tick_by_tick_all_last put_tick
    step-Asks (starts connected) s = no_call-Asks s _ (ground arith) (ground arith)
    step-Asks stops s = stop-Asks s
    step-Asks (subscribes sym delayed) s = subscribe-Asks sym delayed s
    step-Asks (bid_ask id time bid ask n m) s = no_call-Asks s _ (ground arith) (ground arith)
    step-Asks (all_last id time price n) s = no_call-Asks s _ (ground arith) (ground arith)
    step-Asks (errs m) s = no_call-Asks s _ (ground arith) (ground arith)
    step-Asks (valid_id id) s = no_call-Asks s _ refl refl
    step-Asks (status id word filled price) s = no_call-Asks s _ (ground arith) (ground arith)
    step-Asks (opened id c) s = no_call-Asks s _ (ground arith) (ground arith)
    step-Asks (sends req) s = send_order-Asks req s
    step-Asks (cancels id) s = cancel-Asks id s
    step-Asks cancels_all s = other_call-Asks s _ req_global_cancel refl refl refl
    step-Asks (asks_details sym) s = contract_details-Asks sym s
    step-Asks (asks_bars sym h) s = historical_bar-Asks sym h s
    step-Asks (has_bar id b) s = no_call-Asks s _ refl refl
    step-Asks (bars_end id st en) s = no_call-Asks s _ refl refl

    run-IsAscending :
        (is : List (Input D)) (lo : ℕ) (s : Api D)
        → IsAscending lo (asked s.calls) s.req_id
        → IsAscending lo (asked (run q is s).calls) (run q is s).req_id
          × ((run q is s).req_id ≤ s.req_id + 2 * length is)
    unfolding run
    run-IsAscending [] lo s h = (h, omega arith)
    run-IsAscending (i ∷ is) lo s h =
        let t = step q i s in
        let a = step-Asks i s in
        let ids : asked t.calls ≡ asked s.calls ++ asked a.news =
          ap asked a.calls-eq ∙ asked-append s.calls a.news in
        let next = run-IsAscending is lo t (
          subst (λ l. IsAscending lo l t.req_id) (sym ids)
            (IsAscending-append lo s.req_id t.req_id (asked s.calls) (asked a.news) h
              a.ascending)) in
        (next.0, omega (arith, next.1, a.slow))

    -- From the state after construction and through at most a thousand million inputs: the ids of the requests that
    -- the client library is asked for ascend from 10'000'000 on without repetition and stay below `m_req_id`,
    -- which goes up by at most two for each input and is an `int` that has not overflowed, as are the ids.
    pub run_ids :
        (is : List (Input D))
        → length is ≤ 1_000_000_000
        → let s = run q is init in
          IsAscending 10_000_000 (asked s.calls) s.req_id
          × (s.req_id ≤ 10_000_000 + 2 * length is)
          × (s.req_id < 2 ^ 31)
          × All IsInt (asked s.calls)
    unfolding init
    run_ids is h =
        let r = run-IsAscending is 10_000_000 init (omega arith) in
        (
          r.0,
          r.1,
          omega (arith, r.1),
          IsAscending-IsInt 10_000_000 (run q is init).req_id _ r.0 (omega (arith, r.1)),
        )
