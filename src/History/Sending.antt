-- ===== src/History/Sending.antt =====
-- What the rounds of `run` of `HistBarGetter` (lib/data/historical_data.cpp) send, call by call.
use calm_trading_system.Base.{
  ◌⊎◌, ℕ, suc, ◌≤◌, pos, ℤ_eq, String, string_eq, nat_eq, ◌==◌, false, ◌≡◌, refl, sym, ap, ◌∙◌,
  subst, Bool-cases, Result-cases, inl, inr, List, [], ◌∷◌, ◌++◌, append_assoc, append-nil, Map, ok,
  arith,
}
use calm_trading_system.Objects.{HistBar}
use calm_trading_system.Queue.{wait_pop}
use calm_trading_system.Gateway.{Api, Contract, ClientCall, HistCall, req_historical_data}
use calm_trading_system.Gateway.Contracts.{generate_contract}
use calm_trading_system.Gateway.History.{historical_bar}
use calm_trading_system.History.{IbHistBarReq}
use calm_trading_system.History.Getter.{HistBarGetter, run_round, process}
use calm_trading_system.History.Machine.{Happening, rounds, events, happen, happen_all}
use calm_trading_system.History.Order.{AreNamed, AreInOrder, popped-AreInOrder}
use calm_trading_system.History.Replies.{process-AreInOrder}

-- The request as `req_historical_bar` passes it on.
abbrev pub call_of : ℕ → IbHistBarReq → HistCall
call_of format r = record {
  end_time = r.end;
  duration = r.dur;
  bar_size = r.bar_size;
  wts = r.wts;
  use_rth = 1;
  format = format;
}

-- The calls send the requests, one each and in order, for the contracts that their symbols name and
-- with ids from the first one on.
abbrev pub AreSent : {D : Type 0} → ℕ → ℕ → List IbHistBarReq → List (ClientCall D) → Type 0
AreSent format id [] [] = Unit
AreSent format id (r ∷ rs) (c ∷ cs) =
    ((contract : Contract) × (generate_contract r.symbol ≡ ok contract)
      × (c ≡ req_historical_data (pos id) contract (call_of format r)))
    × AreSent format (suc id) rs cs
AreSent format id _ _ = 1 ≤ 0

module _ {D : Type 0} (m : Map String (List IbHistBarReq)) (named : AreNamed m)
    (sort : List (HistBar D) → List (HistBar D)) (format : ℕ) where
  -- From one state to another, more requests were sent, in order.
  pub record Sends (sent : List IbHistBarReq) (api api' : Api D) (t : HistBarGetter D)
      : Type 0 where
    pub requests : List IbHistBarReq
    pub calls : List (ClientCall D)
    pub grown : api'.calls ≡ api.calls ++ calls
    pub in_calls : AreSent format api.req_id requests calls
    pub in_order : AreInOrder m (sent ++ requests) t

  none-Sends :
      (sent : List IbHistBarReq) (api : Api D) (t : HistBarGetter D)
      → AreInOrder m sent t
      → Sends sent api api t
  none-Sends sent api t k = record {
    requests = [];
    calls = [];
    grown = sym (append-nil api.calls);
    in_calls = tt;
    in_order = subst (λ l. AreInOrder m l t) (sym (append-nil sent)) k;
  }

  -- One call, and then the others.
  more-Sends :
      (sent : List IbHistBarReq) (r : IbHistBarReq) (contract : Contract) (api next api' : Api D)
      (t : HistBarGetter D)
      → generate_contract r.symbol ≡ ok contract
      → next.calls
        ≡ api.calls ++ req_historical_data (pos api.req_id) contract (call_of format r) ∷ []
      → next.req_id ≡ suc api.req_id
      → Sends (sent ++ r ∷ []) next api' t
      → Sends sent api api' t
  more-Sends sent r contract api next api' t known grown id k = record {
    requests = r ∷ k.requests;
    calls = req_historical_data (pos api.req_id) contract (call_of format r) ∷ k.calls;
    grown = k.grown ∙ ap (λ l. l ++ k.calls) grown ∙ append_assoc api.calls _ k.calls;
    in_calls =
        ((contract, known, refl), subst (λ n. AreSent format n k.requests k.calls) id k.in_calls);
    in_order = subst (λ l. AreInOrder m l t) (append_assoc sent (r ∷ []) k.requests) k.in_order;
  }

  -- A round that sends nothing, or one request of the queue.
  abbrev Waits : HistBarGetter D → HistBarGetter D → Api D → Api D → Type 0
  Waits s t api api' = (s ≡ t) × (api ≡ api')

  record SendsOne (s t : HistBarGetter D) (api api' : Api D) : Type 0 where
    request : IbHistBarReq
    rest : List IbHistBarReq
    contract : Contract
    front : s.q ≡ request ∷ rest
    names : generate_contract request.symbol ≡ ok contract
    grown :
        api'.calls
        ≡ api.calls ++ req_historical_data (pos api.req_id) contract (call_of format request) ∷ []
    next_id : api'.req_id ≡ suc api.req_id
    left : t.q ≡ rest
    same_chunks : t.sym_chunks ≡ s.sym_chunks
    same_ids : t.sym_chunk_id ≡ s.sym_chunk_id

  -- What `req_historical_bar` asks for.
  historical_bar_asks :
      (r : IbHistBarReq) (id : ℕ) (api next : Api D)
      → historical_bar r.symbol (call_of format r) api ≡ ok (id, next)
      → (contract : Contract) × (generate_contract r.symbol ≡ ok contract)
        × (next.calls
            ≡ api.calls ++ req_historical_data (pos api.req_id) contract (call_of format r) ∷ [])
        × (next.req_id ≡ suc api.req_id)
  unfolding historical_bar
  historical_bar_asks r id api next h = elim (Result-cases (generate_contract r.symbol)) [
    | inr (x, bad) ↦ ground arith
    | inl (contract, known) ↦ (contract, known, ground arith, ground arith)
  ]

  round-SendsOne :
      (s t : HistBarGetter D) (api api' : Api D)
      → run_round format s api ≡ ok (t, api')
      → Waits s t api api' ⊎ SendsOne s t api api'
  unfolding run_round wait_pop
  round-SendsOne s t api api' h = elim (Bool-cases (s.remaining == 0)) [
    | inl over ↦ inl (ground arith, ground arith)
    | inr on ↦ by_queue s.q on refl
  ]
    where
      by_queue :
          (q : List IbHistBarReq)
          → (s.remaining == 0) ≡ false
          → s.q ≡ q
          → Waits s t api api' ⊎ SendsOne s t api api'
      by_queue [] on e = inl (ground arith, ground arith)
      by_queue (r ∷ rest) on e =
          elim (Result-cases (historical_bar r.symbol (call_of format r) api)) [
            | inr (x, bad) ↦ ground arith
            | inl ((id, next), done) ↦
                let same : next ≡ api' = ground arith in
                let (contract, known, grown, next_id) =
                  historical_bar_asks r id api api' (done ∙ ap (λ a. ok (id, a)) same) in
                inr (record {
                  request = r;
                  rest = rest;
                  contract = contract;
                  front = e;
                  names = known;
                  grown = grown;
                  next_id = next_id;
                  left = ground arith;
                  same_chunks = ground arith;
                  same_ids = ground arith;
                })
          ]

  pub Sends-happen_all :
      (hs : List (Happening D)) (sent : List IbHistBarReq) (s t : HistBarGetter D)
      (api api' : Api D)
      → happen_all sort format hs (s, api) ≡ ok (t, api')
      → AreInOrder m sent s
      → Sends sent api api' t
  unfolding happen_all happen
  Sends-happen_all [] sent s t api api' h k =
      let state : s ≡ t = ground arith in
      let same : api ≡ api' = ground arith in
      subst (λ a. Sends sent api a t) same
        (none-Sends sent api t (subst (AreInOrder m sent) state k))
  Sends-happen_all (events end e ∷ hs) sent s t api api' h k =
      elim (Result-cases (process sort end e s)) [
        | inl (u, done) ↦
            Sends-happen_all hs sent u t api api' (ground arith)
              (process-AreInOrder m named sort end e sent s u done k)
        | inr (x, bad) ↦ ground arith
      ]
  Sends-happen_all (rounds ∷ hs) sent s t api api' h k =
      elim (Result-cases (run_round format s api)) [
        | inr (x, bad) ↦ ground arith
        | inl ((u, next), done) ↦
            let later : happen_all sort format hs (u, next) ≡ ok (t, api') = ground arith in
            elim (round-SendsOne s u api next done) [
              | inl (state, same) ↦
                  subst (λ a. Sends sent a api' t) (sym same)
                    (Sends-happen_all hs sent u t next api' later
                      (subst (AreInOrder m sent) state k))
              | inr one ↦
                  more-Sends sent one.request one.contract api next api' t one.names one.grown
                    one.next_id
                    (Sends-happen_all hs (sent ++ one.request ∷ []) u t next api' later (
                      popped-AreInOrder m sent one.request one.rest s u one.front one.left
                        one.same_chunks one.same_ids k))
            ]
      ]
