-- ===== src/History/Requests.antt =====
-- All that a download of lib/data/historical_data.cpp requests.
use calm_trading_system.Base.{[], ℕ, suc, string_eq, String, ◌≡◌, List, ◌++◌, take, some, ok}
use calm_trading_system.Objects.{HistBar}
use calm_trading_system.Gateway.{Api, ClientCall}
use calm_trading_system.History.{HistBarReq, IbHistBarReq, Texts}
use calm_trading_system.History.Getter.{HistBarGetter, chunk_id_of, chunks_of, init, push_first}
use calm_trading_system.History.Machine.{Happening, happen_all}
use calm_trading_system.History.Order.{for_symbol}
use calm_trading_system.History.Sending.{AreSent, Sends-happen_all}
use calm_trading_system.History.Opening.{init-IsFresh, first-AreInOrder}

-- From the constructor on and through any rounds of `run` and any events, however files are written: the
-- new calls of the client library ask for historical bars only, each for one request, with ids from the next one on, for
-- the contract that the request's symbol names. For each symbol the requests that were sent, in
-- order, and then those still queued are its chunks from the first one to the one that is due: none
-- is left out, repeated or sent before an earlier one.
pub requests_in_order :
    {D : Type 0} (x : Texts) (n format : ℕ) (sort : List (HistBar D) → List (HistBar D))
    (reqs : List HistBarReq) (s t u : HistBarGetter D) (hs : List (Happening D)) (api api' : Api D)
    → init x n reqs ≡ some s
    → push_first s.sym_chunks s ≡ ok t
    → happen_all sort format hs (t, api) ≡ ok (u, api')
    → (sent : List IbHistBarReq) × (calls : List (ClientCall D)) × (api'.calls ≡ api.calls ++ calls)
      × AreSent format api.req_id sent calls
      × ((symbol : String)
          → for_symbol symbol sent ++ for_symbol symbol u.q
            ≡ take (suc (chunk_id_of symbol u)) (chunks_of symbol s))
requests_in_order x n format sort reqs s t u hs api api' made pushed ran =
    let fresh = init-IsFresh x n reqs s made in
    let run =
      Sends-happen_all s.sym_chunks fresh.named sort format hs [] t u api api' ran
        (first-AreInOrder s t fresh pushed) in
    (run.requests, run.calls, run.grown, run.in_calls, run.in_order.order)
