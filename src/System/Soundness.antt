-- ===== src/System/Soundness.antt =====
-- What the algo engine (lib/algo/algo_engine.cpp) can rely on while the threads of `Trader` (lib/core/trader.h) run.
use calm_trading_system.Base.{
  pos, ltb_ℤ, ℤ_eq, string_eq, ◌≡◌, refl, ap, ◌∙◌, true, nat_eq, Bool-cases, List-cases, inl, inr,
  List, ◌∷◌, arith, lookup, insert,
}
use calm_trading_system.Objects.{Event, engine_stop, engine_test, tick, order, timer}
use calm_trading_system.Events.{handle}
use calm_trading_system.Events.Delivery.{is_stop, run_round_empty, run_round_next}
use calm_trading_system.Market.{LastTicks}
use calm_trading_system.System.{World}
use calm_trading_system.System.Fanout.{heard}
use calm_trading_system.System.Machine.{System, engine_round}
use calm_trading_system.Base.{contains, contains-insert, ◌⊎◌}
use calm_trading_system.Algo
use calm_trading_system.Algo.{AlgoConfig, AlgoEngine}
use calm_trading_system.Algo.Known.{IsKnown}
use calm_trading_system.Market
use calm_trading_system.System.Agreement.{Agrees}
use calm_trading_system.System.Rounds.{handled, round_off}

module _ {D : Type 0} where
  -- The orders that the algo engine has, its configuration and the market data that it has subscribed to.
  pub record IsReliable (cfg : AlgoConfig) (w : World D) : Type 0 where
    pub known : IsKnown w.algo_engine
    pub cfg-eq : w.algo_engine.cfg ≡ cfg
    pub subscribed : contains cfg.mkt_data_symbol w.last_ticks ≡ true

  pub unmoved-IsReliable :
      (cfg : AlgoConfig) (v w : World D)
      → IsReliable cfg v
      → w.algo_engine.inflight_order_id ≡ v.algo_engine.inflight_order_id
      → w.algo_engine.order_reqs ≡ v.algo_engine.order_reqs
      → w.algo_engine.cfg ≡ v.algo_engine.cfg
      → w.last_ticks ≡ v.last_ticks
      → IsReliable cfg w
  unmoved-IsReliable cfg v w k i r c l = record {
    known = same k.known;
    cfg-eq = c ∙ k.cfg-eq;
    subscribed = ap (contains cfg.mkt_data_symbol) l ∙ k.subscribed;
  }
    where
      same : IsKnown v.algo_engine → IsKnown w.algo_engine
      same (inl none_now) = inl (ap (λ n. ltb_ℤ n (pos 0)) i ∙ none_now)
      same (inr (req, here)) = inr (
        req,
        ap (λ n. lookup n w.algo_engine.order_reqs) i
            ∙ ap (lookup v.algo_engine.inflight_order_id) r
            ∙ here,
      )

  pub heard-IsReliable :
      (cfg : AlgoConfig) (e : Event D) (w : World D) → IsReliable cfg w → IsReliable cfg (heard e w)
  unfolding heard Market.update_ticks Algo.event_engine_tick_cb Algo.event_engine_timer_cb
      Algo.event_engine_order_cb
  heard-IsReliable cfg (tick t) w k =
      let v : World D = record w { last_ticks = Market.update_ticks t w.last_ticks } in
      let there : contains cfg.mkt_data_symbol (insert t.symbol t w.last_ticks) ≡ true =
        ground (arith, contains-insert t.symbol cfg.mkt_data_symbol t w.last_ticks, k.subscribed) in
      unmoved-IsReliable cfg v (heard (tick t) w)
        (record { known = k.known; cfg-eq = k.cfg-eq; subscribed = there }) (ground arith)
        (ground arith) (ground arith) refl
  heard-IsReliable cfg (order o) w k =
      unmoved-IsReliable cfg w (heard (order o) w) k (ground arith) (ground arith) (ground arith)
        refl
  heard-IsReliable cfg (timer t) w k =
      unmoved-IsReliable cfg w (heard (timer t) w) k (ground arith) (ground arith) (ground arith)
        refl
  heard-IsReliable cfg engine_stop w k = k
  heard-IsReliable cfg _ w k = k

  -- The event engine hands one event on, or none.
  pub engine_round-world :
      (x : System D)
      → Agrees x
      → ((engine_round x).world ≡ x.world)
        ⊎ ((e : Event D) × ((engine_round x).world ≡ heard e x.world))
  unfolding engine_round
  engine_round-world x a = elim (Bool-cases x.engine.running) [
    | inr off ↦ inl (ap (λ v. v.2) (round_off x.engine_event x.engine x.world off))
    | inl on ↦ elim (List-cases x.engine.q) [
      | inl none_queued ↦
          inl (ap (λ v. v.2) (run_round_empty x.engine_event x.engine x.world none_queued))
      | inr (e, rest, k) ↦ by_event e rest on k
    ]
  ]
    where
      by_event :
          (e : Event D) (rest : List (Event D))
          → x.engine.running ≡ true
          → x.engine.q ≡ e ∷ rest
          → ((engine_round x).world ≡ x.world)
            ⊎ ((f : Event D) × ((engine_round x).world ≡ heard f x.world))
      by_event e rest on k = elim (Bool-cases (is_stop e)) [
        | inr live ↦ inr (
          e,
          ap (λ v. v.2) (run_round_next x.engine_event e x.engine rest x.world on k)
              ∙ ap (λ v. v.1) (handled e (record x.engine { q = rest }) x.world a.wired live),
        )
        | inl stop ↦ inl (
            ap (λ v. v.2) (run_round_next x.engine_event e x.engine rest x.world on k)
            ∙ stopped e stop)
      ]
        where
          stopped :
              (f : Event D)
              → is_stop f ≡ true
              → (handle f (record x.engine { q = rest }) x.world).1 ≡ x.world
          stopped engine_stop h = unfold handle in refl
          stopped engine_test h = cc
          stopped _ h = cc
