-- ===== src/System/Fanout.antt =====
-- One event through the callbacks, in whatever order the engine's hash map (lib/core/event.cpp) has them.
use mathlib.Core.List.{Permᴰ}
use mathlib.Core.List.Permᴰ.{nil, cons, swap, trans}
use calm_trading_system.Base.{false, String, ◌≡◌, refl, ap, ◌∙◌, List, [], ◌∷◌, map, arith}
use calm_trading_system.Objects.{Event, engine_stop, engine_test, tick, order, timer, e_type}
use calm_trading_system.Events.{EventEngine, call_all, handle, callbacks}
use calm_trading_system.Events.Delivery.{is_stop}
use calm_trading_system.Market
use calm_trading_system.Portfolio
use calm_trading_system.Risk
use calm_trading_system.Algo
use calm_trading_system.Recorder
use calm_trading_system.System.{World, Listener, listen}
use calm_trading_system.System.Wiring.{named, listeners}

module _ {D : Type 0} where
  abbrev pub spread : List (String × Listener) → Event D → World D → World D
  spread [] e w = w
  spread ((n, l) ∷ ls) e w = spread ls e (listen l e w)

  -- Two listeners change different objects, or queue the same event twice.
  listen_comm :
      (a b : Listener) (e : Event D) (w : World D)
      → listen a e (listen b e w) ≡ listen b e (listen a e w)
  unfolding listen
  listen_comm a b (tick t) w = ground arith
  listen_comm a b (order o) w = ground arith
  listen_comm a b (timer t) w = ground arith
  listen_comm a b _ w = ground arith

  spread-Permᴰ :
      {ls ms : List (String × Listener)} (e : Event D) (w : World D)
      → Permᴰ ls ms
      → spread ls e w ≡ spread ms e w
  spread-Permᴰ e w nil = refl
  spread-Permᴰ e w (cons {a = (n, l)} {b = (m, k)} {l₂ = ms} p h) =
      spread-Permᴰ e (listen l e w) h ∙ ap (λ j. spread ms e (listen j e w)) (ap (λ x. x.1) p)
  spread-Permᴰ e w (trans h k) = spread-Permᴰ e w h ∙ spread-Permᴰ e w k
  spread-Permᴰ e w (swap {a = a} {b = b} {a' = a'} {b' = b'} {l = ls} p q) = ap (spread ls e) (
      listen_comm b.1 a.1 e w
      ∙ ap (λ j. listen j.1 e (listen b.1 e w)) p
      ∙ ap (λ j. listen b'.1 e (listen j.1 e w)) q)

  call_all-named :
      (ls : List (String × Listener)) (e : Event D) (w : World D)
      → call_all (map named ls) e w ≡ spread ls e w
  unfolding call_all
  call_all-named [] e w = refl
  call_all-named ((n, l) ∷ ls) e w = call_all-named ls e (listen l e w)

  -- What each object is to do with an event.
  unfoldable pub heard : Event D → World D → World D
  heard (tick t) w = record w {
    last_ticks = Market.update_ticks t w.last_ticks;
    algo_engine = Algo.event_engine_tick_cb t w.algo_engine;
    data_recorder = Recorder.copy_to_queue (tick t) w.data_recorder;
  }
  heard (order o) w = record w {
    portfolio = Portfolio.event_engine_cb (order o) w.portfolio;
    risk_manager = Risk.event_engine_order_cb o w.risk_manager;
    algo_engine = Algo.event_engine_order_cb o w.algo_engine;
    data_recorder = Recorder.copy_to_queue (order o) w.data_recorder;
  }
  heard (timer t) w = record w {
    portfolio = Portfolio.event_engine_cb (timer t) w.portfolio;
    algo_engine = Algo.event_engine_timer_cb t w.algo_engine;
  }
  heard _ w = w

  spread-heard : (e : Event D) (w : World D) → spread (listeners (e_type e)) e w ≡ heard e w
  unfolding heard listen e_type
  spread-heard (tick t) w = refl
  spread-heard (order o) w = refl
  spread-heard (timer t) w = refl
  spread-heard engine_stop w = refl
  spread-heard _ w = refl

  handle_other :
      (e : Event D) (s : EventEngine D (World D)) (w : World D)
      → is_stop e ≡ false
      → handle e s w ≡ (s, call_all (callbacks (e_type e) s.m_cbs) e w)
  unfolding handle
  handle_other engine_stop s w h = cc
  handle_other engine_test s w h = refl
  handle_other _ s w h = refl

  -- If the engine's table has, for the type of an event other than the stop event, the callbacks of those
  -- who listen to it, in any order, then handling the event leaves the engine as it was and makes each object do with
  -- the event what it is to do with it.
  pub handle-heard :
      (e : Event D) (s : EventEngine D (World D)) (w : World D) (ls : List (String × Listener))
      → is_stop e ≡ false
      → Permᴰ ls (listeners (e_type e))
      → callbacks (e_type e) s.m_cbs ≡ map named ls
      → handle e s w ≡ (s, heard e w)
  handle-heard e s w ls live p t =
      handle_other e s w live
      ∙ ap (λ m. (s, call_all m e w)) t
      ∙ ap (λ v. (s, v)) (call_all-named ls e w ∙ spread-Permᴰ e w p ∙ spread-heard e w)
