-- ===== src/System/Wiring.antt =====
-- The registrations that the constructors of lib/core, lib/algo and lib/data make, in the order in which
-- `Trader` constructs its members.
use calm_trading_system.Base.{
  String, string_eq, false, ◌≡◌, refl, List, [], ◌∷◌, map, lookup, insert,
}
use calm_trading_system.Objects.Enums.{
  EventType, event_type_eq, event_engine_stop, tick_data, order_data,
}
use calm_trading_system.Events
use calm_trading_system.Events.{EventEngine, Callback, returned, callbacks, register_cb}
use calm_trading_system.System.{
  World, Listener, trading_engine_tick, portfolio_timer, portfolio_order, risk_order, algo_tick,
  algo_timer, algo_order, recorder_copy, listen,
}

module _ {D : Type 0} where
  abbrev pub callback_of : Listener → Callback D (World D)
  callback_of l e w = returned (listen l e w)

  abbrev pub named : String × Listener → String × Callback D (World D)
  named (n, l) = (n, callback_of l)

  -- A registration; the constructors do not look at its result.
  unfoldable pub add :
      EventType → String → Listener → EventEngine D (World D) → EventEngine D (World D)
  unfolding register_cb
  add t n l s = (register_cb t n (callback_of l) s).1

  unfoldable pub construct : EventEngine D (World D)
  unfolding add Events.init
  construct = add order_data "data_recorder_copy" recorder_copy (
      add tick_data "data_recorder_copy" recorder_copy (
        add order_data "algo_engine_order_data" algo_order (
          add EventType.timer "algo_engine_timer" algo_timer (
            add tick_data "algo_engine_tick" algo_tick (
              add tick_data "trading_engine_tick_update" trading_engine_tick (
                add order_data "risk_order_cb" risk_order (
                  add order_data "portfolio_order_data_cb" portfolio_order
                    (add EventType.timer "portfolio_timer_cb" portfolio_timer Events.init))))))))

-- Who listens to what.
abbrev pub listeners : EventType → List (String × Listener)
listeners tick_data =
    ("trading_engine_tick_update", trading_engine_tick)
    ∷ ("algo_engine_tick", algo_tick)
    ∷ ("data_recorder_copy", recorder_copy)
    ∷ []
listeners order_data =
    ("portfolio_order_data_cb", portfolio_order)
    ∷ ("risk_order_cb", risk_order)
    ∷ ("algo_engine_order_data", algo_order)
    ∷ ("data_recorder_copy", recorder_copy)
    ∷ []
listeners EventType.timer =
    ("portfolio_timer_cb", portfolio_timer) ∷ ("algo_engine_timer", algo_timer) ∷ []
listeners _ = []

-- No registration of the constructors is refused or replaces another: the engine then holds, for each type of
-- event, the callbacks of those who listen to it and no other, and neither runs nor has an event queued.
pub construct_lem :
    {D : Type 0}
    → let s : EventEngine D (World D) = construct in
      ((t : EventType) → callbacks t s.m_cbs ≡ map named (listeners t))
      × (s.running ≡ false)
      × (s.q ≡ [])
unfolding construct lookup insert
construct_lem = (by_type, refl, refl)
  where
    by_type :
        {D : Type 0} (t : EventType)
        → callbacks t (construct {D = D}).m_cbs ≡ map named (listeners t)
    by_type tick_data = refl
    by_type order_data = refl
    by_type EventType.timer = refl
    by_type event_engine_stop = refl
    by_type _ = refl
