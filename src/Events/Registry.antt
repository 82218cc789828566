-- ===== src/Events/Registry.antt =====
-- `register_cb` of the event engine.
use calm_trading_system.Base.{
  String, string_eq, true, false, ◌&&◌, ◌≡◌, ◌==◌, some, arith, lookup, lookup-insert, insert,
  if◌then◌else◌,
}
use calm_trading_system.Objects.Enums.{EventType, event_type_eq, event_type-beq_iff}
use calm_trading_system.Events.{Callback, EventEngine, callbacks, register_cb}

module _ {D W : Type 0} (t : EventType) (n : String) (cb : Callback D W) (s : EventEngine D W) where
  -- While the engine runs, a registration is refused and changes nothing. Otherwise it succeeds: the
  -- table then answers with the new callback at that event type and name, and as before at
  -- every other event type and name, and neither the queue nor the running flag changes.
  register_cb_table :
      (s.running ≡ true → register_cb t n cb s ≡ (false, s))
      × (s.running ≡ false
          → let (done, s') = register_cb t n cb s in
            (done ≡ true)
            × (s'.q ≡ s.q)
            × (s'.running ≡ false)
            × ((u : EventType) (m : String)
                → lookup m (callbacks u s'.m_cbs)
                  ≡ (if u == t && m == n then some cb else lookup m (callbacks u s.m_cbs))))
  unfolding register_cb
  register_cb_table = (
    λ h. ground arith,
    λ h. (
      ground arith,
      ground arith,
      ground arith,
      λ u m. ground (
        arith,
        h,
        lookup-insert t u (insert n cb (callbacks t s.m_cbs)) s.m_cbs,
        lookup-insert n m cb (callbacks t s.m_cbs),
        event_type-beq_iff u t,
      ),
    ),
  )
