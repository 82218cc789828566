-- ===== src/Events.antt =====
-- lib/core/event.h and lib/core/event.cpp: the event engine. `W` is what the callbacks work on;
-- a callback returns or throws, and leaves `W` changed either way.
pub mod Delivery
pub mod Registry
pub mod Shutdown
use calm_trading_system.Base.{
  String, string_eq, Bool, true, false, List, [], ◌∷◌, Option, none, some, Map, lookup, insert,
  if◌then◌else◌,
}
use calm_trading_system.Objects.{Event, engine_stop, e_type}
use calm_trading_system.Objects.Enums.{EventType, event_type_eq}
use calm_trading_system.Queue.{wait_push, try_pop}

pub data Outcome (W : Type 0) : Type 0 where
  returned threw : W → Outcome W

abbrev pub world : {W : Type 0} → Outcome W → W
world (returned w) = w
world (threw w) = w

abbrev pub Callback : Type 0 → Type 0 → Type 0
Callback D W = Event D → W → Outcome W

pub record EventEngine (D W : Type 0) : Type 0 where
  pub running : Bool
  pub q : List (Event D)
  pub m_cbs : Map EventType (Map String (Callback D W))

module _ {D W : Type 0} where
  unfoldable pub init : EventEngine D W
  init = record { running = false; q = []; m_cbs = [] }

  -- `start` up to the start of the thread.
  unfoldable pub start : EventEngine D W → EventEngine D W
  start s = record s { running = true }

  -- `m_cbs[e_type]`, which is empty where there is no entry.
  abbrev pub callbacks :
      EventType → Map EventType (Map String (Callback D W)) → Map String (Callback D W)
  callbacks t m_cbs = elim (lookup t m_cbs) [ none ↦ [] | some cbs ↦ cbs ]

  unfoldable pub register_cb :
      EventType → String → Callback D W → EventEngine D W → Bool × EventEngine D W
  register_cb t cb_name cb s =
      if s.running
      then (false, s)
      else (true, record s { m_cbs = insert t (insert cb_name cb (callbacks t s.m_cbs)) s.m_cbs })

  unfoldable pub send : Event D → EventEngine D W → EventEngine D W
  unfolding wait_push
  send e s = record s { q = wait_push e s.q }

  -- The loop over the callbacks of an event: both handlers log, and go on with the next.
  unfoldable pub call_all : Map String (Callback D W) → Event D → W → W
  call_all [] e w = w
  call_all ((cb_name, cb) ∷ cbs) e w = elim (cb e w) [
    | returned w' ↦ call_all cbs e w'
    | threw w' ↦ call_all cbs e w'
  ]

  unfoldable pub handle : Event D → EventEngine D W → W → EventEngine D W × W
  unfolding call_all
  handle engine_stop s w = (record s { running = false }, w)
  handle e s w = (s, call_all (callbacks (e_type e) s.m_cbs) e w)

  -- One round of the loop of `run`; `e` is the thread's variable.
  unfoldable pub run_round : Event D → EventEngine D W → W → Event D × EventEngine D W × W
  unfolding try_pop handle
  run_round e s w =
      if s.running
      then (let (got, e', rest) = try_pop e s.q in
          let s' : EventEngine D W = record s { q = rest } in
          let (s'', w') = handle e' s' w in if got then (e', s'', w') else (e', s', w))
      else (e, s, w)
