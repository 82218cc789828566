-- ===== src/Tests/Plumbing.antt =====
-- The theorems on queues, events, texts and the recorder, at concrete values.
use calm_trading_system.Base.{
  some, none, ◌||◌, ◌&&◌, ℕ, ℤ, pos, ◌≡◌, refl, ◌+◌, false, true, List, [], ◌∷◌, ◌++◌,
}
use calm_trading_system.Objects.{engine_test, engine_stop}
use calm_trading_system.Objects.Enums.{event_engine_test}
use calm_trading_system.Queue.{Use, pushes, pops, tries, use_all, fifo}
use calm_trading_system.Events.{EventEngine, returned, Callback}
use calm_trading_system.Events.Delivery.{sends, rounds, run_turns, Served, run_turns-Served}
use calm_trading_system.Events.Shutdown.{Threads, Reach, stop_deadlock, before, polling}
use calm_trading_system.Redis.{is_sentinel, message, subscribe, subscribe_until_sentinel, stopped}
use calm_trading_system.Redis.Client
use calm_trading_system.Redis.Client.{
  Call, connects, disconnects, destroys, publishes, subscribes, call_all,
}
use calm_trading_system.Redis.Tidy.{distinct, held, has, freed_once}
use calm_trading_system.Recorder.{tick_doc}
use calm_trading_system.Recorder.{Document, order_doc, double}
use calm_trading_system.Recorder.Documents.{documents_read_back, read_order, read_tick}
use calm_trading_system.Objects.Enums.{submitted}
use calm_trading_system.Tests.{report}
use calm_trading_system.Base.{ok, err, out_of_range, ℤ, pos, ◌++◌}
use calm_trading_system.Tests.{last_tick}

abbrev uses : List (Use ℕ)
uses = pushes 4 ∷ tries 0 ∷ pushes 5 ∷ pops ∷ []

fifo_example : (use_all uses (3 ∷ [])).0 ++ (use_all uses (3 ∷ [])).1 ≡ 3 ∷ 4 ∷ 5 ∷ []
fifo_example = fifo uses (3 ∷ [])

abbrev count : Callback ℤ ℕ
count e w = returned (w + 1)

abbrev engine : EventEngine ℤ ℕ
engine = record {
  running = true;
  q = engine_test ∷ [];
  m_cbs = (event_engine_test, ("count", count) ∷ []) ∷ [];
}

run_turns-Served_example :
    Served
      (rounds ∷ sends engine_stop ∷ rounds ∷ [])
      engine
      0
      (run_turns (rounds ∷ sends engine_stop ∷ rounds ∷ []) engine_test engine 0)
run_turns-Served_example =
    run_turns-Served (rounds ∷ sends engine_stop ∷ rounds ∷ []) engine_test engine 0 refl

abbrev stopping : Threads
stopping = record { running = true; stops = 1; stopper = before; runner = polling }

stop_deadlock_example : (t : Threads) × Reach stopping t
stop_deadlock_example = let r = stop_deadlock 0 in (r.0, r.1)

subscribe_until_sentinel_example :
    subscribe (1 ∷ []) (message (7 ∷ []) ∷ message (1 ∷ 0 ∷ []) ∷ []) ≡ ((7 ∷ []) ∷ [], stopped)
unfolding is_sentinel
subscribe_until_sentinel_example = subscribe_until_sentinel (1 ∷ []) ((7 ∷ []) ∷ []) 0 [] (refl, tt)

documents_read_back_example :
    ((doc : Document ℤ) × (order_doc (report (pos 6) (pos 4) submitted) ≡ ok doc)
      × (read_order doc ≡ ok (report (pos 6) (pos 4) submitted)))
    × (read_tick (tick_doc last_tick) ≡ err out_of_range)
    × (read_tick (tick_doc last_tick ++ ("ask_size", double (pos 99)) ∷ [])
        ≡ ok (record last_tick { ask_price = last_tick.ask_size; ask_size = pos 99 }))
documents_read_back_example =
    let r = documents_read_back {D = ℤ} in
    (r.0 (report (pos 6) (pos 4) submitted), r.1 last_tick, r.2 last_tick (pos 99))

-- A client publishes, listens to one message, loses the connection and is destroyed.
abbrev calls : List Call
calls =
    connects (some 1)
    ∷ publishes (some 2)
    ∷ subscribes (some 3) (some (4, 72 ∷ []) ∷ none ∷ [])
    ∷ disconnects
    ∷ destroys
    ∷ []

freed_once_example :
    let c = call_all (115 ∷ []) calls Client.init in
    (distinct c.freed ≡ true)
    × ((h : ℕ) → (held c.context h || held c.reply h) && has h c.freed ≡ false)
freed_once_example = freed_once (115 ∷ []) calls refl
