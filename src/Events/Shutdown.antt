-- ===== src/Events/Shutdown.antt =====
-- `stop` of lib/core/event.cpp beside the engine's thread in `run`, a lock or a test at a time. `stop` holds
-- the mutex `m` while it joins the thread, and the thread takes `m` at a stop event.
use calm_trading_system.Base.{ℕ, suc, Bool, true, false, ◌≡◌, refl, ◌⊎◌, inl, inr}

-- The thread that calls `stop`: before the call, in `join` with `m` held, and after it.
pub data Stopper : Type 0 where
  before joining after : Stopper

-- The engine's thread: at the test of its loop, before the lock at a stop event, and at its end.
pub data Runner : Type 0 where
  polling at_lock ended : Runner

-- `stops` counts the stop events that are queued. Between its steps only `stop` holds `m`, which it
-- does while it joins.
pub record Threads : Type 0 where
  pub running : Bool
  pub stops : ℕ
  pub stopper : Stopper
  pub runner : Runner

pub data Step (s : Threads) : Threads → Type 0 where
  call_stop : s.stopper ≡ before → Step s (record s { running = false; stopper = joining })
  joined : s.stopper ≡ joining → s.runner ≡ ended → Step s (record s { stopper = after })
  pop_stop :
      (n : ℕ)
      → s.runner ≡ polling
      → s.running ≡ true
      → s.stops ≡ suc n
      → Step s (record s { stops = n; runner = at_lock })
  lock :
      (s.stopper ≡ before) ⊎ (s.stopper ≡ after)
      → s.runner ≡ at_lock
      → Step s (record s { running = false; runner = polling })
  leave : s.runner ≡ polling → s.running ≡ false → Step s (record s { runner = ended })

pub data Reach (s : Threads) : Threads → Type 0 where
  here : Reach s s
  next : {t u : Threads} → Reach s t → Step t u → Reach s u

stuck : {s t : Threads} → s.stopper ≡ joining → s.runner ≡ at_lock → Step s t → ⊥
stuck j l (call_stop e) = cc
stuck j l (joined e f) = cc
stuck j l (pop_stop n e f g) = cc
stuck j l (lock (inl e) f) = cc
stuck j l (lock (inr e) f) = cc
stuck j l (leave e f) = cc

-- Whenever the engine runs with a stop event in its queue and `stop` has not been called, a schedule leads
-- to a state from which no thread can go on: `stop` joins the engine's thread, which waits for the mutex
-- that `stop` holds.
pub stop_deadlock :
    (n : ℕ)
    → let s : Threads = record {
      running = true;
      stops = suc n;
      stopper = before;
      runner = polling;
    } in
      (t : Threads) × Reach s t
      × (t.stopper ≡ joining)
      × (t.runner ≡ at_lock)
      × ((u : Threads) → ¬ Step t u)
stop_deadlock n = (
  _,
  next (next here (pop_stop n refl refl refl)) (call_stop refl),
  refl,
  refl,
  λ u st. stuck refl refl st,
)
