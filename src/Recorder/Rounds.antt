-- ===== src/Recorder/Rounds.antt =====
-- What the rounds of `run_action` save.
use calm_trading_system.Base.{
  ℕ, zero, suc, true, ◌≡◌, List, [], ◌∷◌, ◌++◌, Result, ok, ◌>>=◌, arith, append-nil, append_assoc,
}
use calm_trading_system.Objects.{TickData, Event, tick}
use calm_trading_system.Recorder.{DataRecorder, tick_doc, action_round}

abbrev pub replicate {ℓ} : {A : Type ℓ} → ℕ → A → List A
replicate zero a = []
replicate (suc n) a = a ∷ replicate n a

module _ {D : Type 0} where
  -- `n` rounds in which the queue stays empty and the database takes what it is given.
  unfoldable pub idle_rounds : ℕ → Event D → DataRecorder D → Result (Event D × DataRecorder D)
  idle_rounds zero event r = ok (event, r)
  idle_rounds (suc n) event r = do (event', r') ← action_round true event r; idle_rounds n event' r'

  -- The fault: after a tick was recorded, every second that passes with no event records it once more.
  -- With an empty queue, `n` rounds append `n` more copies of the document of the last tick.
  idle_rounds_duplicate :
      (n : ℕ) (t : TickData D) (r : DataRecorder D)
      → r.q ≡ []
      → idle_rounds n (tick t) r
        ≡ ok (tick t, record r { ticks = r.ticks ++ replicate n (tick_doc t) })
  unfolding idle_rounds action_round
  idle_rounds_duplicate zero t r h = ground (arith, append-nil r.ticks)
  idle_rounds_duplicate (suc n) t r h = ground (
    arith,
    idle_rounds_duplicate n t (record r { ticks = r.ticks ++ tick_doc t ∷ [] }) h,
    append_assoc r.ticks (tick_doc t ∷ []) (replicate n (tick_doc t)),
  )
