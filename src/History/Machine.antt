-- ===== src/History/Machine.antt =====
-- The two threads of `HistBarGetter` (lib/data/historical_data.cpp): the rounds of `run`, and the callbacks.
use calm_trading_system.Base.{ℕ, List, [], ◌∷◌, Result, ok, ◌>>=◌}
use calm_trading_system.Objects.{HistBar, Event}
use calm_trading_system.Gateway.{Api}
use calm_trading_system.History.Getter.{Save, HistBarGetter, run_round, process}

-- A round, or an event, with how the file is written if it comes to that.
pub data Happening (D : Type 0) : Type 0 where
  rounds : Happening D
  events : Save → Event D → Happening D

module _ {D : Type 0} (sort : List (HistBar D) → List (HistBar D)) (format : ℕ) where
  unfoldable pub happen : Happening D → HistBarGetter D × Api D → Result (HistBarGetter D × Api D)
  unfolding run_round process
  happen rounds (s, api) = run_round format s api
  happen (events end e) (s, api) = do t ← process sort end e s; ok (t, api)

  unfoldable pub happen_all :
      List (Happening D) → HistBarGetter D × Api D → Result (HistBarGetter D × Api D)
  unfolding happen
  happen_all [] v = ok v
  happen_all (h ∷ hs) v = do w ← happen h v; happen_all hs w
