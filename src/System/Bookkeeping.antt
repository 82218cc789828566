-- ===== src/System/Bookkeeping.antt =====
-- The books of the portfolio through every action of a thread of `Trader` (lib/core/trader.h).
use calm_trading_system.Base.{
  ℕ, ℤ_eq, string_eq, nat_eq, ◌≡◌, refl, sym, subst, Bool, Bool-cases, Result-cases, List-cases,
  inl, inr, true, false, List, [], ◌∷◌, All, All-append, Option, none, some, ok, arith,
}
use calm_trading_system.Double.{Double, IsExact}
use calm_trading_system.Objects.{Event, engine_stop, engine_test, tick, order, timer, Timer}
use calm_trading_system.Queue.{try_pop}
use calm_trading_system.Events.{send, EventEngine, handle}
use calm_trading_system.Events.Delivery.{is_stop, run_round_empty, run_round_next}
use calm_trading_system.Portfolio.{event_engine_cb}
use calm_trading_system.Recorder
use calm_trading_system.Trader.{send_timer}
use calm_trading_system.System.{World}
use calm_trading_system.System.Fanout.{heard}
use calm_trading_system.System.Agreement.{Agrees}
use calm_trading_system.System.Rounds.{handled, after_round, round_off}
use calm_trading_system.System.Posting
use calm_trading_system.System.Posting.{posted, round_with}
use calm_trading_system.System.Told.{IsTold}
use calm_trading_system.System.Machine.{
  System, engine_round, main_round, recorder_round, portfolio_round,
}
use calm_trading_system.System.Accounts.{AreAccounts, unmoved-AreAccounts, posted-AreAccounts}

module _ {D : Type 0} ⦃d : Double D⦄ (x : IsExact D) where
  heard-AreAccounts :
      (s : System D) (e f : Event D) (engine : EventEngine D (World D)) (rest : List (Event D))
      → engine.q ≡ rest
      → IsTold s.api e
      → All (IsTold s.api) rest
      → AreAccounts x s
      → AreAccounts x (after_round s (f, engine, heard e s.world))
  unfolding heard event_engine_cb
  heard-AreAccounts s (order o) f engine rest c h r k =
      unmoved-AreAccounts x s _ refl refl refl refl
        (All-append (IsTold s.api) s.world.portfolio.q (order o ∷ []) k.queued (h, tt))
        (subst (All (IsTold s.api)) (sym c) r) k
  heard-AreAccounts s (timer t) f engine rest c h r k =
      unmoved-AreAccounts x s _ refl refl refl refl
        (All-append (IsTold s.api) s.world.portfolio.q (timer t ∷ []) k.queued (tt, tt))
        (subst (All (IsTold s.api)) (sym c) r) k
  heard-AreAccounts s (tick t) f engine rest c h r k =
      unmoved-AreAccounts x s _ refl refl refl refl k.queued (subst (All (IsTold s.api)) (sym c) r)
        k
  heard-AreAccounts s engine_stop f engine rest c h r k =
      unmoved-AreAccounts x s _ refl refl refl refl k.queued (subst (All (IsTold s.api)) (sym c) r)
        k
  heard-AreAccounts s _ f engine rest c h r k =
      unmoved-AreAccounts x s _ refl refl refl refl k.queued (subst (All (IsTold s.api)) (sym c) r)
        k

  handled-AreAccounts :
      (s : System D) (e : Event D) (rest : List (Event D))
      → Agrees s
      → s.engine.q ≡ e ∷ rest
      → AreAccounts x s
      → let r = handle e (record s.engine { q = rest }) s.world in
        AreAccounts x (after_round s (e, r.0, r.1))
  handled-AreAccounts s e rest a c k =
      let told : IsTold s.api e × All (IsTold s.api) rest = subst (All (IsTold s.api)) c k.coming in
      elim (Bool-cases (is_stop e)) [
        | inr live ↦
            let engine : EventEngine D (World D) = record s.engine { q = rest } in
            subst (λ r. AreAccounts x (after_round s (e, r.0, r.1)))
              (sym (handled e engine s.world a.wired live))
              (heard-AreAccounts s e e engine rest refl told.0 told.1 k)
        | inl stop ↦ stopped e stop told.1
      ]
    where
      stopped :
          (f : Event D)
          → is_stop f ≡ true
          → All (IsTold s.api) rest
          → AreAccounts x (
              after_round s (
                f,
                (handle f (record s.engine { q = rest }) s.world).0,
                (handle f (record s.engine { q = rest }) s.world).1,
              ))
      stopped engine_stop h r =
          unfold handle in unmoved-AreAccounts x s _ refl refl refl refl k.queued r k
      stopped engine_test h r = cc
      stopped _ h r = cc

  pub engine_round-AreAccounts :
      (s : System D) → Agrees s → AreAccounts x s → AreAccounts x (engine_round s)
  unfolding engine_round
  engine_round-AreAccounts s a k = elim (Bool-cases s.engine.running) [
    | inr off ↦
        subst (λ r. AreAccounts x (after_round s r))
          (sym (round_off s.engine_event s.engine s.world off)) k
    | inl on ↦ elim (List-cases s.engine.q) [
      | inl none_queued ↦
          subst (λ r. AreAccounts x (after_round s r))
            (sym (run_round_empty s.engine_event s.engine s.world none_queued)) k
      | inr (e, rest, c) ↦
          subst (λ r. AreAccounts x (after_round s r))
            (sym (run_round_next s.engine_event e s.engine rest s.world on c))
            (handled-AreAccounts s e rest a c k)
    ]
  ]

  pub portfolio_round-AreAccounts :
      (s : System D) → AreAccounts x s → AreAccounts x (portfolio_round s)
  portfolio_round-AreAccounts s k = elim (Bool-cases s.world.portfolio.running) [
    | inr off ↦ subst (AreAccounts x) (Posting.round_off s off) k
    | inl on ↦ elim (List-cases s.world.portfolio.q) [
      | inl none_queued ↦
          subst (AreAccounts x)
            (round_with s (false, s.portfolio_event, []) on (unfold try_pop in rw none_queued refl))
            (posted-AreAccounts x s s.portfolio_event [] k.event tt k)
      | inr (e, rest, c) ↦
          let told : IsTold s.api e × All (IsTold s.api) rest =
            subst (All (IsTold s.api)) c k.queued in
          subst (AreAccounts x) (round_with s (true, e, rest) on (unfold try_pop in rw c refl))
            (posted-AreAccounts x s e rest told.0 told.1 k)
    ]
  ]

  pub main_round-AreAccounts :
      (now : ℕ) (s : System D) → AreAccounts x s → AreAccounts x (main_round now s)
  unfolding main_round send
  main_round-AreAccounts now s k = by_timer (send_timer now s.target).1 refl
    where
      after : Option Timer → System D
      after l = record s {
        target = (send_timer now s.target).0;
        engine = elim l [ none ↦ s.engine | some u ↦ send (timer u) s.engine ];
      }

      by_timer :
          (sent : Option Timer)
          → (send_timer now s.target).1 ≡ sent
          → AreAccounts x (main_round now s)
      by_timer none h =
          subst (λ l. AreAccounts x (after l)) (sym h)
            (unmoved-AreAccounts x s (after none) refl refl refl refl k.queued k.coming k)
      by_timer (some t) h =
          subst (λ l. AreAccounts x (after l)) (sym h)
            (unmoved-AreAccounts x s (after (some t)) refl refl refl refl k.queued
              (All-append (IsTold s.api) s.engine.q (timer t ∷ []) k.coming (tt, tt)) k)

  pub recorder_round-AreAccounts :
      (inserts : Bool) (s t : System D)
      → AreAccounts x s
      → recorder_round inserts s ≡ ok t
      → AreAccounts x t
  unfolding recorder_round
  recorder_round-AreAccounts inserts s t k h = elim (Bool-cases s.world.data_recorder.running) [
    | inr off ↦ let same : s ≡ t = ground arith in subst (AreAccounts x) same k
    | inl on ↦
        elim (Result-cases (Recorder.action_round inserts s.recorder_event s.world.data_recorder)) [
          | inr (e, bad) ↦ ground arith
          | inl ((event, r), done) ↦
              let same : record s {
                recorder_event = event;
                world = record s.world { data_recorder = r };
              }
                  ≡ t =
                ground arith in
              subst (AreAccounts x) same
                (unmoved-AreAccounts x s _ refl refl refl refl k.queued k.coming k)
        ]
  ]
