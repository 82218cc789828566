-- ===== src/System/Rounds.antt =====
-- A round of the event engine (lib/core/event.cpp) and one of the portfolio (lib/core/portfolio.cpp).
use calm_trading_system.Base.{
  ℤ, ℤ_eq, String, string_eq, ◌≡◌, refl, sym, ap, ◌∙◌, subst, true, false, nat_eq, Bool-cases,
  List-cases, inl, inr, List, [], ◌∷◌, ◌++◌, append_assoc, Option, arith,
}
use calm_trading_system.Objects.{
  OrderData, Event, engine_stop, engine_test, tick, order, timer, e_type,
}
use calm_trading_system.Events.{EventEngine, handle, run_round}
use calm_trading_system.Events.Delivery.{is_stop, run_round_empty, run_round_next}
use calm_trading_system.Portfolio.{event_engine_cb}
use calm_trading_system.System.{World}
use calm_trading_system.System.Fanout.{heard, handle-heard}
use calm_trading_system.System.Pending.{pending, in_portfolio, pending-append}
use calm_trading_system.System.Machine.{System, engine_round}
use calm_trading_system.System.Agreement.{IsWired, Agrees, Agrees-unmoved, IsSeen-portfolio}

module _ {D : Type 0} where
  pub handled :
      (e : Event D) (s : EventEngine D (World D)) (w : World D)
      → IsWired s
      → is_stop e ≡ false
      → handle e s w ≡ (s, heard e w)
  handled e s w k live = let row = k (e_type e) in handle-heard e s w row.0 live row.1 row.2

  -- An event that is no report of an order may be left out.
  passed_over :
      (algo : String) (id : ℤ) (e : Event D) (q rest : List (Event D)) (old : Option (OrderData D))
      → ((v : Option (OrderData D)) → pending algo id (e ∷ rest) v ≡ pending algo id rest v)
      → pending algo id (q ++ rest) old ≡ pending algo id (q ++ (e ∷ rest)) old
  passed_over algo id e q rest old h =
      pending-append algo id q rest old
      ∙ sym (h (pending algo id q old))
      ∙ sym (pending-append algo id q (e ∷ rest) old)

  heard-pending :
      (algo : String) (id : ℤ) (e : Event D) (rest : List (Event D)) (w : World D)
      → pending algo id
          ((heard e w).portfolio.q ++ rest)
          (in_portfolio algo id (heard e w).portfolio)
        ≡ pending algo id (w.portfolio.q ++ (e ∷ rest)) (in_portfolio algo id w.portfolio)
  unfolding heard event_engine_cb
  heard-pending algo id (order o) rest w =
      ap (λ l. pending algo id l (in_portfolio algo id w.portfolio))
        (append_assoc w.portfolio.q (order o ∷ []) rest)
  heard-pending algo id (timer t) rest w =
      ap (λ l. pending algo id l (in_portfolio algo id w.portfolio))
        (append_assoc w.portfolio.q (timer t ∷ []) rest)
  heard-pending algo id engine_stop rest w =
      passed_over algo id engine_stop w.portfolio.q rest _ (λ v. refl)
  heard-pending algo id e rest w = passed_over algo id e w.portfolio.q rest _ (λ v. refl)

  heard-portfolio :
      (e : Event D) (w : World D) → (heard e w).portfolio.active_orders ≡ w.portfolio.active_orders
  unfolding heard event_engine_cb
  heard-portfolio (tick t) w = refl
  heard-portfolio (order o) w = refl
  heard-portfolio (timer t) w = refl
  heard-portfolio engine_stop w = refl
  heard-portfolio _ w = refl

  -- The system after a round of the engine that ended so.
  abbrev pub after_round : System D → Event D × EventEngine D (World D) × World D → System D
  after_round x (event, engine, world) = record x {
    engine_event = event;
    engine = engine;
    world = world;
  }

  pub round_off :
      (e : Event D) (s : EventEngine D (World D)) (w : World D)
      → s.running ≡ false
      → run_round e s w ≡ (e, s, w)
  unfolding run_round
  round_off e s w h = ground arith

  handled-Agrees :
      (x : System D) (e : Event D) (rest : List (Event D))
      → Agrees x
      → x.engine.q ≡ e ∷ rest
      → let r = handle e (record x.engine { q = rest }) x.world in
        Agrees (after_round x (e, r.0, r.1))
  handled-Agrees x e rest a k = elim (Bool-cases (is_stop e)) [
    | inr live ↦
        let s : EventEngine D (World D) = record x.engine { q = rest } in
        subst (λ r. Agrees (after_round x (e, r.0, r.1))) (sym (handled e s x.world a.wired live))
          (Agrees-unmoved x (after_round x (e, s, heard e x.world)) refl refl
            (IsSeen-portfolio x.portfolio_event x.world.portfolio (heard e x.world).portfolio
              (heard-portfolio e x.world) a.seen)
            (λ algo id.
              heard-pending algo id e rest x.world
              ∙ ap
                  (λ l.
                    pending algo id (x.world.portfolio.q ++ l)
                      (in_portfolio algo id x.world.portfolio))
                  (sym k))
            a)
    | inl stop ↦ stopped e stop k
  ]
    where
      stopped :
          (f : Event D)
          → is_stop f ≡ true
          → x.engine.q ≡ f ∷ rest
          → Agrees (
              after_round x (
                f,
                (handle f (record x.engine { q = rest }) x.world).0,
                (handle f (record x.engine { q = rest }) x.world).1,
              ))
      stopped engine_stop h k' =
          unfold handle in
          Agrees-unmoved x _ refl refl a.seen
            (λ algo id.
              passed_over algo id engine_stop x.world.portfolio.q rest
                (in_portfolio algo id x.world.portfolio) (λ v. refl)
              ∙ ap
                  (λ l.
                    pending algo id (x.world.portfolio.q ++ l)
                      (in_portfolio algo id x.world.portfolio))
                  (sym k'))
            a
      stopped engine_test h k' = cc
      stopped _ h k' = cc

  pub engine_round-Agrees : (x : System D) → Agrees x → Agrees (engine_round x)
  unfolding engine_round
  engine_round-Agrees x a = elim (Bool-cases x.engine.running) [
    | inr off ↦
        subst (λ r. Agrees (after_round x r)) (sym (round_off x.engine_event x.engine x.world off))
          a
    | inl on ↦ elim (List-cases x.engine.q) [
      | inl none_queued ↦
          subst (λ r. Agrees (after_round x r))
            (sym (run_round_empty x.engine_event x.engine x.world none_queued)) a
      | inr (e, rest, k) ↦
          subst (λ r. Agrees (after_round x r))
            (sym (run_round_next x.engine_event e x.engine rest x.world on k))
            (handled-Agrees x e rest a k)
    ]
  ]
