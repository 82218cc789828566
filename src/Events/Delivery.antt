-- ===== src/Events/Delivery.antt =====
-- What the event engine does with the events that any threads send, in any interleaving with its
-- own rounds (lib/core/event.cpp).
use calm_trading_system.Base.{
  List-cases, subst, String, string_eq, Bool, true, false, ◌≡◌, refl, sym, ap, ◌∙◌, List, [], ◌∷◌,
  ◌++◌, append-nil, append_assoc, arith, Map, if◌then◌else◌, nat_eq, Bool-cases, inl, inr,
}
use calm_trading_system.Objects.{Event, engine_stop, e_type}
use calm_trading_system.Objects.Enums.{EventType, event_type_eq}
use calm_trading_system.Events.{
  world, Callback, EventEngine, callbacks, send, call_all, handle, run_round,
}

-- A thread sends an event, or the engine's thread makes a round.
pub data Turn (D : Type 0) : Type 0 where
  sends : Event D → Turn D
  rounds : Turn D

abbrev pub sent : {D : Type 0} → List (Turn D) → List (Event D)
sent [] = []
sent (sends x ∷ ts) = x ∷ sent ts
sent (rounds ∷ ts) = sent ts

abbrev pub is_stop : {D : Type 0} → Event D → Bool
is_stop engine_stop = true
is_stop _ = false

abbrev pub no_stop : {D : Type 0} → List (Event D) → Bool
no_stop [] = true
no_stop (e ∷ es) = if is_stop e then false else no_stop es

module _ {D W : Type 0} where
  unfoldable pub run_turns : List (Turn D) → Event D → EventEngine D W → W → EventEngine D W × W
  run_turns [] e s w = (s, w)
  run_turns (sends x ∷ ts) e s w = run_turns ts e (send x s) w
  run_turns (rounds ∷ ts) e s w = let (e', s', w') = run_round e s w in run_turns ts e' s' w'

  -- The callbacks of an event, one after the other, whatever they throw.
  abbrev pub effects : Map String (Callback D W) → Event D → W → W
  effects [] e w = w
  effects ((_, cb) ∷ cbs) e w = effects cbs e (world (cb e w))

  -- The events in order, up to a stop.
  abbrev pub serve : Map EventType (Map String (Callback D W)) → List (Event D) → W → W
  serve m_cbs [] w = w
  serve m_cbs (e ∷ es) w =
      if is_stop e then w else serve m_cbs es (effects (callbacks (e_type e) m_cbs) e w)

  call_all-effects :
      (cbs : Map String (Callback D W)) (e : Event D) (w : W) → call_all cbs e w ≡ effects cbs e w
  unfolding call_all
  call_all-effects [] e w = refl
  call_all-effects ((n, cb) ∷ cbs) e w = ground (arith, call_all-effects cbs e (world (cb e w)))

  handle_other :
      (e : Event D) (s : EventEngine D W) (w : W)
      → is_stop e ≡ false
      → handle e s w ≡ (s, effects (callbacks (e_type e) s.m_cbs) e w)
  unfolding handle
  handle_other engine_stop s w h = cc
  handle_other e s w h = ap (λ v. (s, v)) (call_all-effects (callbacks (e_type e) s.m_cbs) e w)

  handle_stop :
      (e : Event D) (s : EventEngine D W) (w : W)
      → is_stop e ≡ true
      → handle e s w ≡ (record s { running = false }, w)
  unfolding handle
  handle_stop engine_stop s w h = refl
  handle_stop _ s w h = cc

  pub record Served (ts : List (Turn D)) (s : EventEngine D W) (w : W) (t : EventEngine D W × W)
      : Type 0 where
    pub handled : List (Event D)
    pub in_order : handled ++ t.0.q ≡ s.q ++ sent ts
    pub effect : t.1 ≡ serve s.m_cbs handled w
    pub state : t.0.running ≡ no_stop handled
    pub table : t.0.m_cbs ≡ s.m_cbs

  record Halted (ts : List (Turn D)) (s : EventEngine D W) (w : W) (t : EventEngine D W × W)
      : Type 0 where
    left : t.0.q ≡ s.q ++ sent ts
    same : t.1 ≡ w
    off : t.0.running ≡ false
    table : t.0.m_cbs ≡ s.m_cbs

  run_round_off :
      (e : Event D) (s : EventEngine D W) (w : W) → s.running ≡ false → run_round e s w ≡ (e, s, w)
  unfolding run_round
  run_round_off e s w h = ground arith

  pub run_round_empty :
      (e : Event D) (s : EventEngine D W) (w : W) → s.q ≡ [] → run_round e s w ≡ (e, s, w)
  unfolding run_round
  run_round_empty e s w h = ground arith

  pub run_round_next :
      (e x : Event D) (s : EventEngine D W) (q : List (Event D)) (w : W)
      → s.running ≡ true
      → s.q ≡ x ∷ q
      → let (s', w') = handle x (record s { q = q }) w in run_round e s w ≡ (x, s', w')
  unfolding run_round
  run_round_next e x s q w h k = ground arith

  run_turns-Halted :
      (ts : List (Turn D)) (e : Event D) (s : EventEngine D W) (w : W)
      → s.running ≡ false
      → Halted ts s w (run_turns ts e s w)
  unfolding run_turns send run_round
  run_turns-Halted [] e s w h = record {
    left = sym (append-nil s.q);
    same = refl;
    off = h;
    table = refl;
  }
  run_turns-Halted (sends x ∷ ts) e s w h =
      let r = run_turns-Halted ts e (send x s) w h in
      record {
        left = r.left ∙ append_assoc s.q (x ∷ []) (sent ts);
        same = r.same;
        off = r.off;
        table = r.table;
      }
  run_turns-Halted (rounds ∷ ts) e s w h =
      let r = run_turns-Halted ts e s w h in
      subst (λ t. Halted (rounds ∷ ts) s w (run_turns ts t.0 t.1 t.2)) (sym (run_round_off e s w h))
        (record { left = r.left; same = r.same; off = r.off; table = r.table })

  -- A round that takes `x` from the queue.
  after_round :
      (ts : List (Turn D)) (x : Event D) (s : EventEngine D W) (q : List (Event D)) (w : W)
      → s.running ≡ true
      → s.q ≡ x ∷ q
      → ((v : W) → Served ts (record s { q = q }) v (run_turns ts x (record s { q = q }) v))
      → let (s', w') = handle x (record s { q = q }) w in
        Served (rounds ∷ ts) s w (run_turns ts x s' w')
  after_round ts x s q w on e ih = elim (Bool-cases (is_stop x)) [
    | inl stop ↦
        let s' : EventEngine D W = record s { q = q; running = false } in
        let r : Halted ts s' w (run_turns ts x s' w) = run_turns-Halted ts x s' w refl in
        subst (λ t. Served (rounds ∷ ts) s w (run_turns ts x t.0 t.1))
          (sym (handle_stop x (record s { q = q }) w stop))
          (record {
            handled = x ∷ [];
            in_order = ap (◌∷◌ x) r.left ∙ ap (λ l. l ++ sent ts) (sym e);
            effect = rw stop r.same;
            state = rw stop r.off;
            table = r.table;
          })
    | inr go ↦
        let v = effects (callbacks (e_type x) s.m_cbs) x w in
        let r = ih v in
        subst (λ t. Served (rounds ∷ ts) s w (run_turns ts x t.0 t.1))
          (sym (handle_other x (record s { q = q }) w go))
          (record {
            handled = x ∷ r.handled;
            in_order = ap (◌∷◌ x) r.in_order ∙ ap (λ l. l ++ sent ts) (sym e);
            effect = rw go r.effect;
            state = rw go r.state;
            table = r.table;
          })
  ]

  -- Once the engine runs, under any interleaving of sends and rounds, it has handled an initial part of the events
  -- that were queued and then sent, each once and in order, and the rest is still queued; its effect is that of every callback of each
  -- event in turn, whatever a callback throws, up to the first stop event; it runs on
  -- exactly while no stop event was handled; and no table entry changes.
  pub run_turns-Served :
      (ts : List (Turn D)) (e : Event D) (s : EventEngine D W) (w : W)
      → s.running ≡ true
      → Served ts s w (run_turns ts e s w)
  unfolding run_turns send
  run_turns-Served [] e s w h = record {
    handled = [];
    in_order = sym (append-nil s.q);
    effect = refl;
    state = h;
    table = refl;
  }
  run_turns-Served (sends x ∷ ts) e s w h =
      let r = run_turns-Served ts e (send x s) w h in
      record {
        handled = r.handled;
        in_order = r.in_order ∙ append_assoc s.q (x ∷ []) (sent ts);
        effect = r.effect;
        state = r.state;
        table = r.table;
      }
  run_turns-Served (rounds ∷ ts) e s w h = elim (List-cases s.q) [
    | inl k ↦
        let r = run_turns-Served ts e s w h in
        subst (λ t. Served (rounds ∷ ts) s w (run_turns ts t.0 t.1 t.2))
          (sym (run_round_empty e s w k))
          (record {
            handled = r.handled;
            in_order = r.in_order;
            effect = r.effect;
            state = r.state;
            table = r.table;
          })
    | inr (x, q, k) ↦
        subst (λ t. Served (rounds ∷ ts) s w (run_turns ts t.0 t.1 t.2))
          (sym (run_round_next e x s q w h k))
          (after_round ts x s q w h k (λ v. run_turns-Served ts x (record s { q = q }) v h))
  ]
