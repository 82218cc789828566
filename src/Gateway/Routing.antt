-- ===== src/Gateway/Routing.antt =====
-- The request ids of the subscriptions of lib/gateway/gateway.cpp.
use calm_trading_system.Base.{
  contains-cases, ◌≤◌, ℕ, ◌+◌, ◌<◌, String, string_eq, nat_eq, eq_iff, true, ◌≡◌, refl, some, arith,
  lookup, insert, contains, lookup-insert, contains-insert, if◌then◌else◌, ◌==◌,
}
use calm_trading_system.Double.{Double}
use calm_trading_system.Objects.{TickData}
use calm_trading_system.Gateway.{Contract, Api, init}
use calm_trading_system.Gateway.Ticks.{put_tick, tick_at, fresh_tick, add_subscription}

module _ {D : Type 0} where
  -- The ids of a subscription lead back to its symbol, no id was given out beyond `m_req_id`, and
  -- each entry of `ticks` carries its own symbol.
  pub record IsRouted (s : Api D) : Type 0 where
    pub back :
        (symbol : String) (a b : ℕ)
        → lookup symbol s.sym2req_ids ≡ some (a, b)
        → (lookup a s.req_id2sym ≡ some symbol) × (lookup b s.req_id2sym ≡ some symbol)
    pub below : (id : ℕ) (symbol : String) → lookup id s.req_id2sym ≡ some symbol → id < s.req_id
    pub kept :
        (id : ℕ) (symbol : String)
        → lookup id s.req_id2sym ≡ some symbol
        → contains symbol s.ticks ≡ true
    pub named :
        (symbol : String) (t : TickData D) → lookup symbol s.ticks ≡ some t → t.symbol ≡ symbol

module _ {D : Type 0} ⦃d : Double D⦄ where
  pub init-IsRouted : IsRouted (init {D = D})
  unfolding init lookup
  init-IsRouted = record {
    back = λ symbol a b e. cc;
    below = λ id symbol e. cc;
    kept = λ id symbol e. cc;
    named = λ symbol t e. cc;
  }

  -- What the table of ids answers after a subscription.
  lookup_ids :
      (symbol : String) (c : Contract) (s : Api D) (id : ℕ)
      → lookup id (add_subscription symbol c s).req_id2sym ≡ (
          if id == s.req_id + 1
          then some symbol
          else if id == s.req_id
          then some symbol
          else lookup id s.req_id2sym)
  unfolding add_subscription
  lookup_ids symbol c s id = ground (
    arith,
    lookup-insert (s.req_id + 1) id symbol (insert s.req_id symbol s.req_id2sym),
    lookup-insert s.req_id id symbol s.req_id2sym,
  )

  pub lookup_sym :
      (symbol sym : String) (c : Contract) (s : Api D)
      → lookup sym (add_subscription symbol c s).sym2req_ids
        ≡ (if sym == symbol then some (s.req_id, s.req_id + 1) else lookup sym s.sym2req_ids)
  unfolding add_subscription
  lookup_sym symbol sym c s = lookup-insert symbol sym (s.req_id, s.req_id + 1) s.sym2req_ids

  lookup_ticks :
      (symbol sym : String) (c : Contract) (s : Api D)
      → lookup sym (add_subscription symbol c s).ticks
        ≡ (if sym == symbol then some (fresh_tick symbol) else lookup sym s.ticks)
  unfolding add_subscription
  lookup_ticks symbol sym c s = lookup-insert symbol sym (fresh_tick symbol) s.ticks

  contains_ticks :
      (symbol sym : String) (c : Contract) (s : Api D)
      → contains sym (add_subscription symbol c s).ticks
        ≡ (if sym == symbol then true else contains sym s.ticks)
  unfolding add_subscription
  contains_ticks symbol sym c s = contains-insert symbol sym (fresh_tick symbol) s.ticks

  req_id-add_subscription :
      (symbol : String) (c : Contract) (s : Api D)
      → (add_subscription symbol c s).req_id ≡ s.req_id + 2
  unfolding add_subscription
  req_id-add_subscription symbol c s = refl

  pub add_subscription-IsRouted :
      (symbol : String) (c : Contract) (s : Api D)
      → IsRouted s
      → IsRouted (add_subscription symbol c s)
  add_subscription-IsRouted symbol c s r = record {
    back = λ sym a b e. back_of sym a b e;
    below = λ id sym e.
        ground
          (arith, lookup_ids symbol c s id, req_id-add_subscription symbol c s, r.below id sym);
    kept = λ id sym e. ground (
      arith,
      lookup_ids symbol c s id,
      contains_ticks symbol sym c s,
      r.kept id sym,
      eq_iff sym symbol,
    );
    named =
        λ sym t e. ground (arith, lookup_ticks symbol sym c s, r.named sym t, eq_iff sym symbol);
  }
    where
      back_of :
          (sym : String) (a b : ℕ)
          → lookup sym (add_subscription symbol c s).sym2req_ids ≡ some (a, b)
          → (lookup a (add_subscription symbol c s).req_id2sym ≡ some sym)
            × (lookup b (add_subscription symbol c s).req_id2sym ≡ some sym)
      back_of sym a b e = ground (
        arith,
        lookup_sym symbol sym c s,
        lookup_ids symbol c s a,
        lookup_ids symbol c s b,
        r.back sym a b,
        r.below a sym,
        r.below b sym,
        eq_iff sym symbol,
      )

  -- What the invariant reads.
  pub record SameRoutes (s t : Api D) : Type 0 where
    pub same_ids : t.req_id2sym ≡ s.req_id2sym
    pub same_syms : t.sym2req_ids ≡ s.sym2req_ids
    pub same_ticks : t.ticks ≡ s.ticks
    pub no_reuse : s.req_id ≤ t.req_id

  pub SameRoutes-IsRouted : {s t : Api D} → SameRoutes s t → IsRouted s → IsRouted t
  SameRoutes-IsRouted {s} {t} f r = record {
    back = λ sym a b e. rw f.same_ids (r.back sym a b (rw f.same_syms at e));
    below = λ id sym e. omega (arith, r.below id sym (rw f.same_ids at e), f.no_reuse);
    kept = λ id sym e. rw f.same_ticks (r.kept id sym (rw f.same_ids at e));
    named = λ sym u e. r.named sym u (rw f.same_ticks at e);
  }

  pub put_tick-IsRouted :
      (sym : String) (t : TickData D) (s : Api D)
      → t.symbol ≡ sym
      → IsRouted s
      → IsRouted (put_tick sym t s)
  unfolding put_tick
  put_tick-IsRouted sym t s e r = record {
    back = r.back;
    below = r.below;
    kept = λ id j p. ground (arith, contains-insert sym j t s.ticks, r.kept id j p);
    named = λ j u p. ground (arith, lookup-insert sym j t s.ticks, r.named j u, eq_iff j sym);
  }

  -- An id that is known has a tick entry, under its symbol's name.
  pub tick_at-symbol :
      (id : ℕ) (sym : String) (s : Api D)
      → IsRouted s
      → lookup id s.req_id2sym ≡ some sym
      → (tick_at sym s).symbol ≡ sym
  tick_at-symbol id sym s r e =
      let (t, p) = contains-cases sym s.ticks (r.kept id sym e) in rw (p, tick_at) (r.named sym t p)
