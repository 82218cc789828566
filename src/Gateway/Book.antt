-- ===== src/Gateway/Book.antt =====
-- The orders that the gateway knows: what a request or a callback may do to them, and which order
-- events go out.
use calm_trading_system.Base.{
  AreOnce, AreOnce-insert, subst, sym, ◌==◌, ◌∙◌, ap, if◌then◌else◌, Option, Bool-cases, ℤ, beq_ℤ,
  beq_ℤ_iff, ℤ_eq, ◌≡◌, List, ◌++◌, some, inl, inr, arith, lookup, insert, lookup-insert, All, [],
  ◌∷◌,
}
use calm_trading_system.Objects.{OrderData, Event, order}
use calm_trading_system.Gateway.{Api}

module _ {D : Type 0} where
  -- What stays of an order through its life: everything but what the broker reports.
  pub record SameOrder (o p : OrderData D) : Type 0 where
    pub same_id : p.order_id ≡ o.order_id
    pub same_symbol : p.symbol ≡ o.symbol
    pub same_exchange : p.exchange ≡ o.exchange
    pub same_source : p.source ≡ o.source
    pub same_type : p.order_type ≡ o.order_type
    pub same_action : p.action ≡ o.action
    pub same_total : p.total_quantity ≡ o.total_quantity

  -- An event about an order is the entry that the gateway holds of it.
  abbrev pub IsCurrent : Api D → Event D → Type 0
  IsCurrent s (order o) = lookup o.order_id s.orders ≡ some o
  IsCurrent s _ = Unit

  -- An order's last report in a list of events, or `old` where there is none.
  abbrev pub latest : ℤ → List (Event D) → Option (OrderData D) → Option (OrderData D)
  latest id [] old = old
  latest id (order o ∷ es) old = latest id es (if id == o.order_id then some o else old)
  latest id (_ ∷ es) old = latest id es old

  -- Each entry stands under its own id.
  abbrev pub IsFiled : Api D → Type 0
  IsFiled s = (id : ℤ) (o : OrderData D) → lookup id s.orders ≡ some o → o.order_id ≡ id

  -- From `s` to `t`: no order is lost or changes its identity, entries stay under their ids,
  -- each id keeps one entry, and what was published is a list of events that are current and tell of every change of an order.
  pub record Follows (s t : Api D) : Type 0 where
    pub lasting :
        (id : ℤ) (o : OrderData D)
        → lookup id s.orders ≡ some o
        → (p : OrderData D) × (lookup id t.orders ≡ some p) × SameOrder o p
    pub filed : IsFiled t
    pub news : List (Event D)
    pub published-eq : t.published ≡ s.published ++ news
    pub current : All (IsCurrent t) news
    pub complete : (id : ℤ) → lookup id t.orders ≡ latest id news (lookup id s.orders)
    pub once : AreOnce s.orders → AreOnce t.orders

  pub SameOrder-refl : (o : OrderData D) → SameOrder o o
  SameOrder-refl o = ground arith

  -- A step that leaves the orders alone and publishes no order event.
  pub Follows-quiet :
      (s t : Api D) (es : List (Event D))
      → IsFiled s
      → t.orders ≡ s.orders
      → t.published ≡ s.published ++ es
      → All (IsCurrent t) es
      → ((id : ℤ) (old : Option (OrderData D)) → latest id es old ≡ old)
      → Follows s t
  Follows-quiet s t es f e p c l = record {
    lasting = λ id o h. (o, rw e h, SameOrder-refl o);
    filed = λ id o h. f id o (rw e at h);
    news = es;
    published-eq = p;
    current = c;
    complete = λ id. ap (lookup id) e ∙ sym (l id (lookup id s.orders));
    once = subst AreOnce (sym e);
  }

  -- A step that writes one entry under its id, of an order that is new or keeps its identity, and publishes it last.
  pub Follows-entry :
      (s t : Api D) (p : OrderData D) (es : List (Event D))
      → IsFiled s
      → ((o : OrderData D) → lookup p.order_id s.orders ≡ some o → SameOrder o p)
      → t.orders ≡ insert p.order_id p s.orders
      → t.published ≡ s.published ++ es
      → All (IsCurrent t) es
      → ((id : ℤ) (old : Option (OrderData D))
          → latest id es old ≡ (if id == p.order_id then some p else old))
      → Follows s t
  Follows-entry s t p es f same e h c l = record {
    lasting = λ id o l. elim (Bool-cases (beq_ℤ id p.order_id)) [
      | inl hit ↦ (
        p,
        ground (arith, lookup-insert p.order_id id p s.orders),
        same o (ground (arith, beq_ℤ_iff id p.order_id)),
      )
      | inr miss ↦ (o, ground (arith, lookup-insert p.order_id id p s.orders), SameOrder-refl o)
    ];
    filed = λ id o l.
        ground (arith, lookup-insert p.order_id id p s.orders, f id o, beq_ℤ_iff id p.order_id, e);
    news = es;
    published-eq = h;
    current = c;
    complete = λ id.
        ap (lookup id) e ∙ lookup-insert p.order_id id p s.orders ∙ sym (l id (lookup id s.orders));
    once = λ h. subst AreOnce (sym e) (AreOnce-insert p.order_id p s.orders h);
  }
