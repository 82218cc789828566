-- ===== src/Portfolio/Kept.antt =====
-- The books and the orders through one action of the portfolio.
use calm_trading_system.Base.{
  ◌⊎◌, ℤ, ℤ_eq, beq_ℤ_iff, String, string_eq, eq_iff, ◌≡◌, refl, sym, ap, ◌∙◌, subst, Option-cases,
  inl, inr, List, [], ◌∷◌, none, some, arith, Map, lookup, insert, contains, lookup-insert,
}
use calm_trading_system.Double.{Double, IsExact}
use calm_trading_system.Objects.{OrderData, Event, order, timer}
use calm_trading_system.Objects.Enums.{Action}
use calm_trading_system.Market.{LastTicks}
use calm_trading_system.Portfolio.{
  ContractPos, Portfolio, entry, touch, position_in, order_data_cb, revalue, timer_cb, dispatch,
  add_to_portfolio,
}
use calm_trading_system.Portfolio.Booking.{entry-insert, IsBooked, Agrees}
use calm_trading_system.Portfolio.Postings.{
  old_report, entry_orders, position_in-insert, order_data_cb-IsBooked,
}

pub entry-touch {ℓ} :
    {V : Type ℓ} (k j : String) (m : Map String (List V)) → entry j (touch k m) ≡ entry j m
unfolding contains
entry-touch k j m = ground (arith, lookup-insert k j [] m, eq_iff j k)

-- What every order is for: an algo's order id has one symbol and one action.
module _ {D : Type 0} ⦃d : Double D⦄ (symbol_of : String → ℤ → String)
    (action_of : String → ℤ → Action) where
  abbrev pub IsProper : OrderData D → Type 0
  IsProper o =
      (o.symbol ≡ symbol_of o.source o.order_id) × (o.action ≡ action_of o.source o.order_id)

  abbrev pub IsProperEvent : Event D → Type 0
  IsProperEvent (order o) = IsProper o
  IsProperEvent _ = Unit

  -- The orders that are kept are proper.
  abbrev pub AreProper : Portfolio D → Type 0
  AreProper p =
      (algo : String) (id : ℤ) (o : OrderData D)
      → lookup id (entry algo p.active_orders) ≡ some o
      → (o.symbol ≡ symbol_of algo id) × (o.action ≡ action_of algo id)

  order_data_cb-AreProper :
      (o : OrderData D) (p : Portfolio D) → IsProper o → AreProper p → AreProper (order_data_cb o p)
  order_data_cb-AreProper o p h k algo id r e = ground (
    arith,
    entry_orders o p algo,
    lookup-insert o.order_id id o (entry o.source p.active_orders),
    k algo id r,
    k o.source id r,
    eq_iff algo o.source,
    beq_ℤ_iff id o.order_id,
  )

  module _ (x : IsExact D) where
    -- Two states with the same positions and, for each algo, the same orders.
    pub record SameBooks (p q : Portfolio D) : Type 0 where
      pub positions :
          (algo s : String)
          → position_in s (entry algo q.algo_portfolio)
            ≡ position_in s (entry algo p.algo_portfolio)
      pub orders : (algo : String) → entry algo q.active_orders ≡ entry algo p.active_orders

    -- What holds of the books and of the orders at any time.
    pub record AreKept (p : Portfolio D) : Type 0 where
      pub booked : IsBooked x p
      pub proper : AreProper p

    pub SameBooks-AreKept : (p q : Portfolio D) → SameBooks p q → AreKept p → AreKept q
    SameBooks-AreKept p q s k = record {
      booked = record {
        quantities =
            λ algo sym. rw (s.positions algo sym, s.orders algo) (k.booked.quantities algo sym);
        costs = λ algo sym. rw (s.positions algo sym, s.orders algo) (k.booked.costs algo sym);
      };
      proper = λ algo id o e. k.proper algo id o (rw (s.orders algo) at e);
    }

    order_data_cb-AreKept :
        (o : OrderData D) (p : Portfolio D) → IsProper o → AreKept p → AreKept (order_data_cb o p)
    order_data_cb-AreKept o p h k = record {
      booked = order_data_cb-IsBooked x o p (agrees (Option-cases (old_report o p))) k.booked;
      proper = order_data_cb-AreProper o p h k.proper;
    }
      where
        agrees :
            (old_report o p ≡ none) ⊎ ((old : OrderData D) × (old_report o p ≡ some old))
            → Agrees x o (old_report o p)
        agrees (inl e) = subst (Agrees x o) (sym e) tt
        agrees (inr (old, e)) =
            let k' = k.proper o.source o.order_id old e in
            subst (Agrees x o) (sym e) (k'.0 ∙ sym h.0, k'.1 ∙ sym h.1)

    SameBooks-touched :
        (algo : String) (p q r : Portfolio D)
        → SameBooks q r
        → q.algo_portfolio ≡ p.algo_portfolio
        → q.active_orders ≡ touch algo p.active_orders
        → SameBooks p r
    SameBooks-touched algo p q r s e f = record {
      positions = λ a sym. s.positions a sym ∙ ap (λ m. position_in sym (entry a m)) e;
      orders = λ a. s.orders a ∙ ap (entry a) f ∙ entry-touch algo a p.active_orders;
    }

    pub SameBooks-same :
        (p q r : Portfolio D)
        → SameBooks q r
        → q.algo_portfolio ≡ p.algo_portfolio
        → q.active_orders ≡ p.active_orders
        → SameBooks p r
    SameBooks-same p q r s e f = record {
      positions = λ a sym. s.positions a sym ∙ ap (λ m. position_in sym (entry a m)) e;
      orders = λ a. s.orders a ∙ ap (entry a) f;
    }

    revalue-SameBooks :
        (ticks : LastTicks D) (ports : Map String (Map String (ContractPos D))) (p : Portfolio D)
        → SameBooks p (revalue ticks ports p)
    unfolding revalue
    revalue-SameBooks ticks [] p = record { positions = λ algo s. refl; orders = λ algo. refl }
    revalue-SameBooks ticks ((algo, port) ∷ ports) p =
        SameBooks-touched algo p _ _ (revalue-SameBooks ticks ports _) refl refl

    pub dispatch-AreKept :
        (ticks : LastTicks D) (e : Event D) (p : Portfolio D)
        → IsProperEvent e
        → AreKept p
        → AreKept (dispatch ticks e p).0
    unfolding dispatch timer_cb
    dispatch-AreKept ticks (order o) p h k = order_data_cb-AreKept o p h k
    dispatch-AreKept ticks (timer t) p h k =
        SameBooks-AreKept p _
          (SameBooks-same p _ _
            (revalue-SameBooks ticks p.algo_portfolio (record p { total_pnl = d.zero })) refl refl)
          k
    dispatch-AreKept ticks _ p h k = k

    pub add-SameBooks :
        (algo symbol : String) (p : Portfolio D) → SameBooks p (add_to_portfolio algo symbol p)
    unfolding add_to_portfolio
    add-SameBooks algo symbol p = record {
      positions = λ a s. ground (
        arith,
        entry-insert algo a
            (insert symbol (position_in symbol (entry algo p.algo_portfolio))
              (entry algo p.algo_portfolio))
            p.algo_portfolio,
        position_in-insert symbol s (position_in symbol (entry algo p.algo_portfolio))
            (entry algo p.algo_portfolio),
        eq_iff a algo,
        eq_iff s symbol,
      );
      orders = λ a. ground arith;
    }
