-- ===== src/Portfolio/Booking.antt =====
-- The books of lib/core/portfolio.cpp: what positions and costs are to agree with, and what one
-- report changes.
use calm_trading_system.Base.{
  ap, ◌∙◌, ℤ, pos, ℤ_eq, ◌+ℤ◌, ◌-ℤ◌, int_laws, parts, String, string_eq, ◌≡◌, refl, true, false,
  List, Option, none, some, arith, ◌==◌, Map, lookup, insert, lookup-insert, if◌then◌else◌,
}
use calm_trading_system.Double.{Double, IsExact, ◌⊖◌, ◌⊗◌}
use calm_trading_system.Objects.{OrderData}
use calm_trading_system.Objects.Enums.{Action, buy, sell}
use calm_trading_system.Portfolio.{
  Portfolio, entry, position_in, change_qty, change_cost, change_comm, by_action, init,
}
use calm_trading_system.Portfolio.Ledger.{total, share}
use calm_trading_system.Objects.Sides.{signed, signed_sub}

pub entry-insert {ℓ} :
    {V : Type ℓ} (k j : String) (v : List V) (m : Map String (List V))
    → entry j (insert k v m) ≡ (if j == k then v else entry j m)
entry-insert k j v m = ground (arith, lookup-insert k j v m)

module _ {D : Type 0} ⦃d : Double D⦄ (x : IsExact D) where
  open x use {value}

  abbrev pub moved : OrderData D → ℤ
  moved o = signed o.action (value o.traded_quantity)

  abbrev pub paid : OrderData D → ℤ
  paid o = signed o.action (value (o.traded_quantity ⊗ o.avg_trade_price)) +ℤ value o.commission

  -- What an order adds to the position in `symbol`, and to its cost.
  abbrev pub qty_of : String → OrderData D → ℤ
  qty_of symbol o = if symbol == o.symbol then moved o else pos 0

  abbrev pub cost_of : String → OrderData D → ℤ
  cost_of symbol o = if symbol == o.symbol then paid o else pos 0

  pub record IsBooked (p : Portfolio D) : Type 0 where
    pub quantities :
        (algo symbol : String)
        → value (position_in symbol (entry algo p.algo_portfolio)).position
          ≡ total (qty_of symbol) (entry algo p.active_orders)
    pub costs :
        (algo symbol : String)
        → value (position_in symbol (entry algo p.algo_portfolio)).cost
          ≡ total (cost_of symbol) (entry algo p.active_orders)

  pub init-IsBooked : IsBooked init
  unfolding lookup total
  init-IsBooked = record {
    quantities = λ algo symbol. x.value-zero;
    costs = λ algo symbol. x.value-zero;
  }

  value-by_action : (a : Action) (u : D) → value (by_action a u) ≡ signed a (value u)
  unfolding by_action
  value-by_action buy u = refl
  value-by_action sell u = omega (int_laws, parts (x.value-mul_minus_one u))

  value-by_action_sub :
      (a : Action) (u v : D)
      → value (by_action a (u ⊖ v)) ≡ signed a (value u) -ℤ signed a (value v)
  value-by_action_sub a u v =
      value-by_action a (u ⊖ v) ∙ ap (signed a) (x.value-sub u v) ∙ signed_sub a (value u) (value v)

  -- The reports of one order agree on its symbol and its action.
  abbrev pub Agrees : OrderData D → Option (OrderData D) → Type 0
  Agrees o none = Unit {0}
  Agrees o (some old) = (old.symbol ≡ o.symbol) × (old.action ≡ o.action)

  pub change_qty-value :
      (o : OrderData D) (old : Option (OrderData D))
      → Agrees o old
      → value (by_action o.action (change_qty o old)) ≡ moved o -ℤ share moved old
  unfolding change_qty
  change_qty-value o none h = omega (int_laws, parts (value-by_action o.action o.traded_quantity))
  change_qty-value o (some old) h = rw h.1 (value-by_action_sub o.action _ _)

  pub change_cost-value :
      (o : OrderData D) (old : Option (OrderData D))
      → Agrees o old
      → value (by_action o.action (change_cost o old)) +ℤ value (change_comm o old)
        ≡ paid o -ℤ share paid old
  unfolding change_cost change_comm
  change_cost-value o none h =
      omega (int_laws, parts (value-by_action o.action (o.traded_quantity ⊗ o.avg_trade_price)))
  change_cost-value o (some old) h = rw h.1 (
      omega (
        int_laws,
        parts (
            value-by_action_sub o.action (o.traded_quantity ⊗ o.avg_trade_price)
              (old.traded_quantity ⊗ old.avg_trade_price)),
        parts (x.value-sub o.commission old.commission),
      ))

  -- The share of an order's old report in a sum over the orders in `symbol`.
  pub share_here :
      (f : OrderData D → ℤ) (symbol : String) (o : OrderData D) (old : Option (OrderData D))
      → Agrees o old
      → (symbol == o.symbol) ≡ true
      → share (λ v. if symbol == v.symbol then f v else pos 0) old ≡ share f old
  share_here f symbol o none h e = refl
  share_here f symbol o (some old) h e = rw (h.0, e) refl

  pub share_elsewhere :
      (f : OrderData D → ℤ) (symbol : String) (o : OrderData D) (old : Option (OrderData D))
      → Agrees o old
      → (symbol == o.symbol) ≡ false
      → share (λ v. if symbol == v.symbol then f v else pos 0) old ≡ pos 0
  share_elsewhere f symbol o none h e = refl
  share_elsewhere f symbol o (some old) h e = rw (h.0, e) refl
