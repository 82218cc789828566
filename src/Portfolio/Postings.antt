-- ===== src/Portfolio/Postings.antt =====
-- One report posted by `order_data_cb`.
use calm_trading_system.Base.{
  ℤ, pos, ℤ_eq, ◌+ℤ◌, ◌-ℤ◌, int_laws, parts, String, string_eq, eq_iff, ◌≡◌, sym, ap, ◌∙◌, Bool,
  true, false, Bool-cases, inl, inr, Option, arith, ◌==◌, Map, lookup, insert, lookup-insert,
  if◌then◌else◌,
}
use calm_trading_system.Double.{Double, IsExact, ◌⊕◌}
use calm_trading_system.Objects.{OrderData}
use calm_trading_system.Portfolio.{
  ContractPos, Portfolio, entry, position_in, change_qty, change_cost, change_comm, by_action,
  order_data_cb,
}
use calm_trading_system.Portfolio.Ledger.{total, share, total-insert}
use calm_trading_system.Portfolio.Booking.{
  entry-insert, moved, paid, IsBooked, Agrees, change_qty-value, change_cost-value, share_here,
  share_elsewhere,
}

module _ {D : Type 0} ⦃d : Double D⦄ where
  abbrev pub old_report : OrderData D → Portfolio D → Option (OrderData D)
  old_report o p = lookup o.order_id (entry o.source p.active_orders)

  -- The entry that `order_data_cb` writes.
  abbrev posted : OrderData D → Portfolio D → ContractPos D
  posted o p =
      let c = position_in o.symbol (entry o.source p.algo_portfolio) in
      record c {
        position = c.position ⊕ by_action o.action (change_qty o (old_report o p));
        cost =
            (c.cost ⊕ by_action o.action (change_cost o (old_report o p)))
            ⊕ change_comm o (old_report o p);
      }

  pub entry_orders :
      (o : OrderData D) (p : Portfolio D) (algo : String)
      → entry algo (order_data_cb o p).active_orders ≡ (
          if algo == o.source
          then insert o.order_id o (entry o.source p.active_orders)
          else entry algo p.active_orders)
  unfolding order_data_cb
  entry_orders o p algo = entry-insert o.source algo _ p.active_orders

  entry_positions :
      (o : OrderData D) (p : Portfolio D) (algo : String)
      → entry algo (order_data_cb o p).algo_portfolio ≡ (
          if algo == o.source
          then insert o.symbol (posted o p) (entry o.source p.algo_portfolio)
          else entry algo p.algo_portfolio)
  unfolding order_data_cb
  entry_positions o p algo = entry-insert o.source algo _ p.algo_portfolio

  pub position_in-insert :
      (k j : String) (c : ContractPos D) (m : Map String (ContractPos D))
      → position_in j (insert k c m) ≡ (if j == k then c else position_in j m)
  position_in-insert k j c m = ground (arith, lookup-insert k j c m)

  module _ (x : IsExact D) where
    open x use {value}

    -- What the orders in `symbol` add up to.
    abbrev in_symbol : (OrderData D → ℤ) → String → OrderData D → ℤ
    in_symbol f symbol o = if symbol == o.symbol then f o else pos 0

    -- An amount of the positions that follows a sum over the orders, and still does so after a report.
    module _ (f : OrderData D → ℤ) (amount : ContractPos D → D) (o : OrderData D) (p : Portfolio D)
        (h : Agrees x o (old_report o p))
        (step : value (amount (posted o p))
          ≡ value (amount (position_in o.symbol (entry o.source p.algo_portfolio)))
            +ℤ f o
            -ℤ share f (old_report o p))
        (booked : (algo s : String)
          → value (amount (position_in s (entry algo p.algo_portfolio)))
            ≡ total (in_symbol f s) (entry algo p.active_orders)) where
      -- The algo that the order belongs to.
      own_algo :
          (s : String)
          → value (
              amount
                (position_in s (insert o.symbol (posted o p) (entry o.source p.algo_portfolio))))
            ≡ total (in_symbol f s) (insert o.order_id o (entry o.source p.active_orders))
      own_algo s = elim (Bool-cases (s == o.symbol)) [
        | inl e ↦
            rw (position_in-insert o.symbol s (posted o p) (entry o.source p.algo_portfolio), e)
              (omega (
                int_laws,
                parts step,
                parts (total-insert (in_symbol f s) o.order_id o (entry o.source p.active_orders)),
                parts (share_here x f s o (old_report o p) h e),
                parts (ap (λ (b : Bool). if b then f o else pos 0) e),
                parts (
                    ap (λ k. value (amount (position_in k (entry o.source p.algo_portfolio))))
                      ((eq_iff s o.symbol).0 e)),
                parts (booked o.source s),
              ))
        | inr e ↦
            rw (position_in-insert o.symbol s (posted o p) (entry o.source p.algo_portfolio), e)
              (omega (
                int_laws,
                parts (total-insert (in_symbol f s) o.order_id o (entry o.source p.active_orders)),
                parts (share_elsewhere x f s o (old_report o p) h e),
                parts (ap (λ (b : Bool). if b then f o else pos 0) e),
                parts (booked o.source s),
              ))
      ]

      posting :
          (algo s : String)
          → value (amount (position_in s (entry algo (order_data_cb o p).algo_portfolio)))
            ≡ total (in_symbol f s) (entry algo (order_data_cb o p).active_orders)
      posting algo s =
          ap (λ m. value (amount (position_in s m))) (entry_positions o p algo)
          ∙ by_algo (algo == o.source)
          ∙ sym (ap (total (in_symbol f s)) (entry_orders o p algo))
        where
          by_algo :
              (b : Bool)
              → value (
                  amount (
                    position_in s (
                      if b
                      then insert o.symbol (posted o p) (entry o.source p.algo_portfolio)
                      else entry algo p.algo_portfolio)))
                ≡ total (in_symbol f s) (
                    if b
                    then insert o.order_id o (entry o.source p.active_orders)
                    else entry algo p.active_orders)
          by_algo true = own_algo s
          by_algo false = booked algo s

    -- Let every position and cost be what the algo's orders, as last reported, have traded and paid
    -- in its symbol: quantities count negative for sales, and a cost is price times signed quantity plus
    -- commission. If a report agrees with the order's last report, if any, on symbol and action, then the
    -- same holds after `order_data_cb`. Amounts are exact.
    pub order_data_cb-IsBooked :
        (o : OrderData D) (p : Portfolio D)
        → Agrees x o (old_report o p)
        → IsBooked x p
        → IsBooked x (order_data_cb o p)
    order_data_cb-IsBooked o p h b = record {
      quantities =
          posting (moved x) (λ c. c.position) o p h
            (omega
              (int_laws, parts (x.value-add _ _), parts (change_qty-value x o (old_report o p) h)))
            b.quantities;
      costs =
          posting (paid x) (λ c. c.cost) o p h
            (omega (
              int_laws,
              parts (x.value-add _ _),
              parts (x.value-add _ _),
              parts (change_cost-value x o (old_report o p) h),
            ))
            b.costs;
    }
