-- ===== src/Algo/Target.antt =====
-- The way of lib/algo/algo_engine.cpp to the position that the strategy asks for.
use calm_trading_system.Base.{
  subst, none, some, lookup, contains, lookup-insert, beq_ℤ_iff, ℤ, pos, negsuc, ℤ_eq, ltb_ℤ, ◌-ℤ◌,
  int_laws, parts, magnitude, ◌≡◌, refl, sym, ap, ◌∙◌, true, false, Bool-cases, Result-cases, inl,
  inr, List, All, ok, arith, if◌then◌else◌,
}
use calm_trading_system.Double.{Double, IsExact, ◌⊖◌}
use calm_trading_system.Objects.{OrderData, PosUpdate}
use calm_trading_system.Objects.Enums.{buy, sell, market}
use calm_trading_system.Gateway.{Decimals, on_order, on_event}
use calm_trading_system.Gateway.Orders
use calm_trading_system.Gateway.Orders.{new_order, record_order}
use calm_trading_system.Gateway.Contracts.{generate_contract, generate_ib_order}
use calm_trading_system.Risk.{check_risk}
use calm_trading_system.Trading
use calm_trading_system.Trading.{TradingEngine}
use calm_trading_system.Objects.{OrderReq}
use calm_trading_system.Algo.{AlgoEngine}
use calm_trading_system.Algo.Actions.{
  request, note_order, order_cb, is_active, is_due, send_order, update_pos_cb,
}
use calm_trading_system.Algo.Tracking.{order_cb_all, IsReportOf, position_follows_order}
use calm_trading_system.Objects.Sides.{signed}

signed-magnitude : (v : ℤ) → signed (if ltb_ℤ v (pos 0) then sell else buy) (pos (magnitude v)) ≡ v
unfolding ◌-ℤ◌
signed-magnitude (pos n) = ground arith
signed-magnitude (negsuc n) = ground arith

module _ {D : Type 0} ⦃d : Double D⦄ (q : Decimals D) where
  abbrev aimed : PosUpdate D → AlgoEngine D → AlgoEngine D
  aimed p s = record s { target_pos = p.position }

  -- A request that the trading engine sends is an order that the gateway keeps, as it was asked for.
  sent_kept :
      (req : OrderReq D) (id : ℤ) (e e' : TradingEngine D)
      → Trading.send_order q req e ≡ ok (id, e')
      → ltb_ℤ (pos 0) id ≡ true
      → lookup id e.api.orders ≡ none
      → lookup id e'.api.orders ≡ some (new_order id req)
  unfolding Trading.send_order Orders.send_order record_order contains on_order on_event
  sent_kept req id e e' h taken fresh =
      elim (Bool-cases (check_risk req e.portfolio e.risk_manager).0) [
        | inr refused ↦ ground arith
        | inl passed ↦ elim (Result-cases (generate_contract req.symbol)) [
          | inr (x, bad) ↦ ground arith
          | inl (c, good) ↦ elim (Result-cases (generate_ib_order q req)) [
            | inr (x, bad) ↦ ground arith
            | inl (o, built) ↦
                ground (arith, lookup-insert id id (new_order id req) e.api.orders, beq_ℤ_iff id id)
          ]
        ]
      ]

  -- An order that is now in flight was noted, and the gateway keeps it.
  send_order-noted :
      (diff : D) (s s' : AlgoEngine D) (e e' : TradingEngine D)
      → ltb_ℤ (pos 0) s.inflight_order_id ≡ false
      → send_order q s.order_symbol diff market s e ≡ ok (s', e')
      → ltb_ℤ (pos 0) s'.inflight_order_id ≡ true
      → lookup s'.inflight_order_id e.api.orders ≡ none
      → (note_order s'.inflight_order_id diff (request s.order_symbol diff) s ≡ s')
        × (lookup s'.inflight_order_id e'.api.orders
            ≡ some (new_order s'.inflight_order_id (request s.order_symbol diff)))
  unfolding send_order
  send_order-noted diff s s' e e' idle h busy fresh =
      elim (Result-cases (Trading.send_order q (request s.order_symbol diff) e)) [
        | inr (x, bad) ↦ ground arith
        | inl ((id, e1), sent) ↦ elim (Bool-cases (ltb_ℤ (pos 0) id)) [
          | inr refused ↦ ground arith
          | inl taken ↦
              let noted : note_order id diff (request s.order_symbol diff) s ≡ s' = ground arith in
              let same : id ≡ s'.inflight_order_id = ap (λ v. v.inflight_order_id) noted in
              let there : e1 ≡ e' = ground arith in
              (
                subst (λ i. note_order i diff (request s.order_symbol diff) s ≡ s') same noted,
                subst
                    (λ i. lookup i e'.api.orders ≡ some (new_order i (request s.order_symbol diff)))
                    same
                    (subst
                      (λ (v : TradingEngine D).
                        lookup id v.api.orders ≡ some (new_order id (request s.order_symbol diff)))
                      there
                      (sent_kept (request s.order_symbol diff) id e e1 sent taken
                        (ap (λ i. lookup i e.api.orders) same ∙ fresh))),
              )
        ]
      ]

  update_pos_cb-noted :
      (p : PosUpdate D) (s s' : AlgoEngine D) (e e' : TradingEngine D)
      → ltb_ℤ (pos 0) s.inflight_order_id ≡ false
      → update_pos_cb q p s e ≡ ok (s', e')
      → ltb_ℤ (pos 0) s'.inflight_order_id ≡ true
      → lookup s'.inflight_order_id e.api.orders ≡ none
      → let req = request s.order_symbol (p.position ⊖ s.curr_pos) in
        (note_order s'.inflight_order_id (p.position ⊖ s.curr_pos) req (aimed p s) ≡ s')
        × (lookup s'.inflight_order_id e'.api.orders ≡ some (new_order s'.inflight_order_id req))
  unfolding update_pos_cb
  update_pos_cb-noted p s s' e e' idle h busy fresh =
      elim (Bool-cases (is_due (p.position ⊖ s.curr_pos))) [
        | inr near ↦ ground arith
        | inl due ↦
            send_order-noted (p.position ⊖ s.curr_pos) (aimed p s) s' e e' idle (ground arith) busy
              fresh
      ]

  module _ (x : IsExact D) where
    open x use {value}

    signed-side :
        (diff : D)
        → signed (if d.lt diff d.zero then sell else buy) (value (d.abs diff)) ≡ value diff
    signed-side diff =
        rw (x.value-lt diff d.zero, x.value-zero, x.value-abs diff) (signed-magnitude (value diff))

    not_due : (target curr : D) → value curr ≡ value target → is_due (target ⊖ curr) ≡ false
    not_due target curr h =
        let gap : value (target ⊖ curr) ≡ pos 0 =
          omega (int_laws, parts (x.value-sub target curr), parts h) in
        rw
          (
            x.value-le d.one (target ⊖ curr),
            x.value-le (target ⊖ curr) d.minus_one,
            gap,
            x.one_above,
            x.minus_one_below,
          )
          refl

    -- Let no order be in flight, and let a request for a position leave one in flight, under an id that the gateway had no
    -- order for. Let that order's reports follow, with the side of the order that the gateway then keeps, of which the last
    -- says that all of that order was traded and that it is not active. Then the position is the one requested, no
    -- order is in flight, and the same request, at any later state of the other parts, places no order and only sets
    -- the target. Amounts are exact.
    pub target_reached :
        (p : PosUpdate D) (s s' : AlgoEngine D) (e e' later : TradingEngine D)
        (os : List (OrderData D)) (o last : OrderData D)
        → ltb_ℤ (pos 0) s.inflight_order_id ≡ false
        → update_pos_cb q p s e ≡ ok (s', e')
        → ltb_ℤ (pos 0) s'.inflight_order_id ≡ true
        → lookup s'.inflight_order_id e.api.orders ≡ none
        → lookup s'.inflight_order_id e'.api.orders ≡ some o
        → All (IsReportOf x s'.inflight_order_id o.action) os
        → IsReportOf x s'.inflight_order_id o.action last
        → last.traded_quantity ≡ o.total_quantity
        → is_active last ≡ false
        → let t = order_cb last (order_cb_all os s') in
          (value t.curr_pos ≡ value p.position)
          × (t.inflight_order_id ≡ negsuc 0)
          × (update_pos_cb q p t later ≡ ok (record t { target_pos = p.position }, later))
    unfolding update_pos_cb
    target_reached p s s' e e' later os o last idle h busy fresh kept rs r all over =
        let diff = p.position ⊖ s.curr_pos in
        let req = request s.order_symbol diff in
        let (noted, placed) = update_pos_cb-noted p s s' e e' idle h busy fresh in
        let asked : o ≡ new_order s'.inflight_order_id req = cc (kept, placed) in
        let follow =
          position_follows_order x s'.inflight_order_id o.action diff req (aimed p s) os last rs
            r in
        let t = order_cb last (order_cb_all os s') in
        let moved =
          ap (λ w. value (order_cb last (order_cb_all os w)).curr_pos) (sym noted) ∙ follow.0 in
        let filled : signed o.action (value last.traded_quantity) ≡ value diff =
          ap (λ y. signed o.action (value y)) all
          ∙ ap (λ (v : OrderData D). signed v.action (value v.total_quantity)) asked
          ∙ signed-side diff in
        let arrived : value t.curr_pos ≡ value p.position =
          omega (int_laws, parts moved, parts filled, parts (x.value-sub p.position s.curr_pos)) in
        let free =
          ap (λ w. (order_cb last (order_cb_all os w)).inflight_order_id) (sym noted)
          ∙ follow.1 over in
        (arrived, free, rw (free, not_due p.position t.curr_pos arrived) refl)
