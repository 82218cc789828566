-- ===== src/Algo/Tracking.antt =====
-- How `curr_pos` follows the reports of orders.
use calm_trading_system.Base.{
  sym, ◌∙◌, ℤ, pos, negsuc, ℤ_eq, beq_ℤ_iff, ◌+ℤ◌, ◌-ℤ◌, int_laws, parts, ◌≡◌, ◌≢◌, refl, ap, true,
  false, List, [], ◌∷◌, arith, contains, contains-insert, All, if◌then◌else◌,
}
use calm_trading_system.Double.{Double, IsExact, ◌⊖◌}
use calm_trading_system.Objects.{OrderData, OrderReq}
use calm_trading_system.Objects.Enums.{Action, buy, sell, pending_submit}
use calm_trading_system.Algo.{AlgoEngine}
use calm_trading_system.Algo.Actions.{note_order, moved_by, order_cb, is_active}
use calm_trading_system.Objects.Sides.{signed, signed-zero}

module _ {D : Type 0} ⦃d : Double D⦄ where
  unfoldable pub order_cb_all : List (OrderData D) → AlgoEngine D → AlgoEngine D
  order_cb_all [] s = s
  order_cb_all (o ∷ os) s = order_cb_all os (order_cb o s)

  order_cb-known :
      (o : OrderData D) (s : AlgoEngine D)
      → contains o.order_id s.order_status ≡ true
      → ((order_cb o s).curr_pos
          ≡ moved_by o.action s.curr_pos (o.traded_quantity ⊖ s.order_filled))
        × ((order_cb o s).order_filled ≡ o.traded_quantity)
        × ((order_cb o s).inflight_order_id
            ≡ (if is_active o then s.inflight_order_id else negsuc 0))
        × (contains o.order_id (order_cb o s).order_status ≡ true)
  unfolding order_cb
  order_cb-known o s h = ground (
    arith,
    contains-insert o.order_id o.order_id o.status s.order_status,
    beq_ℤ_iff o.order_id o.order_id,
  )

  module _ (x : IsExact D) where
    open x use {value}

    moved_by-value :
        (a : Action) (curr u v : D)
        → value (moved_by a curr (u ⊖ v)) ≡ value curr +ℤ signed a (value u) -ℤ signed a (value v)
    moved_by-value buy curr u v =
        omega (int_laws, parts (x.value-add curr (u ⊖ v)), parts (x.value-sub u v))
    moved_by-value sell curr u v =
        omega (int_laws, parts (x.value-sub curr (u ⊖ v)), parts (x.value-sub u v))

    -- The part of the position that the current order has not moved.
    abbrev base_pos : Action → AlgoEngine D → ℤ
    base_pos a s = value s.curr_pos -ℤ signed a (value s.order_filled)

    order_cb-base :
        (a : Action) (o : OrderData D) (s : AlgoEngine D)
        → contains o.order_id s.order_status ≡ true
        → o.action ≡ a
        → base_pos a (order_cb o s) ≡ base_pos a s
    order_cb-base a o s h e =
        let k = order_cb-known o s h in
        omega (
          int_laws,
          parts (ap value k.0),
          parts (ap (λ y. signed a (value y)) k.1),
          parts (ap (λ b. value (moved_by b s.curr_pos (o.traded_quantity ⊖ s.order_filled))) e),
          parts (moved_by-value a s.curr_pos o.traded_quantity s.order_filled),
        )

    -- A report of the order `id`, on its side.
    abbrev pub IsReportOf : ℤ → Action → OrderData D → Type 0
    IsReportOf id a o = (o.order_id ≡ id) × (o.action ≡ a)

    every_base :
        (id : ℤ) (a : Action) (os : List (OrderData D)) (s : AlgoEngine D)
        → contains id s.order_status ≡ true
        → All (IsReportOf id a) os
        → (base_pos a (order_cb_all os s) ≡ base_pos a s)
          × (contains id (order_cb_all os s).order_status ≡ true)
    unfolding order_cb_all
    every_base id a [] s h rs = (refl, h)
    every_base id a (o ∷ os) s h ((same, side), rs) =
        let known : contains o.order_id s.order_status ≡ true = rw same h in
        let k = order_cb-known o s known in
        let r =
          every_base id a os (order_cb o s)
            (ap (λ i. contains i (order_cb o s).order_status) (sym same) ∙ k.3) rs in
        (r.0 ∙ order_cb-base a o s known side, r.1)

    -- After an order is placed, and any reports of it, the last of which is `last`, the
    -- position is what it was before plus what `last` says was bought, or minus what it says was sold; and
    -- if `last` is not active, no order is in flight. Amounts are exact.
    pub position_follows_order :
        (id : ℤ) (a : Action) (quantity : D) (req : OrderReq D) (s : AlgoEngine D)
        (os : List (OrderData D)) (last : OrderData D)
        → All (IsReportOf id a) os
        → IsReportOf id a last
        → let s' = order_cb last (order_cb_all os (note_order id quantity req s)) in
          (value s'.curr_pos ≡ value s.curr_pos +ℤ signed a (value last.traded_quantity))
          × (is_active last ≡ false → s'.inflight_order_id ≡ negsuc 0)
    position_follows_order id a quantity req s os last rs r =
        let s0 = note_order id quantity req s in
        let noted : contains id s0.order_status ≡ true =
          ground (arith, contains-insert id id pending_submit s.order_status, beq_ℤ_iff id id) in
        let b = every_base id a os s0 noted rs in
        let s1 = order_cb_all os s0 in
        let known : contains last.order_id s1.order_status ≡ true = rw r.0 b.1 in
        let k = order_cb-known last s1 known in
        let zero_filled : value s0.order_filled ≡ pos 0 = x.value-zero in
        (
          omega (
            int_laws,
            parts (order_cb-base a last s1 known r.1),
            parts b.0,
            parts (ap (λ y. signed a (value y)) k.1),
            parts (signed-zero a (value s0.order_filled) zero_filled),
          ),
          λ off. k.2 ∙ ap (λ b. if b then s1.inflight_order_id else negsuc 0) off,
        )

    -- The fault: a report of an earlier order that arrives after a new one was placed moves the position by
    -- everything that the earlier order has traded, though its trades were counted before; and if that
    -- report is not active, the new order is no longer taken to be in flight.
    pub late_report_counts_again :
        (id : ℤ) (quantity : D) (req : OrderReq D) (s : AlgoEngine D) (o : OrderData D)
        → o.order_id ≢ id
        → contains o.order_id s.order_status ≡ true
        → let s' = order_cb o (note_order id quantity req s) in
          (value s'.curr_pos ≡ value s.curr_pos +ℤ signed o.action (value o.traded_quantity))
          × (is_active o ≡ false → s'.inflight_order_id ≡ negsuc 0)
    late_report_counts_again id quantity req s o other old =
        let s0 = note_order id quantity req s in
        let known : contains o.order_id s0.order_status ≡ true =
          ground (arith, contains-insert id o.order_id pending_submit s.order_status) in
        let k = order_cb-known o s0 known in
        (
          omega (
            int_laws,
            parts (order_cb-base o.action o s0 known refl),
            parts (ap (λ y. signed o.action (value y)) k.1),
            parts (signed-zero o.action (value s0.order_filled) x.value-zero),
          ),
          λ off. k.2 ∙ ap (λ b. if b then s0.inflight_order_id else negsuc 0) off,
        )
