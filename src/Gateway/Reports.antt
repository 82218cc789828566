-- ===== src/Gateway/Reports.antt =====
-- The order requests and callbacks of lib/gateway/gateway.cpp, as changes of the orders.
use calm_trading_system.Base.{
  AreOnce, ◌>>=◌, Result-cases, or_fail, append_assoc, string_eq, sym, ap,
  contains-eq_true_of_lookup, subst, Bool-cases, append-nil, ◌∙◌, ℕ, ℤ, pos, ◌+ℤ◌, beq_ℤ, beq_ℤ_iff,
  ℤ_eq, String, ◌≡◌, refl, List, [], ◌∷◌, ◌++◌, inl, inr, arith, lookup, insert, contains,
  lookup-insert, All, Option-cases,
}
use calm_trading_system.Double.{Double}
use calm_trading_system.Objects.{
  OrderData, OrderReq, ErrMsg, Event, engine_stop, order, err_msg, unset_long,
}
use calm_trading_system.Gateway.{Decimals, Api, on_error}
use calm_trading_system.Gateway.Orders.{
  take_order_id, error, order_status, open_order, send_order, update_order, record_order, new_order,
}
use calm_trading_system.Gateway.Machine.{state_or, second_or}
use calm_trading_system.Gateway.Book.{
  latest, SameOrder, IsCurrent, IsFiled, Follows, Follows-quiet, Follows-entry,
}
use calm_trading_system.Utils.{is_unset_double}
use calm_trading_system.Objects.Enums.{order_status_to_calm}
use calm_trading_system.Gateway.Contracts.{generate_contract, generate_ib_order}

module _ {D : Type 0} ⦃d : Double D⦄ where
  pub quiet :
      (s t : Api D) → IsFiled s → t.orders ≡ s.orders → t.published ≡ s.published → Follows s t
  quiet s t filed e p =
      Follows-quiet s t [] filed e (rw (append-nil s.published) p) tt (λ id old. refl)

  update_order-Follows :
      (id : ℤ) (f : OrderData D → OrderData D) (s : Api D)
      → IsFiled s
      → ((o : OrderData D) → SameOrder o (f o))
      → Follows s (update_order id f s)
  unfolding update_order
  update_order-Follows id f s filed same = elim (Option-cases (lookup id s.orders)) [
    | inl e ↦ rw (e, update_order) (quiet s s filed refl refl)
    | inr (o, e) ↦
        let own : (f o).order_id ≡ id = (same o).same_id ∙ filed id o e in
        rw (e, update_order)
          (Follows-entry s _ (f o) (order (f o) ∷ []) filed
            (λ o' h.
              let found : o ≡ o' = cc (own, e, h) in subst (λ x. SameOrder x (f o)) found (same o))
            (ap (λ k. insert k (f o) s.orders) (sym own)) refl
            (ground (arith, lookup-insert id id (f o) s.orders, beq_ℤ_iff id id), tt)
            (λ id old. refl))
  ]

  record_order-Follows :
      (id : ℤ) (r : OrderReq D) (s : Api D) → IsFiled s → Follows s (record_order id r s)
  unfolding record_order
  record_order-Follows id r s filed = elim (Bool-cases (contains id s.orders)) [
    | inl old ↦ rw old (quiet s s filed refl refl)
    | inr new ↦ rw new (
        Follows-entry s _ (new_order id r) (order (new_order id r) ∷ []) filed
          (λ o h. cc (contains-eq_true_of_lookup id s.orders h, new)) refl refl
          (ground (arith, lookup-insert id id (new_order id r) s.orders, beq_ℤ_iff id id), tt)
          (λ id old. refl))
  ]

  -- Around a step: `s'` and `t'` differ from `s` and `t` in neither the orders nor the reports.
  around :
      (s s' t t' : Api D)
      → s'.orders ≡ s.orders
      → s'.published ≡ s.published
      → t'.orders ≡ t.orders
      → t'.published ≡ t.published
      → Follows s' t
      → Follows s t'
  around s s' t t' eo ep fo fp f = record {
    lasting = λ id o h. rw fo (f.lasting id o (rw eo h));
    filed = λ id o h. f.filed id o (rw fo at h);
    news = f.news;
    published-eq = fp ∙ f.published-eq ∙ ap (λ l. l ++ f.news) ep;
    current = same_current t t' f.news fo f.current;
    complete =
        λ id. ap (lookup id) fo ∙ f.complete id ∙ ap (λ m. latest id f.news (lookup id m)) eo;
    once = λ h. subst AreOnce (sym fo) (f.once (subst AreOnce (sym eo) h));
  }
    where
      same_current :
          (t t' : Api D) (es : List (Event D))
          → t'.orders ≡ t.orders
          → All (IsCurrent t) es
          → All (IsCurrent t') es
      same_current t t' [] e c = tt
      same_current t t' (order o ∷ es) e c = (rw e c.0, same_current t t' es e c.1)
      same_current t t' (engine_stop ∷ es) e c = (tt, same_current t t' es e c.1)
      same_current t t' (_ ∷ es) e c = (tt, same_current t t' es e c.1)

  pub error-Follows : (m : ErrMsg) (s : Api D) → IsFiled s → Follows s (error m s)
  unfolding error
  error-Follows m s filed =
      let f =
        update_order-Follows m.id (λ o. record o { error_code = m.error_code }) (on_error m s) filed
          (λ o. ground arith) in
      record {
        lasting = f.lasting;
        filed = f.filed;
        news = err_msg m ∷ f.news;
        published-eq = f.published-eq ∙ append_assoc s.published (err_msg m ∷ []) f.news;
        current = (tt, f.current);
        complete = f.complete;
        once = f.once;
      }

  pub open_order-Follows : (id : ℤ) (c : D) (s : Api D) → IsFiled s → Follows s (open_order id c s)
  unfolding open_order
  open_order-Follows id c s filed = elim (Bool-cases (is_unset_double c)) [
    | inl e ↦ rw e (quiet s s filed refl refl)
    | inr e ↦
        rw e
          (update_order-Follows id (λ o. record o { commission = c }) s filed (λ o. ground arith))
  ]

  module _ (q : Decimals D) where
    pub order_status-Follows :
        (id : ℤ) (word : String) (filled : ℕ) (price : D) (s : Api D)
        → IsFiled s
        → Follows s (state_or s (order_status q id word filled price s))
    unfolding order_status
    order_status-Follows id word filled price s filed =
        elim (Option-cases (lookup word order_status_to_calm)) [
          | inl e ↦ rw (e, or_fail, ◌>>=◌) (quiet s s filed refl refl)
          | inr (st, e) ↦
              rw (e, or_fail, ◌>>=◌)
                (update_order-Follows id
                  (λ o. record o {
                    status = st;
                    traded_quantity = q.decimal_to_double filled;
                    avg_trade_price = price;
                  })
                  s filed (λ o. ground arith))
        ]

    recorded :
        (req : OrderReq D) (s : Api D)
        → IsFiled s
        → Follows s (record_order (take_order_id req s).0 req (take_order_id req s).1)
    recorded req s filed = elim (Bool-cases (beq_ℤ req.order_id unset_long)) [
      | inl e ↦ rw e (
          let s' : Api D = record s { next_order_id = s.next_order_id +ℤ pos 1 } in
          let t = record_order s.next_order_id req s' in
          around s s' t t refl refl refl refl (record_order-Follows s.next_order_id req s' filed))
      | inr e ↦ rw e (record_order-Follows req.order_id req s filed)
    ]

    pub send_order-Follows :
        (req : OrderReq D) (s : Api D) → IsFiled s → Follows s (second_or s (send_order q req s))
    unfolding send_order
    send_order-Follows req s filed = elim (Result-cases (generate_contract req.symbol)) [
      | inr (e, bad) ↦ rw (bad, ◌>>=◌) (quiet s s filed refl refl)
      | inl (c, good) ↦ elim (Result-cases (generate_ib_order q req)) [
        | inr (e, bad) ↦ rw (good, bad, ◌>>=◌) (quiet s s filed refl refl)
        | inl (o, built) ↦
            rw (good, built, ◌>>=◌)
              (around s s (record_order (take_order_id req s).0 req (take_order_id req s).1) _ refl
                refl refl refl (recorded req s filed))
      ]
    ]
