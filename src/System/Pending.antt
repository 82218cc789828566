-- ===== src/System/Pending.antt =====
-- The reports of orders on their way from the gateway to the portfolio.
use calm_trading_system.Base.{
  ℤ, ℤ_eq, beq_ℤ_iff, String, string_eq, eq_iff, ◌≡◌, refl, sym, ap, ◌∙◌, true, false, ◌&&◌, ◌==◌,
  Bool-cases, inl, inr, List, [], ◌∷◌, ◌++◌, Option, none, some, arith, lookup, All, length, drop,
  if◌then◌else◌,
}
use calm_trading_system.Objects.{OrderData, Event, engine_stop, order}
use calm_trading_system.Gateway.{Api}
use calm_trading_system.Gateway.Book.{IsCurrent, Follows, latest}
use calm_trading_system.Portfolio.{Portfolio, entry}

module _ {D : Type 0} where
  -- The order of `algo` with an id, brought up to date by a list of events.
  abbrev pub pending : String → ℤ → List (Event D) → Option (OrderData D) → Option (OrderData D)
  pending algo id [] old = old
  pending algo id (order o ∷ es) old =
      pending algo id es (if (algo == o.source) && (id == o.order_id) then some o else old)
  pending algo id (_ ∷ es) old = pending algo id es old

  -- The order as the portfolio has it.
  abbrev pub in_portfolio : String → ℤ → Portfolio D → Option (OrderData D)
  in_portfolio algo id p = lookup id (entry algo p.active_orders)

  abbrev pub from_source : String → Option (OrderData D) → Option (OrderData D)
  from_source algo none = none
  from_source algo (some o) = if algo == o.source then some o else none

  -- The order as the gateway has it.
  abbrev pub in_gateway : String → ℤ → Api D → Option (OrderData D)
  in_gateway algo id s = from_source algo (lookup id s.orders)

  pub pending-append :
      (algo : String) (id : ℤ) (es fs : List (Event D)) (old : Option (OrderData D))
      → pending algo id (es ++ fs) old ≡ pending algo id fs (pending algo id es old)
  pending-append algo id [] fs old = refl
  pending-append algo id (order o ∷ es) fs old = pending-append algo id es fs _
  pending-append algo id (engine_stop ∷ es) fs old = pending-append algo id es fs old
  pending-append algo id (_ ∷ es) fs old = pending-append algo id es fs old

  -- Every report of the id in a list is the one that stands in the end.
  abbrev AreFinal : ℤ → Option (OrderData D) → List (Event D) → Type 0
  AreFinal id last [] = Unit
  AreFinal id last (order o ∷ es) = (o.order_id ≡ id → last ≡ some o) × AreFinal id last es
  AreFinal id last (_ ∷ es) = AreFinal id last es

  -- A report in the end, and one before it, if any, are of the same source.
  abbrev IsKept : Option (OrderData D) → Option (OrderData D) → Type 0
  IsKept none last = Unit
  IsKept (some o) last = (p : OrderData D) × (last ≡ some p) × (p.source ≡ o.source)

  report_here :
      (algo : String) (id : ℤ) (o : OrderData D) (old last : Option (OrderData D))
      → (id == o.order_id) ≡ true
      → last ≡ some o
      → IsKept old last
      → (if (algo == o.source) && (id == o.order_id) then some o else from_source algo old)
        ≡ from_source algo (some o)
  report_here algo id o none last h e k = ground arith
  report_here algo id o (some r) last h e (p, stands, same) =
      let own : p ≡ o = cc (stands, e) in
      let source : o.source ≡ r.source = ap (λ x. x.source) (sym own) ∙ same in
      ground (arith, eq_iff algo o.source, eq_iff algo r.source)

  report_elsewhere :
      (algo : String) (id : ℤ) (o : OrderData D) (old : Option (OrderData D))
      → (id == o.order_id) ≡ false
      → (if (algo == o.source) && (id == o.order_id) then some o else old) ≡ old
  report_elsewhere algo id o old h = ground arith

  pending-latest :
      (algo : String) (id : ℤ) (es : List (Event D)) (old last : Option (OrderData D))
      → AreFinal id last es
      → IsKept old last
      → pending algo id es (from_source algo old) ≡ from_source algo (latest id es old)
  pending-latest algo id [] old last f k = refl
  pending-latest algo id (order o ∷ es) old last f k = elim (Bool-cases (id == o.order_id)) [
    | inl here ↦
        let stands : last ≡ some o = f.0 (ground (arith, beq_ℤ_iff id o.order_id)) in
        ap (pending algo id es) (report_here algo id o old last here stands k)
        ∙ pending-latest algo id es (some o) last f.1 (o, stands, refl)
        ∙ ap (λ b. from_source algo (latest id es (if b then some o else old))) (sym here)
    | inr other ↦
        ap (pending algo id es) (report_elsewhere algo id o (from_source algo old) other)
        ∙ pending-latest algo id es old last f.1 k
        ∙ ap (λ b. from_source algo (latest id es (if b then some o else old))) (sym other)
  ]
  pending-latest algo id (engine_stop ∷ es) old last f k = pending-latest algo id es old last f k
  pending-latest algo id (_ ∷ es) old last f k = pending-latest algo id es old last f k

  AreFinal-current :
      (id : ℤ) (s : Api D) (es : List (Event D))
      → All (IsCurrent s) es
      → AreFinal id (lookup id s.orders) es
  AreFinal-current id s [] c = tt
  AreFinal-current id s (order o ∷ es) c =
      (λ e. ap (λ i. lookup i s.orders) (sym e) ∙ c.0, AreFinal-current id s es c.1)
  AreFinal-current id s (engine_stop ∷ es) c = AreFinal-current id s es c.1
  AreFinal-current id s (_ ∷ es) c = AreFinal-current id s es c.1

  -- What the gateway publishes brings its orders up to date for each algo.
  pub in_gateway-Follows :
      (algo : String) (id : ℤ) (s t : Api D) (f : Follows s t)
      → in_gateway algo id t ≡ pending algo id f.news (in_gateway algo id s)
  in_gateway-Follows algo id s t f =
      ap (from_source algo) (f.complete id)
      ∙ sym (
          pending-latest algo id f.news (lookup id s.orders) (lookup id t.orders)
            (AreFinal-current id t f.news f.current) (kept (lookup id s.orders) refl))
    where
      kept :
          (old : Option (OrderData D)) → lookup id s.orders ≡ old → IsKept old (lookup id t.orders)
      kept none e = tt
      kept (some o) e = let l = f.lasting id o e in (l.0, l.1, l.2.same_source)

  pub drop-append : (xs ys : List (Event D)) → drop (length xs) (xs ++ ys) ≡ ys
  drop-append [] ys = refl
  drop-append (x ∷ xs) ys = drop-append xs ys
