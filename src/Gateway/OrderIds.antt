-- ===== src/Gateway/OrderIds.antt =====
-- The order ids that lib/gateway/gateway.cpp gives out.
use calm_trading_system.Base.{
  ℤ, pos, ℤ_eq, beq_ℤ_iff, ◌+ℤ◌, ◌≤ℤ◌, int_laws, parts, string_eq, ◌≤◌, ◌≡◌, refl, sym, ap, ◌∙◌,
  Bool-cases, Option-cases, inl, inr, List, [], ◌∷◌, ◌++◌, none, some, arith, Map, lookup, insert,
  ◌==◌,
}
use calm_trading_system.Objects.{OrderData}
use calm_trading_system.Gateway.{ClientCall, place_order, Api, on_order}
use calm_trading_system.Gateway.Orders.{update_order}

-- Rising numbers from the first bound on, and below the second.
abbrev pub IsRising : ℤ → List ℤ → ℤ → Type 0
IsRising lo [] hi = lo ≤ℤ hi
IsRising lo (x ∷ xs) hi = (lo ≤ℤ x) × IsRising (x +ℤ pos 1) xs hi

IsRising-raise : (lo hi top : ℤ) (xs : List ℤ) → IsRising lo xs hi → hi ≤ℤ top → IsRising lo xs top
IsRising-raise lo hi top [] h k = omega (int_laws, h, k)
IsRising-raise lo hi top (x ∷ xs) h k = (h.0, IsRising-raise (x +ℤ pos 1) hi top xs h.1 k)

pub IsRising-next :
    (lo hi : ℤ) (xs : List ℤ) → IsRising lo xs hi → IsRising lo (xs ++ hi ∷ []) (hi +ℤ pos 1)
IsRising-next lo hi [] h = (h, omega int_laws)
IsRising-next lo hi (x ∷ xs) h = (h.0, IsRising-next (x +ℤ pos 1) hi xs h.1)

IsRising-bounds : (lo hi : ℤ) (xs : List ℤ) → IsRising lo xs hi → lo ≤ℤ hi
IsRising-bounds lo hi [] h = h
IsRising-bounds lo hi (x ∷ xs) h = omega (int_laws, h.0, IsRising-bounds (x +ℤ pos 1) hi xs h.1)

abbrev pub ids {ℓ} : {V : Type ℓ} → Map ℤ V → List ℤ
ids [] = []
ids ((k, v) ∷ m) = k ∷ ids m

pub IsRising-unused {ℓ} :
    {V : Type ℓ} (lo hi : ℤ) (m : Map ℤ V) → IsRising lo (ids m) hi → lookup hi m ≡ none
unfolding lookup
IsRising-unused lo hi [] h = refl
IsRising-unused lo hi ((k, v) ∷ m) h = elim (Bool-cases (hi == k)) [
  | inl same ↦
      let no : 1 ≤ 0 =
        omega (
          int_laws,
          IsRising-bounds (k +ℤ pos 1) hi (ids m) h.1,
          parts ((beq_ℤ_iff hi k).0 same),
        ) in
      ground arith
  | inr other ↦ rw other (IsRising-unused (k +ℤ pos 1) hi m h.1)
]

ids-insert_known {ℓ} :
    {V : Type ℓ} (k : ℤ) (old v : V) (m : Map ℤ V)
    → lookup k m ≡ some old
    → ids (insert k v m) ≡ ids m
unfolding lookup insert
ids-insert_known k old v [] h = cc
ids-insert_known k old v ((j, w) ∷ m) h = elim (Bool-cases (k == j)) [
  | inl same ↦ rw same (ap (λ i. i ∷ ids m) ((beq_ℤ_iff k j).0 same))
  | inr other ↦ rw other (ap (λ l. j ∷ l) (ids-insert_known k old v m (ground arith)))
]

pub ids-insert_new {ℓ} :
    {V : Type ℓ} (k : ℤ) (v : V) (m : Map ℤ V)
    → lookup k m ≡ none
    → ids (insert k v m) ≡ ids m ++ k ∷ []
unfolding lookup insert
ids-insert_new k v [] h = refl
ids-insert_new k v ((j, w) ∷ m) h = elim (Bool-cases (k == j)) [
  | inl same ↦ ground arith
  | inr other ↦ rw other (ap (λ l. j ∷ l) (ids-insert_new k v m (ground arith)))
]

module _ {D : Type 0} where
  -- The ids of the orders that the client library was asked to place.
  abbrev pub ordered : List (ClientCall D) → List ℤ
  ordered [] = []
  ordered (place_order id c o ∷ cs) = id ∷ ordered cs
  ordered (_ ∷ cs) = ordered cs

  pub ordered-append : (xs ys : List (ClientCall D)) → ordered (xs ++ ys) ≡ ordered xs ++ ordered ys
  ordered-append [] ys = refl
  ordered-append (place_order id c o ∷ xs) ys = ap (λ l. id ∷ l) (ordered-append xs ys)
  ordered-append (_ ∷ xs) ys = ordered-append xs ys

  -- The orders that are kept are those placed, in this order, with rising ids below the next one.
  pub record AreNumbered (lo : ℤ) (s : Api D) : Type 0 where
    pub kept : ids s.orders ≡ ordered s.calls
    pub rising : IsRising lo (ordered s.calls) s.next_order_id

  pub same-AreNumbered :
      (lo : ℤ) (s t : Api D)
      → ids t.orders ≡ ids s.orders
      → ordered t.calls ≡ ordered s.calls
      → s.next_order_id ≤ℤ t.next_order_id
      → AreNumbered lo s
      → AreNumbered lo t
  same-AreNumbered lo s t o c n k = record {
    kept = o ∙ k.kept ∙ sym c;
    rising = IsRising-raise lo s.next_order_id t.next_order_id (ordered t.calls) (rw c k.rising) n;
  }

  pub update_order-ids :
      (id : ℤ) (change : OrderData D → OrderData D) (s : Api D)
      → ids (update_order id change s).orders ≡ ids s.orders
  unfolding update_order on_order
  update_order-ids id change s = elim (Option-cases (lookup id s.orders)) [
    | inl none_such ↦ rw (update_order, none_such) refl
    | inr (o, found) ↦ rw (update_order, found) (ids-insert_known id o (change o) s.orders found)
  ]
