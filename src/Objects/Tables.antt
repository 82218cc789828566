-- ===== src/Objects/Tables.antt =====
-- The tables of lib/objects/enums.cpp and their inverses.
use calm_trading_system.Base.{
  Option-cases, String, string_eq, ◌≡◌, refl, ◌≢◌, ◌⊎◌, inl, inr, ◌↔◌, Bool, true, not, ◌&&◌, some,
  none, [], ◌∷◌, arith, Eq, ◌==◌, Map, lookup, insert, lookup-insert, All,
}
use calm_trading_system.Objects.Enums.{
  Action, buy, sell, OrderType, limit, market, OrderStatus, action_eq, order_type_eq,
  order_status_eq, invert_kv, invert_from, action_to_ib, action_to_calm, order_type_to_ib,
  order_type_to_calm, order_status_to_ib, order_status_to_calm,
}

-- No two entries of a table have the same key, nor the same value.
abbrev pub IsOneToOne {ℓ κ} : {K : Type ℓ} {V : Type κ} → Map K V → Type (ℓ ⊔ κ)
IsOneToOne [] = Unit
IsOneToOne (x ∷ m) = All (λ y. (x.0 ≢ y.0) × (x.1 ≢ y.1)) m × IsOneToOne m

module _ {ℓ κ} {K : Type ℓ} {V : Type κ} ⦃eK : Eq K⦄ ⦃eV : Eq V⦄ where
  lookup-invert_from_absent :
      (v : V) (vk : Map V K) (kv : Map K V)
      → All (λ y. v ≢ y.1) kv
      → lookup v (invert_from vk kv) ≡ lookup v vk
  unfolding invert_from
  lookup-invert_from_absent v vk [] h = refl
  lookup-invert_from_absent v vk ((k, w) ∷ kv) h = ground (
    arith,
    lookup-invert_from_absent v (insert w k vk) kv h.1,
    lookup-insert w v k vk,
    eV.beq_iff v w,
  )

  lookup_absent : (k : K) (kv : Map K V) → All (λ y. k ≢ y.0) kv → lookup k kv ≡ none
  unfolding lookup
  lookup_absent k [] h = refl
  lookup_absent k ((j, w) ∷ kv) h = ground (arith, lookup_absent k kv h.1, eK.beq_iff k j)

  values_differ :
      (k : K) (v : V) (kv : Map K V) → All (λ y. (k ≢ y.0) × (v ≢ y.1)) kv → All (λ y. v ≢ y.1) kv
  values_differ k v [] h = tt
  values_differ k v (y ∷ kv) h = (h.0.1, values_differ k v kv h.1)

  keys_differ :
      (k : K) (v : V) (kv : Map K V) → All (λ y. (k ≢ y.0) × (v ≢ y.1)) kv → All (λ y. k ≢ y.0) kv
  keys_differ k v [] h = tt
  keys_differ k v (y ∷ kv) h = (h.0.0, keys_differ k v kv h.1)

  lookup-invert_from :
      (k : K) (v : V) (vk : Map V K) (kv : Map K V)
      → IsOneToOne kv
      → lookup k kv ≡ some v
      → lookup v (invert_from vk kv) ≡ some k
  unfolding invert_from lookup
  lookup-invert_from k v vk [] h e = cc
  lookup-invert_from k v vk ((j, w) ∷ kv) h e = ground (
    arith,
    eK.beq_iff k j,
    lookup-invert_from k v (insert w j vk) kv h.1,
    lookup-invert_from_absent w (insert w j vk) kv (values_differ j w kv h.0),
    lookup-insert w w j vk,
    eV.beq_iff w w,
  )

  lookup_of_invert_from :
      (k : K) (v : V) (vk : Map V K) (kv : Map K V)
      → IsOneToOne kv
      → lookup v (invert_from vk kv) ≡ some k
      → (lookup k kv ≡ some v) ⊎ (lookup v vk ≡ some k)
  unfolding invert_from lookup
  lookup_of_invert_from k v vk [] h e = inr e
  lookup_of_invert_from k v vk ((j, w) ∷ kv) h e = ground (
    arith,
    eK.beq_iff k j,
    eV.beq_iff v w,
    lookup_of_invert_from k v (insert w j vk) kv h.1 e,
    lookup_absent j kv (keys_differ j w kv h.0),
    lookup-insert w v j vk,
  )

  pub invert_kv_iff :
      (kv : Map K V) (k : K) (v : V)
      → IsOneToOne kv
      → (lookup k kv ≡ some v) ↔ (lookup v (invert_kv kv) ≡ some k)
  unfolding invert_kv lookup
  invert_kv_iff kv k v h = (
    lookup-invert_from k v [] kv h,
    λ e. elim (lookup_of_invert_from k v [] kv h e) [ inl p ↦ p | inr p ↦ cc ],
  )

  -- The same as tests, which run on the tables.
  abbrev apart : K × V → Map K V → Bool
  apart x [] = true
  apart x (y ∷ m) = (not (x.0 == y.0) && not (x.1 == y.1)) && apart x m

  abbrev is_one_to_one : Map K V → Bool
  is_one_to_one [] = true
  is_one_to_one (x ∷ m) = apart x m && is_one_to_one m

  apart-All : (x : K × V) (m : Map K V) → apart x m ≡ true → All (λ y. (x.0 ≢ y.0) × (x.1 ≢ y.1)) m
  apart-All x [] h = tt
  apart-All x (y ∷ m) h = (
    (λ p. ground (arith, eK.beq_iff x.0 y.0), λ p. ground (arith, eV.beq_iff x.1 y.1)),
    apart-All x m (ground arith),
  )

  IsOneToOne-of_test : (m : Map K V) → is_one_to_one m ≡ true → IsOneToOne m
  IsOneToOne-of_test [] h = tt
  IsOneToOne-of_test (x ∷ m) h = (apart-All x m (ground arith), IsOneToOne-of_test m (ground arith))

-- For each of the three tables (actions, order types, order statuses), an enumerator has a word in the table to IB exactly
-- when the table back has the enumerator at that word.
pub tables_round_trip :
    ((a : Action) (w : String)
      → (lookup a action_to_ib ≡ some w) ↔ (lookup w action_to_calm ≡ some a))
    × ((t : OrderType) (w : String)
        → (lookup t order_type_to_ib ≡ some w) ↔ (lookup w order_type_to_calm ≡ some t))
    × ((s : OrderStatus) (w : String)
        → (lookup s order_status_to_ib ≡ some w) ↔ (lookup w order_status_to_calm ≡ some s))
unfolding action_to_calm order_type_to_calm order_status_to_calm action_to_ib order_type_to_ib
    order_status_to_ib
tables_round_trip = (
  λ a w. invert_kv_iff action_to_ib a w (IsOneToOne-of_test action_to_ib refl),
  λ t w. invert_kv_iff order_type_to_ib t w (IsOneToOne-of_test order_type_to_ib refl),
  λ s w. invert_kv_iff order_status_to_ib s w (IsOneToOne-of_test order_status_to_ib refl),
)

-- Every value has a word.
pub action_word : (a : Action) → (w : String) × (lookup a action_to_ib ≡ some w)
unfolding action_to_ib lookup
action_word buy = ("BUY", refl)
action_word sell = ("SELL", refl)

pub order_type_word : (t : OrderType) → (w : String) × (lookup t order_type_to_ib ≡ some w)
unfolding order_type_to_ib lookup
order_type_word limit = ("LMT", refl)
order_type_word market = ("MKT", refl)

pub order_status_word : (s : OrderStatus) → (w : String) × (lookup s order_status_to_ib ≡ some w)
unfolding order_status_to_ib lookup
order_status_word s = elim (Option-cases (lookup s order_status_to_ib)) [
  | inl absent ↦ ground arith
  | inr (w, there) ↦ (w, there)
]
