-- ===== src/Objects/Enums.antt =====
-- lib/objects/enums.h and lib/objects/enums.cpp: the enumerations and the tables to and from the
-- words of Interactive Brokers.
use calm_trading_system.Base.{
  ℕ, String, string_eq, ◌≡◌, ◌↔◌, true, [], ◌∷◌, arith, nat_beq, Eq, Map, insert,
}

pub data Action : Type 0 where
  buy sell : Action

pub data OrderType : Type 0 where
  limit market : OrderType

pub data OrderStatus : Type 0 where
  pending_submit pending_cancel pre_submitted submitted : OrderStatus
  api_cancelled cancelled filled inactive : OrderStatus

pub data EventType : Type 0 where
  event_engine_stop event_engine_test event_engine_test_1 : EventType
  tick_data order_data ib_err_msg hist_bar hist_bar_end : EventType
  timer algo_pos_update algo_pnl total_pnl : EventType

-- `enum_to_integral` at each enumeration: the place of the enumerator.
abbrev pub action_to_integral : Action → ℕ
action_to_integral buy = 0
action_to_integral sell = 1

abbrev pub order_type_to_integral : OrderType → ℕ
order_type_to_integral limit = 0
order_type_to_integral market = 1

abbrev pub order_status_to_integral : OrderStatus → ℕ
order_status_to_integral pending_submit = 0
order_status_to_integral pending_cancel = 1
order_status_to_integral pre_submitted = 2
order_status_to_integral submitted = 3
order_status_to_integral api_cancelled = 4
order_status_to_integral cancelled = 5
order_status_to_integral filled = 6
order_status_to_integral inactive = 7

abbrev pub event_type_to_integral : EventType → ℕ
event_type_to_integral event_engine_stop = 0
event_type_to_integral event_engine_test = 1
event_type_to_integral event_engine_test_1 = 2
event_type_to_integral tick_data = 3
event_type_to_integral order_data = 4
event_type_to_integral ib_err_msg = 5
event_type_to_integral hist_bar = 6
event_type_to_integral hist_bar_end = 7
event_type_to_integral timer = 8
event_type_to_integral algo_pos_update = 9
event_type_to_integral algo_pnl = 10
event_type_to_integral total_pnl = 11

pub action-beq_iff :
    (a b : Action) → (nat_beq (action_to_integral a) (action_to_integral b) ≡ true) ↔ (a ≡ b)
action-beq_iff a b = ground arith

pub order_type-beq_iff :
    (a b : OrderType)
    → (nat_beq (order_type_to_integral a) (order_type_to_integral b) ≡ true) ↔ (a ≡ b)
order_type-beq_iff a b = ground arith

pub order_status-beq_iff :
    (a b : OrderStatus)
    → (nat_beq (order_status_to_integral a) (order_status_to_integral b) ≡ true) ↔ (a ≡ b)
order_status-beq_iff a b = ground arith

pub event_type-beq_iff :
    (a b : EventType)
    → (nat_beq (event_type_to_integral a) (event_type_to_integral b) ≡ true) ↔ (a ≡ b)
event_type-beq_iff a b = ground arith

instance abbrev pub action_eq : Eq Action
action_eq = record {
  beq = λ a b. nat_beq (action_to_integral a) (action_to_integral b);
  beq_iff = action-beq_iff;
}

instance abbrev pub order_type_eq : Eq OrderType
order_type_eq = record {
  beq = λ a b. nat_beq (order_type_to_integral a) (order_type_to_integral b);
  beq_iff = order_type-beq_iff;
}

instance abbrev pub order_status_eq : Eq OrderStatus
order_status_eq = record {
  beq = λ a b. nat_beq (order_status_to_integral a) (order_status_to_integral b);
  beq_iff = order_status-beq_iff;
}

instance abbrev pub event_type_eq : Eq EventType
event_type_eq = record {
  beq = λ a b. nat_beq (event_type_to_integral a) (event_type_to_integral b);
  beq_iff = event_type-beq_iff;
}

-- `invert_kv`: the loop writes `vk[v] = k` for each entry.
module _ {ℓ κ} {K : Type ℓ} {V : Type κ} ⦃e : Eq V⦄ where
  unfoldable pub invert_from : Map V K → Map K V → Map V K
  invert_from vk [] = vk
  invert_from vk ((k, v) ∷ kv) = invert_from (insert v k vk) kv

  unfoldable pub invert_kv : Map K V → Map V K
  unfolding invert_from
  invert_kv kv = invert_from [] kv

unfoldable pub action_to_ib : Map Action String
action_to_ib = (buy, "BUY") ∷ (sell, "SELL") ∷ []

unfoldable pub action_to_calm : Map String Action
unfolding action_to_ib invert_kv
action_to_calm = invert_kv action_to_ib

unfoldable pub order_type_to_ib : Map OrderType String
order_type_to_ib = (limit, "LMT") ∷ (market, "MKT") ∷ []

unfoldable pub order_type_to_calm : Map String OrderType
unfolding order_type_to_ib invert_kv
order_type_to_calm = invert_kv order_type_to_ib

unfoldable pub order_status_to_ib : Map OrderStatus String
order_status_to_ib =
    (pending_submit, "PendingSubmit")
    ∷ (pending_cancel, "PendingCancel")
    ∷ (pre_submitted, "PreSubmitted")
    ∷ (submitted, "Submitted")
    ∷ (api_cancelled, "ApiCancelled")
    ∷ (cancelled, "Cancelled")
    ∷ (filled, "Filled")
    ∷ (inactive, "Inactive")
    ∷ []

unfoldable pub order_status_to_calm : Map String OrderStatus
unfolding order_status_to_ib invert_kv
order_status_to_calm = invert_kv order_status_to_ib
