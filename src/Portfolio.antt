-- ===== src/Portfolio.antt =====
-- lib/core/portfolio.h and lib/core/portfolio.cpp: positions, costs and profit of each algo. An
-- absent entry of a map reads as its default, as `operator[]` has it.
pub mod Ledger
pub mod Booking
pub mod Postings
pub mod Machine
pub mod Kept
pub mod Effects
pub mod Runs
pub mod Unpriced
pub mod Profit
use calm_trading_system.Base.{
  ℤ, ℤ_eq, String, string_eq, nat_eq, Bool, true, false, ◌||◌, ◌==◌, List, [], ◌∷◌, ◌++◌, Option,
  none, some, Map, lookup, insert, contains, if◌then◌else◌,
}
use calm_trading_system.Double.{Double, ◌⊕◌, ◌⊖◌, ◌⊗◌}
use calm_trading_system.Utils.{is_unset_double}
use calm_trading_system.Objects.{
  OrderData, TickData, Timer, Event, algo_pnl, total_pnl, order, timer,
}
use calm_trading_system.Objects.Enums.{Action, buy, sell}
use calm_trading_system.Queue.{wait_push, try_pop}
use calm_trading_system.Market.{LastTicks, get_last_tick}

pub record ContractPos (D : Type 0) : Type 0 where
  pub symbol : String
  pub position : D
  pub cost : D

pub record Portfolio (D : Type 0) : Type 0 where
  pub running : Bool
  pub q : List (Event D)
  pub algo_portfolio : Map String (Map String (ContractPos D))
  pub mktd_mapping : Map String (Map String String)
  pub algo_pnl : Map String D
  pub active_orders : Map String (Map ℤ (OrderData D))
  pub total_pnl : D

-- `m[k]`, where the value is a map.
abbrev pub entry {ℓ} : {V : Type ℓ} → String → Map String (List V) → List V
entry k m = elim (lookup k m) [ none ↦ [] | some v ↦ v ]

-- `m[k];`, which makes an empty entry where there is none.
abbrev pub touch {ℓ} : {V : Type ℓ} → String → Map String (List V) → Map String (List V)
touch k m = if contains k m then m else insert k [] m

module _ {D : Type 0} where
  unfoldable pub start : Portfolio D → Portfolio D
  start p = if p.running then p else record p { running = true }

  unfoldable pub stop : Portfolio D → Portfolio D
  stop p = if p.running then record p { running = false } else p

  unfoldable pub add_market_data_mapping : String → String → String → Portfolio D → Portfolio D
  add_market_data_mapping algo order_symbol market_symbol p = if p.running then p else (record p {
    mktd_mapping =
        insert algo (insert order_symbol market_symbol (entry algo p.mktd_mapping)) p.mktd_mapping;
  })

  unfoldable pub get_total_pnl : Portfolio D → D
  get_total_pnl p = p.total_pnl

  -- Both `event_engine_order_data_cb` and `event_engine_timer_cb`.
  unfoldable pub event_engine_cb : Event D → Portfolio D → Portfolio D
  unfolding wait_push
  event_engine_cb e p = record p { q = wait_push e p.q }

module _ {D : Type 0} ⦃d : Double D⦄ where
  abbrev pub init : Portfolio D
  init = record {
    running = false;
    q = [];
    algo_portfolio = [];
    mktd_mapping = [];
    algo_pnl = [];
    active_orders = [];
    total_pnl = d.zero;
  }

  abbrev pub no_position : ContractPos D
  no_position = record { symbol = ""; position = d.zero; cost = d.zero }

  abbrev pub position_in : String → Map String (ContractPos D) → ContractPos D
  position_in symbol port = elim (lookup symbol port) [ none ↦ no_position | some c ↦ c ]

  unfoldable pub add_to_portfolio : String → String → Portfolio D → Portfolio D
  add_to_portfolio algo symbol p =
      if p.running
      then p
      else (let port = entry algo p.algo_portfolio in
          record p {
            algo_portfolio =
                insert algo (insert symbol (position_in symbol port) port) p.algo_portfolio;
          })

  -- `algo_pnl[algo]`, which makes an entry where there is none.
  unfoldable pub get_algo_pnl : String → Portfolio D → D × Portfolio D
  get_algo_pnl algo p = elim (lookup algo p.algo_pnl) [
    | none ↦ (d.zero, record p { algo_pnl = insert algo d.zero p.algo_pnl })
    | some v ↦ (v, p)
  ]

  -- The changes of quantity, cost and commission since the order's last report.
  unfoldable pub change_qty : OrderData D → Option (OrderData D) → D
  change_qty o none = o.traded_quantity
  change_qty o (some old) = o.traded_quantity ⊖ old.traded_quantity

  unfoldable pub change_cost : OrderData D → Option (OrderData D) → D
  change_cost o none = o.traded_quantity ⊗ o.avg_trade_price
  change_cost o (some old) =
      (o.traded_quantity ⊗ o.avg_trade_price) ⊖ (old.traded_quantity ⊗ old.avg_trade_price)

  unfoldable pub change_comm : OrderData D → Option (OrderData D) → D
  change_comm o none = o.commission
  change_comm o (some old) = o.commission ⊖ old.commission

  -- `if (data->action == Action::sell) x *= -1;`
  unfoldable pub by_action : Action → D → D
  by_action buy x = x
  by_action sell x = x ⊗ d.minus_one

  unfoldable pub order_data_cb : OrderData D → Portfolio D → Portfolio D
  unfolding change_qty change_cost change_comm by_action
  order_data_cb o p =
      let algo_orders = entry o.source p.active_orders in
      let old_order = lookup o.order_id algo_orders in
      let port = entry o.source p.algo_portfolio in
      let c = position_in o.symbol port in
      let c' : ContractPos D = record c {
        position = c.position ⊕ by_action o.action (change_qty o old_order);
        cost = (c.cost ⊕ by_action o.action (change_cost o old_order)) ⊕ change_comm o old_order;
      } in
      record p {
        active_orders = insert o.source (insert o.order_id o algo_orders) p.active_orders;
        algo_portfolio = insert o.source (insert o.symbol c' port) p.algo_portfolio;
      }

  -- The inner loop of `timer_cb`.
  unfoldable pub pnl_of : LastTicks D → Map String String → Map String (ContractPos D) → D → D
  pnl_of last_ticks mapping [] pnl = pnl
  pnl_of last_ticks mapping ((sym, c) ∷ port) pnl =
      let mkt_sym : String = elim (lookup sym mapping) [ none ↦ sym | some s ↦ s ] in
      pnl_of last_ticks mapping port (elim (get_last_tick mkt_sym last_ticks) [
        | none ↦ d.dbl_max
        | some t ↦
            if is_unset_double pnl then d.dbl_max else pnl ⊕ ((c.position ⊗ t.last_price) ⊖ c.cost)
      ])

  unfoldable pub fx_rate : String → D
  fx_rate algo = d.one

  unfoldable pub add_total : D → D → String → D
  unfolding fx_rate
  add_total total pnl algo =
      if is_unset_double pnl || is_unset_double total
      then d.dbl_max
      else total ⊕ (pnl ⊗ fx_rate algo)

  -- The outer loop, which also makes the entries that it reads.
  unfoldable pub revalue :
      LastTicks D → Map String (Map String (ContractPos D)) → Portfolio D → Portfolio D
  unfolding pnl_of add_total
  revalue last_ticks [] p = p
  revalue last_ticks ((algo, port) ∷ ports) p =
      let pnl = pnl_of last_ticks (entry algo p.mktd_mapping) port d.zero in
      revalue last_ticks ports (record p {
        algo_pnl = insert algo pnl p.algo_pnl;
        total_pnl = add_total p.total_pnl pnl algo;
        active_orders = touch algo p.active_orders;
        mktd_mapping = touch algo p.mktd_mapping;
      })

  abbrev pub pnl_events : Timer → Map String D → List (Event D)
  pnl_events t [] = []
  pnl_events t ((algo, pnl) ∷ m) =
      Event.algo_pnl (record { algo = algo; pnl = pnl; timestamp = t.timestamp }) ∷ pnl_events t m

  -- The events are what is sent to the event engine.
  unfoldable pub timer_cb : LastTicks D → Timer → Portfolio D → Portfolio D × List (Event D)
  unfolding revalue
  timer_cb last_ticks t p =
      let p' = revalue last_ticks p.algo_portfolio (record p { total_pnl = d.zero }) in
      (
        p',
        if (t.sec == 30) || (t.sec == 0)
            then pnl_events t p'.algo_pnl
              ++ (Event.total_pnl (record { pnl = p'.total_pnl; timestamp = t.timestamp }) ∷ [])
            else [],
      )

  -- One round of `run_actions` while it runs. The result of `try_pop` is not looked at: when the time
  -- runs out, `event` is handled again.
  unfoldable pub dispatch : LastTicks D → Event D → Portfolio D → Portfolio D × List (Event D)
  unfolding order_data_cb timer_cb
  dispatch last_ticks (order o) p = (order_data_cb o p, [])
  dispatch last_ticks (timer t) p = timer_cb last_ticks t p
  dispatch last_ticks _ p = (p, [])

  unfoldable pub action_round :
      LastTicks D → Event D → Portfolio D → Event D × Portfolio D × List (Event D)
  unfolding dispatch try_pop
  action_round last_ticks event p =
      let (_, event', rest) = try_pop event p.q in
      let (p', sent) = dispatch last_ticks event' (record p { q = rest }) in (event', p', sent)
