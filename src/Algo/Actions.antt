-- ===== src/Algo/Actions.antt =====
-- The action thread of lib/algo/algo_engine.cpp: `run_actions` and what it calls.
use calm_trading_system.Base.{
  ℤ, pos, negsuc, ltb_ℤ, ℤ_eq, nat_eq, String, string_eq, Bool, true, false, not, ◌||◌, ◌&&◌, [],
  ◌∷◌, ◌++◌, none, some, Result, ok, err, or_fail, ◌>>=◌, out_of_range, runtime_error,
  undefined_behaviour, lookup, insert, contains, if◌then◌else◌, beq_ℤ,
}
use calm_trading_system.Double.{Double, ◌⊕◌, ◌⊖◌}
use calm_trading_system.Utils.{codes}
use calm_trading_system.Objects.{
  OrderReq, OrderData, PosUpdate, Event, tick, order, timer, pos_update, unset_long,
}
use calm_trading_system.Objects.Enums.{
  Action, buy, sell, action_eq, pending_submit, OrderType, market,
}
use calm_trading_system.Objects.Status.{is_active_order}
use calm_trading_system.Queue.{try_pop}
use calm_trading_system.Gateway.{Decimals}
use calm_trading_system.Trading
use calm_trading_system.Trading.{TradingEngine}
use calm_trading_system.Algo.{AlgoEngine, name, strncpy, push}

-- An action works on the engine and on the trading engine that it calls; an exception ends the
-- program, since `run_actions` catches none.
abbrev pub Acted : Type 0 → Type 0
Acted D = Result (AlgoEngine D × TradingEngine D)

module _ {D : Type 0} ⦃d : Double D⦄ where
  -- The request that `send_order` builds. Its parameter `order_type` is not used.
  abbrev pub request : String → D → OrderReq D
  request symbol quantity = record {
    symbol = symbol;
    exchange = "";
    source = name;
    action = if d.lt quantity d.zero then sell else buy;
    order_type = market;
    quantity = d.abs quantity;
    price = d.dbl_max;
    order_id = unset_long;
  }

  abbrev pub note_order : ℤ → D → OrderReq D → AlgoEngine D → AlgoEngine D
  note_order id quantity req s = record s {
    inflight_order_id = id;
    order_status = insert id pending_submit s.order_status;
    order_data = insert id none s.order_data;
    order_reqs = insert id req s.order_reqs;
    order_target = quantity;
    order_filled = d.zero;
  }

  unfoldable pub send_order :
      Decimals D → String → D → OrderType → AlgoEngine D → TradingEngine D → Acted D
  send_order q symbol quantity order_type s e = do
    (id, e') ← Trading.send_order q (request symbol quantity) e
    ok (if ltb_ℤ (pos 0) id then note_order id quantity (request symbol quantity) s else s, e')

  -- `if (diff >= 1 or diff <= -1)`
  abbrev pub is_due : D → Bool
  is_due diff = d.le d.one diff || d.le diff d.minus_one

  -- While an order is in flight: cancel it once, and queue the request again.
  unfoldable pub defer_pos : PosUpdate D → AlgoEngine D → TradingEngine D → Acted D
  defer_pos p s e =
      let again = pos_update (record p { retry = true }) in
      if not s.order_cancelled
      then (do
        req ← or_fail out_of_range (lookup s.inflight_order_id s.order_reqs)
        ok (
          push again (record s { order_cancelled = true }),
          Trading.cancel_order s.inflight_order_id e,
        ))
      else if not p.retry
      then err runtime_error
      else ok (push again s, e)

  unfoldable pub update_pos_cb : Decimals D → PosUpdate D → AlgoEngine D → TradingEngine D → Acted D
  unfolding defer_pos
  update_pos_cb q p s e =
      if ltb_ℤ (pos 0) s.inflight_order_id
      then defer_pos p s e
      else (let s' : AlgoEngine D = record s { target_pos = p.position } in
          let diff = p.position ⊖ s.curr_pos in
          if is_due diff then send_order q s.order_symbol diff market s' e else ok (s', e))

  -- `is_active_order(status) && !error_code`
  abbrev pub is_active : OrderData D → Bool
  is_active o = is_active_order o.status && beq_ℤ o.error_code (pos 0)

  abbrev pub moved_by : Action → D → D → D
  moved_by buy curr diff = curr ⊕ diff
  moved_by sell curr diff = curr ⊖ diff

  unfoldable pub order_cb : OrderData D → AlgoEngine D → AlgoEngine D
  order_cb o s =
      if contains o.order_id s.order_status
      then (record s {
        curr_pos = moved_by o.action s.curr_pos (o.traded_quantity ⊖ s.order_filled);
        order_filled = o.traded_quantity;
        order_status = insert o.order_id o.status s.order_status;
        order_data = insert o.order_id (some o) s.order_data;
        inflight_order_id = if is_active o then s.inflight_order_id else negsuc 0;
        order_cancelled = if is_active o then s.order_cancelled else false;
      })
      else s

  -- With an id that is not in `order_reqs`, an order type that was never set would be read.
  unfoldable pub tick_cb : AlgoEngine D → Result (AlgoEngine D)
  tick_cb s =
      if ltb_ℤ s.inflight_order_id (pos 0)
      then ok s
      else (do req ← or_fail undefined_behaviour (lookup s.inflight_order_id s.order_reqs); ok s)

  -- `trading_engine.get_last_tick` may be a null pointer, which is not tested. `answers` is whether Redis replies to the
  -- message; where it does not, `publish` throws.
  unfoldable pub timer_cb : Bool → AlgoEngine D → TradingEngine D → Result (AlgoEngine D)
  timer_cb answers s e = do
    t ← or_fail undefined_behaviour (Trading.get_last_tick s.mkt_data_symbol e)
    if answers
        then ok (record s {
          published =
              s.published
              ++ ((
                s.tick_channel,
                record {
                  symbol = strncpy 32 (codes t.symbol);
                  last_price = t.last_price;
                  timestamp = t.timestamp;
                },
              )
                  ∷ []);
        })
        else err runtime_error

  unfoldable pub act : Decimals D → Bool → Event D → AlgoEngine D → TradingEngine D → Acted D
  act q answers (tick _) s e = do s' ← tick_cb s; ok (s', e)
  act q answers (timer _) s e = do s' ← timer_cb answers s e; ok (s', e)
  act q answers (pos_update p) s e = update_pos_cb q p s e
  act q answers (order o) s e = ok (order_cb o s, e)
  act q answers _ s e = ok (s, e)

  -- One round of the loop of `run_actions` while it runs, with the loop's variable.
  unfoldable pub action_round :
      Decimals D
      → Bool
      → Event D
      → AlgoEngine D
      → TradingEngine D
      → Result (Event D × AlgoEngine D × TradingEngine D)
  unfolding try_pop
  action_round q answers event s e =
      let (got, event', rest) = try_pop event s.q in
      let s' : AlgoEngine D = record s { q = rest } in
      if got
      then (do (s'', e') ← act q answers event' s' e; ok (event', s'', e'))
      else ok (event', s', e)
