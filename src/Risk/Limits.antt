-- ===== src/Risk/Limits.antt =====
-- The constructor of lib/core/risk.cpp, and `get_inner_cfg_str`.
use calm_trading_system.Base.{
  sym, subst, ℕ, ◌<◌, ◌≡◌, ◌↔◌, ◌∙◌, refl, ap, true, false, String, string_eq, ◌==◌, List, [], ◌∷◌,
  map, Option, none, some, Result, ok, ◌>>=◌, Map, lookup, insert, lookup-insert, if◌then◌else◌,
}
use calm_trading_system.Double.{Double}
use calm_trading_system.Utils.{◌&◌}
use calm_trading_system.Yaml.{Document, as_value}
use calm_trading_system.Objects.{OrderReq}
use calm_trading_system.Portfolio.{Portfolio, get_total_pnl, get_algo_pnl}
use calm_trading_system.Risk.{RiskManager, check_risk}
use calm_trading_system.Risk.Check.{IsWithin, check_risk_iff}

module _ {D : Type 0} where
  -- The loop over the limits of the algos.
  unfoldable pub read_limits :
      List (Option String × Option D) → Map String D → Result (Map String D)
  read_limits [] limits = ok limits
  read_limits ((first, second) ∷ entries) limits = do
    algo_name ← as_value first
    algo_pnl ← as_value second
    read_limits entries (insert algo_name algo_pnl limits)

  unfoldable pub construct : Document D → Result (RiskManager D)
  unfolding read_limits
  construct cfg = do
    algo_pnl_lmt ← read_limits (cfg.number_entries "algo_pnl_lmt") []
    total_pnl_lmt ← as_value (cfg.numbers "total_pnl_lmt")
    order_flow_lmt ← as_value (cfg.counts "order_flow_lmt")
    ok (record {
      algo_pnl_lmt = algo_pnl_lmt;
      total_pnl_lmt = total_pnl_lmt;
      order_flow_lmt = order_flow_lmt;
      active_orders = [];
    })

  -- The entries of the limits, with a comma before each but the first.
  unfoldable pub limits_string : (D → String) → Map String D → String
  limits_string double [] = ""
  limits_string double ((k, v) ∷ []) = k & ":" & double v
  limits_string double ((k, v) ∷ (j, w) ∷ m) =
      k & ":" & double v & ", " & limits_string double ((j, w) ∷ m)

  unfoldable pub get_inner_cfg_str : (D → String) → (ℕ → String) → RiskManager D → String
  unfolding limits_string
  get_inner_cfg_str double number r =
      "RiskManager cfg - algo_pnl_lmt("
      & limits_string double r.algo_pnl_lmt
      & "), total_pnl_lmt:"
      & double r.total_pnl_lmt
      & ", order_flow_lmt:"
      & number r.order_flow_lmt

  -- The last entry of a name.
  abbrev pub last_entry : String → List (String × D) → Option D → Option D
  last_entry name [] v = v
  last_entry name ((algo, pnl) ∷ entries) v =
      last_entry name entries (if name == algo then some pnl else v)

  read_limits-last :
      (entries : List (String × D)) (limits : Map String D)
      → (m : Map String D) × (read_limits (map (λ e. (some e.0, some e.1)) entries) limits ≡ ok m)
        × ((name : String) → lookup name m ≡ last_entry name entries (lookup name limits))
  unfolding read_limits
  read_limits-last [] limits = (limits, refl, λ name. refl)
  read_limits-last ((algo, pnl) ∷ entries) limits =
      let (m, done, found) = read_limits-last entries (insert algo pnl limits) in
      (
        m,
        done,
        λ name. found name ∙ ap (last_entry name entries) (lookup-insert algo name pnl limits),
      )

module _ {D : Type 0} ⦃d : Double D⦄ where
  -- For a configuration that has all its keys, the constructor succeeds. A first request then passes
  -- `check_risk` exactly when the total profit is not below the configured total, the profit of the request's algo is not below
  -- the last limit that the configuration has for it, if it has one, and the flow limit is not 0.
  pub first_check_iff :
      (cfg : Document D) (entries : List (String × D)) (total : D) (flow : ℕ) (req : OrderReq D)
      (p : Portfolio D)
      → cfg.number_entries "algo_pnl_lmt" ≡ map (λ e. (some e.0, some e.1)) entries
      → cfg.numbers "total_pnl_lmt" ≡ some total
      → cfg.counts "order_flow_lmt" ≡ some flow
      → (r : RiskManager D) × (construct cfg ≡ ok r)
        × (((check_risk req p r).0 ≡ true) ↔ (
            (d.lt (get_total_pnl p) total ≡ false)
            × IsWithin (get_algo_pnl req.source p).0 (last_entry req.source entries none)
            × (0 < flow)))
  unfolding construct lookup
  first_check_iff cfg entries total flow req p limits tot fl =
      let (m, done, found) = read_limits-last entries [] in
      let r : RiskManager D = record {
        algo_pnl_lmt = m;
        total_pnl_lmt = total;
        order_flow_lmt = flow;
        active_orders = [];
      } in
      let passes = (check_risk_iff req p r).0 in
      (
        r,
        rw (limits, done, tot, fl) refl,
        (
          (λ k.
              let c = passes.0 k in
              (c.0, subst (IsWithin (get_algo_pnl req.source p).0) (found req.source) c.1, c.2)),
          (λ k. passes.1 (
            k.0,
            subst (IsWithin (get_algo_pnl req.source p).0) (sym (found req.source)) k.1,
            k.2,
          )),
        ),
      )
