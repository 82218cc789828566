-- ===== src/Tests/Config.antt =====
-- Configurations that are read, and statuses that are logged.
use calm_trading_system.Base.{
  arith, List, ℤ, negsuc, string_eq, ◌==◌, ◌≡◌, ◌<◌, ◌↔◌, refl, true, false, [], ◌∷◌, none, some,
  ok, map, if◌then◌else◌,
}
use calm_trading_system.Base.{eq_iff}
use calm_trading_system.Double.{ℤ_double}
use calm_trading_system.Yaml.{Document}
use calm_trading_system.History.{success, error}
use calm_trading_system.History.Config.{generate_reqs, log_status}
use calm_trading_system.History.Paths.{Settings, AreDifferent}
use calm_trading_system.History.Files.{one_file_each}
use calm_trading_system.History.{HistBarReq, Texts}
use calm_trading_system.History.Getter.{HistBarGetter, init, out_path}
use calm_trading_system.History.Statuses.{log_status_joins}
use calm_trading_system.Portfolio.{get_total_pnl, get_algo_pnl}
use calm_trading_system.Risk.{RiskManager, check_risk}
use calm_trading_system.Risk.Limits.{construct, last_entry, first_check_iff}
use calm_trading_system.Risk.Check.{IsWithin}
use calm_trading_system.Tests.{new_request, books}

abbrev settings : Settings
settings = record {
  root_path = "hist_data";
  start = "2025-01-03 00:00:00";
  end = "2025-01-10 00:01:05";
  timezone = "UTC";
  type = "TRADES";
  downloads = ("sony", "6758-STK-JPY.TSEJ") ∷ ("toyota", "7203-STK-JPY.TSEJ") ∷ [];
}

abbrev document : Document ℤ
document = record {
  texts = λ key.
      if key == "root_folder"
      then some settings.root_path
      else if key == "start"
      then some settings.start
      else if key == "end"
      then some settings.end
      else if key == "timezone"
      then some settings.timezone
      else if key == "type"
      then some settings.type
      else none;
  numbers = λ key. if key == "total_pnl_lmt" then some (negsuc 999_999) else none;
  counts = λ key. if key == "order_flow_lmt" then some 100 else none;
  text_at = λ path. none;
  whole_at = λ path. none;
  text_entries =
      λ key. if key == "downloads" then map (λ e. (some e.0, some e.1)) settings.downloads else [];
  number_entries =
      λ key. if key == "algo_pnl_lmt" then (some "algo_engine", some (negsuc 999_999)) ∷ [] else [];
}

abbrev texts : Texts
texts = record {
  parse = λ t. if t == settings.start then 0 else 604_865;
  format_utc = λ n. "20250103-00:00:00";
  format_local = λ n. "20250103 00:00:00";
  number = λ n. "7";
}

one_file_each_example :
    (s : HistBarGetter ℤ) × (reqs : List HistBarReq) × (generate_reqs document ≡ ok reqs)
    × (init texts 7 reqs ≡ some s)
    × AreDifferent (map (λ e. out_path e.1 s) settings.downloads)
one_file_each_example =
    let (s, reqs, read, same, made, paths, different, st, en) =
      one_file_each settings document texts 7 (omega arith)
        (record {
          root_folder = refl;
          start_text = refl;
          end_text = refl;
          zone = refl;
          kind = refl;
          entries = refl;
        })
        (((λ e. cc), tt), (tt, tt))
        (
          ((λ e. ground (arith, eq_iff "6758-STK-JPY.TSEJ" "7203-STK-JPY.TSEJ", e)), tt),
          (tt, tt),
        ) in
    (s, reqs, read, made, different)

first_check_iff_example :
    (r : RiskManager ℤ) × (construct document ≡ ok r)
    × (((check_risk new_request books r).0 ≡ true) ↔ (
        (ℤ_double.lt (get_total_pnl books) (negsuc 999_999) ≡ false)
        × IsWithin
            (get_algo_pnl "algo_engine" books).0
            (last_entry "algo_engine" (("algo_engine", negsuc 999_999) ∷ []) none)
        × (0 < 100)))
first_check_iff_example =
    first_check_iff document (("algo_engine", negsuc 999_999) ∷ []) (negsuc 999_999) 100 new_request
      books refl refl refl

log_status_joins_example : log_status (("VOD", success) ∷ ("AAPL", error) ∷ []) ≡ ok "VOD:1, AAPL:2"
log_status_joins_example = log_status_joins (("VOD", success) ∷ ("AAPL", error) ∷ [])
