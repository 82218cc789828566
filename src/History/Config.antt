-- ===== src/History/Config.antt =====
-- `generate_reqs` and `log_status` of lib/data/historical_data.cpp.
use calm_trading_system.Base.{
  ℕ, String, string_eq, nat_eq, ◌==◌, List, [], ◌∷◌, Option, Result, ok, err, undefined_behaviour,
  Map, ◌>>=◌, if◌then◌else◌,
}
use Prim.Native.Char.{Char, code}
use calm_trading_system.Utils.{◌&◌}
use calm_trading_system.Yaml.{Document, as_value}
use calm_trading_system.History.{HistBarReq, HistBarStatus, in_prog, success, error}

-- `std::replace` over a text.
unfoldable pub replace : ℕ → Char → String → String
replace old new String.[] = ""
replace old new (String.◌∷◌ c s) = String.◌∷◌ (if code c == old then new else c) (replace old new s)

unfoldable pub clean : String → String
unfolding replace
clean s = replace b':' "_" (replace b' ' "_" s)

-- `fmt::format("{}/{}-{}/{}-{}.csv", ...)`
unfoldable pub save_path : String → String → String → String → String → String
save_path root_path name type start_clean end_clean =
    root_path & "/" & name & "-" & type & "/" & start_clean & "-" & end_clean & ".csv"

-- The loop over the downloads.
unfoldable pub add_downloads :
    String
    → String
    → String
    → String
    → String
    → List (Option String × Option String)
    → Result (List HistBarReq)
unfolding clean save_path
add_downloads root_path start end timezone type [] = ok []
add_downloads root_path start end timezone type ((first, second) ∷ downloads) = do
  name ← as_value first
  symbol ← as_value second
  rest ← add_downloads root_path start end timezone type downloads
  ok (
      (record {
        symbol = symbol;
        start = start;
        end = end;
        tz = timezone;
        wts = type;
        save_path = save_path root_path name type (clean start) (clean end);
      })
      ∷ rest)

module _ {D : Type 0} where
  unfoldable pub generate_reqs : Document D → Result (List HistBarReq)
  unfolding add_downloads
  generate_reqs cfg = do
    root_path ← as_value (cfg.texts "root_folder")
    start ← as_value (cfg.texts "start")
    end ← as_value (cfg.texts "end")
    timezone ← as_value (cfg.texts "timezone")
    type ← as_value (cfg.texts "type")
    add_downloads root_path start end timezone type (cfg.text_entries "downloads")

-- `static_cast<int>(v)`
abbrev pub status_number : HistBarStatus → String
status_number in_prog = "0"
status_number success = "1"
status_number error = "2"

-- The loop of `log_status`.
unfoldable pub status_text : Map String HistBarStatus → String
status_text [] = ""
status_text ((k, v) ∷ status) = k & ":" & status_number v & ", " & status_text status

-- On an empty text C++ promises nothing.
unfoldable pub pop_back : String → Result String
pop_back String.[] = err undefined_behaviour
pop_back (String.◌∷◌ c String.[]) = ok ""
pop_back (String.◌∷◌ c (String.◌∷◌ e s)) = do
  rest ← pop_back (String.◌∷◌ e s)
  ok (String.◌∷◌ c rest)

-- What `log_status` logs after its fixed words.
unfoldable pub log_status : Map String HistBarStatus → Result String
unfolding status_text pop_back
log_status status = do status_str ← pop_back (status_text status); pop_back status_str
