-- ===== src/History.antt =====
-- lib/data/historical_data.h and lib/data/historical_data.cpp: requests for historical bars. Dates are
-- read and written by a library, and numbers by another, so these conversions are arguments; a time is a
-- number of seconds.
pub mod Config
pub mod Paths
pub mod Files
pub mod Statuses
pub mod Chunks
pub mod Getter
pub mod Stuck
pub mod Merging
pub mod Machine
pub mod Counting
pub mod Progress
pub mod Prepared
pub mod Finish
pub mod Order
pub mod Replies
pub mod Sending
pub mod Opening
pub mod Requests
use calm_trading_system.Base.{
  ℕ, zero, suc, ◌+◌, ◌-◌, ◌*◌, ◌/◌, ltb, leb, string_eq, String, Bool, ◌||◌, ◌==◌, List, [], ◌∷◌,
  map, Option, none, some, if◌then◌else◌,
}
use Prim.Native.String

pub record HistBarReq : Type 0 where
  pub symbol : String
  pub start : String
  pub end : String
  pub tz : String
  pub wts : String
  pub save_path : String

pub record IbHistBarReq : Type 0 where
  pub symbol : String
  pub end : String
  pub dur : String
  pub bar_size : String
  pub wts : String

pub data HistBarStatus : Type 0 where
  in_prog success error : HistBarStatus

-- `date::parse("%F %T")`, `date::format` with "%Y%m%d-%T" and with "%Y%m%d %T", and `fmt` of an integer.
pub record Texts : Type 0 where
  pub parse : String → ℕ
  pub format_utc : ℕ → String
  pub format_local : ℕ → String
  pub number : ℕ → String

-- A duration in days or in seconds.
pub data Duration : Type 0 where
  days secs : ℕ → Duration

pub record Chunk : Type 0 where
  pub st : ℕ
  pub en : ℕ
  pub dur : Duration

-- The body of the loop of `generate_ib_reqs`, up to the texts.
unfoldable pub next_chunk : ℕ → ℕ → ℕ → Chunk
next_chunk n st tp_end =
    let en = st + n * 86_400 in
    if ltb en tp_end
    then record { st = st; en = en; dur = days n }
    else if leb 86_400 (tp_end - st)
    then record {
      st = st;
      en = st + (tp_end - st) / 86_400 * 86_400;
      dur = days ((tp_end - st) / 86_400);
    }
    else record { st = st; en = tp_end; dur = secs (tp_end - st) }

-- The loop. `none` is a loop that does not end within the fuel.
unfoldable pub chunk_loop : ℕ → ℕ → ℕ → ℕ → Option (List Chunk)
unfolding next_chunk
chunk_loop zero n st tp_end = none
chunk_loop (suc fuel) n st tp_end =
    let rest = chunk_loop fuel n (next_chunk n st tp_end).en tp_end in
    if ltb st tp_end
    then elim rest [ none ↦ none | some cs ↦ some (next_chunk n st tp_end ∷ cs) ]
    else some []

module _ (x : Texts) where
  unfoldable pub dur_text : Duration → String
  dur_text (days d) = String.◌++◌ (x.number d) " D"
  dur_text (secs s) = String.◌++◌ (x.number s) " S"

  unfoldable pub end_text : String → ℕ → String
  end_text tz en =
      if (tz == "UTC") || (tz == "utc")
      then x.format_utc en
      else String.◌++◌ (x.format_local en) (String.◌++◌ " " tz)

  unfoldable pub ib_req : HistBarReq → Chunk → IbHistBarReq
  unfolding dur_text end_text
  ib_req r c = record {
    symbol = r.symbol;
    end = end_text r.tz c.en;
    dur = dur_text c.dur;
    bar_size = "5 secs";
    wts = r.wts;
  }

  -- A second of the range and one more pass are fuel enough, if windows are not empty.
  unfoldable pub generate_ib_reqs : HistBarReq → ℕ → Option (List IbHistBarReq)
  unfolding chunk_loop ib_req
  generate_ib_reqs r n =
      let tp_st = x.parse r.start in
      let tp_end = x.parse r.end in
      elim (chunk_loop (suc (tp_end - tp_st)) n tp_st tp_end) [
        | none ↦ none
        | some cs ↦ some (map (ib_req r) cs)
      ]
