-- ===== src/Tests/Texts.antt =====
-- The theorems on texts and on the timer, at concrete values.
use calm_trading_system.Base.{◌≤◌, ◌≡◌, refl, [], ◌∷◌, ok, arith}
use calm_trading_system.Utils.{codes, split}
use calm_trading_system.Utils.Join.{split_joined}
use calm_trading_system.Gateway.{Contract}
use calm_trading_system.Gateway.Contracts.{generate_contract}
use calm_trading_system.Gateway.Parsing.{contract_round_trip, IsPlain}
use calm_trading_system.Trader.{passes, IsPaced, timers-IsPaced, repeat}

-- "7.8" at "."
split_joined_example : split (55 ∷ 46 ∷ 56 ∷ []) (46 ∷ []) ≡ ok ((55 ∷ []) ∷ (56 ∷ []) ∷ [])
split_joined_example =
    split_joined 46 (55 ∷ []) ((56 ∷ []) ∷ []) (((λ e. cc), tt), (((λ e. cc), tt), tt))

abbrev gold : Contract
gold = record {
  symbol = codes "A";
  sec_type = codes "B";
  currency = codes "C";
  exchange = codes "D";
}

gold-IsPlain : IsPlain gold
gold-IsPlain = record {
  no_dot = (((λ e. cc), tt), (((λ e. cc), tt), (((λ e. cc), tt), (((λ e. cc), tt), tt))));
  no_dash = (((λ e. cc), tt), (((λ e. cc), tt), (((λ e. cc), tt), tt)));
}

contract_round_trip_example : generate_contract "A-B-C.D" ≡ ok gold
contract_round_trip_example = contract_round_trip "A-B-C.D" gold gold-IsPlain refl

timers-IsPaced_example :
    IsPaced (5 ∷ 5 ∷ 67 ∷ []) 5 (passes (5 ∷ 5 ∷ 67 ∷ []) 5)
    × ((passes (5 ∷ 5 ∷ 67 ∷ []) 5).0 ≤ 68)
    × ((passes (5 ∷ 5 ∷ 67 ∷ repeat 61 67) 5).0 ≡ 68)
unfolding passes
timers-IsPaced_example =
    let r =
      timers-IsPaced (5 ∷ 5 ∷ 67 ∷ []) 5 67 (omega arith, (omega arith, (omega arith, tt)))
        (omega arith) in
    (r.0, r.1, r.2 61 refl)
