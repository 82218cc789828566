-- ===== src/Gateway/Parsing.antt =====
-- The symbols that `generate_contract` of lib/gateway/gateway.cpp reads.
use calm_trading_system.Base.{◌≡◌, ◌≢◌, refl, String, [], ◌∷◌, ok, All, All-append}
use calm_trading_system.Utils.{Bytes, codes}
use calm_trading_system.Utils.Split.{join, Without}
use calm_trading_system.Utils.Join.{split_joined}
use calm_trading_system.Gateway.{Contract}
use calm_trading_system.Gateway.Contracts.{generate_contract}

-- The text "a-b-c.d"
abbrev pub symbol_text : Contract → Bytes
symbol_text k = join b'.' (join b'-' (k.symbol ∷ k.sec_type ∷ k.currency ∷ []) ∷ k.exchange ∷ [])

-- No field has a "." and none before the exchange has a "-".
pub record IsPlain (k : Contract) : Type 0 where
  pub no_dot : All (Without b'.') (k.symbol ∷ k.sec_type ∷ k.currency ∷ k.exchange ∷ [])
  pub no_dash : All (Without b'-') (k.symbol ∷ k.sec_type ∷ k.currency ∷ [])

fields-Without :
    (k : Contract) → IsPlain k → Without b'.' (join b'-' (k.symbol ∷ k.sec_type ∷ k.currency ∷ []))
fields-Without k h =
    All-append (λ x. b'.' ≢ x) k.symbol _ h.no_dot.0
      ((λ e. cc), All-append (λ x. b'.' ≢ x) k.sec_type _ h.no_dot.1.0 ((λ e. cc), h.no_dot.1.1.0))

-- The text of a contract whose fields have no "." and, before the exchange, no "-" is read back as that contract.
pub contract_round_trip :
    (symbol : String) (k : Contract)
    → IsPlain k
    → codes symbol ≡ symbol_text k
    → generate_contract symbol ≡ ok k
unfolding generate_contract
contract_round_trip symbol k h e =
    let fields = join b'-' (k.symbol ∷ k.sec_type ∷ k.currency ∷ []) in
    let outer =
      split_joined b'.' fields (k.exchange ∷ []) (fields-Without k h, (h.no_dot.1.1.1.0, tt)) in
    let inner = split_joined b'-' k.symbol (k.sec_type ∷ k.currency ∷ []) h.no_dash in
    rw (e, outer, inner) refl
