-- ===== src/Portfolio/Profit.antt =====
-- The profit of lib/core/portfolio.cpp when every market price is there.
use calm_trading_system.Base.{
  ℕ, ◌+◌, ◌<◌, ◌≤◌, ℤ, pos, ◌+ℤ◌, ◌-ℤ◌, magnitude, magnitude-add, int_laws, parts, String,
  string_eq, eq_iff, ◌≡◌, refl, sym, ap, ◌∙◌, subst, true, false, Bool-cases, Option-cases, inl,
  inr, [], ◌∷◌, none, some, arith, Map, lookup, insert, lookup-insert, keys, has, distinct, ◌==◌,
}
use calm_trading_system.Double.{Double, IsExact, ◌⊕◌, ◌⊖◌, ◌⊗◌}
use calm_trading_system.Utils.{is_unset_double}
use calm_trading_system.Objects.{Timer}
use calm_trading_system.Market.{LastTicks, get_last_tick}
use calm_trading_system.Portfolio.{
  get_algo_pnl, fx_rate, ContractPos, Portfolio, entry, touch, pnl_of, add_total, revalue, timer_cb,
  get_total_pnl,
}
use calm_trading_system.Portfolio.Kept.{entry-touch}
use calm_trading_system.Portfolio.Unpriced.{
  any_unpriced-touch, market_symbol, is_unpriced, any_unpriced,
}

module _ {D : Type 0} ⦃d : Double D⦄ (x : IsExact D) (ticks : LastTicks D) where
  open x use {value}

  -- What a position is worth at its market symbol's last price, less its cost.
  abbrev pub gain : Map String String → String → ContractPos D → ℤ
  gain mapping s c = elim (get_last_tick (market_symbol ticks s mapping) ticks) [
    | none ↦ pos 0
    | some t ↦ value (c.position ⊗ t.last_price) -ℤ value c.cost
  ]

  abbrev pub gains : Map String String → Map String (ContractPos D) → ℤ
  gains mapping [] = pos 0
  gains mapping ((s, c) ∷ port) = gain mapping s c +ℤ gains mapping port

  abbrev pub all_gains :
      Map String (Map String String) → Map String (Map String (ContractPos D)) → ℤ
  all_gains mappings [] = pos 0
  all_gains mappings ((algo, port) ∷ ports) =
      gains (entry algo mappings) port +ℤ all_gains mappings ports

  -- The same sums over the gains without their signs.
  abbrev pub stakes : Map String String → Map String (ContractPos D) → ℕ
  stakes mapping [] = 0
  stakes mapping ((s, c) ∷ port) = magnitude (gain mapping s c) + stakes mapping port

  abbrev pub all_stakes :
      Map String (Map String String) → Map String (Map String (ContractPos D)) → ℕ
  all_stakes mappings [] = 0
  all_stakes mappings ((algo, port) ∷ ports) =
      stakes (entry algo mappings) port + all_stakes mappings ports

  small_is_set :
      (u : D) → magnitude (value u) < magnitude (value d.dbl_max) → is_unset_double u ≡ false
  unfolding is_unset_double
  small_is_set u h = elim (Bool-cases (d.same u d.dbl_max)) [
    | inl e ↦ let no : 1 ≤ 0 = omega (arith, parts (x.value-same u d.dbl_max e)) in ground arith
    | inr e ↦ ground arith
  ]

  gains-stakes :
      (mapping : Map String String) (port : Map String (ContractPos D))
      → magnitude (gains mapping port) ≤ stakes mapping port
  gains-stakes mapping [] = omega arith
  gains-stakes mapping ((s, c) ∷ port) =
      omega
        (arith, gains-stakes mapping port, magnitude-add (gain mapping s c) (gains mapping port))

  pnl_exact :
      (mapping : Map String String) (port : Map String (ContractPos D)) (pnl : D)
      → is_unpriced ticks mapping port ≡ false
      → magnitude (value pnl) + stakes mapping port < magnitude (value d.dbl_max)
      → value (pnl_of ticks mapping port pnl) ≡ value pnl +ℤ gains mapping port
  unfolding pnl_of
  pnl_exact mapping [] pnl h b = omega int_laws
  pnl_exact mapping ((s, c) ∷ port) pnl h b =
      elim (Option-cases (get_last_tick (market_symbol ticks s mapping) ticks)) [
        | inl e ↦ ground arith
        | inr (t, e) ↦
            let pnl' = pnl ⊕ ((c.position ⊗ t.last_price) ⊖ c.cost) in
            let here : gain mapping s c ≡ value (c.position ⊗ t.last_price) -ℤ value c.cost =
              rw (gain, e) refl in
            let sum : value pnl' ≡ value pnl +ℤ gain mapping s c =
              x.value-add _ _ ∙ ap (λ v. value pnl +ℤ v) (x.value-sub _ _ ∙ sym here) in
            let small : magnitude (value pnl')
                ≤ magnitude (value pnl) + magnitude (gain mapping s c) =
              rw sum (magnitude-add (value pnl) (gain mapping s c)) in
            let rest = pnl_exact mapping port pnl' (ground arith) (omega arith) in
            let set = small_is_set pnl (omega arith) in
            rw (e, set) (rest ∙ omega (int_laws, parts sum, parts here))
      ]

  all_gains-touch :
      (algo : String) (mappings : Map String (Map String String))
      (ports : Map String (Map String (ContractPos D)))
      → (all_gains (touch algo mappings) ports ≡ all_gains mappings ports)
        × (all_stakes (touch algo mappings) ports ≡ all_stakes mappings ports)
  all_gains-touch algo mappings [] = (refl, refl)
  all_gains-touch algo mappings ((k, port) ∷ ports) =
      let rest = all_gains-touch algo mappings ports in
      (rw (entry-touch algo k mappings, rest.0) refl, rw (entry-touch algo k mappings, rest.1) refl)

  add_total-value :
      (total pnl : D) (algo : String)
      → magnitude (value total) + magnitude (value pnl) < magnitude (value d.dbl_max)
      → value (add_total total pnl algo) ≡ value total +ℤ value pnl
  unfolding add_total fx_rate
  add_total-value total pnl algo b =
      rw (small_is_set pnl (omega arith), small_is_set total (omega arith))
        (x.value-add _ _ ∙ ap (λ v. value total +ℤ v) (x.value-mul_one pnl))

  -- An algo's profit, from zero.
  fresh_pnl :
      (mapping : Map String String) (port : Map String (ContractPos D))
      → is_unpriced ticks mapping port ≡ false
      → stakes mapping port < magnitude (value d.dbl_max)
      → value (pnl_of ticks mapping port d.zero) ≡ gains mapping port
  fresh_pnl mapping port h b = omega (
    int_laws,
    parts x.value-zero,
    parts (pnl_exact mapping port d.zero h (omega (arith, parts x.value-zero))),
  )

  -- The state after one algo of `revalue`.
  abbrev after_algo : String → Map String (ContractPos D) → Portfolio D → Portfolio D
  after_algo algo port p =
      let pnl = pnl_of ticks (entry algo p.mktd_mapping) port d.zero in
      record p {
        algo_pnl = insert algo pnl p.algo_pnl;
        total_pnl = add_total p.total_pnl pnl algo;
        active_orders = touch algo p.active_orders;
        mktd_mapping = touch algo p.mktd_mapping;
      }

  total_exact :
      (ports : Map String (Map String (ContractPos D))) (p : Portfolio D)
      → any_unpriced ticks p.mktd_mapping ports ≡ false
      → magnitude (value p.total_pnl) + all_stakes p.mktd_mapping ports
        < magnitude (value d.dbl_max)
      → value (revalue ticks ports p).total_pnl
        ≡ value p.total_pnl +ℤ all_gains p.mktd_mapping ports
  unfolding revalue
  total_exact [] p h b = omega int_laws
  total_exact ((algo, port) ∷ ports) p h b =
      let mapping = entry algo p.mktd_mapping in
      let pnl = pnl_of ticks mapping port d.zero in
      let own = fresh_pnl mapping port (ground arith) (omega arith) in
      let small = gains-stakes mapping port in
      let same = all_gains-touch algo p.mktd_mapping ports in
      let next = add_total-value p.total_pnl pnl algo (omega (arith, parts own)) in
      let bound : magnitude (value (add_total p.total_pnl pnl algo))
          ≤ magnitude (value p.total_pnl) + magnitude (value pnl) =
        rw next (magnitude-add (value p.total_pnl) (value pnl)) in
      let rest =
        total_exact ports (after_algo algo port p)
          (any_unpriced-touch ticks algo p.mktd_mapping ports ∙ ground arith)
          (omega (arith, same.1, parts own)) in
      omega (int_laws, parts rest, parts next, parts own, parts same.0)

  -- The profit of an algo that is not among those revalued stays.
  pnl_stays :
      (algo : String) (ports : Map String (Map String (ContractPos D))) (p : Portfolio D)
      → has algo (keys ports) ≡ false
      → lookup algo (revalue ticks ports p).algo_pnl ≡ lookup algo p.algo_pnl
  unfolding revalue
  pnl_stays algo [] p h = refl
  pnl_stays algo ((k, port) ∷ ports) p h =
      pnl_stays algo ports (after_algo k port p) (ground arith)
      ∙ ground (
        arith,
        lookup-insert k algo (pnl_of ticks (entry k p.mktd_mapping) port d.zero) p.algo_pnl,
      )

  algo_pnl_is :
      (algo : String) (port : Map String (ContractPos D))
      (ports : Map String (Map String (ContractPos D))) (p : Portfolio D)
      → distinct (keys ports) ≡ true
      → lookup algo ports ≡ some port
      → lookup algo (revalue ticks ports p).algo_pnl
        ≡ some (pnl_of ticks (entry algo p.mktd_mapping) port d.zero)
  unfolding revalue lookup
  algo_pnl_is algo port [] p u h = cc
  algo_pnl_is algo port ((k, v) ∷ ports) p u h = elim (Bool-cases (algo == k)) [
    | inl here ↦
        let same = (eq_iff algo k).0 here in
        let one : v ≡ port = ground arith in
        pnl_stays algo ports (after_algo k v p)
          (subst (λ j. has j (keys ports) ≡ false) (sym same) (ground arith))
        ∙ lookup-insert k algo (pnl_of ticks (entry k p.mktd_mapping) v d.zero) p.algo_pnl
        ∙ rw (here, same, one) refl
    | inr later ↦
        algo_pnl_is algo port ports (after_algo k v p) (ground arith) (ground arith)
        ∙ ap (λ m. some (pnl_of ticks m port d.zero)) (entry-touch k algo p.mktd_mapping)
  ]

  algo_within_all :
      (algo : String) (port : Map String (ContractPos D))
      (mappings : Map String (Map String String)) (ports : Map String (Map String (ContractPos D)))
      → any_unpriced ticks mappings ports ≡ false
      → lookup algo ports ≡ some port
      → (is_unpriced ticks (entry algo mappings) port ≡ false)
        × (stakes (entry algo mappings) port ≤ all_stakes mappings ports)
  unfolding lookup
  algo_within_all algo port mappings [] u h = cc
  algo_within_all algo port mappings ((k, v) ∷ ports) u h = elim (Bool-cases (algo == k)) [
    | inl here ↦
        let same = (eq_iff algo k).0 here in
        let one : v ≡ port = ground arith in rw (same, sym one) (ground arith, omega arith)
    | inr later ↦
        let rest = algo_within_all algo port mappings ports (ground arith) (ground arith) in
        (rest.0, omega (arith, rest.1))
  ]

  -- Let every position's market symbol have a last tick, let the profits of all positions, without their signs, add up
  -- to less than `DBL_MAX`, and let each algo have one portfolio. Then after `timer_cb` the total profit is the sum,
  -- over all positions of all algos, of what the position is worth at the last price of its market symbol less its
  -- cost, and the profit of an algo that has a portfolio is that sum over its own positions. Amounts are exact.
  pub profit_exact :
      (t : Timer) (p : Portfolio D) (algo : String) (port : Map String (ContractPos D))
      → distinct (keys p.algo_portfolio) ≡ true
      → any_unpriced ticks p.mktd_mapping p.algo_portfolio ≡ false
      → all_stakes p.mktd_mapping p.algo_portfolio < magnitude (value d.dbl_max)
      → lookup algo p.algo_portfolio ≡ some port
      → (value (get_total_pnl (timer_cb ticks t p).0) ≡ all_gains p.mktd_mapping p.algo_portfolio)
        × (value (get_algo_pnl algo (timer_cb ticks t p).0).0
            ≡ gains (entry algo p.mktd_mapping) port)
  unfolding timer_cb get_total_pnl get_algo_pnl
  profit_exact t p algo port u priced b h =
      let fresh : Portfolio D = record p { total_pnl = d.zero } in
      let own = algo_within_all algo port p.mktd_mapping p.algo_portfolio priced h in
      let total = total_exact p.algo_portfolio fresh priced (omega (arith, parts x.value-zero)) in
      (
        omega (int_laws, parts total, parts x.value-zero),
        rw (get_algo_pnl, algo_pnl_is algo port p.algo_portfolio fresh u h)
            (fresh_pnl (entry algo p.mktd_mapping) port own.0 (omega (arith, own.1))),
      )
