-- ===== src/History/Opening.antt =====
-- The first requests that `run` of `HistBarGetter` (lib/data/historical_data.cpp) queues.
use calm_trading_system.Base.{
  length, ℕ, suc, ◌-◌, String, string_eq, nat_eq, eq_iff, ◌==◌, true, false, ◌≡◌, refl, sym, ap,
  ◌∙◌, subst, Bool-cases, Option-cases, List-cases, inl, inr, List, [], ◌∷◌, ◌++◌, append_assoc,
  append-nil, All, take, map, some, Map, lookup, insert, lookup-insert, ok, arith, keys, has,
  distinct, distinct-insert,
}
use calm_trading_system.Queue.{wait_push}
use calm_trading_system.History.{
  HistBarReq, IbHistBarReq, Texts, Chunk, ib_req, generate_ib_reqs, chunk_loop,
}
use calm_trading_system.History.Getter.{
  HistBarGetter, or_default, chunk_id_of, init, add_reqs, push_first, empty,
}
use calm_trading_system.History.Order.{for_symbol, AreNamed, AreInOrder}

generate_ib_reqs-names :
    (x : Texts) (r : HistBarReq) (n : ℕ) (cs : List IbHistBarReq)
    → generate_ib_reqs x r n ≡ some cs
    → All (λ c. c.symbol ≡ r.symbol) cs
unfolding generate_ib_reqs ib_req
generate_ib_reqs-names x r n cs h =
    elim (Option-cases
      (chunk_loop (suc (x.parse r.end - x.parse r.start)) n (x.parse r.start) (x.parse r.end))) [
        | inl endless ↦ ground arith
        | inr (chunks, done) ↦
            let same : map (ib_req x r) chunks ≡ cs = ground arith in
            subst (All (λ c. c.symbol ≡ r.symbol)) same (all_named chunks)
      ]
  where
    all_named : (chunks : List Chunk) → All (λ c. c.symbol ≡ r.symbol) (map (ib_req x r) chunks)
    all_named [] = tt
    all_named (c ∷ chunks) = (refl, all_named chunks)

AreNamed-insert :
    (k : String) (cs : List IbHistBarReq) (m : Map String (List IbHistBarReq))
    → AreNamed m
    → All (λ c. c.symbol ≡ k) cs
    → AreNamed (insert k cs m)
unfolding insert
AreNamed-insert k cs [] h own = (own, tt)
AreNamed-insert k cs ((j, c) ∷ m) h own = elim (Bool-cases (k == j)) [
  | inl here ↦ rw here (own, h.1)
  | inr other ↦ rw other (h.0, AreNamed-insert k cs m h.1 own)
]

-- The first request of each symbol.
abbrev heads : Map String (List IbHistBarReq) → List IbHistBarReq
heads [] = []
heads ((k, []) ∷ m) = heads m
heads ((k, c ∷ cs) ∷ m) = c ∷ heads m

heads-absent :
    (symbol : String) (m : Map String (List IbHistBarReq))
    → AreNamed m
    → has symbol (keys m) ≡ false
    → for_symbol symbol (heads m) ≡ []
heads-absent symbol [] h a = refl
heads-absent symbol ((k, []) ∷ m) h a = heads-absent symbol m h.1 (ground arith)
heads-absent symbol ((k, c ∷ cs) ∷ m) h a = ground (arith, h.0.0, heads-absent symbol m h.1)

heads-due :
    (symbol : String) (m : Map String (List IbHistBarReq))
    → AreNamed m
    → distinct (keys m) ≡ true
    → for_symbol symbol (heads m) ≡ take 1 (or_default [] (lookup symbol m))
unfolding lookup
heads-due symbol [] h d = refl
heads-due symbol ((k, []) ∷ m) h d =
    ground (arith, heads-due symbol m h.1, heads-absent symbol m h.1, eq_iff symbol k)
heads-due symbol ((k, c ∷ cs) ∷ m) h d =
    ground (arith, h.0.0, heads-due symbol m h.1, heads-absent symbol m h.1, eq_iff symbol k)

module _ {D : Type 0} where
  -- What the constructor keeps while it splits the requests.
  pub record IsFresh (s : HistBarGetter D) : Type 0 where
    one_each : distinct (keys s.sym_chunks) ≡ true
    pub named : AreNamed s.sym_chunks
    none_queued : s.q ≡ []
    from_zero : (symbol : String) → chunk_id_of symbol s ≡ 0

  add_reqs-IsFresh :
      (x : Texts) (n : ℕ) (reqs : List HistBarReq) (s t : HistBarGetter D)
      → IsFresh s
      → add_reqs x n reqs s ≡ some t
      → IsFresh t
  unfolding add_reqs
  add_reqs-IsFresh x n [] s t k h = let same : s ≡ t = ground arith in subst IsFresh same k
  add_reqs-IsFresh x n (r ∷ reqs) s t k h = elim (Option-cases (generate_ib_reqs x r n)) [
    | inl endless ↦ ground arith
    | inr (all, done) ↦ elim (List-cases all) [
      | inl nothing ↦
          add_reqs-IsFresh x n reqs (record s { sym_req = insert r.symbol r s.sym_req }) t
            (record {
              one_each = k.one_each;
              named = k.named;
              none_queued = k.none_queued;
              from_zero = k.from_zero;
            })
            (ground arith)
      | inr (c, cs, split) ↦
          add_reqs-IsFresh x n reqs
            (record s {
              sym_req = insert r.symbol r s.sym_req;
              sym_chunks = insert r.symbol (c ∷ cs) s.sym_chunks;
              sym_chunk_id = insert r.symbol 0 s.sym_chunk_id;
            })
            t
            (record {
              one_each = distinct-insert r.symbol (c ∷ cs) s.sym_chunks k.one_each;
              named =
                  AreNamed-insert r.symbol (c ∷ cs) s.sym_chunks k.named
                    (generate_ib_reqs-names x r n (c ∷ cs) (done ∙ ap some split));
              none_queued = k.none_queued;
              from_zero = λ symbol.
                  ground
                    (arith, k.from_zero symbol, lookup-insert r.symbol symbol 0 s.sym_chunk_id);
            })
            (ground arith)
    ]
  ]

  pub init-IsFresh :
      (x : Texts) (n : ℕ) (reqs : List HistBarReq) (s : HistBarGetter D)
      → init x n reqs ≡ some s
      → IsFresh s
  unfolding init lookup
  init-IsFresh x n reqs s h = elim (Option-cases (add_reqs x n reqs (empty {D = D}))) [
    | inl endless ↦ ground arith
    | inr (t, done) ↦
        let k =
          add_reqs-IsFresh x n reqs empty t
            (record { one_each = refl; named = tt; none_queued = refl; from_zero = λ symbol. refl })
            done in
        let same : record t { remaining = length t.sym_chunk_id } ≡ s = ground arith in
        subst IsFresh same (record {
          one_each = k.one_each;
          named = k.named;
          none_queued = k.none_queued;
          from_zero = k.from_zero;
        })
  ]

  push_first-heads :
      (m : Map String (List IbHistBarReq)) (s t : HistBarGetter D)
      → push_first m s ≡ ok t
      → record s { q = s.q ++ heads m } ≡ t
  unfolding push_first wait_push
  push_first-heads [] s t h = rw (append-nil s.q) (ground arith)
  push_first-heads ((symbol, []) ∷ m) s t h = ground arith
  push_first-heads ((symbol, c ∷ cs) ∷ m) s t h =
      rw (sym (append_assoc s.q (c ∷ []) (heads m)))
        (push_first-heads m (record s { q = s.q ++ c ∷ [] }) t h)

  pub first-AreInOrder :
      (s t : HistBarGetter D)
      → IsFresh s
      → push_first s.sym_chunks s ≡ ok t
      → AreInOrder s.sym_chunks [] t
  first-AreInOrder s t k h =
      subst (AreInOrder s.sym_chunks []) (push_first-heads s.sym_chunks s t h) (record {
        chunks = refl;
        order = λ symbol.
            rw (k.none_queued, k.from_zero symbol)
              (heads-due symbol s.sym_chunks k.named k.one_each);
      })
