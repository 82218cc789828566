-- ===== src/History/Prepared.antt =====
-- The constructor of `HistBarGetter` (lib/data/historical_data.cpp), and what `run` queues first.
use calm_trading_system.Base.{
  has, distinct, keys, has-insert, distinct-insert, length-keys, ℕ, suc, ◌≤◌, ℤ_eq, String,
  string_eq, nat_eq, eq_iff, ◌==◌, true, ◌≡◌, refl, sym, ap, ◌∙◌, subst, Bool-cases, Option-cases,
  inl, inr, List, [], ◌∷◌, ◌++◌, All, length, get_elem?, none, some, Map, lookup, insert, ok, arith,
  map,
}
use calm_trading_system.History.{IbHistBarReq}
use calm_trading_system.History.Getter.{HistBarGetter}
use calm_trading_system.Base.{◌-◌, List-cases}
use calm_trading_system.Queue.{wait_push}
use calm_trading_system.History.{HistBarReq, Texts, Chunk, ib_req, generate_ib_reqs, chunk_loop}
use calm_trading_system.History.Getter.{init, add_reqs, push_first, empty}
use calm_trading_system.History.Counting.{
  in_progress, AreOurs, AreOurs-append, AreOurs-get, IsCounted, Counts, counts, uncounted-Counts,
}
use calm_trading_system.History.Progress.{in_progress-fresh}

-- The requests for a symbol name it.
generate_ib_reqs-symbol :
    (x : Texts) (r : HistBarReq) (n : ℕ) (cs : List IbHistBarReq) (ks : List String)
    → generate_ib_reqs x r n ≡ some cs
    → has r.symbol ks ≡ true
    → AreOurs ks cs
unfolding generate_ib_reqs ib_req
generate_ib_reqs-symbol x r n cs ks h own =
    elim (Option-cases
      (chunk_loop (suc (x.parse r.end - x.parse r.start)) n (x.parse r.start) (x.parse r.end))) [
        | inl endless ↦ ground arith
        | inr (chunks, done) ↦
            let same : map (ib_req x r) chunks ≡ cs = ground arith in
            subst (AreOurs ks) same (all_named chunks)
      ]
  where
    all_named : (chunks : List Chunk) → AreOurs ks (map (ib_req x r) chunks)
    all_named [] = tt
    all_named (c ∷ chunks) = (own, all_named chunks)

AreOurs-more :
    (k : String) (v : ℕ) (m : Map String ℕ) (cs : List IbHistBarReq)
    → AreOurs (keys m) cs
    → AreOurs (keys (insert k v m)) cs
AreOurs-more k v m [] h = tt
AreOurs-more k v m (c ∷ cs) h =
    (ground (arith, has-insert c.symbol k v m, h.0), AreOurs-more k v m cs h.1)

abbrev AreAllOurs : List String → Map String (List IbHistBarReq) → Type 0
AreAllOurs ks m = All (λ e. AreOurs ks e.1) m

AreAllOurs-more :
    (k : String) (v : ℕ) (m : Map String ℕ) (cs : Map String (List IbHistBarReq))
    → AreAllOurs (keys m) cs
    → AreAllOurs (keys (insert k v m)) cs
AreAllOurs-more k v m [] h = tt
AreAllOurs-more k v m ((j, c) ∷ cs) h = (AreOurs-more k v m c h.0, AreAllOurs-more k v m cs h.1)

AreAllOurs-insert :
    (ks : List String) (k : String) (cs : List IbHistBarReq) (m : Map String (List IbHistBarReq))
    → AreAllOurs ks m
    → AreOurs ks cs
    → AreAllOurs ks (insert k cs m)
unfolding insert
AreAllOurs-insert ks k cs [] h own = (own, tt)
AreAllOurs-insert ks k cs ((j, c) ∷ m) h own = elim (Bool-cases (k == j)) [
  | inl here ↦ rw here (own, h.1)
  | inr other ↦ rw other (h.0, AreAllOurs-insert ks k cs m h.1 own)
]

module _ {D : Type 0} where
  -- What the constructor keeps while it splits the requests.
  pub record IsPrepared (s : HistBarGetter D) : Type 0 where
    pub one_each : distinct (keys s.sym_chunk_id) ≡ true
    pub split_up : AreAllOurs (keys s.sym_chunk_id) s.sym_chunks
    pub none_queued : s.q ≡ []
    pub none_over : s.sym_status ≡ []
    pub none_sent : s.req_id_sym ≡ []

  add_reqs-IsPrepared :
      (x : Texts) (n : ℕ) (reqs : List HistBarReq) (s t : HistBarGetter D)
      → IsPrepared s
      → add_reqs x n reqs s ≡ some t
      → IsPrepared t
  unfolding add_reqs
  add_reqs-IsPrepared x n [] s t k h = let same : s ≡ t = ground arith in subst IsPrepared same k
  add_reqs-IsPrepared x n (r ∷ reqs) s t k h = elim (Option-cases (generate_ib_reqs x r n)) [
    | inl endless ↦ ground arith
    | inr (all, done) ↦ elim (List-cases all) [
      | inl nothing ↦
          add_reqs-IsPrepared x n reqs (record s { sym_req = insert r.symbol r s.sym_req }) t
            (record {
              one_each = k.one_each;
              split_up = k.split_up;
              none_queued = k.none_queued;
              none_over = k.none_over;
              none_sent = k.none_sent;
            })
            (ground arith)
      | inr (c, cs, split) ↦
          let made : generate_ib_reqs x r n ≡ some (c ∷ cs) = done ∙ ap some split in
          let ids = insert r.symbol 0 s.sym_chunk_id in
          let own : has r.symbol (keys ids) ≡ true =
            ground
              (arith, has-insert r.symbol r.symbol 0 s.sym_chunk_id, eq_iff r.symbol r.symbol) in
          add_reqs-IsPrepared x n reqs
            (record s {
              sym_req = insert r.symbol r s.sym_req;
              sym_chunks = insert r.symbol (c ∷ cs) s.sym_chunks;
              sym_chunk_id = ids;
            })
            t
            (record {
              one_each = distinct-insert r.symbol 0 s.sym_chunk_id k.one_each;
              split_up =
                  AreAllOurs-insert (keys ids) r.symbol (c ∷ cs) s.sym_chunks
                    (AreAllOurs-more r.symbol 0 s.sym_chunk_id s.sym_chunks k.split_up)
                    (generate_ib_reqs-symbol x r n (c ∷ cs) (keys ids) made own);
              none_queued = k.none_queued;
              none_over = k.none_over;
              none_sent = k.none_sent;
            })
            (ground arith)
    ]
  ]

  -- After the constructor each symbol with chunks is in progress, and `remaining` counts them.
  pub init-IsCounted :
      (x : Texts) (n : ℕ) (reqs : List HistBarReq) (s : HistBarGetter D)
      → init x n reqs ≡ some s
      → (distinct (keys s.sym_chunk_id) ≡ true)
        × IsCounted (keys s.sym_chunk_id) s
        × (s.remaining ≡ length s.sym_chunk_id)
  unfolding init lookup
  init-IsCounted x n reqs s h = elim (Option-cases (add_reqs x n reqs (empty {D = D}))) [
    | inl endless ↦ ground arith
    | inr (t, done) ↦
        let p =
          add_reqs-IsPrepared x n reqs empty t
            (record {
              one_each = refl;
              split_up = tt;
              none_queued = refl;
              none_over = refl;
              none_sent = refl;
            })
            done in
        let same : record t { remaining = length t.sym_chunk_id } ≡ s = ground arith in
        subst
          (λ u.
            (distinct (keys u.sym_chunk_id) ≡ true)
            × IsCounted (keys u.sym_chunk_id) u
            × (u.remaining ≡ length u.sym_chunk_id))
          same
          (
            p.one_each,
            record {
              served = λ id symbol e.
                  let no : none ≡ some symbol = ap (lookup id) (sym p.none_sent) ∙ e in
                  ground arith;
              queued = subst (AreOurs (keys t.sym_chunk_id)) (sym p.none_queued) tt;
              chunked = p.split_up;
              counted =
                  subst (λ m. in_progress (keys t.sym_chunk_id) m ≤ length t.sym_chunk_id)
                    (sym p.none_over)
                    (omega
                      (arith, in_progress-fresh (keys t.sym_chunk_id), length-keys t.sym_chunk_id));
            },
            refl,
          )
  ]

  pub push_first-Counts :
      (ks : List String) (m : Map String (List IbHistBarReq)) (s t : HistBarGetter D)
      → AreAllOurs ks m
      → IsCounted ks s
      → push_first m s ≡ ok t
      → Counts ks s t
  unfolding push_first wait_push
  push_first-Counts ks [] s t a k h =
      let same : s ≡ t = ground arith in
      subst (Counts ks s) same (uncounted-Counts ks s s k refl refl refl refl refl)
  push_first-Counts ks ((symbol, v) ∷ m) s t a k h = elim (Option-cases (get_elem? v 0)) [
    | inl nothing ↦ ground arith
    | inr (c, first) ↦
        let u : HistBarGetter D = record s { q = s.q ++ c ∷ [] } in
        let moved : Counts ks s u =
          counts ks s u k refl refl
            (AreOurs-append ks s.q c k.queued (AreOurs-get ks v 0 c a.0 first)) k.counted
            (omega arith) in
        let rest = push_first-Counts ks m u t a.1 moved.after (ground arith) in
        record { after = rest.after; no_more = rest.no_more }
  ]
