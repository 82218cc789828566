-- ===== src/History/Files.antt =====
-- The files that the downloads of lib/data/historical_data.cpp end up in: from the configuration through
-- `generate_reqs` and `HistBarGetter::init` to the file that `process_data` writes.
use calm_trading_system.Base.{
  ℕ, ◌≤◌, String, string_eq, eq_iff, ◌==◌, ◌≡◌, ◌≢◌, refl, sym, ap, ◌∙◌, subst, List, [], ◌∷◌, map,
  Option, none, some, ok, All, arith, suc, length, ◌-◌, lookup, insert, lookup-insert,
  if◌then◌else◌, Bool-cases, inl, inr, ltb,
}
use calm_trading_system.Utils.{codes}
use calm_trading_system.Utils.Split.{Without}
use calm_trading_system.Yaml.{Document}
use calm_trading_system.History.{
  HistBarReq, IbHistBarReq, Texts, generate_ib_reqs, ib_req, chunk_loop,
}
use calm_trading_system.History.Chunks.{chunk_loop-Covers}
use calm_trading_system.History.Config.{clean, generate_reqs}
use calm_trading_system.History.Getter.{HistBarGetter, empty, add_reqs, init, out_path}
use calm_trading_system.History.Paths.{
  AreDifferent, Settings, request_for, Has, add_downloads-all, files-different, clean-Without,
}

-- The last request for a symbol, or `old` where there is none.
abbrev last_req : String → List HistBarReq → Option HistBarReq → Option HistBarReq
last_req k [] old = old
last_req k (r ∷ rs) old = last_req k rs (if k == r.symbol then some r else old)

generate_ib_reqs_ends :
    (x : Texts) (r : HistBarReq) (n : ℕ)
    → 1 ≤ n
    → (cs : List IbHistBarReq) × (generate_ib_reqs x r n ≡ some cs)
unfolding generate_ib_reqs chunk_loop
generate_ib_reqs_ends x r n one =
    let st = x.parse r.start in
    let tp_end = x.parse r.end in
    elim (Bool-cases (ltb st tp_end)) [
      | inl more ↦
          let (cs, done, covers, all) =
            chunk_loop-Covers (suc (tp_end - st)) n st tp_end one (ground arith) (omega arith) in
          (map (ib_req x r) cs, rw (generate_ib_reqs, done) refl)
      | inr nothing ↦ ([], ground arith)
    ]

module _ {D : Type 0} where
  add_reqs-last :
      (x : Texts) (n : ℕ) (rs : List HistBarReq) (s : HistBarGetter D)
      → 1 ≤ n
      → (t : HistBarGetter D) × (add_reqs x n rs s ≡ some t)
        × ((k : String) → lookup k t.sym_req ≡ last_req k rs (lookup k s.sym_req))
  unfolding add_reqs
  add_reqs-last x n [] s one = (s, refl, λ k. refl)
  add_reqs-last x n (r ∷ rs) s one =
      let (cs, done) = generate_ib_reqs_ends x r n one in
      by_chunks (λ t. add_reqs-last x n rs t one) cs done
    where
      -- The loop goes on with the request entered, whatever the chunks.
      next :
          (t : HistBarGetter D)
          → t.sym_req ≡ insert r.symbol r s.sym_req
          → (u : HistBarGetter D) × (add_reqs x n rs t ≡ some u)
            × ((k : String) → lookup k u.sym_req ≡ last_req k rs (lookup k t.sym_req))
          → (u : HistBarGetter D) × (add_reqs x n rs t ≡ some u)
            × ((k : String) → lookup k u.sym_req ≡ last_req k (r ∷ rs) (lookup k s.sym_req))
      next t h (u, done, last) = (
        u,
        done,
        λ k. last k ∙ ap (last_req k rs) (ap (lookup k) h ∙ lookup-insert r.symbol k r s.sym_req),
      )

      by_chunks :
          ((t : HistBarGetter D)
            → (u : HistBarGetter D) × (add_reqs x n rs t ≡ some u)
              × ((k : String) → lookup k u.sym_req ≡ last_req k rs (lookup k t.sym_req)))
          → (cs : List IbHistBarReq) → generate_ib_reqs x r n ≡ some cs
          → (u : HistBarGetter D) × (add_reqs x n (r ∷ rs) s ≡ some u)
            × ((k : String) → lookup k u.sym_req ≡ last_req k (r ∷ rs) (lookup k s.sym_req))
      by_chunks more [] made =
          let t : HistBarGetter D = record s { sym_req = insert r.symbol r s.sym_req } in
          let (u, done, last) = next t refl (more t) in (u, rw (add_reqs, made) done, last)
      by_chunks more (c ∷ cs) made =
          let t : HistBarGetter D = record s {
            sym_req = insert r.symbol r s.sym_req;
            sym_chunks = insert r.symbol (c ∷ cs) s.sym_chunks;
            sym_chunk_id = insert r.symbol 0 s.sym_chunk_id;
          } in
          let (u, done, last) = next t refl (more t) in (u, rw (add_reqs, made) done, last)

  init-last :
      (x : Texts) (n : ℕ) (rs : List HistBarReq)
      → 1 ≤ n
      → (t : HistBarGetter D) × (init x n rs ≡ some t)
        × ((k : String) → lookup k t.sym_req ≡ last_req k rs none)
  unfolding init lookup
  init-last x n rs one =
      let (t, done, last) = add_reqs-last x n rs empty one in
      let u : HistBarGetter D = record t { remaining = length t.sym_chunk_id } in
      (u, rw (init, done) refl, last)

module _ (c : Settings) where
  last_req-absent :
      (k : String) (ds : List (String × String)) (old : Option HistBarReq)
      → All (λ y. k ≢ y) (map (λ e. e.1) ds)
      → last_req k (map (request_for c) ds) old ≡ old
  last_req-absent k [] old h = refl
  last_req-absent k ((name, symbol) ∷ ds) old h =
      last_req-absent k ds _ h.1 ∙ ground (arith, eq_iff k symbol, h.0)

  -- With a further download before them, the same.
  last_req-later :
      (d : String × String) (ds es : List (String × String))
      → All
          (λ e.
            (old : Option HistBarReq)
            → last_req e.1 (map (request_for c) ds) old ≡ some (request_for c e))
          es
      → All
          (λ e.
            (old : Option HistBarReq)
            → last_req e.1 (map (request_for c) (d ∷ ds)) old ≡ some (request_for c e))
          es
  last_req-later d ds [] h = tt
  last_req-later d ds (e ∷ es) h = (λ old. h.0 _, last_req-later d ds es h.1)

  last_req-own :
      (ds : List (String × String))
      → AreDifferent (map (λ e. e.1) ds)
      → All
          (λ e.
            (old : Option HistBarReq)
            → last_req e.1 (map (request_for c) ds) old ≡ some (request_for c e))
          ds
  last_req-own [] h = tt
  last_req-own ((name, symbol) ∷ ds) h = (
    λ old. last_req-absent symbol ds _ h.0 ∙ ground (arith, eq_iff symbol symbol),
    last_req-later (name, symbol) ds ds (last_req-own ds h.1),
  )

  module _ {D : Type 0} where
    out_path-found :
        (s : HistBarGetter D) (k : String) (r : HistBarReq)
        → lookup k s.sym_req ≡ some r
        → out_path k s ≡ r.save_path
    unfolding out_path
    out_path-found s k r h = rw (out_path, h) refl

    own_paths :
        (s : HistBarGetter D) (ds es : List (String × String))
        → ((k : String) → lookup k s.sym_req ≡ last_req k (map (request_for c) ds) none)
        → All
            (λ e.
              (old : Option HistBarReq)
              → last_req e.1 (map (request_for c) ds) old ≡ some (request_for c e))
            es
        → map (λ e. out_path e.1 s) es ≡ map (λ e. (request_for c e).save_path) es
    own_paths s ds [] last h = refl
    own_paths s ds (e ∷ es) last h =
        let found : out_path e.1 s ≡ (request_for c e).save_path =
          out_path-found s e.1 (request_for c e) (last e.1 ∙ h.0 none) in
        ap (λ path. path ∷ map (λ v. out_path v.1 s) es) found
        ∙ ap (λ l. (request_for c e).save_path ∷ l) (own_paths s ds es last h.1)

    -- For a configuration that has all its keys, and windows of a day or more, `generate_reqs` returns one request for
    -- each download, in order, with the download's symbol and the common range, zone and type, and `init` takes
    -- them. If the downloads have different names, and different symbols too, the bars of each download's
    -- symbol are then written to the file named after the download, and these files are different; the
    -- parts of the file names that come from the range have no space and no colon.
    pub one_file_each :
        (cfg : Document D) (x : Texts) (n : ℕ)
        → 1 ≤ n
        → Has cfg c
        → AreDifferent (map (λ e. e.0) c.downloads)
        → AreDifferent (map (λ e. e.1) c.downloads)
        → (s : HistBarGetter D) × (reqs : List HistBarReq) × (generate_reqs cfg ≡ ok reqs)
          × (reqs ≡ map (request_for c) c.downloads)
          × (init x n reqs ≡ some s)
          × (map (λ e. out_path e.1 s) c.downloads
              ≡ map (λ e. (request_for c e).save_path) c.downloads)
          × AreDifferent (map (λ e. out_path e.1 s) c.downloads)
          × (Without b' ' (codes (clean c.start)) × Without b':' (codes (clean c.start)))
          × (Without b' ' (codes (clean c.end)) × Without b':' (codes (clean c.end)))
    unfolding generate_reqs
    one_file_each cfg x n one h names symbols =
        let reqs = map (request_for c) c.downloads in
        let (s, made, last) = init-last x n reqs one in
        let paths = own_paths s c.downloads c.downloads last (last_req-own c.downloads symbols) in
        (
          s,
          reqs,
          rw (h.root_folder, h.start_text, h.end_text, h.zone, h.kind, h.entries)
              (add_downloads-all c c.downloads),
          refl,
          made,
          paths,
          subst AreDifferent (sym paths) (files-different c c.downloads names),
          clean-Without c.start,
          clean-Without c.end,
        )
