-- ===== src/History/Counting.antt =====
-- `remaining` of `HistBarGetter` (lib/data/historical_data.cpp) beside the symbols whose download is in progress.
use calm_trading_system.Base.{
  has, distinct, ℕ, zero, suc, ◌≤◌, ℤ, ℤ_eq, String, string_eq, nat_eq, eq_iff, ◌==◌, Bool, true,
  false, ◌≡◌, refl, sym, ap, ◌∙◌, subst, Bool-cases, Option-cases, inl, inr, List, [], ◌∷◌, ◌++◌,
  All, length, get_elem?, some, Map, lookup, insert, lookup-insert, ok, arith, if◌then◌else◌,
}
use calm_trading_system.Objects.{HistBar, HistBarEnd, ErrMsg}
use calm_trading_system.History.{IbHistBarReq, HistBarStatus, in_prog, success, error}
use calm_trading_system.History.Getter.{
  Save, saved, failed, threw, HistBarGetter, decrement, or_default, status_of, chunk_id_of,
  chunks_of, process_hist_bar_end, process_err_msg, process_data, after_save,
}

abbrev pub is_in_prog : HistBarStatus → Bool
is_in_prog in_prog = true
is_in_prog _ = false

-- How many of the symbols are in progress.
abbrev pub in_progress : List String → Map String HistBarStatus → ℕ
in_progress [] m = 0
in_progress (k ∷ ks) m =
    if is_in_prog (or_default in_prog (lookup k m))
    then suc (in_progress ks m)
    else in_progress ks m

in_progress-absent :
    (ks : List String) (k : String) (st : HistBarStatus) (m : Map String HistBarStatus)
    → has k ks ≡ false
    → in_progress ks (insert k st m) ≡ in_progress ks m
in_progress-absent [] k st m h = refl
in_progress-absent (j ∷ ks) k st m h =
    ground (arith, in_progress-absent ks k st m, lookup-insert k j st m, eq_iff j k, eq_iff k j)

-- A symbol that was in progress and is no more.
in_progress-done :
    (ks : List String) (k : String) (st : HistBarStatus) (m : Map String HistBarStatus)
    → distinct ks ≡ true
    → has k ks ≡ true
    → is_in_prog (or_default in_prog (lookup k m)) ≡ true
    → is_in_prog st ≡ false
    → suc (in_progress ks (insert k st m)) ≡ in_progress ks m
in_progress-done [] k st m d h p n = cc
in_progress-done (j ∷ ks) k st m d h p n = elim (Bool-cases (k == j)) [
  | inl same ↦
      ground (arith, in_progress-absent ks k st m, lookup-insert k j st m, eq_iff j k, eq_iff k j)
  | inr other ↦
      ground (arith, in_progress-done ks k st m, lookup-insert k j st m, eq_iff j k, eq_iff k j)
]

in_progress_less :
    (ks : List String) (k : String) (st : HistBarStatus) (m : Map String HistBarStatus)
    → is_in_prog st ≡ false
    → in_progress ks (insert k st m) ≤ in_progress ks m
in_progress_less [] k st m n = omega arith
in_progress_less (j ∷ ks) k st m n =
    ground (arith, in_progress_less ks k st m, lookup-insert k j st m, eq_iff j k, eq_iff k j)

abbrev pub AreOurs : List String → List IbHistBarReq → Type 0
AreOurs ks cs = All (λ c. has c.symbol ks ≡ true) cs

pub AreOurs-append :
    (ks : List String) (cs : List IbHistBarReq) (c : IbHistBarReq)
    → AreOurs ks cs
    → has c.symbol ks ≡ true
    → AreOurs ks (cs ++ c ∷ [])
AreOurs-append ks [] c h k = (k, tt)
AreOurs-append ks (b ∷ cs) c h k = (h.0, AreOurs-append ks cs c h.1 k)

pub AreOurs-get :
    (ks : List String) (cs : List IbHistBarReq) (i : ℕ) (c : IbHistBarReq)
    → AreOurs ks cs
    → get_elem? cs i ≡ some c
    → has c.symbol ks ≡ true
AreOurs-get ks [] i c h e = cc
AreOurs-get ks (b ∷ cs) zero c h e =
    let same : b ≡ c = ground arith in subst (λ x. has x.symbol ks ≡ true) same h.0
AreOurs-get ks (b ∷ cs) (suc i) c h e = AreOurs-get ks cs i c h.1 e

AreOurs-chunks :
    (ks : List String) (m : Map String (List IbHistBarReq)) (symbol : String)
    → All (λ e. AreOurs ks e.1) m
    → AreOurs ks (or_default [] (lookup symbol m))
unfolding lookup
AreOurs-chunks ks [] symbol h = tt
AreOurs-chunks ks ((k, cs) ∷ m) symbol h = elim (Bool-cases (symbol == k)) [
  | inl here ↦ rw here h.0
  | inr other ↦ rw other (AreOurs-chunks ks m symbol h.1)
]

module _ {D : Type 0} (ks : List String) where
  pub record IsCounted (s : HistBarGetter D) : Type 0 where
    pub served :
        (id : ℤ) (symbol : String) → lookup id s.req_id_sym ≡ some symbol → has symbol ks ≡ true
    pub queued : AreOurs ks s.q
    pub chunked : All (λ e. AreOurs ks e.1) s.sym_chunks
    pub counted : in_progress ks s.sym_status ≤ s.remaining

  -- The count goes on, and `remaining` has not wrapped round.
  pub record Counts (s t : HistBarGetter D) : Type 0 where
    pub after : IsCounted t
    pub no_more : t.remaining ≤ s.remaining

  pub counts :
      (s t : HistBarGetter D)
      → IsCounted s
      → t.req_id_sym ≡ s.req_id_sym
      → t.sym_chunks ≡ s.sym_chunks
      → AreOurs ks t.q
      → in_progress ks t.sym_status ≤ t.remaining
      → t.remaining ≤ s.remaining
      → Counts s t
  counts s t k ids chunks q c r = record {
    after = record {
      served = λ id symbol h. k.served id symbol (ap (λ m. lookup id m) (sym ids) ∙ h);
      queued = q;
      chunked = subst (λ m. All (λ e. AreOurs ks e.1) m) (sym chunks) k.chunked;
      counted = c;
    };
    no_more = r;
  }

  -- What is not counted may change.
  pub uncounted-Counts :
      (s t : HistBarGetter D)
      → IsCounted s
      → t.req_id_sym ≡ s.req_id_sym
      → t.sym_chunks ≡ s.sym_chunks
      → t.q ≡ s.q
      → t.sym_status ≡ s.sym_status
      → t.remaining ≡ s.remaining
      → Counts s t
  uncounted-Counts s t k ids chunks q st r =
      counts s t k ids chunks (subst (AreOurs ks) (sym q) k.queued)
        (let c : in_progress ks t.sym_status ≤ s.remaining =
            subst (λ m. in_progress ks m ≤ s.remaining) (sym st) k.counted in
          omega arith)
        (omega arith)

  module _ (d : distinct ks ≡ true) where
    -- A symbol that leaves its progress, with `remaining` one less.
    ends_progress :
        (s : HistBarGetter D) (symbol : String) (st : HistBarStatus)
        → IsCounted s
        → has symbol ks ≡ true
        → is_in_prog (status_of symbol s) ≡ true
        → is_in_prog st ≡ false
        → (in_progress ks (insert symbol st s.sym_status) ≤ decrement s.remaining)
          × (decrement s.remaining ≤ s.remaining)
    ends_progress s symbol st k own busy over =
        by_count s.remaining refl (in_progress-done ks symbol st s.sym_status d own busy over)
      where
        by_count :
            (n : ℕ)
            → s.remaining ≡ n
            → suc (in_progress ks (insert symbol st s.sym_status)) ≡ in_progress ks s.sym_status
            → (in_progress ks (insert symbol st s.sym_status) ≤ decrement n) × (decrement n ≤ n)
        by_count zero e c = let no : 1 ≤ 0 = omega (arith, k.counted) in ground arith
        by_count (suc n) e c = (omega (arith, k.counted), omega arith)

    pub err_msg-Counts :
        (m : ErrMsg) (s : HistBarGetter D) → IsCounted s → Counts s (process_err_msg m s)
    unfolding process_err_msg
    err_msg-Counts m s k = elim (Option-cases (lookup m.id s.req_id_sym)) [
      | inl unknown ↦
          uncounted-Counts s _ k (ground arith) (ground arith) (ground arith) (ground arith)
            (ground arith)
      | inr (symbol, known) ↦
          let own = k.served m.id symbol known in
          elim (Bool-cases (is_in_prog (status_of symbol s))) [
            | inl busy ↦
                let e = ends_progress s symbol error k own busy refl in
                counts s _ k (ground arith) (ground arith)
                  (subst (AreOurs ks) (ground arith) k.queued) (ground (arith, e.0))
                  (ground (arith, e.1))
            | inr idle ↦
                let less = in_progress_less ks symbol error s.sym_status refl in
                counts s _ k (ground arith) (ground arith)
                  (subst (AreOurs ks) (ground arith) k.queued) (ground (arith, less, k.counted))
                  (ground arith)
          ]
    ]

    after_save-Counts :
        (end : Save) (symbol : String) (s : HistBarGetter D)
        → IsCounted s
        → has symbol ks ≡ true
        → Counts s (after_save end symbol s)
    unfolding after_save
    after_save-Counts saved symbol s k own = elim (Bool-cases (is_in_prog (status_of symbol s))) [
      | inl busy ↦
          let e = ends_progress s symbol success k own busy refl in
          counts s _ k (ground arith) (ground arith) (subst (AreOurs ks) (ground arith) k.queued)
            (ground (arith, e.0)) (ground (arith, e.1))
      | inr idle ↦
          uncounted-Counts s _ k (ground arith) (ground arith) (ground arith) (ground arith)
            (ground arith)
    ]
    after_save-Counts failed symbol s k own =
        let less = in_progress_less ks symbol error s.sym_status refl in
        counts s _ k refl refl k.queued (omega (arith, less, k.counted)) (omega arith)
    after_save-Counts threw symbol s k own = uncounted-Counts s s k refl refl refl refl refl

    pub Counts-Counts : (s t u : HistBarGetter D) → Counts s t → Counts t u → Counts s u
    Counts-Counts s t u a b = record {
      after = b.after;
      no_more = omega (arith, a.no_more, b.no_more);
    }

    pub bar_end-Counts :
        (sort : List (HistBar D) → List (HistBar D)) (end : Save) (e : HistBarEnd)
        (s t : HistBarGetter D)
        → IsCounted s
        → process_hist_bar_end sort end e s ≡ ok t
        → Counts s t
    unfolding process_hist_bar_end process_data
    bar_end-Counts sort end e s t k h = elim (Option-cases (lookup e.id s.req_id_sym)) [
      | inl unknown ↦
          uncounted-Counts s t k (ground arith) (ground arith) (ground arith) (ground arith)
            (ground arith)
      | inr (symbol, known) ↦
          let own = k.served e.id symbol known in
          elim (Bool-cases (suc (chunk_id_of symbol s) == length (chunks_of symbol s))) [
            | inl last ↦
                let u = process_data sort symbol (record s {
                  sym_chunk_id = insert symbol (suc (chunk_id_of symbol s)) s.sym_chunk_id;
                }) in
                let moved : Counts s u = uncounted-Counts s u k refl refl refl refl refl in
                let same : after_save end symbol u ≡ t = ground arith in
                subst (Counts s) same
                  (Counts-Counts s u _ moved (after_save-Counts end symbol u moved.after own))
            | inr more ↦
                elim (Option-cases (get_elem? (chunks_of symbol s) (suc (chunk_id_of symbol s)))) [
                  | inl beyond ↦ ground arith
                  | inr (c, next) ↦
                      let ours =
                        AreOurs-get ks (chunks_of symbol s) (suc (chunk_id_of symbol s)) c
                          (AreOurs-chunks ks s.sym_chunks symbol k.chunked) next in
                      let queue : t.q ≡ s.q ++ c ∷ [] = ground arith in
                      let st : t.sym_status ≡ s.sym_status = ground arith in
                      let left : t.remaining ≡ s.remaining = ground arith in
                      counts s t k (ground arith) (ground arith)
                        (subst (AreOurs ks) (sym queue) (AreOurs-append ks s.q c k.queued ours))
                        (subst (λ m. in_progress ks m ≤ t.remaining) (sym st)
                          (omega (arith, k.counted)))
                        (omega arith)
                ]
          ]
    ]
