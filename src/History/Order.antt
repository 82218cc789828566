-- ===== src/History/Order.antt =====
-- The order of the requests that `run` of `HistBarGetter` (lib/data/historical_data.cpp) sends.
use calm_trading_system.Base.{
  ◌⊎◌, ℕ, zero, suc, ◌≤◌, ℤ_eq, String, string_eq, nat_eq, eq_iff, ◌==◌, true, false, ◌≡◌, refl,
  sym, ap, ◌∙◌, subst, Bool-cases, inl, inr, List, [], ◌∷◌, ◌++◌, append_assoc, append-nil, All,
  length, take, get_elem?, some, Map, lookup, insert, lookup-insert, arith, if◌then◌else◌,
}
use calm_trading_system.History.{IbHistBarReq}
use calm_trading_system.History.Getter.{HistBarGetter, or_default, chunk_id_of, chunks_of}

take-next {ℓ} :
    {A : Type ℓ} (xs : List A) (n : ℕ) (x : A)
    → get_elem? xs n ≡ some x
    → take (suc n) xs ≡ take n xs ++ x ∷ []
take-next [] n x h = cc
take-next (y ∷ ys) zero x h = ground arith
take-next (y ∷ ys) (suc n) x h = ap (◌∷◌ y) (take-next ys n x h)

take_all {ℓ} : {A : Type ℓ} (xs : List A) (n : ℕ) → length xs ≤ n → take n xs ≡ xs
take_all [] zero h = refl
take_all [] (suc n) h = refl
take_all (y ∷ ys) zero h = let no : 1 ≤ 0 = omega arith in ground arith
take_all (y ∷ ys) (suc n) h = ap (◌∷◌ y) (take_all ys n (omega arith))

-- The requests for one symbol.
abbrev pub for_symbol : String → List IbHistBarReq → List IbHistBarReq
for_symbol symbol [] = []
for_symbol symbol (r ∷ rs) =
    let rest = for_symbol symbol rs in if symbol == r.symbol then r ∷ rest else rest

pub for_symbol-append :
    (symbol : String) (rs ts : List IbHistBarReq)
    → for_symbol symbol (rs ++ ts) ≡ for_symbol symbol rs ++ for_symbol symbol ts
for_symbol-append symbol [] ts = refl
for_symbol-append symbol (r ∷ rs) ts = ground (arith, for_symbol-append symbol rs ts)

-- Each symbol's chunks name it.
abbrev pub AreNamed : Map String (List IbHistBarReq) → Type 0
AreNamed m = All (λ e. All (λ c. c.symbol ≡ e.0) e.1) m

All-get {ℓ κ} :
    {A : Type ℓ} (P : A → Type κ) (xs : List A) (n : ℕ) (x : A)
    → All P xs
    → get_elem? xs n ≡ some x
    → P x
All-get P [] n x h e = cc
All-get P (y ∷ ys) zero x h e = let same : y ≡ x = ground arith in subst P same h.0
All-get P (y ∷ ys) (suc n) x h e = All-get P ys n x h.1 e

chunk-name :
    (m : Map String (List IbHistBarReq)) (symbol : String) (n : ℕ) (c : IbHistBarReq)
    → AreNamed m
    → get_elem? (or_default [] (lookup symbol m)) n ≡ some c
    → c.symbol ≡ symbol
unfolding lookup
chunk-name [] symbol n c h e = cc
chunk-name ((k, cs) ∷ m) symbol n c h e = elim (Bool-cases (symbol == k)) [
  | inl here ↦
      All-get (λ c. c.symbol ≡ k) cs n c h.0 (ground arith) ∙ sym ((eq_iff symbol k).0 here)
  | inr other ↦ chunk-name m symbol n c h.1 (ground arith)
]

module _ {D : Type 0} (m : Map String (List IbHistBarReq)) where
  -- For each symbol, the requests sent and then those queued are its chunks up to the one that is due.
  pub record AreInOrder (sent : List IbHistBarReq) (s : HistBarGetter D) : Type 0 where
    pub chunks : s.sym_chunks ≡ m
    pub order :
        (symbol : String)
        → for_symbol symbol sent ++ for_symbol symbol s.q
          ≡ take (suc (chunk_id_of symbol s)) (or_default [] (lookup symbol m))

  pub same-AreInOrder :
      (sent : List IbHistBarReq) (s t : HistBarGetter D)
      → t.sym_chunks ≡ s.sym_chunks
      → t.q ≡ s.q
      → t.sym_chunk_id ≡ s.sym_chunk_id
      → AreInOrder sent s
      → AreInOrder sent t
  same-AreInOrder sent s t a b c k = record {
    chunks = a ∙ k.chunks;
    order = λ symbol. rw (b, c) (k.order symbol);
  }

  -- The request in front is sent.
  pub popped-AreInOrder :
      (sent : List IbHistBarReq) (r : IbHistBarReq) (rest : List IbHistBarReq)
      (s t : HistBarGetter D)
      → s.q ≡ r ∷ rest
      → t.q ≡ rest
      → t.sym_chunks ≡ s.sym_chunks
      → t.sym_chunk_id ≡ s.sym_chunk_id
      → AreInOrder sent s
      → AreInOrder (sent ++ r ∷ []) t
  popped-AreInOrder sent r rest s t before after a c k = record {
    chunks = a ∙ k.chunks;
    order = λ symbol.
        rw (for_symbol-append symbol sent (r ∷ []), after, c)
          (append_assoc (for_symbol symbol sent) (for_symbol symbol (r ∷ []))
              (for_symbol symbol rest)
            ∙ ap (λ l. for_symbol symbol sent ++ l)
                (sym (for_symbol-append symbol (r ∷ []) rest) ∙ ap (for_symbol symbol) (sym before))
            ∙ k.order symbol);
  }

  chunk_id_after :
      (symbol other : String) (s t : HistBarGetter D)
      → t.sym_chunk_id ≡ insert symbol (suc (chunk_id_of symbol s)) s.sym_chunk_id
      → chunk_id_of other t
        ≡ (if other == symbol then suc (chunk_id_of symbol s) else chunk_id_of other s)
  chunk_id_after symbol other s t e =
      ap (λ m. or_default 0 (lookup other m)) e
      ∙ ground (arith, lookup-insert symbol other (suc (chunk_id_of symbol s)) s.sym_chunk_id)

  -- A chunk's bars have come, and it was not the last.
  pub next-AreInOrder :
      (sent : List IbHistBarReq) (symbol : String) (c : IbHistBarReq) (s t : HistBarGetter D)
      → AreNamed m
      → get_elem? (chunks_of symbol s) (suc (chunk_id_of symbol s)) ≡ some c
      → t.sym_chunks ≡ s.sym_chunks
      → t.q ≡ s.q ++ c ∷ []
      → t.sym_chunk_id ≡ insert symbol (suc (chunk_id_of symbol s)) s.sym_chunk_id
      → AreInOrder sent s
      → AreInOrder sent t
  next-AreInOrder sent symbol c s t named next a b e k = record {
    chunks = a ∙ k.chunks;
    order = λ other. elim (Bool-cases (other == symbol)) [
      | inl here ↦ subst IsDue (sym ((eq_iff other symbol).0 here)) own
      | inr away ↦
          let kept : for_symbol other (c ∷ []) ≡ [] = rw (name, away) refl in
          rw
            (
              b,
              for_symbol-append other s.q (c ∷ []),
              kept,
              append-nil (for_symbol other s.q),
              chunk_id_after symbol other s t e,
              away,
            )
            (k.order other)
    ];
  }
    where
      IsDue : String → Type 0
      IsDue o =
          for_symbol o sent ++ for_symbol o t.q
          ≡ take (suc (chunk_id_of o t)) (or_default [] (lookup o m))

      cs : List IbHistBarReq
      cs = or_default [] (lookup symbol m)

      chunk : get_elem? cs (suc (chunk_id_of symbol s)) ≡ some c
      chunk =
          ap (λ l. get_elem? (or_default [] (lookup symbol l)) (suc (chunk_id_of symbol s)))
            (sym k.chunks)
          ∙ next

      name : c.symbol ≡ symbol
      name = chunk-name m symbol (suc (chunk_id_of symbol s)) c named chunk

      own : IsDue symbol
      own =
          let found : for_symbol symbol (c ∷ []) ≡ c ∷ [] =
            rw (name, (eq_iff symbol symbol).1 refl) refl in
          rw
            (
              b,
              for_symbol-append symbol s.q (c ∷ []),
              found,
              chunk_id_after symbol symbol s t e,
              (eq_iff symbol symbol).1 refl,
            )
            (sym (append_assoc (for_symbol symbol sent) (for_symbol symbol s.q) (c ∷ []))
              ∙ ap (λ l. l ++ c ∷ []) (k.order symbol)
              ∙ sym (take-next cs (suc (chunk_id_of symbol s)) c chunk))

  -- A chunk's bars have come, and it was the last.
  pub last-AreInOrder :
      (sent : List IbHistBarReq) (symbol : String) (s t : HistBarGetter D)
      → suc (chunk_id_of symbol s) ≡ length (chunks_of symbol s)
      → t.sym_chunks ≡ s.sym_chunks
      → t.q ≡ s.q
      → t.sym_chunk_id ≡ insert symbol (suc (chunk_id_of symbol s)) s.sym_chunk_id
      → AreInOrder sent s
      → AreInOrder sent t
  last-AreInOrder sent symbol s t last a b e k = record {
    chunks = a ∙ k.chunks;
    order = λ other. rw b (k.order other ∙ sym (same_taken other (Bool-cases (other == symbol))));
  }
    where
      all : length (or_default [] (lookup symbol m)) ≡ suc (chunk_id_of symbol s)
      all = ap (λ l. length (or_default [] (lookup symbol l))) (sym k.chunks) ∙ sym last

      same_taken :
          (other : String)
          → ((other == symbol) ≡ true) ⊎ ((other == symbol) ≡ false)
          → take (suc (chunk_id_of other t)) (or_default [] (lookup other m))
            ≡ take (suc (chunk_id_of other s)) (or_default [] (lookup other m))
      same_taken other (inr away) = rw (chunk_id_after symbol other s t e, away) refl
      same_taken other (inl here) =
          let same = (eq_iff other symbol).0 here in
          rw (chunk_id_after symbol other s t e, here, same)
            (take_all (or_default [] (lookup symbol m)) (suc (suc (chunk_id_of symbol s)))
                (omega (arith, all))
              ∙ sym (
                  take_all (or_default [] (lookup symbol m)) (suc (chunk_id_of symbol s))
                    (omega (arith, all))))
