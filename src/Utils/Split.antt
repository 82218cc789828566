-- ===== src/Utils/Split.antt =====
-- `split` of lib/utils/utils.cpp, on delimiters of one byte and of two.
use calm_trading_system.Base.{
  ℕ, zero, suc, ◌+◌, ◌<◌, ◌≡◌, refl, ap, ◌∙◌, ◌≢◌, true, false, inl, inr, ◌==◌, nat_eq, nat_beq_iff,
  none, some, List, [], ◌∷◌, ◌++◌, ok, arith, length, take, drop, All, Option-cases,
}
use calm_trading_system.Utils.{Bytes, find, split_loop, split}

-- The pieces with `c` between them.
abbrev pub join : ℕ → List Bytes → Bytes
join c [] = []
join c (p ∷ []) = p
join c (p ∷ q ∷ ps) = p ++ (c ∷ join c (q ∷ ps))

abbrev pub Without : ℕ → Bytes → Type 0
Without c = All (λ x. c ≢ x)

pub find_byte :
    (c x : ℕ) (s : Bytes)
    → find (c ∷ []) (x ∷ s) ≡ elim (c == x) [
      | true ↦ some 0
      | false ↦ elim (find (c ∷ []) s) [ none ↦ none | some k ↦ some (suc k) ]
    ]
unfolding find
find_byte c x s = ground arith

find-none : (c : ℕ) (s : Bytes) → find (c ∷ []) s ≡ none → Without c s
find-none c [] h = tt
find-none c (x ∷ s) h =
    (λ e. ground (arith, find_byte c x s), find-none c s (ground (arith, find_byte c x s)))

find_nil : (c k : ℕ) → find (c ∷ []) [] ≡ some k → ⊥
unfolding find
find_nil c k h = cc

record Found (c k : ℕ) (s : Bytes) : Type 0 where
  whole : take k s ++ (c ∷ drop (suc k) s) ≡ s
  clean : Without c (take k s)
  shorter : length (drop (suc k) s) < length s

find-some : (c k : ℕ) (s : Bytes) → find (c ∷ []) s ≡ some k → Found c k s
find-some c k [] h = absurd (find_nil c k h)
find-some c zero (x ∷ s) h = record {
  whole = ap (λ y. y ∷ s) (ground (arith, find_byte c x s));
  clean = tt;
  shorter = omega arith;
}
find-some c (suc k) (x ∷ s) h =
    let r : Found c k s = find-some c k s (ground (arith, find_byte c x s)) in
    record {
      whole = ap (◌∷◌ x) r.whole;
      clean = (λ e. ground (arith, find_byte c x s), r.clean);
      shorter = omega (arith, r.shorter);
    }

-- The text comes back, and no piece holds the delimiter.
record Pieces (c : ℕ) (s : Bytes) (ps : List Bytes) : Type 0 where
  joined : join c ps ≡ s
  clean : All (Without c) ps
  some_piece : ps ≢ []

join-cons : (c : ℕ) (p : Bytes) (ps : List Bytes) → ps ≢ [] → join c (p ∷ ps) ≡ p ++ (c ∷ join c ps)
join-cons c p [] h = absurd (h refl)
join-cons c p (q ∷ ps) h = refl

split_loop-Pieces :
    (c fuel : ℕ) (s : Bytes) → length s < fuel → Pieces c s (split_loop fuel (c ∷ []) s)
unfolding split_loop
split_loop-Pieces c zero s h = elim h [ ]
split_loop-Pieces c (suc fuel) s h = elim (Option-cases (find (c ∷ []) s)) [
  | inl e ↦
      rw (e, split_loop)
        (record { joined = refl; clean = (find-none c s e, tt); some_piece = λ q. cc })
  | inr (k, e) ↦
      let f : Found c k s = find-some c k s e in
      let more : Pieces c (drop (suc k) s) (split_loop fuel (c ∷ []) (drop (suc k) s)) =
        split_loop-Pieces c fuel (drop (suc k) s) (omega (arith, f.shorter)) in
      rw (e, split_loop)
        (record {
          joined =
              join-cons c (take k s) _ more.some_piece
              ∙ ap (λ r. take k s ++ (c ∷ r)) more.joined
              ∙ f.whole;
          clean = (f.clean, more.clean);
          some_piece = λ q. cc;
        })
]

-- On a delimiter of one byte, `split` always returns pieces that hold no delimiter and that, with the
-- delimiter put back between them, are the text.
split_pieces :
    (c : ℕ) (s : Bytes)
    → (ps : List Bytes) × (split s (c ∷ []) ≡ ok ps) × (join c ps ≡ s) × All (Without c) ps
unfolding split
split_pieces c s =
    let r : Pieces c s (split_loop (length s + 1) (c ∷ []) s) =
      split_loop-Pieces c (length s + 1) s (omega arith) in
    (_, refl, r.joined, r.clean)

-- With a delimiter of two different bytes only the first is stepped over: a text that is the delimiter
-- itself splits into the empty piece and the delimiter's second byte, not into two empty pieces.
split_leaves_tail : (c e : ℕ) → c ≢ e → split (c ∷ e ∷ []) (c ∷ e ∷ []) ≡ ok ([] ∷ (e ∷ []) ∷ [])
unfolding split split_loop find
split_leaves_tail c e h = ground (arith, nat_beq_iff c e, nat_beq_iff c c, nat_beq_iff e e)
