-- ===== src/History/Merging.antt =====
-- `process_data` of lib/data/historical_data.cpp: the bars that are written, in order and without repetition.
use Prim.Native.Char.{code}
use text.Mathlib.TextEquality.{Char-path}
use mathlib.Core.List.{Permᴰ, Memᴰ}
use mathlib.Core.List.Permᴰ.{nil, cons, swap, trans}
use mathlib.Core.List.Memᴰ.{head, tail}
use calm_trading_system.Base.{
  subst, ◌&&◌, String, string_eq, nat_eq, eq_iff, nat_beq_iff, lookup-insert, ltb, ◌==◌, ◌||◌, ◌≡◌,
  refl, sym, ap, ◌∙◌, Bool, true, false, Bool-cases, inl, inr, List, [], ◌∷◌, All, arith,
  if◌then◌else◌,
}
use calm_trading_system.Utils.{Bytes, codes}
use calm_trading_system.Objects.{HistBar}
use calm_trading_system.History.Getter.{HistBarGetter, data_of, unique_from, unique, process_data}

-- `<` of `std::string`
abbrev pub before_bytes : Bytes → Bytes → Bool
before_bytes xs [] = false
before_bytes [] (y ∷ ys) = true
before_bytes (x ∷ xs) (y ∷ ys) = if ltb x y then true else (x == y) && before_bytes xs ys

abbrev pub before : String → String → Bool
before a b = before_bytes (codes a) (codes b)

before_bytes_trans :
    (xs ys zs : Bytes)
    → before_bytes xs ys ≡ true
    → before_bytes ys zs ≡ true
    → before_bytes xs zs ≡ true
before_bytes_trans xs ys [] h k = cc
before_bytes_trans xs [] (z ∷ zs) h k = cc
before_bytes_trans [] (y ∷ ys) (z ∷ zs) h k = refl
before_bytes_trans (x ∷ xs) (y ∷ ys) (z ∷ zs) h k =
    ground (arith, before_bytes_trans xs ys zs, nat_beq_iff x y, nat_beq_iff y z, nat_beq_iff x z)

before_bytes_total :
    (xs ys : Bytes) → before_bytes xs ys ≡ false → before_bytes ys xs ≡ false → xs ≡ ys
before_bytes_total [] [] h k = refl
before_bytes_total [] (y ∷ ys) h k = cc
before_bytes_total (x ∷ xs) [] h k = cc
before_bytes_total (x ∷ xs) (y ∷ ys) h k =
    ground (arith, before_bytes_total xs ys, nat_beq_iff x y, nat_beq_iff y x)

codes_inj : (a b : String) → codes a ≡ codes b → a ≡ b
codes_inj String.[] String.[] h = refl
codes_inj String.[] (String.◌∷◌ c b) h = cc
codes_inj (String.◌∷◌ c a) String.[] h = cc
codes_inj (String.◌∷◌ c a) (String.◌∷◌ e b) h =
    let first : code c ≡ code e = cc in
    let rest : codes a ≡ codes b = cc in cc (Char-path c e first, codes_inj a b rest)

before_trans : (a b c : String) → before a b ≡ true → before b c ≡ true → before a c ≡ true
before_trans a b c = before_bytes_trans (codes a) (codes b) (codes c)

before_other : (a b : String) → before b a ≡ false → (a == b) ≡ false → before a b ≡ true
before_other a b h k = elim (Bool-cases (before a b)) [
  | inl less ↦ less
  | inr not_less ↦
      let same : a ≡ b = codes_inj a b (before_bytes_total (codes a) (codes b) not_less h) in
      ground (arith, eq_iff a b)
]

module _ {D : Type 0} where
  -- No bar comes before one that stands earlier in the list.
  abbrev pub IsSorted : List (HistBar D) → Type 0
  IsSorted [] = Unit
  IsSorted (x ∷ xs) = All (λ y. before y.time x.time ≡ false) xs × IsSorted xs

  -- Each bar is before those that stand later in the list.
  abbrev pub IsRising : List (HistBar D) → Type 0
  IsRising [] = Unit
  IsRising (x ∷ xs) = All (λ y. before x.time y.time ≡ true) xs × IsRising xs

  abbrev pub has_time : String → List (HistBar D) → Bool
  has_time t [] = false
  has_time t (x ∷ xs) = (t == x.time) || has_time t xs

  All-earlier :
      (a b : String) (xs : List (HistBar D))
      → before a b ≡ true
      → All (λ y. before b y.time ≡ true) xs
      → All (λ y. before a y.time ≡ true) xs
  All-earlier a b [] h k = tt
  All-earlier a b (x ∷ xs) h k = (before_trans a b x.time h k.0, All-earlier a b xs h k.1)

  unique_from-IsRising :
      (x : HistBar D) (ys : List (HistBar D)) → IsSorted (x ∷ ys) → IsRising (x ∷ unique_from x ys)
  unfolding unique_from
  unique_from-IsRising x [] h = (tt, tt)
  unique_from-IsRising x (y ∷ ys) h = elim (Bool-cases (x.time == y.time)) [
    | inl same ↦ rw same (unique_from-IsRising x ys (h.0.1, h.1.1))
    | inr other ↦
        let rest = unique_from-IsRising y ys h.1 in
        let first = before_other x.time y.time h.0.0 other in
        rw other ((first, All-earlier x.time y.time (unique_from y ys) first rest.0), rest)
  ]

  unique-IsRising : (xs : List (HistBar D)) → IsSorted xs → IsRising (unique xs)
  unfolding unique
  unique-IsRising [] h = tt
  unique-IsRising (x ∷ xs) h = unique_from-IsRising x xs h

  has_time-unique_from :
      (t : String) (x : HistBar D) (ys : List (HistBar D))
      → has_time t (x ∷ unique_from x ys) ≡ has_time t (x ∷ ys)
  unfolding unique_from
  has_time-unique_from t x [] = refl
  has_time-unique_from t x (y ∷ ys) =
      ground (arith, has_time-unique_from t x ys, has_time-unique_from t y ys, eq_iff x.time y.time)

  has_time-unique : (t : String) (xs : List (HistBar D)) → has_time t (unique xs) ≡ has_time t xs
  unfolding unique
  has_time-unique t [] = refl
  has_time-unique t (x ∷ xs) = has_time-unique_from t x xs

  has_time-Permᴰ :
      (t : String) {xs ys : List (HistBar D)} → Permᴰ xs ys → has_time t xs ≡ has_time t ys
  has_time-Permᴰ t nil = refl
  has_time-Permᴰ t (cons {a = a} {b = b} e p) =
      ground (arith, has_time-Permᴰ t p, ap (λ v. v.time) e)
  has_time-Permᴰ t (swap {a = a} {b = b} {a' = a'} {b' = b'} e f) =
      ground (arith, ap (λ v. v.time) e, ap (λ v. v.time) f)
  has_time-Permᴰ t (trans p q) = has_time-Permᴰ t p ∙ has_time-Permᴰ t q

  unique_from-All :
      (P : HistBar D → Type 0) (x : HistBar D) (ys : List (HistBar D))
      → All P ys
      → All P (unique_from x ys)
  unfolding unique_from
  unique_from-All P x [] h = tt
  unique_from-All P x (y ∷ ys) h = elim (Bool-cases (x.time == y.time)) [
    | inl same ↦ rw same (unique_from-All P x ys h.1)
    | inr other ↦ rw other (h.0, unique_from-All P y ys h.1)
  ]

  unique-All : (P : HistBar D → Type 0) (xs : List (HistBar D)) → All P xs → All P (unique xs)
  unfolding unique
  unique-All P [] h = tt
  unique-All P (x ∷ xs) h = (h.0, unique_from-All P x xs h.1)

  All-tail :
      (z : HistBar D) (xs ys : List (HistBar D))
      → All (λ b. Memᴰ b ys) xs
      → All (λ b. Memᴰ b (z ∷ ys)) xs
  All-tail z [] ys h = tt
  All-tail z (x ∷ xs) ys h = (tail h.0, All-tail z xs ys h.1)

  All-Memᴰ : (xs : List (HistBar D)) → All (λ b. Memᴰ b xs) xs
  All-Memᴰ [] = tt
  All-Memᴰ (x ∷ xs) = (head refl, All-tail x xs xs (All-Memᴰ xs))

  All-Permᴰ :
      (P : HistBar D → Type 0) {xs ys : List (HistBar D)} → Permᴰ xs ys → All P xs → All P ys
  All-Permᴰ P nil h = tt
  All-Permᴰ P (cons e p) h = (subst P e h.0, All-Permᴰ P p h.1)
  All-Permᴰ P (swap e f) h = (subst P f h.1.0, (subst P e h.0, h.1.1))
  All-Permᴰ P (trans p q) h = All-Permᴰ P q (All-Permᴰ P p h)

  process_data-data :
      (sort : List (HistBar D) → List (HistBar D)) (symbol : String) (s : HistBarGetter D)
      → data_of symbol (process_data sort symbol s) ≡ unique (sort (data_of symbol s))
  unfolding process_data
  process_data-data sort symbol s =
      let bars = unique (sort (data_of symbol s)) in
      ground (arith, lookup-insert symbol symbol bars s.sym_data, eq_iff symbol symbol)

  -- If `std::sort` rearranges the bars of a symbol such that none comes before an earlier one by its time, then
  -- the bars that `process_data` leaves for the file go up in time, each strictly before the later ones, and they
  -- are bars that were received, with one for every time of a bar that was received.
  pub merged :
      (sort : List (HistBar D) → List (HistBar D)) (symbol : String) (s : HistBarGetter D)
      → Permᴰ (data_of symbol s) (sort (data_of symbol s))
      → IsSorted (sort (data_of symbol s))
      → let kept = data_of symbol (process_data sort symbol s) in
        IsRising kept
        × All (λ b. Memᴰ b (data_of symbol s)) kept
        × ((time : String) → has_time time kept ≡ has_time time (data_of symbol s))
  merged sort symbol s p h =
      let bars = data_of symbol s in
      let got = sym (process_data-data sort symbol s) in
      (
        subst IsRising got (unique-IsRising (sort bars) h),
        subst (All (λ b. Memᴰ b bars)) got (
            unique-All (λ b. Memᴰ b bars) (sort bars)
              (All-Permᴰ (λ b. Memᴰ b bars) p (All-Memᴰ bars))),
        λ time.
            ap (has_time time) (process_data-data sort symbol s)
            ∙ has_time-unique time (sort bars)
            ∙ sym (has_time-Permᴰ time p),
      )
