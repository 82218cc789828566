-- ===== src/Utils/Join.antt =====
-- `split` of lib/utils/utils.cpp on joined pieces.
use calm_trading_system.Base.{
  ℕ, zero, suc, ◌+◌, ◌<◌, ◌≡◌, refl, ap, nat_eq, nat_beq_iff, length-append, none, some, List, [],
  ◌∷◌, ◌++◌, ok, arith, length, take, drop, All,
}
use calm_trading_system.Utils.{Bytes, find, split_loop, split}
use calm_trading_system.Utils.Split.{join, Without, find_byte}

find_clean : (c : ℕ) (p : Bytes) → Without c p → find (c ∷ []) p ≡ none
find_clean c [] h = unfold find in refl
find_clean c (x ∷ p) h = ground (arith, find_byte c x p, find_clean c p h.1, nat_beq_iff c x)

find_joined :
    (c : ℕ) (p rest : Bytes) → Without c p → find (c ∷ []) (p ++ (c ∷ rest)) ≡ some (length p)
find_joined c [] rest h = ground (arith, find_byte c c rest, nat_beq_iff c c)
find_joined c (x ∷ p) rest h =
    ground (arith, find_byte c x (p ++ (c ∷ rest)), find_joined c p rest h.1, nat_beq_iff c x)

take_joined : (c : ℕ) (p rest : Bytes) → take (length p) (p ++ (c ∷ rest)) ≡ p
take_joined c [] rest = refl
take_joined c (x ∷ p) rest = ap (◌∷◌ x) (take_joined c p rest)

drop_joined : (c : ℕ) (p rest : Bytes) → drop (suc (length p)) (p ++ (c ∷ rest)) ≡ rest
drop_joined c [] rest = refl
drop_joined c (x ∷ p) rest = drop_joined c p rest

split_loop_joined :
    (c fuel : ℕ) (p : Bytes) (ps : List Bytes)
    → All (Without c) (p ∷ ps)
    → length (join c (p ∷ ps)) < fuel
    → split_loop fuel (c ∷ []) (join c (p ∷ ps)) ≡ p ∷ ps
unfolding split_loop
split_loop_joined c zero p ps h enough = absurd (omega arith)
split_loop_joined c (suc fuel) p [] h enough = rw (split_loop, find_clean c p h.0) refl
split_loop_joined c (suc fuel) p (q ∷ ps) h enough =
    let rest = join c (q ∷ ps) in
    let more = split_loop_joined c fuel q ps h.1 (omega (arith, length-append p (c ∷ rest))) in
    rw (split_loop, find_joined c p rest h.0)
      (cc (take_joined c p rest, drop_joined c p rest, more))

-- Pieces without the byte `c`, at least one, that are joined with `c` between them are what `split` at `c`
-- returns.
pub split_joined :
    (c : ℕ) (p : Bytes) (ps : List Bytes)
    → All (Without c) (p ∷ ps)
    → split (join c (p ∷ ps)) (c ∷ []) ≡ ok (p ∷ ps)
unfolding split
split_joined c p ps h =
    ap ok (split_loop_joined c (length (join c (p ∷ ps)) + 1) p ps h (omega arith))
