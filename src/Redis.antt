-- ===== src/Redis.antt =====
-- lib/database/redis_client.cpp: the subscription loop and its sentinel. The replies that hiredis
-- hands over are an argument.
pub mod Client
pub mod Tidy
use calm_trading_system.Base.{
  ℕ, ◌+◌, nat_eq, ◌≡◌, refl, ◌↔◌, Bool, true, false, ◌==◌, nat_beq_iff, List, [], ◌∷◌, ◌++◌, map,
  arith, length, All, if◌then◌else◌,
}
use calm_trading_system.Utils.{Bytes}

-- The loop of `is_sentinel` over the sentinel's bytes.
same_start : Bytes → Bytes → Bool
same_start [] msg = true
same_start (c ∷ sentinel) [] = false
same_start (c ∷ sentinel) (x ∷ msg) = if c == x then same_start sentinel msg else false

unfoldable pub is_sentinel : Bytes → Bytes → Bool
unfolding same_start
is_sentinel sentinel msg =
    if length msg == length sentinel + 1 then same_start sentinel msg else false

-- `redisGetReply` gives a message or fails.
pub data Reply : Type 0 where
  message : Bytes → Reply
  failed : Reply

-- The loop still waits, has met the sentinel, or has thrown.
pub data Listen : Type 0 where
  waiting stopped thrown : Listen

-- The messages for which `callback` was called, in order, and how the loop stands.
unfoldable pub subscribe : Bytes → List Reply → List Bytes × Listen
subscribe sentinel [] = ([], waiting)
subscribe sentinel (failed ∷ rs) = ([], thrown)
subscribe sentinel (message m ∷ rs) =
    let (called, end) = subscribe sentinel rs in
    if is_sentinel sentinel m then ([], stopped) else (m ∷ called, end)

same_start-append : (s : Bytes) (x : ℕ) → same_start s (s ++ x ∷ []) ≡ true
unfolding same_start
same_start-append [] x = refl
same_start-append (c ∷ s) x = ground (arith, nat_beq_iff c c, same_start-append s x)

length-snoc : (s : Bytes) (x : ℕ) → length (s ++ x ∷ []) ≡ length s + 1
length-snoc [] x = omega arith
length-snoc (c ∷ s) x = omega (arith, length-snoc s x)

split_last :
    (s msg : Bytes)
    → length msg ≡ length s + 1
    → same_start s msg ≡ true
    → (x : ℕ) × (msg ≡ s ++ x ∷ [])
unfolding same_start
split_last [] [] h e = absurd (omega arith)
split_last [] (x ∷ []) h e = (x, refl)
split_last [] (x ∷ y ∷ msg) h e = absurd (omega arith)
split_last (c ∷ s) [] h e = cc
split_last (c ∷ s) (x ∷ msg) h e =
    let (y, p) = split_last s msg (omega arith) (ground arith) in
    (y, ground (arith, nat_beq_iff c x))

-- A message is taken for the sentinel exactly when it is the sentinel and one more byte, of any value.
pub is_sentinel_iff : (s msg : Bytes) → (is_sentinel s msg ≡ true) ↔ ((x : ℕ) × (msg ≡ s ++ x ∷ []))
unfolding is_sentinel
is_sentinel_iff s msg = (
  λ h. split_last s msg (ground (arith, nat_beq_iff (length msg) (length s + 1))) (ground arith),
  λ (x, e). rw e (ground (arith, same_start-append s x, length-snoc s x)),
)

-- Of the messages up to the first sentinel each is passed on, once and in order, and the loop then
-- stops, whatever replies would follow.
pub subscribe_until_sentinel :
    (s : Bytes) (ms : List Bytes) (x : ℕ) (rest : List Reply)
    → All (λ m. is_sentinel s m ≡ false) ms
    → subscribe s (map message ms ++ message (s ++ x ∷ []) ∷ rest) ≡ (ms, stopped)
unfolding subscribe
subscribe_until_sentinel s [] x rest h = rw ((is_sentinel_iff s (s ++ x ∷ [])).1 (x, refl)) refl
subscribe_until_sentinel s (m ∷ ms) x rest h =
    rw h.0 (rw (subscribe_until_sentinel s ms x rest h.1) refl)
