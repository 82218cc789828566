-- ===== src/Queue.antt =====
-- lib/utils/lock_based_queue.h: `LBQueue`. The lock makes each operation one step on the list of
-- the items, oldest first.
use calm_trading_system.Base.{
  if◌then◌else◌, ◌≡◌, ap, sym, ◌∙◌, Bool, true, false, List, [], ◌∷◌, ◌++◌, Option, none, some,
  append_assoc, append-nil,
}

-- What threads do to one queue, in the order in which they get its lock. A timed pop has the
-- caller's variable.
pub data Use {ℓ} (A : Type ℓ) : Type ℓ where
  pushes : A → Use A
  pops : Use A
  tries : A → Use A

module _ {ℓ} {A : Type ℓ} where
  -- Both overloads of `wait_push`.
  unfoldable pub wait_push : A → List A → List A
  wait_push item q = q ++ item ∷ []

  -- `wait_pop` returns only when there is an item: `none` is a thread that waits.
  unfoldable pub wait_pop : List A → Option (A × List A)
  wait_pop [] = none
  wait_pop (x ∷ q) = some (x, q)

  -- `try_pop(item, us)`: whether there was an item, the caller's variable, and the queue. When the
  -- time runs out the variable keeps what it held.
  unfoldable pub try_pop : A → List A → Bool × A × List A
  try_pop item [] = (false, item, [])
  try_pop item (x ∷ q) = (true, x, q)

  -- The items that were taken, and the queue.
  unfoldable pub use_one : Use A → List A → List A × List A
  unfolding wait_push wait_pop try_pop
  use_one (pushes x) q = ([], wait_push x q)
  use_one pops q = elim (wait_pop q) [ none ↦ ([], q) | some (x, rest) ↦ (x ∷ [], rest) ]
  use_one (tries item) q = let (got, x, rest) = try_pop item q in (if got then x ∷ [] else [], rest)

  unfoldable pub use_all : List (Use A) → List A → List A × List A
  use_all [] q = ([], q)
  use_all (u ∷ us) q =
      let (taken, q') = use_one u q in let (more, last) = use_all us q' in (taken ++ more, last)

  abbrev pub pushed : List (Use A) → List A
  pushed [] = []
  pushed (pushes x ∷ us) = x ∷ pushed us
  pushed (_ ∷ us) = pushed us

  -- First in, first out, with no item lost or taken twice: under any interleaving of pushes, blocking
  -- and timed pops, the items taken, in order, and then those left are the items
  -- that were there and then those pushed, in order.
  pub fifo :
      (us : List (Use A)) (q : List A) → (use_all us q).0 ++ (use_all us q).1 ≡ q ++ pushed us
  unfolding use_all use_one
  fifo [] q = sym (append-nil q)
  fifo (pushes x ∷ us) q = fifo us (q ++ x ∷ []) ∙ append_assoc q (x ∷ []) (pushed us)
  fifo (pops ∷ us) [] = fifo us []
  fifo (pops ∷ us) (x ∷ q) = ap (◌∷◌ x) (fifo us q)
  fifo (tries item ∷ us) [] = fifo us []
  fifo (tries item ∷ us) (x ∷ q) = ap (◌∷◌ x) (fifo us q)
