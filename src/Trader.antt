-- ===== src/Trader.antt =====
-- `send_timer` of lib/core/trader.h, which `run` calls once in each pass of its loop. `now` is the clock in whole
-- seconds, and `target` the static variable.
use calm_trading_system.Base.{
  map, ◌++◌, ◌∙◌, sym, subst, ℕ, zero, suc, ◌+◌, ◌%◌, ◌≤◌, leb, ◌≡◌, refl, true, false, Bool-cases,
  inl, inr, List, [], ◌∷◌, length, Option, none, some, arith, All, if◌then◌else◌,
}
use calm_trading_system.Objects.{Timer}

-- The next target, and the timer that is sent.
unfoldable pub send_timer : ℕ → ℕ → ℕ × Option Timer
send_timer now target =
    if leb target now
    then (target + 1, some (record { sec = now % 60; timestamp = now }))
    else (target, none)

-- The passes of the loop: the target at the end, and the timers that were sent.
unfoldable pub passes : List ℕ → ℕ → ℕ × List Timer
unfolding send_timer
passes [] target = (target, [])
passes (now ∷ nows) target =
    let (t, sent) = send_timer now target in
    let (last, more) = passes nows t in
    (last, elim sent [ none ↦ more | some timer ↦ timer ∷ more ])

passes-due :
    (now : ℕ) (nows : List ℕ) (target : ℕ)
    → leb target now ≡ true
    → passes (now ∷ nows) target ≡ (
      (passes nows (target + 1)).0,
      record { sec = now % 60; timestamp = now } ∷ (passes nows (target + 1)).1,
    )
unfolding passes
passes-due now nows target h = ground arith

passes-early :
    (now : ℕ) (nows : List ℕ) (target : ℕ)
    → leb target now ≡ false
    → passes (now ∷ nows) target ≡ passes nows target
unfolding passes
passes-early now nows target h = ground arith

-- Some of the elements of the second list, in its order.
pub data IsPart : List ℕ → List ℕ → Type 0 where
  empty : IsPart [] []
  left_out : {x : ℕ} {xs ys : List ℕ} → IsPart xs ys → IsPart xs (x ∷ ys)
  taken : {x : ℕ} {xs ys : List ℕ} → IsPart xs ys → IsPart (x ∷ xs) (x ∷ ys)

-- A timer for each second from `target` on, none before its second, with the second of the minute that it was sent in.
abbrev pub AreDue : ℕ → List Timer → Type 0
AreDue target [] = Unit
AreDue target (t ∷ ts) =
    (target ≤ t.timestamp) × (t.sec ≡ t.timestamp % 60) × AreDue (target + 1) ts

-- What the passes from `target`, with the clock at `nows`, come to.
pub record IsPaced (nows : List ℕ) (target : ℕ) (r : ℕ × List Timer) : Type 0 where
  pub counted : r.0 ≡ target + length r.1
  pub due : AreDue target r.1
  pub clocked : IsPart (map (λ (t : Timer). t.timestamp) r.1) nows

passes-IsPaced : (nows : List ℕ) (target : ℕ) → IsPaced nows target (passes nows target)
passes-IsPaced [] target =
    unfold passes in record { counted = omega arith; due = tt; clocked = empty }
passes-IsPaced (now ∷ nows) target = elim (Bool-cases (leb target now)) [
  | inl due ↦
      let r = passes-IsPaced nows (target + 1) in
      subst (IsPaced (now ∷ nows) target) (sym (passes-due now nows target due)) (record {
        counted = omega (arith, r.counted);
        due = (ground arith, refl, r.due);
        clocked = taken r.clocked;
      })
  | inr early ↦
      let r = passes-IsPaced nows target in
      subst (IsPaced (now ∷ nows) target) (sym (passes-early now nows target early))
        (record { counted = r.counted; due = r.due; clocked = left_out r.clocked })
]

passes-bound :
    (nows : List ℕ) (target last : ℕ)
    → All (λ now. now ≤ last) nows
    → target ≤ last + 1
    → (passes nows target).0 ≤ last + 1
passes-bound [] target last h le = unfold passes in le
passes-bound (now ∷ nows) target last h le = elim (Bool-cases (leb target now)) [
  | inl due ↦
      let r = passes-bound nows (target + 1) last h.1 (ground (arith, h.0)) in
      subst (λ v. v.0 ≤ last + 1) (sym (passes-due now nows target due)) r
  | inr early ↦
      subst (λ v. v.0 ≤ last + 1) (sym (passes-early now nows target early))
        (passes-bound nows target last h.1 le)
]

-- `k` passes within one second.
abbrev pub repeat : ℕ → ℕ → List ℕ
repeat zero now = []
repeat (suc k) now = now ∷ repeat k now

passes-repeat :
    (k now target : ℕ) → target + k ≡ now + 1 → (passes (repeat k now) target).0 ≡ now + 1
unfolding passes
passes-repeat zero now target h = omega arith
passes-repeat (suc k) now target h =
    let due : leb target now ≡ true = ground arith in
    subst (λ s. s.0 ≡ now + 1) (sym (passes-due now (repeat k now) target due))
      (passes-repeat k now (target + 1) (omega arith))

passes-append :
    (nows more : List ℕ) (target : ℕ)
    → (passes (nows ++ more) target).0 ≡ (passes more (passes nows target).0).0
passes-append [] more target = unfold passes in refl
passes-append (now ∷ nows) more target = elim (Bool-cases (leb target now)) [
  | inl due ↦
      rw (passes-due now (nows ++ more) target due, passes-due now nows target due)
        (passes-append nows more (target + 1))
  | inr early ↦
      rw (passes-early now (nows ++ more) target early, passes-early now nows target early)
        (passes-append nows more target)
]

-- Let the loop pass at any times up to `last`. There is a timer for each of a number of seconds from the first target
-- on, in order, none sent before its second. Each has the time of a pass of its own, passes in order, and that
-- time's second of the minute; and the target is the next second without a timer, at most the one after `last`.
-- However far the loop has fallen behind, as many passes at `last` as seconds are due send the timers
-- that are missing, up to the one for `last`: several then come within one second.
pub timers-IsPaced :
    (nows : List ℕ) (target last : ℕ)
    → All (λ now. now ≤ last) nows
    → target ≤ last + 1
    → IsPaced nows target (passes nows target)
      × ((passes nows target).0 ≤ last + 1)
      × ((k : ℕ)
          → (passes nows target).0 + k ≡ last + 1
          → (passes (nows ++ repeat k last) target).0 ≡ last + 1)
timers-IsPaced nows target last h le = (
  passes-IsPaced nows target,
  passes-bound nows target last h le,
  λ k behind.
      passes-append nows (repeat k last) target
      ∙ passes-repeat k last (passes nows target).0 behind,
)
