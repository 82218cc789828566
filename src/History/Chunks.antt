-- ===== src/History/Chunks.antt =====
-- The chunks of `generate_ib_reqs`.
use calm_trading_system.Base.{
  ℕ, zero, suc, ◌+◌, ◌-◌, ◌*◌, ◌≤◌, ◌<◌, ltb, leb, ◌≡◌, refl, Bool-cases, inl, inr, List, [], ◌∷◌,
  some, arith, All,
}
use calm_trading_system.History.{Chunk, Duration, days, secs, next_chunk, chunk_loop}

abbrev pub seconds : Duration → ℕ
seconds (days d) = d * 86_400
seconds (secs s) = s

-- The chunks stand one after the other from `a` to `b`.
abbrev pub Covers : ℕ → ℕ → List Chunk → Type 0
Covers a b [] = a ≡ b
Covers a b (c ∷ cs) = (c.st ≡ a) × Covers c.en b cs

-- A chunk is not empty, is as long as its duration says, and no longer than `n` days.
pub record Fits (n : ℕ) (c : Chunk) : Type 0 where
  pub nonempty : c.st < c.en
  pub dur_eq : c.st + seconds c.dur ≡ c.en
  pub short : c.en ≤ c.st + n * 86_400

next_chunk-Fits :
    (n st tp_end : ℕ)
    → 1 ≤ n
    → st < tp_end
    → Fits n (next_chunk n st tp_end)
      × ((next_chunk n st tp_end).st ≡ st)
      × ((next_chunk n st tp_end).en ≤ tp_end)
unfolding next_chunk
next_chunk-Fits n st tp_end one more = elim (Bool-cases (ltb (st + n * 86_400) tp_end)) [
  | inl inside ↦
      rw inside
        (record { nonempty = omega arith; dur_eq = refl; short = omega arith }, refl, ground arith)
  | inr outside ↦ elim (Bool-cases (leb 86_400 (tp_end - st))) [
    | inl day ↦
        let room : 86_400 ≤ tp_end - st = ground arith in
        let limit : tp_end ≤ st + n * 86_400 = ground arith in
        rw (outside, day)
          (record { nonempty = omega arith; dur_eq = refl; short = omega arith }, refl, omega arith)
    | inr hours ↦
        let limit : tp_end ≤ st + n * 86_400 = ground arith in
        rw (outside, hours)
          (record { nonempty = more; dur_eq = omega arith; short = limit }, refl, omega arith)
  ]
]

-- For windows of at least one day and a range that does not end before it starts, the loop ends, with
-- fuel for one pass more than there are seconds; its chunks follow each other without a gap or an overlap from the start
-- of the range to its end, and each is at least a second, at most a window, and as long
-- as the duration that is asked for.
pub chunk_loop-Covers :
    (fuel n st tp_end : ℕ)
    → 1 ≤ n
    → st ≤ tp_end
    → tp_end - st < fuel
    → (cs : List Chunk) × (chunk_loop fuel n st tp_end ≡ some cs)
      × Covers st tp_end cs
      × All (Fits n) cs
unfolding chunk_loop
chunk_loop-Covers zero n st tp_end one le enough = absurd (omega arith)
chunk_loop-Covers (suc fuel) n st tp_end one le enough = elim (Bool-cases (ltb st tp_end)) [
  | inr done ↦ ([], rw done refl, ground arith, tt)
  | inl more ↦
      let (fits, from, within) = next_chunk-Fits n st tp_end one (ground arith) in
      let (cs, e, covers, all) =
        chunk_loop-Covers fuel n (next_chunk n st tp_end).en tp_end one within
          (omega (arith, fits.nonempty, from)) in
      (next_chunk n st tp_end ∷ cs, rw (more, e) refl, (from, covers), (fits, all))
]
