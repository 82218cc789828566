-- ===== src/Portfolio/Ledger.antt =====
-- Sums over the entries of a map, in whole units, for the books of lib/core/portfolio.cpp.
use calm_trading_system.Base.{
  AreOnce, AreOnce-remove, remove, lookup-remove, arith, refl, sym, ℤ, pos, ◌+ℤ◌, ◌-ℤ◌, int_laws,
  parts, ◌≡◌, Bool-cases, inl, inr, [], ◌∷◌, Option, none, some, Eq, ◌==◌, Map, lookup, insert,
}

-- What an entry that may be absent adds.
abbrev pub share {κ} : {V : Type κ} → (V → ℤ) → Option V → ℤ
share f none = pos 0
share f (some v) = f v

module _ {ℓ κ} {K : Type ℓ} {V : Type κ} (f : V → ℤ) where
  unfoldable pub total : Map K V → ℤ
  total [] = pos 0
  total ((k, v) ∷ m) = f v +ℤ total m

module _ {ℓ κ} {K : Type ℓ} {V : Type κ} ⦃e : Eq K⦄ (f : V → ℤ) where
  -- Writing an entry replaces the share of the old one.
  pub total-insert :
      (k : K) (v : V) (m : Map K V)
      → total f (insert k v m) ≡ total f m -ℤ share f (lookup k m) +ℤ f v
  unfolding total insert lookup
  total-insert k v [] = omega int_laws
  total-insert k v ((j, w) ∷ m) = elim (Bool-cases (k == j)) [
    | inl hit ↦ rw hit (omega int_laws)
    | inr miss ↦ rw miss (omega (int_laws, parts (total-insert k v m)))
  ]

-- Two maps with one entry for each key have the same total where each key has the same share in both.
module _ {ℓ κ} {K : Type ℓ} {V : Type κ} ⦃e : Eq K⦄ where
  total-remove :
      (f : V → ℤ) (k : K) (m : Map K V) → total f m ≡ total f (remove k m) +ℤ share f (lookup k m)
  unfolding total lookup
  total-remove f k [] = omega int_laws
  total-remove f k ((j, w) ∷ m) = elim (Bool-cases (k == j)) [
    | inl hit ↦ rw hit (omega int_laws)
    | inr miss ↦ rw miss (omega (int_laws, parts (total-remove f k m)))
  ]

  total_zero :
      (f : V → ℤ) (m : Map K V)
      → AreOnce m
      → ((k : K) → share f (lookup k m) ≡ pos 0)
      → total f m ≡ pos 0
  unfolding total lookup
  total_zero f [] o h = refl
  total_zero f ((j, w) ∷ m) o h =
      let here : f w ≡ pos 0 = ground (arith, h j, e.beq_iff j j) in
      let rest : (k : K) → share f (lookup k m) ≡ pos 0 = λ k. elim (Bool-cases (k == j)) [
        | inl hit ↦ ground (arith, o.0, e.beq_iff k j)
        | inr miss ↦ ground (arith, h k)
      ] in
      omega (int_laws, parts here, parts (total_zero f m o.1 rest))

  pub total_same :
      (f g : V → ℤ) (m n : Map K V)
      → AreOnce m
      → AreOnce n
      → ((k : K) → share f (lookup k m) ≡ share g (lookup k n))
      → total f m ≡ total g n
  unfolding total lookup
  total_same f g [] n a b h = sym (total_zero g n b (λ k. sym (h k)))
  total_same f g ((j, w) ∷ m) n a b h =
      let here : f w ≡ share g (lookup j n) = ground (arith, h j, e.beq_iff j j) in
      let rest : (k : K) → share f (lookup k m) ≡ share g (lookup k (remove j n)) = λ k.
        elim (Bool-cases (k == j)) [
          | inl hit ↦ ground (arith, lookup-remove j k n b, a.0, e.beq_iff k j)
          | inr miss ↦ ground (arith, lookup-remove j k n b, h k)
        ] in
      omega (
        int_laws,
        parts here,
        parts (total_same f g m (remove j n) a.1 (AreOnce-remove j n b) rest),
        parts (total-remove g j n),
      )
