-- ===== src/Double.antt =====
-- What the code does with a `double`. C++ and its hardware give the operations, so they are an
-- interface; `dbl_max` is `UnsetDouble` of lib/objects/constants.h.
use calm_trading_system.Base.{
  ℤ, pos, negsuc, ◌+ℤ◌, ◌-ℤ◌, ◌*ℤ◌, ltb_ℤ, beq_ℤ, *ℤ-minus_one, *ℤ-one, magnitude, arith, beq_ℤ_iff,
  true, ◌≡◌, refl, not, Bool, ◌^◌, ◌+◌, ◌-◌,
}

pub record Double (D : Type 0) : Type 0 where
  pub zero : D
  pub one : D
  pub minus_one : D
  pub dbl_max : D
  pub add : D → D → D
  pub sub : D → D → D
  pub mul : D → D → D
  pub abs : D → D
  pub lt : D → D → Bool
  pub le : D → D → Bool
  pub same : D → D → Bool

module _ {D : Type 0} ⦃d : Double D⦄ where
  infixl 65 ◌⊕◌ ◌⊖◌
  infixl 70 ◌⊗◌
  abbrev pub ◌⊕◌ : D → D → D
  x ⊕ y = d.add x y

  abbrev pub ◌⊖◌ : D → D → D
  x ⊖ y = d.sub x y

  abbrev pub ◌⊗◌ : D → D → D
  x ⊗ y = d.mul x y

-- No sum is rounded: every amount that occurs is a whole multiple `value` of one unit, as with
-- contract sizes and prices in ticks whose sums stay below 2^53 units, where IEEE 754 is exact. A product
-- with 1 or -1 is exact too, and comparisons and absolute values are those of the values.
pub record IsExact (D : Type 0) ⦃d : Double D⦄ : Type 0 where
  pub value : D → ℤ
  pub value_inj : (x y : D) → value x ≡ value y → x ≡ y
  pub value-zero : value d.zero ≡ pos 0
  pub value-add : (x y : D) → value (d.add x y) ≡ value x +ℤ value y
  pub value-sub : (x y : D) → value (d.sub x y) ≡ value x -ℤ value y
  pub value-mul_minus_one : (x : D) → value (d.mul x d.minus_one) ≡ pos 0 -ℤ value x
  pub value-mul_one : (x : D) → value (d.mul x d.one) ≡ value x
  pub value-same : (x y : D) → d.same x y ≡ true → value x ≡ value y
  pub value-lt : (x y : D) → d.lt x y ≡ ltb_ℤ (value x) (value y)
  pub value-le : (x y : D) → d.le x y ≡ not (ltb_ℤ (value y) (value x))
  pub value-abs : (x : D) → value (d.abs x) ≡ pos (magnitude (value x))
  pub one_above : ltb_ℤ (pos 0) (value d.one) ≡ true
  pub minus_one_below : ltb_ℤ (value d.minus_one) (pos 0) ≡ true

abbrev pub abs_ℤ : ℤ → ℤ
abs_ℤ (pos n) = pos n
abs_ℤ (negsuc n) = pos (n + 1)

pub abs_ℤ-magnitude : (a : ℤ) → abs_ℤ a ≡ pos (magnitude a)
abs_ℤ-magnitude (pos n) = ground arith
abs_ℤ-magnitude (negsuc n) = ground arith

-- The interface and its laws can be met: whole numbers.
instance abbrev pub ℤ_double : Double ℤ
ℤ_double = record {
  zero = pos 0;
  one = pos 1;
  minus_one = negsuc 0;
  dbl_max = pos (2 ^ 1024 - 2 ^ 971);
  add = ◌+ℤ◌;
  sub = ◌-ℤ◌;
  mul = ◌*ℤ◌;
  abs = abs_ℤ;
  lt = ltb_ℤ;
  le = λ a b. not (ltb_ℤ b a);
  same = beq_ℤ;
}

abbrev pub ℤ-IsExact : IsExact ℤ
ℤ-IsExact = record {
  value = λ x. x;
  value_inj = λ x y e. e;
  value-zero = refl;
  value-add = λ x y. refl;
  value-sub = λ x y. refl;
  value-mul_minus_one = *ℤ-minus_one;
  value-mul_one = *ℤ-one;
  value-same = λ x y. (beq_ℤ_iff x y).0;
  value-lt = λ x y. refl;
  value-le = λ x y. refl;
  value-abs = λ x. abs_ℤ-magnitude x;
  one_above = refl;
  minus_one_below = refl;
}
