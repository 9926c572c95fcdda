-- ===== src/Float.antt =====
-- Python's `float`. The type and its operations are a parameter of the development, and so are
-- the laws of the order, which hold of the finite IEEE 754 doubles. `integers` shows that the
-- parameter can be met.
use looptimum.Prelude.{
  Bool, true, false, ◌&&◌, refl, ◌≡◌, ◌⊎◌, not, List, [], ◌∷◌, suc, zero, arith, if◌then◌else◌,
}
use looptimum.Prelude.Int.{ℤ, pos, negsuc, ltb_ℤ, leb_ℤ, eqb_ℤ, ◌+ℤ◌, ◌-ℤ◌, ◌*ℤ◌}

pub record Float : Type 1 where
  pub F : Type 0
  pub ltb : F → F → Bool
  pub leb : F → F → Bool
  -- `a == b`, which holds of 0.0 and -0.0 and fails of two nans.
  pub eqb : F → F → Bool
  -- `n == a` for a whole number, which Python compares exactly
  pub eqb_int : ℤ → F → Bool
  -- `repr(a) == repr(b)`
  pub same_text : F → F → Bool
  pub is_finite : F → Bool
  pub is_nan : F → Bool
  pub zero : F
  pub neg : F → F
  pub abs : F → F
  pub add : F → F → F
  pub sub : F → F → F
  pub mul : F → F → F
  pub div : F → F → F
  -- `sum(...)` over floats
  pub sum : List F → F
  -- `float(n)`; an infinity where Python raises OverflowError
  pub of_int : ℤ → F
  -- The tolerance 1e-12 of the constraint checks.
  pub tolerance : F

-- The order of the floats that are not nan.
pub record IsOrdered (fl : Float) : Type 0 where
  pub leb_total :
      (a b : fl.F)
      → fl.is_nan a ≡ false
      → fl.is_nan b ≡ false
      → (fl.leb a b ≡ true) ⊎ (fl.leb b a ≡ true)
  pub leb_trans : (a b c : fl.F) → fl.leb a b ≡ true → fl.leb b c ≡ true → fl.leb a c ≡ true
  pub ltb_not_leb :
      (a b : fl.F) → fl.is_nan a ≡ false → fl.is_nan b ≡ false → fl.ltb a b ≡ not (fl.leb b a)
  pub eqb_leb :
      (a b : fl.F)
      → fl.is_nan a ≡ false
      → fl.is_nan b ≡ false
      → fl.eqb a b ≡ (fl.leb a b && fl.leb b a)
  pub finite_not_nan : (a : fl.F) → fl.is_finite a ≡ true → fl.is_nan a ≡ false
  pub neg_not_nan : (a : fl.F) → fl.is_nan a ≡ false → fl.is_nan (fl.neg a) ≡ false

negate : ℤ → ℤ
negate (pos zero) = pos 0
negate (pos (suc n)) = negsuc n
negate (negsuc n) = pos (suc n)

total : List ℤ → ℤ
unfolding ◌+ℤ◌
total [] = pos 0
total (x ∷ xs) = x +ℤ total xs

-- Whole numbers, all of them finite. Division is by one only.
unfoldable pub integers : Float
unfolding negate total ◌+ℤ◌ ◌-ℤ◌ ◌*ℤ◌
integers = record {
  F = ℤ;
  ltb = ltb_ℤ;
  leb = leb_ℤ;
  eqb = eqb_ℤ;
  eqb_int = eqb_ℤ;
  same_text = eqb_ℤ;
  is_finite = λ _. true;
  is_nan = λ _. false;
  zero = pos 0;
  neg = negate;
  abs = λ a. if ltb_ℤ a (pos 0) then negate a else a;
  add = λ a b. a +ℤ b;
  sub = λ a b. a -ℤ b;
  mul = λ a b. a *ℤ b;
  div = λ a _. a;
  sum = total;
  of_int = λ n. n;
  tolerance = pos 0;
}

total_order : (a b : ℤ) → (leb_ℤ a b ≡ true) ⊎ (leb_ℤ b a ≡ true)
total_order a b = ground arith

pub integers-IsOrdered : IsOrdered integers
unfolding integers
integers-IsOrdered = record {
  leb_total = λ a b _ _. total_order a b;
  leb_trans = λ a b c h k. ground arith;
  ltb_not_leb = λ a b _ _. ground arith;
  eqb_leb = λ a b _ _. ground arith;
  finite_not_nan = λ _ _. refl;
  neg_not_nan = λ _ _. refl;
}
