-- ===== src/Prelude/Float.antt =====
-- Go's float64 as an interface: the operations that the program calls, and the one property of them
-- that a theorem needs. The fixed-point numbers below show that the interface can be met.
use pokecatch.Prelude.{ℕ, suc, ◌*◌, ◌/◌, ◌≡◌, Bool, true, false, arith}
use pokecatch.Prelude.Int.{
  ℤ, pos, negsuc, ◌*ℤ◌, ◌+ℤ◌, ◌-ℤ◌, ◌≤ℤ◌, quot, ltb_ℤ, eq_ℤ, quot_nonneg, *ℤ_nonneg,
}

pub record Float64 : Type 1 where
  pub F : Type 0
  -- float64(n) for an int
  pub of_int : ℤ → F
  -- the double nearest to the constant n / d
  pub ratio : ℕ → ℕ → F
  pub add : F → F → F
  pub sub : F → F → F
  pub mul : F → F → F
  pub div : F → F → F
  -- int(f)
  pub trunc : F → ℤ
  -- int(math.Round(f))
  pub round : F → ℤ
  pub lt : F → F → Bool
  pub eq : F → F → Bool

-- A non-negative int times a positive double truncates to a non-negative int.
abbrev pub ScalesNonneg : Float64 → Type 0
ScalesNonneg fl =
    (n : ℤ) (f : fl.F)
    → pos 0 ≤ℤ n
    → fl.lt (fl.ratio 0 1) f ≡ true
    → pos 0 ≤ℤ fl.trunc (fl.mul (fl.of_int n) f)

abbrev over_ℤ : ℤ → ℤ → ℤ
over_ℤ a (pos n) = quot a n
over_ℤ a (negsuc n) = quot (a *ℤ negsuc 0) (suc n)

-- Thousandths.
abbrev pub fixed_point : Float64
unfolding quot ◌*ℤ◌ ◌+ℤ◌ ◌-ℤ◌
fixed_point = record {
  F = ℤ;
  of_int = λ n. n *ℤ pos 1000;
  ratio = λ n d. pos (n * 1000 / d);
  add = λ a b. a +ℤ b;
  sub = λ a b. a -ℤ b;
  mul = λ a b. quot (a *ℤ b) 1000;
  div = λ a b. over_ℤ (a *ℤ pos 1000) b;
  trunc = λ a. quot a 1000;
  round = λ a. quot (a +ℤ pos 500) 1000;
  lt = ltb_ℤ;
  eq = eq_ℤ;
}

pub fixed_point-ScalesNonneg : ScalesNonneg fixed_point
unfolding fixed_point
fixed_point-ScalesNonneg n f h k = quot_nonneg _ 1000 (
    quot_nonneg _ 1000
      (*ℤ_nonneg (n *ℤ pos 1000) f (*ℤ_nonneg n (pos 1000) h (omega arith)) (ground arith)))

-- `<` on doubles, also on NaN, which is below nothing
pub record IsStrictOrder (fl : Float64) : Type 0 where
  pub irrefl : (a : fl.F) → fl.lt a a ≡ false
  pub trans : (a b c : fl.F) → fl.lt a b ≡ true → fl.lt b c ≡ true → fl.lt a c ≡ true

pub fixed_point-IsStrictOrder : IsStrictOrder fixed_point
unfolding fixed_point
fixed_point-IsStrictOrder = record {
  irrefl = λ a. ground arith;
  trans = λ a b c h k. ground (arith, h, k);
}
