-- ===== src/Common/Frac.antt =====
-- Exact signed fractions, for the floats of the source: `(plus - minus) / (below + 1)`.
use Prim.Native.Nat.{ℕ, zero, suc, ◌+◌, ◌-◌, ◌*◌, ◌/◌, ◌≤◌}
use mathlib.Core.Path.{◌≡◌}
use mathlib.Core.Bool.{Bool, true, false, not}
use mathlib.Core.Logic.{inl, inr}
use mathlib.Core.Option.{Option, none, some}
use native.Mathlib.Omega.{arith}
use nova_robotics_drone_cont.Common.Tests.{Bool-cases, ltb, leb, ◌==◌, if◌then◌else◌}
use nova_robotics_drone_cont.Common.Int.{ℤ, pos, sub_ℕ}

pub record Frac : Type 0 where
  pub plus : ℕ
  pub minus : ℕ
  pub below : ℕ

-- The fraction `n / (b + 1)`.
abbrev pub over : ℕ → ℕ → Frac
over n b = record { plus = n; minus = 0; below = b }

abbrev pub int : ℕ → Frac
int n = over n 0

abbrev pub neg : Frac → Frac
neg a = record { plus = a.minus; minus = a.plus; below = a.below }

abbrev pub add : Frac → Frac → Frac
add a b = record {
  plus = a.plus * suc b.below + b.plus * suc a.below;
  minus = a.minus * suc b.below + b.minus * suc a.below;
  below = a.below * suc b.below + b.below;
}

abbrev pub sub : Frac → Frac → Frac
sub a b = add a (neg b)

abbrev pub mul : Frac → Frac → Frac
mul a b = record {
  plus = a.plus * b.plus + a.minus * b.minus;
  minus = a.plus * b.minus + a.minus * b.plus;
  below = a.below * suc b.below + b.below;
}

infix 50 ◌≤F◌
abbrev pub ◌≤F◌ : Frac → Frac → Type 0
a ≤F b = a.plus * suc b.below + b.minus * suc a.below ≤ b.plus * suc a.below + a.minus * suc b.below

unfoldable pub leb_frac : Frac → Frac → Bool
leb_frac a b =
    leb (a.plus * suc b.below + b.minus * suc a.below)
      (b.plus * suc a.below + a.minus * suc b.below)

abbrev pub ltb_frac : Frac → Frac → Bool
ltb_frac a b = not (leb_frac b a)

abbrev pub min_frac : Frac → Frac → Frac
min_frac a b = if leb_frac a b then a else b

abbrev pub max_frac : Frac → Frac → Frac
max_frac a b = if leb_frac b a then a else b

abbrev pub abs_frac : Frac → Frac
abs_frac a = if leb_frac (int 0) a then a else neg a

-- `math.copysign(m, x)`
abbrev pub copysign : Frac → Frac → Frac
copysign m x = if leb_frac (int 0) x then abs_frac m else neg (abs_frac m)

-- `int(x)`: towards zero.
abbrev pub trunc : Frac → ℤ
trunc a =
    if leb a.minus a.plus
    then pos ((a.plus - a.minus) / suc a.below)
    else sub_ℕ 0 ((a.minus - a.plus) / suc a.below)

-- `a / b`; `none` is the `ZeroDivisionError`.
abbrev pub div : Frac → Frac → Option Frac
div a b =
    if b.plus == b.minus
    then none
    else (if ltb b.minus b.plus
        then some (record {
          plus = a.plus * suc b.below;
          minus = a.minus * suc b.below;
          below = suc a.below * (b.plus - b.minus) - 1;
        })
        else some (record {
          plus = a.minus * suc b.below;
          minus = a.plus * suc b.below;
          below = suc a.below * (b.minus - b.plus) - 1;
        }))

pub mul_le : (a b k : ℕ) → a ≤ b → a * k ≤ b * k
mul_le a b zero h = omega arith
mul_le a b (suc k) h = omega (arith, mul_le a b k h)

pub mul_cancel : (a b k : ℕ) → a * suc k ≤ b * suc k → a ≤ b
mul_cancel zero b k h = omega arith
mul_cancel (suc a) zero k h = absurd (omega arith)
mul_cancel (suc a) (suc b) k h = omega (arith, mul_cancel a b k (omega arith))

pub ≤F_trans : (a b c : Frac) → a ≤F b → b ≤F c → a ≤F c
≤F_trans a b c h k =
    mul_cancel (a.plus * suc c.below + c.minus * suc a.below)
      (c.plus * suc a.below + a.minus * suc c.below) b.below
      (omega (
        arith,
        mul_le (a.plus * suc b.below + b.minus * suc a.below)
            (b.plus * suc a.below + a.minus * suc b.below) (suc c.below) h,
        mul_le (b.plus * suc c.below + c.minus * suc b.below)
            (c.plus * suc b.below + b.minus * suc c.below) (suc a.below) k,
      ))

pub true_le : (a b : Frac) → leb_frac a b ≡ true → a ≤F b
unfolding leb_frac
true_le a b h = ground arith

pub false_ge : (a b : Frac) → leb_frac a b ≡ false → b ≤F a
unfolding leb_frac
false_ge a b h = ground arith

pub le_true : (a b : Frac) → a ≤F b → leb_frac a b ≡ true
unfolding leb_frac
le_true a b h = ground arith

pub ≤F_refl : (a : Frac) → a ≤F a
≤F_refl a = omega arith

pub before_trans : (a b c : Frac) → ltb_frac a b ≡ true → b ≤F c → ltb_frac a c ≡ true
before_trans a b c h k = elim (Bool-cases (leb_frac c a)) [
  | inl e ↦
      absurd (
        let d : leb_frac b a ≡ true = le_true b a (≤F_trans b c a k (true_le c a e)) in
        ground arith)
  | inr e ↦ ground arith
]
