-- ===== src/Common/Trunc.antt =====
-- The integer part of a fraction.
use nova_robotics_drone_cont.Common.{ℕ, suc, ◌-◌, ◌*◌, ◌/◌, ◌≤◌, ◌≡◌, refl, true, false, leb, arith}
use nova_robotics_drone_cont.Common.Int.{ℤ, pos, negsuc, sub_ℕ, ◌≤ℤ◌}
use nova_robotics_drone_cont.Common.Frac.{Frac, int, neg, ◌≤F◌, trunc}
use native.Mathlib.Nat.{le-div_iff_mul-le, div-lt_iff_lt-mul}

abbrev pub Between : ℤ → ℤ → ℤ → Type 0
Between lo hi z = (lo ≤ℤ z) × (z ≤ℤ hi)

quotient_between :
    (lo hi n b : ℕ) → lo * suc b ≤ n → n ≤ hi * suc b → (lo ≤ n / suc b) × (n / suc b ≤ hi)
quotient_between lo hi n b h k = (
  (le-div_iff_mul-le (omega arith)).1 h,
  let below = (div-lt_iff_lt-mul {k = suc b} {x = n} {y = suc hi} (omega arith)).1 (omega arith) in
      omega arith,
)

-- An integer that bounds a fraction from zero on bounds its integer part.
pub trunc-Between :
    (lo hi : ℕ) (a : Frac) → int lo ≤F a → a ≤F int hi → Between (pos lo) (pos hi) (trunc a)
trunc-Between lo hi a h k =
    let q = quotient_between lo hi (a.plus - a.minus) a.below (omega arith) (omega arith) in
    let up : leb a.minus a.plus ≡ true = ground arith in
    rw up (omega (arith, q.0), omega (arith, q.1))

sub_ℕ_pos : (k : ℕ) → 1 ≤ k → sub_ℕ 0 k ≡ negsuc (k - 1)
sub_ℕ_pos k h =
    let big : leb k 0 ≡ false = ground arith in
    let same : k - 0 - 1 ≡ k - 1 = omega arith in rw (big, same) refl

-- A fraction of at most minus one has a negative integer part.
pub trunc_negative : (a : Frac) → a ≤F neg (int 1) → (n : ℕ) × (trunc a ≡ negsuc n)
trunc_negative a h =
    let k = (a.minus - a.plus) / suc a.below in
    let one : 1 ≤ k =
      (le-div_iff_mul-le {k = suc a.below} {x = 1} {y = a.minus - a.plus} (omega arith)).1
        (omega arith) in
    let low : leb a.minus a.plus ≡ false = ground arith in (k - 1, rw low (sub_ℕ_pos k one))
