-- ===== src/Common/Bits.antt =====
-- `&`, `|` and `^` at variables: masks, disjoint fields and cancellation, at every width.
use Prim.Native.Nat.{
  ℕ, zero, suc, ◌+◌, ◌-◌, ◌*◌, ◌/◌, ◌%◌, ◌^◌, ◌≤◌, ◌<◌, min, max, bit_and, bit_or, bit_xor, digits,
  differ, bitwise, bit_and-bitwise, bit_or-bitwise, bit_xor-bitwise,
}
use mathlib.Core.Path.{◌≡◌, refl, sym, ap, ◌∙◌}
use mathlib.Core.Logic.{◌⊎◌, inl, inr}
use native.Mathlib.Nat.{add-zero, add-suc, pow-suc, one-le-pow, le_refl, div-add-mod', mod-lt}
use native.Mathlib.Omega.{arith}

-- Any two amounts of fuel that cover the first number give the same digits.
module _ (z : ℕ → ℕ) (f : ℕ → ℕ → ℕ) where
  fuel_agrees : (n m a b : ℕ) → a ≤ n → a ≤ m → digits z f n a b ≡ digits z f m a b
  fuel_agrees zero zero a b _ _ = refl
  fuel_agrees zero (suc m) zero b _ _ = refl
  fuel_agrees zero (suc m) (suc a) b h _ = absurd (omega arith)
  fuel_agrees (suc n) zero zero b _ _ = refl
  fuel_agrees (suc n) zero (suc a) b _ h = absurd (omega arith)
  fuel_agrees (suc n) (suc m) zero b _ _ = refl
  fuel_agrees (suc n) (suc m) (suc a) b h k =
      ap (λ (t : ℕ). t * 2 + f (suc a % 2) (b % 2))
        (fuel_agrees n m (suc a / 2) (b / 2) (omega arith) (omega arith))

  lowest_digit :
      (a b : ℕ)
      → bitwise z f (suc a) b ≡ bitwise z f (suc a / 2) (b / 2) * 2 + f (suc a % 2) (b % 2)
  lowest_digit a b =
      ap (λ (t : ℕ). t * 2 + f (suc a % 2) (b % 2))
        (fuel_agrees a (suc a / 2) (suc a / 2) (b / 2) (omega arith) (le_refl _))

and_halves : (a b : ℕ) → bit_and a b ≡ bit_and (a / 2) (b / 2) * 2 + min (a % 2) (b % 2)
and_halves zero b = simp bit_and-bitwise (omega arith)
and_halves (suc a) b = simp bit_and-bitwise (lowest_digit (λ _. 0) min a b)

or_halves : (a b : ℕ) → bit_or a b ≡ bit_or (a / 2) (b / 2) * 2 + max (a % 2) (b % 2)
or_halves zero b = simp bit_or-bitwise (omega arith)
or_halves (suc a) b = simp bit_or-bitwise (lowest_digit (λ y. y) max a b)

xor_halves : (a b : ℕ) → bit_xor a b ≡ bit_xor (a / 2) (b / 2) * 2 + differ (a % 2) (b % 2)
xor_halves zero b = simp bit_xor-bitwise (omega arith)
xor_halves (suc a) b = simp bit_xor-bitwise (lowest_digit (λ y. y) differ a b)

twice_pow : (q k : ℕ) → q * 2 ^ suc k ≡ 2 * (q * 2 ^ k)
twice_pow q k = omega (arith, ap (λ (t : ℕ). q * t) (pow-suc 2 k))

bit_or-zero_left : (b : ℕ) → bit_or 0 b ≡ b
bit_or-zero_left b = bit_or-bitwise 0 b

-- `lo | (hi << k)` is a sum when `lo` fits `k` bits.
pub bit_or_fields : (k lo hi : ℕ) → lo < 2 ^ k → bit_or lo (hi * 2 ^ k) ≡ lo + hi * 2 ^ k
bit_or_fields zero zero hi h = rw (bit_or-zero_left (hi * 2 ^ 0)) (omega arith)
bit_or_fields zero (suc lo) hi h = absurd (omega arith)
bit_or_fields (suc k) lo hi h = omega (
  arith,
  or_halves lo (hi * 2 ^ suc k),
  twice_pow hi k,
  pow-suc 2 k,
  bit_or_fields k (lo / 2) hi (omega (arith, pow-suc 2 k)),
  ap (bit_or (lo / 2)) halved,
)
  where
    halved : hi * 2 ^ suc k / 2 ≡ hi * 2 ^ k
    halved = omega (arith, twice_pow hi k)

bit_and-zero_left : (b : ℕ) → bit_and 0 b ≡ 0
bit_and-zero_left b = bit_and-bitwise 0 b

and_zero_within : (n a : ℕ) → a ≤ n → bit_and a 0 ≡ 0
and_zero_within n zero h = refl
and_zero_within zero (suc a) h = absurd (omega arith)
and_zero_within (suc n) (suc a) h =
    omega (arith, and_halves (suc a) 0, and_zero_within n (suc a / 2) (omega arith))

-- A mask of `k` ones reads the field of `k` low bits.
and_low_field : (k a q r : ℕ) → a ≡ q * 2 ^ k + r → r < 2 ^ k → bit_and a (2 ^ k - 1) ≡ r
and_low_field zero a q r e h = and_zero_within a a (le_refl _) ∙ omega arith
and_low_field (suc k) a q r e h = omega (
  arith,
  and_halves a (2 ^ suc k - 1),
  pow-suc 2 k,
  one-le-pow k 2,
  twice_pow q k,
  and_low_field k (a / 2) q (r / 2) (omega (arith, twice_pow q k)) (omega (arith, pow-suc 2 k)),
  ap (bit_and (a / 2)) halved,
)
  where
    halved : (2 ^ suc k - 1) / 2 ≡ 2 ^ k - 1
    halved = omega (arith, pow-suc 2 k)

-- `a & (2 ** k - 1)` is the remainder.
pub bit_and_mask : (k a : ℕ) → bit_and a (2 ^ k - 1) ≡ a % 2 ^ k
bit_and_mask k a =
    and_low_field k a (a / 2 ^ k) (a % 2 ^ k) (sym (div-add-mod' a (2 ^ k)))
      (mod-lt a (one-le-pow k 2 (omega arith)))

-- An exclusive or of two `k`-bit numbers has `k` bits.
differ_digits :
    (x y : ℕ) → x < 2 → y < 2 → ((x ≡ y) × (differ x y ≡ 0)) ⊎ ((x + y ≡ 1) × (differ x y ≡ 1))
differ_digits zero zero _ _ = inl (refl, refl)
differ_digits zero (suc zero) _ _ = inr (omega arith, refl)
differ_digits (suc zero) zero _ _ = inr (omega arith, refl)
differ_digits (suc zero) (suc zero) _ _ = inl (refl, refl)
differ_digits zero (suc (suc y)) _ h = absurd (omega arith)
differ_digits (suc zero) (suc (suc y)) _ h = absurd (omega arith)
differ_digits (suc (suc x)) y h _ = absurd (omega arith)

pub bit_xor-lt : (k a b : ℕ) → a < 2 ^ k → b < 2 ^ k → bit_xor a b < 2 ^ k
bit_xor-lt zero zero zero _ _ = omega arith
bit_xor-lt zero (suc a) b h _ = absurd (omega arith)
bit_xor-lt zero zero (suc b) _ h = absurd (omega arith)
bit_xor-lt (suc k) a b ha hb = omega (
  arith,
  xor_halves a b,
  pow-suc 2 k,
  bit_xor-lt k (a / 2) (b / 2) (omega (arith, pow-suc 2 k)) (omega (arith, pow-suc 2 k)),
  differ_digits (a % 2) (b % 2) (omega arith) (omega arith),
)

-- The second operand cancels, so `^ b` is injective.
pub bit_xor_injective : (k a c b : ℕ) → a < 2 ^ k → c < 2 ^ k → bit_xor a b ≡ bit_xor c b → a ≡ c
bit_xor_injective zero a c b ha hc e = omega arith
bit_xor_injective (suc k) a c b ha hc e = omega (
  arith,
  digit,
  bit_xor_injective k (a / 2) (c / 2) (b / 2) (omega (arith, pow-suc 2 k))
      (omega (arith, pow-suc 2 k)) tops,
)
  where
    sums :
        bit_xor (a / 2) (b / 2) * 2 + differ (a % 2) (b % 2)
        ≡ bit_xor (c / 2) (b / 2) * 2 + differ (c % 2) (b % 2)
    sums = omega (arith, xor_halves a b, xor_halves c b)

    digit : a % 2 ≡ c % 2
    digit = omega (
      arith,
      sums,
      differ_digits (a % 2) (b % 2) (omega arith) (omega arith),
      differ_digits (c % 2) (b % 2) (omega arith) (omega arith),
    )

    tops : bit_xor (a / 2) (b / 2) ≡ bit_xor (c / 2) (b / 2)
    tops = omega (
      arith,
      sums,
      differ_digits (a % 2) (b % 2) (omega arith) (omega arith),
      differ_digits (c % 2) (b % 2) (omega arith) (omega arith),
    )

-- The same on the other side, and a number against itself.
bit_xor_self : (k a : ℕ) → a < 2 ^ k → bit_xor a a ≡ 0
bit_xor_self zero zero h = refl
bit_xor_self zero (suc a) h = absurd (omega arith)
bit_xor_self (suc k) a h = omega (
  arith,
  xor_halves a a,
  bit_xor_self k (a / 2) (omega (arith, pow-suc 2 k)),
  differ_digits (a % 2) (a % 2) (omega arith) (omega arith),
)

pub bit_xor_injective_right :
    (k a b c : ℕ) → b < 2 ^ k → c < 2 ^ k → bit_xor a b ≡ bit_xor a c → b ≡ c
bit_xor_injective_right zero a b c hb hc e = omega arith
bit_xor_injective_right (suc k) a b c hb hc e = omega (
  arith,
  digit,
  bit_xor_injective_right k (a / 2) (b / 2) (c / 2) (omega (arith, pow-suc 2 k))
      (omega (arith, pow-suc 2 k)) tops,
)
  where
    sums :
        bit_xor (a / 2) (b / 2) * 2 + differ (a % 2) (b % 2)
        ≡ bit_xor (a / 2) (c / 2) * 2 + differ (a % 2) (c % 2)
    sums = omega (arith, xor_halves a b, xor_halves a c)

    digit : b % 2 ≡ c % 2
    digit = omega (
      arith,
      sums,
      differ_digits (a % 2) (b % 2) (omega arith) (omega arith),
      differ_digits (a % 2) (c % 2) (omega arith) (omega arith),
    )

    tops : bit_xor (a / 2) (b / 2) ≡ bit_xor (a / 2) (c / 2)
    tops = omega (
      arith,
      sums,
      differ_digits (a % 2) (b % 2) (omega arith) (omega arith),
      differ_digits (a % 2) (c % 2) (omega arith) (omega arith),
    )

pub two_pow-add : (a k : ℕ) → 2 ^ (a + k) ≡ 2 ^ a * 2 ^ k
two_pow-add a zero = rw add-zero (omega arith)
two_pow-add a (suc k) =
    rw add-suc
      (omega (arith, pow-suc 2 (a + k), two_pow-add a k, ap (λ (t : ℕ). 2 ^ a * t) (pow-suc 2 k)))
