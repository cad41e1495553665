-- ===== src/Bridge/Digest/Round.antt =====
-- modules/drone_bridge/digest.py: `_clamp` gives the nearest whole number in its range.
use nova_robotics_drone_cont.Common.{
  ℕ, zero, suc, ◌+◌, ◌-◌, ◌*◌, ◌/◌, ◌%◌, ◌≤◌, ◌<◌, ◌≡◌, refl, sym, subst, false, ltb, leb, ◌==◌,
  if◌then◌else◌, arith, Bool-cases, inl, inr,
}
use nova_robotics_drone_cont.Common.Int.{ℤ, pos, negsuc, sub_ℕ, ◌≤ℤ◌}
use nova_robotics_drone_cont.Common.Frac.{Frac, over, sub, ◌≤F◌}
use nova_robotics_drone_cont.Bridge.Digest.{round_half_even, round, clamp, per}
use native.Mathlib.Nat.{div-add-mod}

-- `d * k` is at most half of `d` away from `n`.
abbrev Nearest : ℕ → ℕ → ℕ → Type 0
Nearest n d k = (2 * n ≤ 2 * (d * k) + d) × (2 * (d * k) ≤ 2 * n + d)

half_even-Nearest : (n b : ℕ) → Nearest n (suc b) (round_half_even n (suc b))
unfolding round_half_even
half_even-Nearest n b = by_parts (n / suc b) (n % suc b) (div-add-mod n (suc b)) (omega arith)
  where
    by_parts :
        (q r : ℕ)
        → suc b * q + r ≡ n
        → r ≤ b
        → Nearest n (suc b) (
            if ltb (2 * r) (suc b)
            then q
            else (if ltb (suc b) (2 * r) then q + 1 else (if q % 2 == 0 then q else q + 1)))
    by_parts q r e h = elim (Bool-cases (ltb (2 * r) (suc b))) [
      | inl f ↦ let f' : 2 * r < suc b = ground arith in rw f (omega arith, omega arith)
      | inr f ↦
          let f' : suc b ≤ 2 * r = ground arith in
          elim (Bool-cases (ltb (suc b) (2 * r))) [
            | inl g ↦ rw (f, g) (omega arith, omega arith)
            | inr g ↦
                let g' : 2 * r ≤ suc b = ground arith in
                elim (Bool-cases (q % 2 == 0)) [
                  | inl k ↦ rw (f, g, k) (omega arith, omega arith)
                  | inr k ↦ rw (f, g, k) (omega arith, omega arith)
                ]
          ]
    ]

-- A whole number `z` at most one half away from `x`.
abbrev pub IsNearest : Frac → ℤ → Type 0
IsNearest x z = (sub x (per z 0) ≤F over 1 1) × (sub (per z 0) x ≤F over 1 1)

minus_suc : (k : ℕ) → sub_ℕ 0 (suc k) ≡ negsuc k
minus_suc k =
    let big : leb (suc k) 0 ≡ false = ground arith in
    let same : suc k - 0 - 1 ≡ k = omega arith in rw (big, same) refl

module _ (x : Frac) where
  above :
      (k : ℕ) → x.minus ≤ x.plus → Nearest (x.plus - x.minus) (suc x.below) k → IsNearest x (pos k)
  above k e h = (omega (arith, h.0, h.1), omega (arith, h.0, h.1))

  below :
      (k : ℕ)
      → x.plus ≤ x.minus
      → Nearest (x.minus - x.plus) (suc x.below) k
      → IsNearest x (sub_ℕ 0 k)
  below zero e h = (omega (arith, h.0, h.1), omega (arith, h.0, h.1))
  below (suc k) e h =
      subst (IsNearest x) (sym (minus_suc k)) (omega (arith, h.0, h.1), omega (arith, h.0, h.1))

  pub round-IsNearest : IsNearest x (round x)
  unfolding round
  round-IsNearest = elim (Bool-cases (leb x.minus x.plus)) [
    | inl e ↦ rw e (
        above (round_half_even (x.plus - x.minus) (suc x.below)) (ground arith)
          (half_even-Nearest (x.plus - x.minus) x.below))
    | inr e ↦ rw e (
        below (round_half_even (x.minus - x.plus) (suc x.below)) (ground arith)
          (half_even-Nearest (x.minus - x.plus) x.below))
  ]

pub clamp-between : (v lo hi : ℤ) → lo ≤ℤ hi → (lo ≤ℤ clamp v lo hi) × (clamp v lo hi ≤ℤ hi)
unfolding clamp
clamp-between v lo hi h = ground arith

pub clamp_id : (v lo hi : ℤ) → lo ≤ℤ v → v ≤ℤ hi → clamp v lo hi ≡ v
unfolding clamp
clamp_id v lo hi h k = ground arith
