-- ===== src/Drone/VirtualTx/Centering.antt =====
-- ros2/src/drone_control/drone_control/virtual_tx.py: one stick on its way back to the centre.
use nova_robotics_drone_cont.Common.{
  ℕ, zero, suc, ◌+◌, ◌*◌, ◌≡◌, refl, ap, ◌∙◌, false, arith, Bool-cases, inl, inr,
}
use nova_robotics_drone_cont.Common.Int.{ℤ, pos, negsuc}
use nova_robotics_drone_cont.Common.Frac.{
  Frac, ◌≤F◌, int, neg, add, sub, mul, leb_frac, mul_le, mul_cancel, le_true, true_le, false_ge,
  ≤F_trans, trunc,
}
use nova_robotics_drone_cont.Drone.VirtualTx.Shaping.{
  one, clamp, pwm_center, move_toward, to_pwm_bidirectional,
}
use nova_robotics_drone_cont.Common.Trunc.{Between, trunc-Between}

-- `k` steps of size `s`.
abbrev pub times : ℕ → Frac → Frac
times k s = record { plus = k * s.plus; minus = k * s.minus; below = s.below }

-- At most `k` steps of size `s` away from the centre.
abbrev pub Within : Frac → ℕ → Frac → Type 0
Within c k s = (c ≤F times k s) × (neg c ≤F times k s)

abbrev pub pred : ℕ → ℕ
pred zero = 0
pred (suc k) = k

times_pos : (k : ℕ) (s : Frac) → int 0 ≤F s → int 0 ≤F times k s
times_pos k s h = omega (arith, mul_le s.minus s.plus k (omega arith))

times_suc : (x s r : Frac) (k : ℕ) → x ≤F times (suc k) s → s ≤F r → sub x r ≤F times k s
times_suc x s r k h g = omega (
  arith,
  mul_le (x.plus * suc s.below + suc k * s.minus * suc x.below)
      (suc k * s.plus * suc x.below + x.minus * suc s.below) (suc r.below) h,
  mul_le (s.plus * suc r.below + r.minus * suc s.below)
      (r.plus * suc s.below + s.minus * suc r.below) (suc x.below) g,
)

sub_le : (x r : Frac) → x ≤F r → sub x r ≤F int 0
sub_le x r h = omega arith

-- The way left to the centre is the stick's own position, turned round.
module _ (c : Frac) where
  left_of : int 0 ≤F sub (int 0) c → c ≤F int 0
  left_of h = omega arith

  right_of : sub (int 0) c ≤F int 0 → neg c ≤F int 0
  right_of h = omega arith

  module _ (r : Frac) where
    near_up : sub (int 0) c ≤F r → neg c ≤F r
    near_up h = omega arith

    far_up : r ≤F sub (int 0) c → r ≤F neg c
    far_up h = omega arith

    near_down : neg (sub (int 0) c) ≤F r → c ≤F r
    near_down h = omega arith

    far_down : r ≤F neg (sub (int 0) c) → r ≤F c
    far_down h = omega arith

    past_up : r ≤F neg c → add c r ≤F int 0
    past_up h = omega arith

    past_down : r ≤F c → neg (sub c r) ≤F int 0
    past_down h = omega arith

-- The three ways of a move to zero.
move_cases :
    (P : Frac → Type 0) (c r : Frac)
    → int 0 ≤F r
    → (c ≤F r → neg c ≤F r → P (int 0))
    → (r ≤F c → P (add c (neg r)))
    → (r ≤F neg c → P (add c r))
    → P (move_toward c (int 0) r)
unfolding move_toward
move_cases P c r h zeroed down up = elim (Bool-cases (leb_frac (int 0) (sub (int 0) c))) [
  | inl e ↦ elim (Bool-cases (leb_frac (sub (int 0) c) r)) [
    | inl g ↦
        let l = left_of c (true_le (int 0) (sub (int 0) c) e) in
        let near = near_up c r (true_le (sub (int 0) c) r g) in
        rw (e, g) (zeroed (≤F_trans c (int 0) r l h) near)
    | inr g ↦ rw (e, g, le_true (int 0) r h) (up (far_up c r (false_ge (sub (int 0) c) r g)))
  ]
  | inr e ↦ elim (Bool-cases (leb_frac (neg (sub (int 0) c)) r)) [
    | inl g ↦
        let l = right_of c (false_ge (int 0) (sub (int 0) c) e) in
        let near = near_down c r (true_le (neg (sub (int 0) c)) r g) in
        rw (e, g) (zeroed near (≤F_trans (neg c) (int 0) r l h))
    | inr g ↦
        rw (e, g, le_true (int 0) r h) (down (far_down c r (false_ge (neg (sub (int 0) c)) r g)))
  ]
]

-- Each move takes a step off, and stays where it is at the centre.
pub move-Within :
    (c s r : Frac) (k : ℕ)
    → int 0 ≤F s
    → s ≤F r
    → Within c k s
    → Within (move_toward c (int 0) r) (pred k) s
move-Within c s r zero h g w =
    let pos_r : int 0 ≤F r = ≤F_trans (int 0) s r h g in
    let none : times 0 s ≤F int 0 = omega arith in
    let room = times_pos 0 s h in
    let le_r : c ≤F r = ≤F_trans c (int 0) r (≤F_trans c (times 0 s) (int 0) w.0 none) pos_r in
    let neg_le_r : neg c ≤F r =
      ≤F_trans (neg c) (int 0) r (≤F_trans (neg c) (times 0 s) (int 0) w.1 none) pos_r in
    move_cases (λ x. Within x 0 s) c r pos_r (λ _ _. (room, room))
      (λ far. (
        ≤F_trans (sub c r) (int 0) (times 0 s) (sub_le c r le_r) room,
        ≤F_trans (neg (sub c r)) (int 0) (times 0 s) (past_down c r far) room,
      ))
      (λ far. (
        ≤F_trans (add c r) (int 0) (times 0 s) (past_up c r far) room,
        ≤F_trans (neg (add c r)) (int 0) (times 0 s) (sub_le (neg c) r neg_le_r) room,
      ))
move-Within c s r (suc k) h g w =
    let pos_r : int 0 ≤F r = ≤F_trans (int 0) s r h g in
    let room = times_pos k s h in
    move_cases (λ x. Within x k s) c r pos_r (λ _ _. (room, room))
      (λ far. (
        times_suc c s r k w.0 g,
        ≤F_trans (neg (sub c r)) (int 0) (times k s) (past_down c r far) room,
      ))
      (λ far. (
        ≤F_trans (add c r) (int 0) (times k s) (past_up c r far) room,
        times_suc (neg c) s r k w.1 g,
      ))

-- No step away from the centre.
centered : (c s : Frac) → Within c 0 s → c.plus ≡ c.minus
centered c s w =
    let a = mul_cancel c.plus c.minus s.below (omega (arith, w.0)) in
    let b = mul_cancel c.minus c.plus s.below (omega (arith, w.1)) in omega arith

exactly : (z : ℤ) → Between (pos 1500) (pos 1500) z → z ≡ pos 1500
exactly (pos n) b = ap pos (omega (arith, b.0, b.1))
exactly (negsuc n) b = absurd (omega (arith, b.0))

clamp_centered : (c : Frac) → c.plus ≡ c.minus → clamp (neg one) one c ≡ c
unfolding leb_frac
clamp_centered c h =
    let a : leb_frac one c ≡ false = ground arith in
    let b : leb_frac c (neg one) ≡ false = ground arith in rw (a, b) refl

pub pwm_centered : (c s : Frac) → Within c 0 s → to_pwm_bidirectional c ≡ pos 1500
unfolding to_pwm_bidirectional
pwm_centered c s w =
    let e = centered c s w in
    ap (λ v. trunc (add pwm_center (mul v (int 500)))) (clamp_centered c e)
    ∙ exactly (trunc (add pwm_center (mul c (int 500))))
        (trunc-Between 1500 1500 (add pwm_center (mul c (int 500))) (omega arith) (omega arith))
