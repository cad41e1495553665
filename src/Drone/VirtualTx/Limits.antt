-- ===== src/Drone/VirtualTx/Limits.antt =====
-- ros2/src/drone_control/drone_control/virtual_tx.py: how far a stick moves, and what raises.
use nova_robotics_drone_cont.Common.{
  ◌≡◌, ap, subst, Option, none, some, if◌then◌else◌, arith, Bool-cases, inl, inr,
}
use nova_robotics_drone_cont.Common.Maybe.{◌>>=◌}
use nova_robotics_drone_cont.Common.Frac.{
  Frac, ◌≤F◌, int, neg, add, sub, mul, abs_frac, copysign, leb_frac, ltb_frac, true_le, false_ge,
  le_true, ≤F_trans,
}
use nova_robotics_drone_cont.Drone.VirtualTx.{AxisConfig, ChannelState}
use nova_robotics_drone_cont.Drone.VirtualTx.Shaping.{
  apply_deadzone, apply_expo, apply_smoothing, apply_rate_limit, process_axis,
}

-- At most `m` apart.
abbrev pub Near : Frac → Frac → Frac → Type 0
Near a b m = (sub a b ≤F m) × (sub b a ≤F m)

neg_le : (d : Frac) → int 0 ≤F d → neg d ≤F d
neg_le d h = grind arith

le_neg : (d : Frac) → d ≤F int 0 → d ≤F neg d
le_neg d h = grind arith

abs_le : (d m : Frac) → abs_frac d ≤F m → (d ≤F m) × (neg d ≤F m)
abs_le d m h = elim (Bool-cases (leb_frac (int 0) d)) [
  | inl e ↦
      let h' : d ≤F m = subst (λ b. (if b then d else neg d) ≤F m) e h in
      let up = true_le (int 0) d e in (h', ≤F_trans (neg d) d m (neg_le d up) h')
  | inr e ↦
      let h' : neg d ≤F m = subst (λ b. (if b then d else neg d) ≤F m) e h in
      let down = false_ge (int 0) d e in (≤F_trans d (neg d) m (le_neg d down) h', h')
]

module _ (o m : Frac) where
  turned : (v : Frac) → neg (sub v o) ≤F m → sub o v ≤F m
  turned v h = omega arith

  forth_up : int 0 ≤F m → sub (add o m) o ≤F m
  forth_up h = omega arith

  forth_down : int 0 ≤F m → sub o (add o m) ≤F m
  forth_down h = ≤F_trans (sub o (add o m)) (neg m) m (omega arith) (neg_le m h)

  back_up : int 0 ≤F m → sub (sub o m) o ≤F m
  back_up h = ≤F_trans (sub (sub o m) o) (neg m) m (omega arith) (neg_le m h)

  back_down : int 0 ≤F m → sub o (sub o m) ≤F m
  back_down h = omega arith

  limited :
      (v : Frac)
      → int 0 ≤F m
      → Near (if ltb_frac m (abs_frac (sub v o)) then add o (copysign m (sub v o)) else v) o m
  limited v k = elim (Bool-cases (leb_frac (abs_frac (sub v o)) m)) [
    | inl e ↦
        let a = abs_le (sub v o) m (true_le (abs_frac (sub v o)) m e) in rw e (a.0, turned v a.1)
    | inr e ↦ elim (Bool-cases (leb_frac (int 0) (sub v o))) [
      | inl g ↦ rw (e, g, le_true (int 0) m k) (forth_up k, forth_down k)
      | inr g ↦ rw (e, g, le_true (int 0) m k) (back_up k, back_down k)
    ]
  ]

apply_rate_limit-Near :
    (new_value old_value rate_limit dt : Frac)
    → int 0 ≤F mul rate_limit dt
    → Near (apply_rate_limit new_value old_value rate_limit dt) old_value (mul rate_limit dt)
unfolding apply_rate_limit
apply_rate_limit-Near v o r dt h = limited o (mul r dt) v h

-- When the configured rate is not negative over the time passed, an axis that does not raise moves its
-- output by at most the rate times that time.
process_axis-Near :
    (cfg : AxisConfig) (dt : Frac) (ch ch' : ChannelState)
    → int 0 ≤F mul cfg.rate_limit dt
    → process_axis cfg dt ch ≡ some ch'
    → Near ch'.output ch.output (mul cfg.rate_limit dt)
unfolding process_axis
process_axis-Near cfg dt ch ch' h e = by_dead (apply_deadzone ch.raw cfg.deadzone) e
  where
    val : Frac → Frac
    val dead =
        apply_rate_limit (apply_smoothing (apply_expo dead cfg.expo) ch.smoothed cfg.smoothing)
          ch.output cfg.rate_limit dt

    get : Option ChannelState → ChannelState
    get none = ch
    get (some c) = c

    by_dead :
        (o : Option Frac)
        → (o >>= λ dead. some (record ch { smoothed = val dead; output = val dead })) ≡ some ch'
        → Near ch'.output ch.output (mul cfg.rate_limit dt)
    by_dead none q = absurd (let d : ⊥ = cc in d)
    by_dead (some dead) q =
        subst (λ c. Near c.output ch.output (mul cfg.rate_limit dt)) (ap get q)
          (apply_rate_limit-Near
            (apply_smoothing (apply_expo dead cfg.expo) ch.smoothed cfg.smoothing) ch.output
            cfg.rate_limit dt h)
