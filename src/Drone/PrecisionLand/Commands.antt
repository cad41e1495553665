-- ===== src/Drone/PrecisionLand/Commands.antt =====
-- ros2/src/drone_control/drone_control/precision_land.py: what the loop sends, and that it goes on.
use nova_robotics_drone_cont.Common.{
  ◌≡◌, ◌⊎◌, refl, Bool, true, false, Option, none, some, [], All, arith, inl, inr, Bool-cases,
  if◌then◌else◌,
}
use nova_robotics_drone_cont.Common.Maybe.{◌>>=◌}
use nova_robotics_drone_cont.Common.Frac.{
  Frac, ◌≤F◌, int, over, neg, sub, leb_frac, ltb_frac, false_ge, ≤F_refl,
}
use nova_robotics_drone_cont.Drone.PrecisionLand.{
  Tuning, hover_throttle, PidAxis, Landing, Locals, Command, Effect, send, switch_to_land, Sight,
  no_frame, no_qr, qr, QrInfo, Pc, at_check, at_frame, at_lost, at_found, at_land, ended, failed,
  Phase, is_over,
}
use nova_robotics_drone_cont.Drone.PrecisionLand.Control.{
  clamp, update_pid, correct, descent_throttle, is_centered, tilt_limit, hover,
}
use nova_robotics_drone_cont.Drone.PrecisionLand.Loop.{advance, look, lose, found, corrected, leave}

abbrev Tilt : Frac → Type 0
Tilt x = (neg tilt_limit ≤F x) × (x ≤F tilt_limit)

-- The loop stands before the lock of a code that the filter has at the centre.
abbrev pub Centred : Tuning → Pc → Type 0
Centred t (at_found l now seen) = is_centered t l ≡ true
Centred t _ = ⊥

-- A command that tilts by at most 0.4, does not climb, and descends only over a centred code.
pub record IsGentle (t : Tuning) (pc : Pc) (c : Command) : Type 0 where
  pub roll : Tilt c.roll
  pub pitch : Tilt c.pitch
  pub climb : c.throttle ≤F hover_throttle
  pub descent : (c.throttle ≡ hover_throttle) ⊎ Centred t pc

abbrev pub AreGentle : Tuning → Pc → Effect → Type 0
AreGentle t pc (send c) = IsGentle t pc c
AreGentle t pc switch_to_land = Unit

clamp-Tilt : (x : Frac) → Tilt (clamp tilt_limit x)
clamp-Tilt x = elim (Bool-cases (leb_frac tilt_limit x)) [
  | inl e ↦ elim (Bool-cases (leb_frac tilt_limit (neg tilt_limit))) [
    | inl g ↦ rw (e, g) (omega arith, omega arith)
    | inr g ↦ rw (e, g) (omega arith, omega arith)
  ]
  | inr e ↦ elim (Bool-cases (leb_frac x (neg tilt_limit))) [
    | inl g ↦ rw (e, g) (omega arith, omega arith)
    | inr g ↦ rw (e, g) (false_ge x (neg tilt_limit) g, false_ge tilt_limit x e)
  ]
]

hover-IsGentle : (t : Tuning) (pc : Pc) (d : Frac) → IsGentle t pc (hover d)
hover-IsGentle t pc d = record {
  roll = (omega arith, omega arith);
  pitch = (omega arith, omega arith);
  climb = omega arith;
  descent = inl refl;
}

below_hover : (step : Frac) → int 0 ≤F step → sub hover_throttle step ≤F hover_throttle
below_hover step h = omega arith

module _ (t : Tuning) (down : int 0 ≤F t.descent_step) (down' : int 0 ≤F t.min_descent_step) where
  throttle_ok :
      (ratio : Frac) (l : Locals) (now : Frac) (seen : QrInfo)
      → (descent_throttle t ratio l ≤F hover_throttle)
        × ((descent_throttle t ratio l ≡ hover_throttle) ⊎ Centred t (at_found l now seen))
  throttle_ok ratio l now seen = elim (Bool-cases (is_centered t l)) [
    | inl e ↦ elim (Bool-cases (ltb_frac (over 1 3) ratio)) [
      | inl g ↦ rw (e, g) (below_hover t.min_descent_step down', inr refl)
      | inr g ↦ rw (e, g) (below_hover t.descent_step down, inr refl)
    ]
    | inr e ↦ rw e (≤F_refl hover_throttle, inl refl)
  ]

  corrected-Gentle :
      (g : Landing) (l : Locals) (now : Frac) (seen : QrInfo)
      → All (AreGentle t (at_found l now seen)) (corrected g (correct t now seen.ratio l)).effects
  unfolding correct
  corrected-Gentle g l now seen = by_x (update_pid t l.filt_ex now l.pid_x)
    where
      y : Option (PidAxis × Frac)
      y = update_pid t (neg l.filt_ey) now l.pid_y

      gentle : PidAxis × Frac → PidAxis × Frac → Locals × Command
      gentle a b = (
        record l { pid_x = a.0; pid_y = b.0 },
        record {
          throttle = descent_throttle t seen.ratio l;
          roll = clamp tilt_limit a.1;
          pitch = clamp tilt_limit b.1;
          yaw = int 0;
          duration = over 1 1;
        },
      )

      by_y :
          (a : PidAxis × Frac) (o : Option (PidAxis × Frac))
          → All
              (AreGentle t (at_found l now seen))
              (corrected g (o >>= λ b. some (gentle a b))).effects
      by_y a none = tt
      by_y a (some b) =
          let ok = throttle_ok seen.ratio l now seen in
          (
            record { roll = clamp-Tilt a.1; pitch = clamp-Tilt b.1; climb = ok.0; descent = ok.1 },
            tt,
          )

      by_x :
          (o : Option (PidAxis × Frac))
          → All
              (AreGentle t (at_found l now seen))
              (corrected g (o >>= λ a. y >>= λ b. some (gentle a b))).effects
      by_x none = tt
      by_x (some a) = by_y a y

  found-Gentle :
      (g : Landing) (l : Locals) (now : Frac) (seen : QrInfo)
      → All (AreGentle t (at_found l now seen)) (found t g l now seen).effects
  unfolding found
  found-Gentle g l now seen = elim (Bool-cases (leb_frac t.land_box_ratio seen.ratio)) [
    | inl e ↦ rw e (tt, tt)
    | inr e ↦
        rw e
          (corrected-Gentle (record { phase = Phase.descending; qr_info = some seen }) l now seen)
  ]

  look-Gentle :
      (g : Landing) (l : Locals) (sight : Sight) (pc : Pc)
      → All (AreGentle t pc) (look t g l sight).effects
  look-Gentle g l no_frame pc = tt
  look-Gentle g l (no_qr now) pc = (hover-IsGentle t pc (int 1), tt)
  look-Gentle g l (qr now r) pc = tt

  check-Gentle :
      (b : Bool) (g : Landing) (l : Locals) (pc : Pc)
      → All
          (AreGentle t pc)
          (if b then leave g else record { landing = g; pc = at_frame l; effects = [] }).effects
  check-Gentle true g l pc = (hover-IsGentle t pc (int 2), tt)
  check-Gentle false g l pc = tt

-- Where the two descent steps are not negative: whatever the camera shows and wherever the loop
-- stands, every command that it sends tilts by at most 0.4, has at most the throttle of a hover,
-- and less than that only in a turn with a code in sight that the filter has at the centre.
pub advance-Gentle :
    (t : Tuning) (g : Landing) (pc : Pc) (sight : Sight)
    → int 0 ≤F t.descent_step
    → int 0 ≤F t.min_descent_step
    → All (AreGentle t pc) (advance t g pc sight).effects
unfolding advance lose
advance-Gentle t g (at_check l) sight h k = check-Gentle t h k (is_over g.phase) g l (at_check l)
advance-Gentle t g (at_frame l) sight h k = look-Gentle t h k g l sight (at_frame l)
advance-Gentle t g (at_lost l now) sight h k = tt
advance-Gentle t g (at_found l now seen) sight h k = found-Gentle t h k g l now seen
advance-Gentle t g at_land sight h k = (hover-IsGentle t at_land (int 2), tt)
advance-Gentle t g ended sight h k = tt
advance-Gentle t g failed sight h k = tt
