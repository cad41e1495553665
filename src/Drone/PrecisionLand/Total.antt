-- ===== src/Drone/PrecisionLand/Total.antt =====
-- ros2/src/drone_control/drone_control/precision_land.py: the loop never raises.
use nova_robotics_drone_cont.Common.{
  [], ◌≡◌, refl, Bool, true, false, ◌||◌, Option, none, some, arith, inl, inr, Bool-cases,
  if◌then◌else◌,
}
use nova_robotics_drone_cont.Common.Maybe.{◌>>=◌}
use nova_robotics_drone_cont.Common.Frac.{Frac, int, over, neg, sub, mul, div, leb_frac, ltb_frac}
use nova_robotics_drone_cont.Drone.PrecisionLand.{
  Tuning, PidAxis, Landing, Locals, Command, Sight, no_frame, no_qr, qr, QrInfo, Pc, at_check,
  at_frame, at_lost, at_found, at_land, ended, failed, Phase, is_over,
}
use nova_robotics_drone_cont.Drone.PrecisionLand.Control.{update_pid, pid_dt, correct}
use nova_robotics_drone_cont.Drone.PrecisionLand.Loop.{advance, look, lose, found, corrected, leave}

abbrev is_there : {A : Type 0} → Option A → Bool
is_there none = false
is_there (some a) = true

div_positive : (a b : Frac) → leb_frac b (int 0) ≡ false → is_there (div a b) ≡ true
unfolding leb_frac
div_positive a b h = ground arith

bind_there :
    {A B : Type 0} (o : Option A) (f : A → Option B)
    → is_there o ≡ true
    → ((a : A) → is_there (f a) ≡ true)
    → is_there (o >>= f) ≡ true
bind_there none f h k = h
bind_there (some a) f h k = k a

not_zero : (a b : Bool) → (a || b) ≡ false → a ≡ false
not_zero true b h = h
not_zero false b h = refl

update_pid_total :
    (t : Tuning) (error now : Frac) (pid : PidAxis) → is_there (update_pid t error now pid) ≡ true
unfolding update_pid
update_pid_total t error now pid =
    elim (Bool-cases (leb_frac (pid_dt now pid) (int 0) || ltb_frac (over 1 1) (pid_dt now pid))) [
      | inl e ↦ rw e refl
      | inr e ↦ rw e (
          bind_there (div (mul t.kd (sub error pid.prev_error)) (pid_dt now pid)) _
            (div_positive (mul t.kd (sub error pid.prev_error)) (pid_dt now pid) (
              not_zero (leb_frac (pid_dt now pid) (int 0)) (ltb_frac (over 1 1) (pid_dt now pid))
                e))
            (λ d. refl))
    ]

correct_total :
    (t : Tuning) (now ratio : Frac) (l : Locals) → is_there (correct t now ratio l) ≡ true
unfolding correct
correct_total t now ratio l =
    bind_there (update_pid t l.filt_ex now l.pid_x) _ (update_pid_total t l.filt_ex now l.pid_x)
      (λ x.
        bind_there (update_pid t (neg l.filt_ey) now l.pid_y) _
          (update_pid_total t (neg l.filt_ey) now l.pid_y) (λ y. refl))

abbrev pub is_failed : Pc → Bool
is_failed failed = true
is_failed _ = false

corrected_goes_on :
    (g : Landing) (o : Option (Locals × Command))
    → is_there o ≡ true
    → is_failed (corrected g o).pc ≡ false
corrected_goes_on g none h = absurd (ground arith)
corrected_goes_on g (some x) h = refl

found_goes_on :
    (t : Tuning) (g : Landing) (l : Locals) (now : Frac) (seen : QrInfo)
    → is_failed (found t g l now seen).pc ≡ false
unfolding found
found_goes_on t g l now seen = elim (Bool-cases (leb_frac t.land_box_ratio seen.ratio)) [
  | inl e ↦ rw e refl
  | inr e ↦ rw e (
      corrected_goes_on (record { phase = Phase.descending; qr_info = some seen })
        (correct t now seen.ratio l) (correct_total t now seen.ratio l))
]

look_goes_on :
    (t : Tuning) (g : Landing) (l : Locals) (sight : Sight)
    → is_failed (look t g l sight).pc ≡ false
look_goes_on t g l no_frame = refl
look_goes_on t g l (no_qr now) = refl
look_goes_on t g l (qr now r) = refl

check_goes_on :
    (b : Bool) (g : Landing) (l : Locals)
    → is_failed (if b then leave g else record { landing = g; pc = at_frame l; effects = [] }).pc
      ≡ false
check_goes_on true g l = refl
check_goes_on false g l = refl

-- No step of the loop raises, whatever the parameters and the camera show: the division of the
-- derivative term is reached only with a positive time step.
advance_never_fails :
    (t : Tuning) (g : Landing) (pc : Pc) (sight : Sight)
    → is_failed pc ≡ false
    → is_failed (advance t g pc sight).pc ≡ false
unfolding advance lose
advance_never_fails t g (at_check l) sight h = check_goes_on (is_over g.phase) g l
advance_never_fails t g (at_frame l) sight h = look_goes_on t g l sight
advance_never_fails t g (at_lost l now) sight h = refl
advance_never_fails t g (at_found l now seen) sight h = found_goes_on t g l now seen
advance_never_fails t g at_land sight h = refl
advance_never_fails t g ended sight h = refl
advance_never_fails t g failed sight h = h
