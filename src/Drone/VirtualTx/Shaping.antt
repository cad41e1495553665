-- ===== src/Drone/VirtualTx/Shaping.antt =====
-- ros2/src/drone_control/drone_control/virtual_tx.py: from a stick position to PWM.
use nova_robotics_drone_cont.Common.{Option, some, if◌then◌else◌}
use nova_robotics_drone_cont.Common.Maybe.{◌>>=◌}
use nova_robotics_drone_cont.Common.Int.{ℤ}
use nova_robotics_drone_cont.Common.Frac.{
  Frac, int, neg, add, sub, mul, div, leb_frac, ltb_frac, min_frac, max_frac, abs_frac, copysign,
  trunc,
}
use nova_robotics_drone_cont.Drone.VirtualTx.{AxisConfig, ChannelState}

abbrev pub one : Frac
one = int 1

abbrev pub sign_of : Frac → Frac
sign_of value = if ltb_frac (int 0) value then one else neg one

-- `none` is the `ZeroDivisionError`.
unfoldable pub apply_deadzone : Frac → Frac → Option Frac
apply_deadzone value deadzone =
    if ltb_frac (abs_frac value) deadzone
    then some (int 0)
    else div (mul (sign_of value) (sub (abs_frac value) deadzone)) (sub one deadzone)

unfoldable pub apply_expo : Frac → Frac → Frac
apply_expo value expo = add (mul (sub one expo) value) (mul expo (mul (mul value value) value))

unfoldable pub apply_smoothing : Frac → Frac → Frac → Frac
apply_smoothing new_value old_value alpha =
    add (mul alpha new_value) (mul (sub one alpha) old_value)

unfoldable pub apply_rate_limit : Frac → Frac → Frac → Frac → Frac
apply_rate_limit new_value old_value rate_limit dt =
    let max_change = mul rate_limit dt in
    let diff = sub new_value old_value in
    if ltb_frac max_change (abs_frac diff)
    then add old_value (copysign max_change diff)
    else new_value

abbrev pub pwm_center : Frac
pwm_center = int 1500

abbrev pub clamp : Frac → Frac → Frac → Frac
clamp lo hi value = max_frac lo (min_frac hi value)

unfoldable pub to_pwm_bidirectional : Frac → ℤ
to_pwm_bidirectional value = trunc (add pwm_center (mul (clamp (neg one) one value) (int 500)))

unfoldable pub to_pwm_throttle : Frac → Frac → Frac → ℤ
to_pwm_throttle value pwm_idle pwm_max =
    trunc (add pwm_idle (mul (clamp (int 0) one value) (sub pwm_max pwm_idle)))

-- One axis of `_process_channels`.
unfoldable pub process_axis : AxisConfig → Frac → ChannelState → Option ChannelState
process_axis cfg dt ch = apply_deadzone ch.raw cfg.deadzone >>= λ dead.
    let bent = apply_expo dead cfg.expo in
    let smooth = apply_smoothing bent ch.smoothed cfg.smoothing in
    let val = apply_rate_limit smooth ch.output cfg.rate_limit dt in
    some (record ch { smoothed = val; output = val })

unfoldable pub move_toward : Frac → Frac → Frac → Frac
move_toward current target max_step =
    let diff = sub target current in
    if leb_frac (abs_frac diff) max_step then target else add current (copysign max_step diff)
