-- ===== src/Drone/PrecisionLand/Control.antt =====
-- ros2/src/drone_control/drone_control/precision_land.py: the filter, the PID and the command.
use nova_robotics_drone_cont.Common.{
  ℕ, ◌+◌, ◌-◌, ◌*◌, Bool, true, ◌&&◌, ◌||◌, Option, some, if◌then◌else◌,
}
use nova_robotics_drone_cont.Common.Maybe.{◌>>=◌}
use nova_robotics_drone_cont.Common.Frac.{
  Frac, int, over, neg, add, sub, mul, div, leb_frac, ltb_frac, min_frac, max_frac, abs_frac,
}
use nova_robotics_drone_cont.Drone.PrecisionLand.{
  frame_w, frame_h, Tuning, hover_throttle, PidAxis, Rect, QrInfo, Locals, Command,
}

abbrev pub clamp : Frac → Frac → Frac
clamp limit x = max_frac (neg limit) (min_frac limit x)

abbrev pub reset_pid : PidAxis
reset_pid = record { integral = int 0; prev_error = int 0; prev_time = int 0 }

abbrev pub pid_dt : Frac → PidAxis → Frac
pid_dt now pid = if ltb_frac (int 0) pid.prev_time then sub now pid.prev_time else int 0

-- `_PIDAxis.update`; `none` is the `ZeroDivisionError`.
unfoldable pub update_pid : Tuning → Frac → Frac → PidAxis → Option (PidAxis × Frac)
update_pid t error now pid =
    let dt = pid_dt now pid in
    let integral = clamp t.i_limit (add pid.integral (mul error dt)) in
    if leb_frac dt (int 0) || ltb_frac (over 1 1) dt
    then some (record pid { prev_error = error; prev_time = now }, mul t.kp error)
    else (div (mul t.kd (sub error pid.prev_error)) dt >>= λ d. some (
      record { integral = integral; prev_error = error; prev_time = now },
      add (add (mul t.kp error) (mul t.ki integral)) d,
    ))

-- `(cx - FRAME_W / 2) / (FRAME_W / 2)`, and the same down the frame.
abbrev pub offset : ℕ → ℕ → ℕ → Frac
offset edge size frame = mul (sub (over (2 * edge + size) 1) (over frame 1)) (over 2 (frame - 1))

abbrev pub raw_ex : Rect → Frac
raw_ex r = offset r.left r.width frame_w

abbrev pub raw_ey : Rect → Frac
raw_ey r = offset r.top r.height frame_h

abbrev pub qr_ratio : Rect → Frac
qr_ratio r = over r.width (frame_w - 1)

abbrev pub ema : Frac → Frac → Frac → Frac
ema alpha raw old = add (mul alpha raw) (mul (sub (int 1) alpha) old)

-- The low-pass filter, and the start of the search anew.
unfoldable pub filter_seen : Tuning → Frac → Rect → Locals → Locals
filter_seen t now r l = record l {
  search_start = now;
  filt_ex = if l.has_filter then ema t.ema_alpha (raw_ex r) l.filt_ex else raw_ex r;
  filt_ey = if l.has_filter then ema t.ema_alpha (raw_ey r) l.filt_ey else raw_ey r;
  has_filter = true;
}

unfoldable pub info_of : Rect → Locals → QrInfo
info_of r l = record {
  ex = l.filt_ex;
  ey = l.filt_ey;
  raw_ex = raw_ex r;
  raw_ey = raw_ey r;
  ratio = qr_ratio r;
  box = r;
}

abbrev pub is_centered : Tuning → Locals → Bool
is_centered t l =
    ltb_frac (abs_frac l.filt_ex) t.center_threshold
    && ltb_frac (abs_frac l.filt_ey) t.center_threshold

abbrev pub descent_throttle : Tuning → Frac → Locals → Frac
descent_throttle t ratio l =
    if is_centered t l
    then sub hover_throttle
        (if ltb_frac (over 1 3) ratio then t.min_descent_step else t.descent_step)
    else hover_throttle

abbrev pub tilt_limit : Frac
tilt_limit = over 4 9

-- The corrections of one turn with a code in sight.
unfoldable pub correct : Tuning → Frac → Frac → Locals → Option (Locals × Command)
correct t now ratio l = update_pid t l.filt_ex now l.pid_x >>= λ x.
    update_pid t (neg l.filt_ey) now l.pid_y >>= λ y. some (
      record l { pid_x = x.0; pid_y = y.0 },
      record {
        throttle = descent_throttle t ratio l;
        roll = clamp tilt_limit x.1;
        pitch = clamp tilt_limit y.1;
        yaw = int 0;
        duration = over 1 1;
      },
    )

-- Hover in place for a time.
abbrev pub hover : Frac → Command
hover duration = record {
  throttle = hover_throttle;
  roll = int 0;
  pitch = int 0;
  yaw = int 0;
  duration = duration;
}
