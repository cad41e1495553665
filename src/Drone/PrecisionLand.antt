-- ===== src/Drone/PrecisionLand.antt =====
-- ros2/src/drone_control/drone_control/precision_land.py: landing on a QR code.
-- A control loop is a thread that stands at one of its locks; between two locks others may run.
-- Floats are exact fractions. The clock and what the camera shows are arguments.
pub mod Control
pub mod Loop
pub mod Commands
pub mod Total
pub mod Abort
pub mod Search
pub mod Settings
mod Examples
use nova_robotics_drone_cont.Common.{ℕ, Bool, true, false, Option, List}
use nova_robotics_drone_cont.Common.Frac.{Frac, int, over}

-- `camera.WIDTH` and `camera.HEIGHT`
abbrev pub frame_w : ℕ
frame_w = 1280

abbrev pub frame_h : ℕ
frame_h = 720

-- The tunable globals.
pub record Tuning : Type 0 where
  pub kp : Frac
  pub ki : Frac
  pub kd : Frac
  pub i_limit : Frac
  pub ema_alpha : Frac
  pub center_threshold : Frac
  pub land_box_ratio : Frac
  pub search_timeout : Frac
  pub descent_step : Frac
  pub min_descent_step : Frac

abbrev pub defaults : Tuning
defaults = record {
  kp = over 35 99;
  ki = over 8 99;
  kd = over 15 99;
  i_limit = over 3 9;
  ema_alpha = over 4 9;
  center_threshold = over 8 99;
  land_box_ratio = over 4 9;
  search_timeout = int 10;
  descent_step = over 6 99;
  min_descent_step = over 2 99;
}

-- 0.44
abbrev pub hover_throttle : Frac
hover_throttle = over 44 99

-- The states of a landing.
pub data Phase : Type 0 where
  idle : Phase
  searching : Phase
  descending : Phase
  complete : Phase
  aborted : Phase

abbrev pub is_over : Phase → Bool
is_over Phase.searching = false
is_over Phase.descending = false
is_over _ = true

-- `_PIDAxis`
pub record PidAxis : Type 0 where
  pub integral : Frac
  pub prev_error : Frac
  pub prev_time : Frac

pub record Rect : Type 0 where
  pub left : ℕ
  pub top : ℕ
  pub width : ℕ
  pub height : ℕ

-- `_qr_info`, before its numbers are rounded.
pub record QrInfo : Type 0 where
  pub ex : Frac
  pub ey : Frac
  pub raw_ex : Frac
  pub raw_ey : Frac
  pub ratio : Frac
  pub box : Rect

-- The globals `_state` and `_qr_info`.
pub record Landing : Type 0 where
  pub phase : Phase
  pub qr_info : Option QrInfo

-- The local variables of the loop.
pub record Locals : Type 0 where
  pub search_start : Frac
  pub pid_x : PidAxis
  pub pid_y : PidAxis
  pub filt_ex : Frac
  pub filt_ey : Frac
  pub has_filter : Bool

-- The arguments of `virtual_tx.send_command`, whose time is always the present.
pub record Command : Type 0 where
  pub throttle : Frac
  pub roll : Frac
  pub pitch : Frac
  pub yaw : Frac
  pub duration : Frac

-- What a step sets off: a command, or the call of `_switch_to_land`.
pub data Effect : Type 0 where
  send : Command → Effect
  switch_to_land : Effect

-- What the camera shows: no frame, a frame without a code, or the first code of a frame.
pub data Sight : Type 0 where
  no_frame : Sight
  no_qr : (now : Frac) → Sight
  qr : (now : Frac) → Rect → Sight

-- Where the loop stands: before its check, behind it, before the lock of either outcome, before the
-- lock that ends the landing, at its end, or ended by an exception.
pub data Pc : Type 0 where
  at_check : Locals → Pc
  at_frame : Locals → Pc
  at_lost : Locals → (now : Frac) → Pc
  at_found : Locals → (now : Frac) → (seen : QrInfo) → Pc
  at_land : Pc
  ended : Pc
  failed : Pc
