-- ===== src/Drone/VirtualTx.antt =====
-- ros2/src/drone_control/drone_control/virtual_tx.py: the virtual RC transmitter.
-- Floats are exact fractions, times too, in seconds. The clock and the mode that telemetry shows are
-- arguments; a publish is a value of the loop's result.
pub mod Shaping
pub mod Node
pub mod Config
pub mod Pwm
pub mod Runs
pub mod Order
pub mod Centering
pub mod Failsafe
pub mod Recentre
pub mod Limits
pub mod Raises
pub mod Silence
pub mod Service
mod Examples
use nova_robotics_drone_cont.Common.{ℕ, Bool, true, false}
use nova_robotics_drone_cont.Common.Frac.{Frac}

pub data Axis : Type 0 where
  roll : Axis
  pitch : Axis
  yaw : Axis
  throttle : Axis

-- One value for each of the four sticks: the fields of these names in the source.
pub record Sticks (A : Type 0) : Type 0 where
  pub roll : A
  pub pitch : A
  pub yaw : A
  pub throttle : A

abbrev pub stick : {A : Type 0} → Sticks A → Axis → A
stick s Axis.roll = s.roll
stick s Axis.pitch = s.pitch
stick s Axis.yaw = s.yaw
stick s Axis.throttle = s.throttle

abbrev pub put_stick : {A : Type 0} → Sticks A → Axis → A → Sticks A
put_stick s Axis.roll a = record s { roll = a }
put_stick s Axis.pitch a = record s { pitch = a }
put_stick s Axis.yaw a = record s { yaw = a }
put_stick s Axis.throttle a = record s { throttle = a }

-- The four fields `<axis>_expo`, `<axis>_smoothing`, `<axis>_deadzone`, `<axis>_rate_limit`.
pub record AxisConfig : Type 0 where
  pub expo : Frac
  pub smoothing : Frac
  pub deadzone : Frac
  pub rate_limit : Frac

pub record VirtualTxConfig : Type 0 where
  pub command_timeout : Frac
  pub failsafe_timeout : Frac
  pub publish_rate : Frac
  pub center_rate : Frac
  pub axes : Sticks AxisConfig
  pub throttle_pwm_idle : Frac
  pub throttle_pwm_max : Frac

pub record ControlInput : Type 0 where
  pub timestamp : Frac
  pub throttle : Frac
  pub roll : Frac
  pub pitch : Frac
  pub yaw : Frac
  pub duration : Frac

pub record ChannelState : Type 0 where
  pub raw : Frac
  pub smoothed : Frac
  pub output : Frac

pub record TxState : Type 0 where
  pub enabled : Bool
  pub last_command_time : Frac
  pub hold_until : Frac
  pub last_accepted_ts : Frac
  pub in_failsafe : Bool
  pub centering : Bool
  pub sticks : Sticks ChannelState

-- The attributes of the node that change.
pub record VirtualTxNode : Type 0 where
  pub config : VirtualTxConfig
  pub state : TxState
  pub last_update_time : Frac

-- The modes that `ALTITUDE_HOLD_MODES` lists, and the rest.
pub data Mode : Type 0 where
  alt_hold : Mode
  loiter : Mode
  posctl : Mode
  auto : Mode
  guided : Mode
  auto_mission : Mode
  auto_loiter : Mode
  auto_rtl : Mode
  auto_land : Mode
  brake : Mode
  offboard : Mode
  any_other : Mode

abbrev pub holds_altitude : Mode → Bool
holds_altitude any_other = false
holds_altitude _ = true
