-- ===== src/Drone/VirtualTx/Config.antt =====
-- ros2/src/drone_control/drone_control/virtual_tx.py: the tunable parameters at run time.
use nova_robotics_drone_cont.Common.{Bool, true, false, Option, none, some, List, [], ◌∷◌}
use nova_robotics_drone_cont.Common.Frac.{Frac, int, over}
use nova_robotics_drone_cont.Drone.VirtualTx.{Axis, stick, put_stick, AxisConfig, VirtualTxConfig}

pub data Param : Type 0 where
  expo : Param
  smoothing : Param
  deadzone : Param
  rate_limit : Param

-- The keys of `get_config`.
pub data Key : Type 0 where
  command_timeout : Key
  failsafe_timeout : Key
  publish_rate : Key
  center_rate : Key
  of_axis : Axis → Param → Key
  throttle_pwm_idle : Key
  throttle_pwm_max : Key

abbrev pub put_param : Param → Frac → AxisConfig → AxisConfig
put_param Param.expo v c = record c { expo = v }
put_param Param.smoothing v c = record c { smoothing = v }
put_param Param.deadzone v c = record c { deadzone = v }
put_param Param.rate_limit v c = record c { rate_limit = v }

-- `setattr(_config, key, float(value))`
abbrev pub put_key : Key → Frac → VirtualTxConfig → VirtualTxConfig
put_key command_timeout v c = record c { command_timeout = v }
put_key failsafe_timeout v c = record c { failsafe_timeout = v }
put_key publish_rate v c = record c { publish_rate = v }
put_key center_rate v c = record c { center_rate = v }
put_key (of_axis a p) v c = record c { axes = put_stick c.axes a (put_param p v (stick c.axes a)) }
put_key throttle_pwm_idle v c = record c { throttle_pwm_idle = v }
put_key throttle_pwm_max v c = record c { throttle_pwm_max = v }

-- One item of the updates: its key, `none` if it is not valid, and its value, `none` if it is no
-- number.
abbrev pub Update : Type 0
Update = Option Key × Option Frac

-- The items before a bad one stay set.
unfoldable pub update_config : List Update → VirtualTxConfig → VirtualTxConfig × Bool
update_config [] c = (c, true)
update_config ((none, v) ∷ us) c = (c, false)
update_config ((some k, none) ∷ us) c = (c, false)
update_config ((some k, some v) ∷ us) c = update_config us (put_key k v c)

abbrev axis_config : Frac → Frac → Frac → Frac → AxisConfig
axis_config e s d r = record { expo = e; smoothing = s; deadzone = d; rate_limit = r }

-- The defaults of `VirtualTXConfig`.
abbrev pub default_config : VirtualTxConfig
default_config = record {
  command_timeout = over 3 1;
  failsafe_timeout = over 1 1;
  publish_rate = int 50;
  center_rate = int 2;
  axes = record {
    roll = axis_config (over 3 9) (over 7 9) (over 1 19) (int 3);
    pitch = axis_config (over 3 9) (over 7 9) (over 1 19) (int 3);
    yaw = axis_config (over 1 4) (over 1 1) (over 1 19) (int 2);
    throttle = axis_config (int 0) (over 4 4) (over 1 49) (over 3 1);
  };
  throttle_pwm_idle = int 1100;
  throttle_pwm_max = int 2000;
}
