-- ===== src/Drone/PrecisionLand/Settings.antt =====
-- ros2/src/drone_control/drone_control/precision_land.py: the parameters at run time.
use nova_robotics_drone_cont.Common.{Bool, true, false, Option, none, some, List, [], ◌∷◌}
use nova_robotics_drone_cont.Common.Frac.{Frac}
use nova_robotics_drone_cont.Drone.PrecisionLand.{Tuning}

-- `_TUNABLE`
pub data Tunable : Type 0 where
  kp : Tunable
  ki : Tunable
  kd : Tunable
  i_limit : Tunable
  ema_alpha : Tunable
  center_threshold : Tunable
  land_box_ratio : Tunable
  search_timeout : Tunable
  descent_step : Tunable
  min_descent_step : Tunable

abbrev pub put_tunable : Tunable → Frac → Tuning → Tuning
put_tunable Tunable.kp v t = record t { kp = v }
put_tunable Tunable.ki v t = record t { ki = v }
put_tunable Tunable.kd v t = record t { kd = v }
put_tunable Tunable.i_limit v t = record t { i_limit = v }
put_tunable Tunable.ema_alpha v t = record t { ema_alpha = v }
put_tunable Tunable.center_threshold v t = record t { center_threshold = v }
put_tunable Tunable.land_box_ratio v t = record t { land_box_ratio = v }
put_tunable Tunable.search_timeout v t = record t { search_timeout = v }
put_tunable Tunable.descent_step v t = record t { descent_step = v }
put_tunable Tunable.min_descent_step v t = record t { min_descent_step = v }

-- The items before a bad one stay set. A key that is not tunable is `none`, and so is a value that
-- is no number.
unfoldable pub set_tuning : List (Option Tunable × Option Frac) → Tuning → Tuning × Bool
set_tuning [] t = (t, true)
set_tuning ((none, v) ∷ us) t = (t, false)
set_tuning ((some k, none) ∷ us) t = (t, false)
set_tuning ((some k, some v) ∷ us) t = set_tuning us (put_tunable k v t)
