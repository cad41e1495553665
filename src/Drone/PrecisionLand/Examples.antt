-- ===== src/Drone/PrecisionLand/Examples.antt =====
-- ros2/src/drone_control/drone_control/precision_land.py: runs with the default parameters.
use nova_robotics_drone_cont.Common.{◌≡◌, refl, true, none, [], ◌∷◌, All, arith}
use nova_robotics_drone_cont.Common.Frac.{int, over, leb_frac}
use nova_robotics_drone_cont.Drone.PrecisionLand.{
  defaults, Landing, Rect, QrInfo, no_frame, Pc, at_check, at_found, Phase,
}
use nova_robotics_drone_cont.Drone.PrecisionLand.Control.{correct, update_pid}
use nova_robotics_drone_cont.Drone.PrecisionLand.Loop.{
  System, new_locals, advance, found, start_landing, started, abort, turn,
}
use nova_robotics_drone_cont.Drone.PrecisionLand.Commands.{AreGentle, advance-Gentle}
use nova_robotics_drone_cont.Drone.PrecisionLand.Abort.{abort_is_lost}

-- A code of 200 pixels in the middle of the frame.
abbrev middle : Rect
middle = record { left = 540; top = 260; width = 200; height = 200 }

abbrev seen : QrInfo
seen = record {
  ex = int 0;
  ey = int 0;
  raw_ex = int 0;
  raw_ey = int 0;
  ratio = over 200 1279;
  box = middle;
}

abbrev over_code : Pc
over_code = at_found (new_locals (int 5)) (int 6) seen

abbrev landing : Landing
landing = record { phase = Phase.searching; qr_info = none }

-- Centred over the code the throttle goes 0.06 below the hover.
descends : (advance defaults landing over_code no_frame).landing.phase ≡ Phase.descending
unfolding advance found correct update_pid leb_frac
descends = refl

advance-Gentle_example :
    All (AreGentle defaults over_code) (advance defaults landing over_code no_frame).effects
advance-Gentle_example =
    advance-Gentle defaults landing over_code no_frame (omega arith) (omega arith)

abbrev at_rest : System
at_rest = record {
  tuning = defaults;
  landing = record { phase = Phase.idle; qr_info = none };
  loops = [];
}

abbrev one_loop : Pc → System
one_loop pc = record { tuning = defaults; landing = landing; loops = pc ∷ [] }

starts :
    start_landing (int 5) true true true at_rest
    ≡ (one_loop (at_check (new_locals (int 5))), started)
unfolding start_landing
starts = refl

abort_is_lost_example :
    (turn 0 no_frame (abort (one_loop over_code)).0).0.landing.phase ≡ Phase.descending
abort_is_lost_example =
    abort_is_lost (one_loop over_code) 0 (new_locals (int 5)) (int 6) seen no_frame refl
