-- ===== src/Elrs/Service/Posts/Examples.antt =====
-- modules/elrs_telemetry/service.py: samples that producers post.
use nova_robotics_drone_cont.Common.{◌≡◌, refl, some, [], arith}
use nova_robotics_drone_cont.Common.Result.{err}
use nova_robotics_drone_cont.Common.Int.{negsuc}
use nova_robotics_drone_cont.Common.Frac.{int, over, neg, mul, trunc, leb_frac}
use nova_robotics_drone_cont.Elrs.Service.Posts.{
  number, infinite, server_error, bad_request, battery_frame, gps_frame, flight_mode_frame,
}
use nova_robotics_drone_cont.Elrs.Service.Posts.Arrive.{negative_current_fails}

pitch_of_example : trunc (mul (neg (over 35 99)) (int 10000)) ≡ negsuc 3499
pitch_of_example = refl

-- A charging battery: 12 V and -1.5 A.
negative_current_fails_example :
    battery_frame (record {
      voltage = some (number (int 12));
      current = some (number (neg (over 15 9)));
      mah = some (number (int 800));
      percent = some (number (int 80));
    })
    ≡ err server_error
unfolding leb_frac
negative_current_fails_example =
    negative_current_fails (int 12) (neg (over 15 9)) (int 800) (int 80) refl refl refl refl
      (omega arith)

-- An infinite latitude is not caught either, and a text of 33 characters is.
infinite_latitude :
    gps_frame (record {
      lat = some infinite;
      lon = some (number (int 0));
      speed = some (number (int 0));
      heading = some (number (int 0));
      alt = some (number (int 0));
      satellites = some (number (int 8));
    })
    ≡ err server_error
unfolding gps_frame
infinite_latitude = refl

no_text : flight_mode_frame [] ≡ err bad_request
unfolding flight_mode_frame
no_text = refl
