-- ===== src/Drone/CompassCal/Examples.antt =====
-- ros2/src/drone_control/drone_control/compass_cal.py: a calibration that ends.
use nova_robotics_drone_cont.Common.{◌≡◌, refl, inl, true, false, none, some, [], ◌∷◌, arith}
use nova_robotics_drone_cont.Drone.CompassCal.{
  Mavlink, Calibration, on_mavlink, reset, payload_bytes, decode_report, decode_progress, get_state,
  msg_id_progress,
}
use nova_robotics_drone_cont.Drone.CompassCal.Wire.{
  MagCalReport, IsValid, report_message, shown, report_arrives, four_bytes, pair,
}
use nova_robotics_drone_cont.Drone.CompassCal.Runs.{mavlink, run, terminal_report_stays}

-- The first compass, with the offsets 1.0, 2.0 and -1.0, and not saved.
abbrev result : MagCalReport
result = record {
  fitness = 0x3F800000;
  ofs_x = 0x3F800000;
  ofs_y = 0x40000000;
  ofs_z = 0xBF800000;
  diag_x = 0x3F800000;
  diag_y = 0x3F800000;
  diag_z = 0x3F800000;
  offdiag_x = 0;
  offdiag_y = 0;
  offdiag_z = 0;
  compass_id = 0;
  cal_mask = 1;
  cal_status = 4;
  autosaved = 0;
}

result-IsValid : IsValid result
result-IsValid = record {
  is_fitness = omega arith;
  is_ofs_x = omega arith;
  is_ofs_y = omega arith;
  is_ofs_z = omega arith;
  is_diag_x = omega arith;
  is_diag_y = omega arith;
  is_diag_z = omega arith;
  is_offdiag_x = omega arith;
  is_offdiag_y = omega arith;
  is_offdiag_z = omega arith;
  id_byte = omega arith;
  mask_byte = omega arith;
  status_byte = omega arith;
  saved_byte = omega arith;
}

report_arrives_example :
    on_mavlink reset (report_message result) 7
    ≡ record { progress = none; report = some (shown result); last_update_t = 7 }
report_arrives_example = report_arrives result reset 7 result-IsValid

-- The same report without its last byte, which is 0, as a sender that trims zeros puts it.
trimmed : on_mavlink reset (record (report_message result) { len = 43 }) 7 ≡ reset
unfolding on_mavlink payload_bytes decode_report
trimmed = refl

abbrev over_now : Calibration
over_now = record { progress = none; report = some (shown result); last_update_t = 7 }

-- Half way through the first attempt of the second step.
abbrev half_way : Mavlink
half_way = record {
  msgid = msg_id_progress;
  len = 27;
  payload64 = pair 0 0 ∷ pair 0 (four_bytes 0 1 3 1) ∷ 50 ∷ 0 ∷ [];
}

half_way_runs : (get_state (run reset (mavlink half_way 8 ∷ []))).active ≡ true
unfolding get_state on_mavlink payload_bytes decode_progress
half_way_runs = refl

terminal_report_stays_example :
    ((get_state (run over_now (mavlink half_way 8 ∷ []))).active ≡ false)
    × ((get_state (run over_now (mavlink half_way 8 ∷ []))).report ≡ some (shown result))
terminal_report_stays_example =
    terminal_report_stays over_now (shown result) (mavlink half_way 8 ∷ []) refl refl (inl refl, tt)
