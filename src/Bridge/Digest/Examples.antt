-- ===== src/Bridge/Digest/Examples.antt =====
-- modules/drone_bridge/digest.py: one snapshot, there and back.
use nova_robotics_drone_cont.Common.{ℕ, ◌≡◌, refl, true, none, some, List, length}
use nova_robotics_drone_cont.Common.Int.{pos, negsuc}
use nova_robotics_drone_cont.Common.Frac.{int, over, neg}
use nova_robotics_drone_cont.Bridge.Digest.{
  FlightMode, Snapshot, round, round_half_even, rssi_dbm_to_pct,
}
use nova_robotics_drone_cont.Bridge.Digest.Wire.{pack_digest, unpack}
use nova_robotics_drone_cont.Bridge.Digest.Arrival.{digest_arrives, shown}

-- Flying north-west at 345 degrees, 12.58 V.
abbrev flying : Snapshot
flying = record {
  armed = true;
  mode = FlightMode.loiter;
  fix_type = 3;
  home_set = true;
  voltage_v = some (over 1258 99);
  battery_pct = some (over 81 99);
  lat = some (over 17 0);
  lon = some (neg (over 785 9));
  alt_amsl_m = some (int 520);
  alt_rel_m = some (over 105 9);
  ground_speed_mps = none;
  heading_deg = some (int 345);
  roll_rad = some (over 1 9);
  pitch_rad = some (int 0);
  rssi_dbm = negsuc 69;
  uplink_lq = pos 99;
}

-- -70 dBm is 71 of a hundred.
rssi_of_flying : rssi_dbm_to_pct (negsuc 69) ≡ 71
unfolding rssi_dbm_to_pct
rssi_of_flying = refl

-- Half goes to even: 2.5 to 2, and 3.5 to 4.
half_to_even : (round (over 5 1) ≡ pos 2) × (round (over 7 1) ≡ pos 4)
unfolding round round_half_even
half_to_even = (refl, refl)

digest_arrives_example :
    (bytes : List ℕ) × (pack_digest flying 12345 ≡ some bytes)
    × (length bytes ≡ 32)
    × (unpack bytes ≡ some (shown flying 12345))
digest_arrives_example = digest_arrives flying 12345
