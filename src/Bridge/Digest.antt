-- ===== src/Bridge/Digest.antt =====
-- modules/drone_bridge/digest.py, with the packing of serializers.py and the record of snapshot.py:
-- the 32 bytes that stand for the state of the drone.
-- A float is an exact fraction, or `none` when it is no number or infinite.
pub mod Struct
pub mod Round
pub mod Wire
pub mod Arrival
pub mod Accuracy
mod Examples
use nova_robotics_drone_cont.Common.{
  ℕ, suc, ◌+◌, ◌-◌, ◌*◌, ◌/◌, ◌%◌, ◌^◌, ◌≤◌, min, Bool, true, false, not, ◌&&◌, Option, none, some,
  List, [], ◌∷◌, ◌++◌, map, ltb, leb, ◌==◌, if◌then◌else◌, length, take, drop, bit_and, bit_or,
}
use nova_robotics_drone_cont.Common.Maybe.{◌>>=◌}
use nova_robotics_drone_cont.Common.Int.{ℤ, pos, negsuc, pos_part, neg_part, sub_ℕ, ltb_ℤ}
use nova_robotics_drone_cont.Common.Bytes.{le, of_le}
use nova_robotics_drone_cont.Common.Frac.{Frac, int, over, mul}

abbrev pub Float : Type 0
Float = Option Frac

-- The names of `MODE_INDEX`, the empty one, and all others.
pub data FlightMode : Type 0 where
  no_mode : FlightMode
  stabilize : FlightMode
  alt_hold : FlightMode
  loiter : FlightMode
  auto : FlightMode
  guided : FlightMode
  rtl : FlightMode
  land : FlightMode
  poshold : FlightMode
  brake : FlightMode
  throw : FlightMode
  avoid_adsb : FlightMode
  guided_nogps : FlightMode
  smart_rtl : FlightMode
  flowhold : FlightMode
  follow : FlightMode
  any_other : FlightMode

unfoldable pub mode_to_index : FlightMode → ℕ
mode_to_index FlightMode.no_mode = 0
mode_to_index FlightMode.stabilize = 0
mode_to_index FlightMode.alt_hold = 1
mode_to_index FlightMode.loiter = 2
mode_to_index FlightMode.auto = 3
mode_to_index FlightMode.guided = 4
mode_to_index FlightMode.rtl = 5
mode_to_index FlightMode.land = 6
mode_to_index FlightMode.poshold = 7
mode_to_index FlightMode.brake = 8
mode_to_index FlightMode.throw = 9
mode_to_index FlightMode.avoid_adsb = 10
mode_to_index FlightMode.guided_nogps = 11
mode_to_index FlightMode.smart_rtl = 12
mode_to_index FlightMode.flowhold = 13
mode_to_index FlightMode.follow = 14
mode_to_index FlightMode.any_other = 15

-- The fields of the snapshot that the digest shows.
pub record Snapshot : Type 0 where
  pub armed : Bool
  pub mode : FlightMode
  pub fix_type : ℕ
  pub home_set : Bool
  pub voltage_v : Float
  pub battery_pct : Float
  pub lat : Float
  pub lon : Float
  pub alt_amsl_m : Float
  pub alt_rel_m : Float
  pub ground_speed_mps : Float
  pub heading_deg : Float
  pub roll_rad : Float
  pub pitch_rad : Float
  pub rssi_dbm : ℤ
  pub uplink_lq : ℤ

-- Half to even, of `n / d`.
unfoldable pub round_half_even : ℕ → ℕ → ℕ
round_half_even n d =
    let q = n / d in
    let r = n % d in
    if ltb (2 * r) d
    then q
    else (if ltb d (2 * r) then q + 1 else (if q % 2 == 0 then q else q + 1))

-- `round(value)`
unfoldable pub round : Frac → ℤ
round a =
    if leb a.minus a.plus
    then pos (round_half_even (a.plus - a.minus) (suc a.below))
    else sub_ℕ 0 (round_half_even (a.minus - a.plus) (suc a.below))

unfoldable pub clamp : ℤ → ℤ → ℤ → ℤ
clamp v lo hi = if ltb_ℤ v lo then lo else (if ltb_ℤ hi v then hi else v)

-- `_clamp`
unfoldable pub clamp_round : Float → ℤ → ℤ → ℤ
clamp_round none lo hi = pos 0
clamp_round (some x) lo hi = clamp (round x) lo hi

-- `(rssi_dbm + 120) * 100 // 70`, cut to a percentage; below -120 dBm the quotient is negative.
unfoldable pub rssi_dbm_to_pct : ℤ → ℕ
rssi_dbm_to_pct rssi =
    if pos_part rssi + neg_part rssi == 0
    then 0
    else (if leb (neg_part rssi) (pos_part rssi + 120)
        then min 100 ((pos_part rssi + 120 - neg_part rssi) * 100 / 70)
        else 0)

-- 180 by the double next to pi, for `math.degrees`.
abbrev pub degrees_per_rad : Frac
degrees_per_rad = over (180 * 281474976710656) 884279719003554

abbrev pub times : ℕ → Float → Float
times k v = v >>= λ x. some (mul x (int k))

abbrev pub degrees : Float → Float
degrees v = v >>= λ x. some (mul x degrees_per_rad)

abbrev pub flag : Bool → ℕ → ℕ
flag true bit = bit
flag false bit = 0

unfoldable pub flags_of : Bool → Bool → Bool → ℕ → ℕ
flags_of armed fix home mode =
    bit_or (bit_or (bit_or (flag armed 0x01) (flag fix 0x04)) (flag home 0x08))
      (bit_and mode 0x0F * 16)

abbrev pub u8_of : Float → ℤ
u8_of v = clamp_round v (pos 0) (pos 255)

abbrev pub u16_of : Float → ℤ
u16_of v = clamp_round v (pos 0) (pos 0xFFFF)

abbrev pub i16_of : Float → ℤ
i16_of v = clamp_round v (negsuc 32767) (pos 32767)

abbrev pub i32_of : Float → ℤ
i32_of v = clamp_round v (negsuc 2147483647) (pos 2147483647)

-- The arguments of `struct.pack` in `_pack_from`.
unfoldable pub digest_fields : Snapshot → ℕ → List ℤ
digest_fields s uptime_ms =
    pos (flags_of s.armed (leb 3 s.fix_type) s.home_set (mode_to_index s.mode))
    ∷ u8_of (times 100 s.battery_pct)
    ∷ u16_of (times 1000 s.voltage_v)
    ∷ i32_of (times 10000000 s.lat)
    ∷ i32_of (times 10000000 s.lon)
    ∷ i16_of (times 10 s.alt_amsl_m)
    ∷ i16_of (times 10 s.alt_rel_m)
    ∷ u16_of (times 100 s.ground_speed_mps)
    ∷ i16_of (times 100 s.heading_deg)
    ∷ i16_of (times 100 (degrees s.roll_rad))
    ∷ i16_of (times 100 (degrees s.pitch_rad))
    ∷ pos (rssi_dbm_to_pct s.rssi_dbm)
    ∷ clamp s.uplink_lq (pos 0) (pos 100)
    ∷ pos 0
    ∷ pos (uptime_ms % 2 ^ 32)
    ∷ []

-- What `unpack` returns.
pub record Digest : Type 0 where
  pub flags : ℕ
  pub armed : Bool
  pub ekf_ok : Bool
  pub gps_3d_fix : Bool
  pub home_set : Bool
  pub mode_idx : ℕ
  pub battery_pct : ℤ
  pub voltage_mv : ℤ
  pub latitude : Frac
  pub longitude : Frac
  pub altitude_amsl_m : Frac
  pub altitude_rel_m : Frac
  pub ground_speed_mps : Frac
  pub heading_deg : Frac
  pub roll_deg : Frac
  pub pitch_deg : Frac
  pub rssi_pct : ℤ
  pub link_quality_pct : ℤ
  pub monotonic_ms : ℤ

-- `z / (b + 1)`
abbrev pub per : ℤ → ℕ → Frac
per z b = record { plus = pos_part z; minus = neg_part z; below = b }

abbrev pub has_bit : ℕ → ℕ → Bool
has_bit flags bit = not (bit_and flags bit == 0)

abbrev pub digest_of : List ℤ → Option Digest
digest_of
      (f ∷ batt ∷ mv ∷ lat ∷ lon ∷ amsl ∷ rel ∷ gs ∷ hd ∷ roll ∷ pitch ∷ rssi ∷ lq ∷ resv ∷ mono
        ∷ []) =
    let flags = pos_part f in
    some (record {
      flags = flags;
      armed = has_bit flags 0x01;
      ekf_ok = has_bit flags 0x02;
      gps_3d_fix = has_bit flags 0x04;
      home_set = has_bit flags 0x08;
      mode_idx = flags / 16 % 16;
      battery_pct = batt;
      voltage_mv = mv;
      latitude = per lat 9999999;
      longitude = per lon 9999999;
      altitude_amsl_m = per amsl 9;
      altitude_rel_m = per rel 9;
      ground_speed_mps = per gs 99;
      heading_deg = per hd 99;
      roll_deg = per roll 99;
      pitch_deg = per pitch 99;
      rssi_pct = rssi;
      link_quality_pct = lq;
      monotonic_ms = mono;
    })
digest_of _ = none
