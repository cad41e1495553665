-- ===== src/Bridge/Digest/Arrival.antt =====
-- modules/drone_bridge/digest.py: what is packed is what is unpacked.
use nova_robotics_drone_cont.Common.{
  ℕ, ◌/◌, ◌%◌, ◌^◌, ◌<◌, ◌≡◌, refl, sym, Bool, true, false, not, ◌&&◌, none, some, List, leb, ltb,
  ◌==◌, length, arith, all_below, all_below_sound, ==_iff,
}
use nova_robotics_drone_cont.Common.Int.{ℤ, pos, negsuc, ◌≤ℤ◌}
use nova_robotics_drone_cont.Bridge.Digest.{
  Float, FlightMode, mode_to_index, Snapshot, clamp, clamp_round, round, rssi_dbm_to_pct, flags_of,
  digest_fields, Digest, digest_of, per, has_bit, times, degrees, u8_of, u16_of, i16_of, i32_of,
}
use nova_robotics_drone_cont.Bridge.Digest.Struct.{
  u8, u16, i16, i32, fits, Fit, packed, pack_all_lem, unpack_all-packed, length-packed,
}
use nova_robotics_drone_cont.Bridge.Digest.Round.{clamp-between}
use nova_robotics_drone_cont.Bridge.Digest.Wire.{digest_format, pack_digest, unpack}

-- The flags of every combination, read back.
abbrev same : Bool → Bool → Bool
same true b = b
same false b = not b

abbrev flags_good : Bool → Bool → Bool → ℕ → Bool
flags_good armed fix home mode =
    let flags = flags_of armed fix home mode in
    ltb flags 256
    && same armed (has_bit flags 0x01)
    && not (has_bit flags 0x02)
    && same fix (has_bit flags 0x04)
    && same home (has_bit flags 0x08)
    && (flags / 16 % 16 == mode)

all_flags_good : (armed fix home : Bool) → all_below 16 (flags_good armed fix home) ≡ true
unfolding all_below flags_of
all_flags_good true true true = refl
all_flags_good true true false = refl
all_flags_good true false true = refl
all_flags_good true false false = refl
all_flags_good false true true = refl
all_flags_good false true false = refl
all_flags_good false false true = refl
all_flags_good false false false = refl

-- The same as facts.
record FlagsBack (armed fix home : Bool) (mode flags : ℕ) : Type 0 where
  bound : flags < 256
  armed_eq : has_bit flags 0x01 ≡ armed
  ekf_eq : has_bit flags 0x02 ≡ false
  fix_eq : has_bit flags 0x04 ≡ fix
  home_eq : has_bit flags 0x08 ≡ home
  mode_eq : flags / 16 % 16 ≡ mode

same_lem : (a b : Bool) → same a b ≡ true → b ≡ a
same_lem true b h = h
same_lem false true h = sym h
same_lem false false h = refl

six :
    (a b c d e f : Bool)
    → (a && b && c && d && e && f) ≡ true
    → (a ≡ true) × (b ≡ true) × (c ≡ true) × (d ≡ true) × (e ≡ true) × (f ≡ true)
six a b c d e f h =
    (ground arith, ground arith, ground arith, ground arith, ground arith, ground arith)

false_of : (b : Bool) → not b ≡ true → b ≡ false
false_of true h = sym h
false_of false h = refl

flags-FlagsBack :
    (armed fix home : Bool) (mode : ℕ)
    → mode < 16
    → FlagsBack armed fix home mode (flags_of armed fix home mode)
flags-FlagsBack armed fix home mode h =
    split (flags_of armed fix home mode)
      (all_below_sound 16 (flags_good armed fix home) mode (all_flags_good armed fix home) h)
  where
    split :
        (f : ℕ)
        → (ltb f 256
            && same armed (has_bit f 0x01)
            && not (has_bit f 0x02)
            && same fix (has_bit f 0x04)
            && same home (has_bit f 0x08)
            && (f / 16 % 16 == mode))
          ≡ true
        → FlagsBack armed fix home mode f
    split f g =
        let k =
          six (ltb f 256) (same armed (has_bit f 0x01)) (not (has_bit f 0x02))
            (same fix (has_bit f 0x04)) (same home (has_bit f 0x08)) (f / 16 % 16 == mode) g in
        record {
          bound = ground (arith, k.0);
          armed_eq = same_lem armed (has_bit f 0x01) k.1;
          ekf_eq = false_of (has_bit f 0x02) k.2;
          fix_eq = same_lem fix (has_bit f 0x04) k.3;
          home_eq = same_lem home (has_bit f 0x08) k.4;
          mode_eq = (==_iff (f / 16 % 16) mode).0 k.5;
        }

mode_bound : (m : FlightMode) → mode_to_index m < 16
unfolding mode_to_index
mode_bound FlightMode.no_mode = omega arith
mode_bound FlightMode.stabilize = omega arith
mode_bound FlightMode.alt_hold = omega arith
mode_bound FlightMode.loiter = omega arith
mode_bound FlightMode.auto = omega arith
mode_bound FlightMode.guided = omega arith
mode_bound FlightMode.rtl = omega arith
mode_bound FlightMode.land = omega arith
mode_bound FlightMode.poshold = omega arith
mode_bound FlightMode.brake = omega arith
mode_bound FlightMode.throw = omega arith
mode_bound FlightMode.avoid_adsb = omega arith
mode_bound FlightMode.guided_nogps = omega arith
mode_bound FlightMode.smart_rtl = omega arith
mode_bound FlightMode.flowhold = omega arith
mode_bound FlightMode.follow = omega arith
mode_bound FlightMode.any_other = omega arith

-- The numbers of a field that is clamped to the range of its code.
clamp_round-between :
    (v : Float) (lo hi : ℤ)
    → lo ≤ℤ pos 0
    → pos 0 ≤ℤ hi
    → (lo ≤ℤ clamp_round v lo hi) × (clamp_round v lo hi ≤ℤ hi)
unfolding clamp_round
clamp_round-between none lo hi h k = (h, k)
clamp_round-between (some x) lo hi h k = clamp-between (round x) lo hi (omega (arith, h, k))

u8_fits : (z : ℤ) → (pos 0 ≤ℤ z) × (z ≤ℤ pos 255) → fits u8 z ≡ true
u8_fits (pos n) h = let k = h.1 in ground arith
u8_fits (negsuc n) h = let k = h.0 in absurd (omega arith)

u16_fits : (z : ℤ) → (pos 0 ≤ℤ z) × (z ≤ℤ pos 0xFFFF) → fits u16 z ≡ true
u16_fits (pos n) h = let k = h.1 in ground arith
u16_fits (negsuc n) h = let k = h.0 in absurd (omega arith)

i16_fits : (z : ℤ) → (negsuc 32767 ≤ℤ z) × (z ≤ℤ pos 32767) → fits i16 z ≡ true
i16_fits (pos n) h = let k = h.1 in ground arith
i16_fits (negsuc n) h = let k = h.0 in ground arith

i32_fits : (z : ℤ) → (negsuc 2147483647 ≤ℤ z) × (z ≤ℤ pos 2147483647) → fits i32 z ≡ true
i32_fits (pos n) h = let k = h.1 in ground arith
i32_fits (negsuc n) h = let k = h.0 in ground arith

rssi_bound : (r : ℤ) → rssi_dbm_to_pct r < 256
unfolding rssi_dbm_to_pct
rssi_bound r = ground arith

module _ (s : Snapshot) (uptime_ms : ℕ) where
  abbrev u8_ok : (v : Float) → fits u8 (u8_of v) ≡ true
  u8_ok v = u8_fits (u8_of v) (clamp_round-between v (pos 0) (pos 255) (omega arith) (omega arith))

  abbrev u16_ok : (v : Float) → fits u16 (u16_of v) ≡ true
  u16_ok v =
      u16_fits (u16_of v) (clamp_round-between v (pos 0) (pos 0xFFFF) (omega arith) (omega arith))

  abbrev i16_ok : (v : Float) → fits i16 (i16_of v) ≡ true
  i16_ok v =
      i16_fits (i16_of v)
        (clamp_round-between v (negsuc 32767) (pos 32767) (omega arith) (omega arith))

  abbrev i32_ok : (v : Float) → fits i32 (i32_of v) ≡ true
  i32_ok v =
      i32_fits (i32_of v)
        (clamp_round-between v (negsuc 2147483647) (pos 2147483647) (omega arith) (omega arith))

  lq_ok : fits u8 (clamp s.uplink_lq (pos 0) (pos 100)) ≡ true
  lq_ok =
      let c = clamp-between s.uplink_lq (pos 0) (pos 100) (omega arith) in
      u8_fits (clamp s.uplink_lq (pos 0) (pos 100)) (c.0, omega (arith, c.1))

  back :
      FlagsBack s.armed
        (leb 3 s.fix_type)
        s.home_set
        (mode_to_index s.mode)
        (flags_of s.armed (leb 3 s.fix_type) s.home_set (mode_to_index s.mode))
  back =
      flags-FlagsBack s.armed (leb 3 s.fix_type) s.home_set (mode_to_index s.mode)
        (mode_bound s.mode)

  fields-Fit : Fit digest_format (digest_fields s uptime_ms)
  unfolding digest_fields
  fields-Fit = (
    ground (arith, back.bound),
    (
      u8_ok (times 100 s.battery_pct),
      (
        u16_ok (times 1000 s.voltage_v),
        (
          i32_ok (times 10000000 s.lat),
          (
            i32_ok (times 10000000 s.lon),
            (
              i16_ok (times 10 s.alt_amsl_m),
              (
                i16_ok (times 10 s.alt_rel_m),
                (
                  u16_ok (times 100 s.ground_speed_mps),
                  (
                    i16_ok (times 100 s.heading_deg),
                    (
                      i16_ok (times 100 (degrees s.roll_rad)),
                      (
                        i16_ok (times 100 (degrees s.pitch_rad)),
                        (
                          ground (arith, rssi_bound s.rssi_dbm),
                          (lq_ok, (refl, (ground arith, tt))),
                        ),
                      ),
                    ),
                  ),
                ),
              ),
            ),
          ),
        ),
      ),
    ),
  )

-- What the digest shows of a snapshot.
abbrev pub shown : Snapshot → ℕ → Digest
shown s uptime_ms = record {
  flags = flags_of s.armed (leb 3 s.fix_type) s.home_set (mode_to_index s.mode);
  armed = s.armed;
  ekf_ok = false;
  gps_3d_fix = leb 3 s.fix_type;
  home_set = s.home_set;
  mode_idx = mode_to_index s.mode;
  battery_pct = u8_of (times 100 s.battery_pct);
  voltage_mv = u16_of (times 1000 s.voltage_v);
  latitude = per (i32_of (times 10000000 s.lat)) 9999999;
  longitude = per (i32_of (times 10000000 s.lon)) 9999999;
  altitude_amsl_m = per (i16_of (times 10 s.alt_amsl_m)) 9;
  altitude_rel_m = per (i16_of (times 10 s.alt_rel_m)) 9;
  ground_speed_mps = per (u16_of (times 100 s.ground_speed_mps)) 99;
  heading_deg = per (i16_of (times 100 s.heading_deg)) 99;
  roll_deg = per (i16_of (times 100 (degrees s.roll_rad))) 99;
  pitch_deg = per (i16_of (times 100 (degrees s.pitch_rad))) 99;
  rssi_pct = pos (rssi_dbm_to_pct s.rssi_dbm);
  link_quality_pct = clamp s.uplink_lq (pos 0) (pos 100);
  monotonic_ms = pos (uptime_ms % 2 ^ 32);
}

digest_of_fields :
    (s : Snapshot) (uptime_ms : ℕ)
    → digest_of (digest_fields s uptime_ms) ≡ some (shown s uptime_ms)
unfolding digest_fields
digest_of_fields s uptime_ms =
    let b = back s uptime_ms in rw (b.armed_eq, b.ekf_eq, b.fix_eq, b.home_eq, b.mode_eq) refl

-- Every snapshot at every uptime is packed into 32 bytes without fail, and these unpack to its
-- flags and mode and to each of its numbers in the unit of its field, rounded and cut to the range.
pub digest_arrives :
    (s : Snapshot) (uptime_ms : ℕ)
    → (bytes : List ℕ) × (pack_digest s uptime_ms ≡ some bytes)
      × (length bytes ≡ 32)
      × (unpack bytes ≡ some (shown s uptime_ms))
unfolding pack_digest unpack
digest_arrives s uptime_ms =
    let f = fields-Fit s uptime_ms in
    let zs = digest_fields s uptime_ms in
    let n = length-packed digest_format zs f in
    let size : (length (packed digest_format zs) == 32) ≡ true =
      (==_iff (length (packed digest_format zs)) 32).1 n in
    (
      packed digest_format zs,
      pack_all_lem digest_format zs f,
      n,
      rw (size, unpack_all-packed digest_format zs f) (digest_of_fields s uptime_ms),
    )
