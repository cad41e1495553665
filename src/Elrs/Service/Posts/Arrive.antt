-- ===== src/Elrs/Service/Posts/Arrive.antt =====
-- modules/elrs_telemetry/service.py: what becomes of a posted attitude or battery sample.
use nova_robotics_drone_cont.Common.{
  ℕ, ◌+◌, ◌-◌, ◌*◌, ◌^◌, ◌<◌, ◌≡◌, refl, Bool, true, ◌&&◌, some, List, ltb, if◌then◌else◌, All,
  arith, get_or, lt→ltb,
}
use nova_robotics_drone_cont.Common.Result.{ok, err}
use nova_robotics_drone_cont.Common.Int.{ℤ, pos, negsuc}
use nova_robotics_drone_cont.Common.Frac.{Frac, int, over, neg, mul, ◌≤F◌, leb_frac, trunc, true_le}
use nova_robotics_drone_cont.Common.Trunc.{Between, trunc-Between, trunc_negative}
use nova_robotics_drone_cont.Elrs.Crsf.{Frame, addr_flight_ctrl}
use nova_robotics_drone_cont.Elrs.Crsf.Crc.{IsByte}
use nova_robotics_drone_cont.Elrs.Service.Posts.{
  number, server_error, battery_frame, make_battery, to_bytes, AttitudePost, attitude_payload,
  frame_attitude, within, float_within, to_bytes_signed, be,
}

-- The signed number of two bytes, the high one first.
abbrev pub read_int16 : List ℕ → ℕ → ℤ
read_int16 bytes i =
    let n = get_or bytes i 0 * 256 + get_or bytes (i + 1) 0 in
    if ltb n (2 ^ 15) then pos n else negsuc (2 ^ 16 - n - 1)

int16-IsByte : (z : ℤ) → All IsByte (to_bytes_signed 2 z)
int16-IsByte z = (omega arith, (omega arith, tt))

module _ (x y z : Frac) where
  abbrev angles : List ℕ
  angles =
      attitude_payload (trunc (mul x (int 10000))) (trunc (mul y (int 10000)))
        (trunc (mul z (int 10000)))

  abbrev pub posted : AttitudePost
  posted = record { pitch = some (number x); roll = some (number y); yaw = some (number z) }

  abbrev pub attitude_sample : Frame
  attitude_sample = record { addr = addr_flight_ctrl; ftype = frame_attitude; payload = angles }

and_left : (a b : Bool) → (a && b) ≡ true → a ≡ true
and_left a b h = ground arith

and_right : (a b : Bool) → (a && b) ≡ true → b ≡ true
and_right a b h = ground arith

small_bytes : (z : ℤ) → Between (pos 0) (pos 600) z → (bs : List ℕ) × (to_bytes 2 z ≡ ok bs)
small_bytes (pos n) b =
    let h : n < 256 ^ 2 = omega (arith, b.1) in (be 2 n, rw (lt→ltb n (256 ^ 2) h) refl)
small_bytes (negsuc n) b = absurd (omega (arith, b.0))

ten_volts :
    (v : Frac) → int 0 ≤F v → v ≤F int 60 → Between (pos 0) (pos 600) (trunc (mul v (int 10)))
ten_volts v h k = trunc-Between 0 600 (mul v (int 10)) (omega arith) (omega arith)

ten_amps : (a : Frac) → a ≤F neg (over 1 9) → mul a (int 10) ≤F neg (int 1)
ten_amps a h = omega arith

-- A battery sample whose fields are in the ranges that the endpoint checks, and whose current is at
-- most -0.1 A, which it lets through down to -200 A, is not answered: the frame builder raises.
pub negative_current_fails :
    (v a m q : Frac)
    → float_within (int 0) (int 60) (number v) ≡ true
    → float_within (neg (int 200)) (int 200) (number a) ≡ true
    → within (pos 0) (pos 0xFFFFFF) (trunc (mul m (int 1))) ≡ true
    → within (pos 0) (pos 100) (trunc (mul q (int 1))) ≡ true
    → a ≤F neg (over 1 9)
    → battery_frame (record {
      voltage = some (number v);
      current = some (number a);
      mah = some (number m);
      percent = some (number q);
    })
      ≡ err server_error
unfolding battery_frame make_battery
negative_current_fails v a m q hv ha hm hq low =
    let low_v = true_le (int 0) v (and_left (leb_frac (int 0) v) (leb_frac v (int 60)) hv) in
    let high_v = true_le v (int 60) (and_right (leb_frac (int 0) v) (leb_frac v (int 60)) hv) in
    let bytes = small_bytes (trunc (mul v (int 10))) (ten_volts v low_v high_v) in
    let n = trunc_negative (mul a (int 10)) (ten_amps a low) in
    rw (hv, ha, hm, hq, bytes.1, n.1) refl
