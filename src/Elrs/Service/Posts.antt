-- ===== src/Elrs/Service/Posts.antt =====
-- modules/elrs_telemetry/service.py: the telemetry endpoints, with the frame builders of crsf.py.
-- A posted float is an exact fraction, no number, or infinite.
pub mod Arrive
mod Examples
use nova_robotics_drone_cont.Common.{
  ℕ, zero, suc, ◌+◌, ◌-◌, ◌*◌, ◌/◌, ◌%◌, ◌^◌, Bool, true, false, not, ◌&&◌, Option, none, some,
  List, [], ◌∷◌, ◌++◌, leb, ltb, ◌==◌, if◌then◌else◌, length,
}
use nova_robotics_drone_cont.Common.Result.{Result, ok, err, ◌>>=◌}
use nova_robotics_drone_cont.Common.Int.{ℤ, pos, negsuc, pos_part, neg_part}
use nova_robotics_drone_cont.Common.Frac.{Frac, int, neg, mul, leb_frac, trunc}
use nova_robotics_drone_cont.Elrs.Crsf.{addr_flight_ctrl, frame_battery_sensor, make_frame}
use nova_robotics_drone_cont.Elrs.Service.Transmit.{Sender, Reply, enqueue}

abbrev pub frame_gps : ℕ
frame_gps = 0x02

abbrev pub frame_attitude : ℕ
frame_attitude = 0x1E

abbrev pub frame_flight_mode : ℕ
frame_flight_mode = 0x21

pub data Num : Type 0 where
  number : Frac → Num
  nan : Num
  infinite : Num

-- 400, and the 500 of an exception that nothing catches.
pub data PostError : Type 0 where
  bad_request : PostError
  server_error : PostError

-- `float(...)` of a posted value: `none` is what it raises on, which the endpoint catches.
abbrev pub float_of : Option Num → Result PostError Num
float_of none = err bad_request
float_of (some x) = ok x

abbrev pub scaled : ℕ → Num → Num
scaled k (number x) = number (mul x (int k))
scaled k x = x

-- `int(...)`: a ValueError on no number, which is caught, and an OverflowError on infinity.
abbrev pub int_of : Num → Result PostError ℤ
int_of (number x) = ok (trunc x)
int_of nan = err bad_request
int_of infinite = err server_error

abbrev pub whole : ℕ → Option Num → Result PostError ℤ
whole k p = float_of p >>= λ x. int_of (scaled k x)

-- `lo <= v <= hi`, which no number and no infinity meets.
abbrev pub float_within : Frac → Frac → Num → Bool
float_within lo hi (number x) = leb_frac lo x && leb_frac x hi
float_within lo hi x = false

abbrev pub leb_ℤ : ℤ → ℤ → Bool
leb_ℤ a b = leb (pos_part a + neg_part b) (pos_part b + neg_part a)

abbrev pub within : ℤ → ℤ → ℤ → Bool
within lo hi z = leb_ℤ lo z && leb_ℤ z hi

abbrev pub require : Bool → Result PostError Bool
require true = ok true
require false = err bad_request

-- `to_bytes(w, 'big')` of a number below `256 ^ w`.
abbrev pub be : ℕ → ℕ → List ℕ
be zero n = []
be (suc w) n = be w (n / 256) ++ (n % 256 ∷ [])

-- The OverflowError of `to_bytes` on a negative number or one too large.
abbrev pub to_bytes : ℕ → ℤ → Result PostError (List ℕ)
to_bytes w (pos n) = if ltb n (256 ^ w) then ok (be w n) else err server_error
to_bytes w (negsuc n) = err server_error

abbrev pub twos : ℕ → ℤ → ℕ
twos m (pos n) = n
twos m (negsuc n) = m - n - 1

-- The same with `signed=True`, of a number in range.
abbrev pub to_bytes_signed : ℕ → ℤ → List ℕ
to_bytes_signed w z = be w (twos (256 ^ w) z)

-- A builder that fails raises.
abbrev pub built : Option (List ℕ) → Result PostError (List ℕ)
built none = err server_error
built (some frame) = ok frame

-- `crsf.make_battery`
unfoldable pub make_battery : ℤ → ℤ → ℕ → ℕ → Result PostError (List ℕ)
make_battery voltage_x10 current_x10 mah percent = do
  v ← to_bytes 2 voltage_x10
  a ← to_bytes 2 current_x10
  let p = v ++ (a ++ (mah / 65536 % 256 ∷ mah / 256 % 256 ∷ mah % 256 ∷ percent % 256 ∷ []))
  built (make_frame addr_flight_ctrl frame_battery_sensor p)

-- `crsf.make_flight_mode`, of ASCII text.
unfoldable pub make_flight_mode : List ℕ → Option (List ℕ)
make_flight_mode text = make_frame addr_flight_ctrl frame_flight_mode (text ++ (0 ∷ []))

pub record BatteryPost : Type 0 where
  pub voltage : Option Num
  pub current : Option Num
  pub mah : Option Num
  pub percent : Option Num

-- The frame that `tx_battery` builds.
unfoldable pub battery_frame : BatteryPost → Result PostError (List ℕ)
battery_frame p = do
  v ← float_of p.voltage
  a ← float_of p.current
  mah ← whole 1 p.mah
  pct ← whole 1 p.percent
  _ ← require (float_within (int 0) (int 60) v)
  _ ← require (float_within (neg (int 200)) (int 200) a)
  _ ← require (within (pos 0) (pos 0xFFFFFF) mah)
  _ ← require (within (pos 0) (pos 100) pct)
  v10 ← int_of (scaled 10 v)
  a10 ← int_of (scaled 10 a)
  make_battery v10 a10 (pos_part mah) (pos_part pct)

pub record GpsPost : Type 0 where
  pub lat : Option Num
  pub lon : Option Num
  pub speed : Option Num
  pub heading : Option Num
  pub alt : Option Num
  pub satellites : Option Num

abbrev pub add_ℕ : ℤ → ℕ → ℤ
add_ℕ (pos n) k = pos (n + k)
add_ℕ (negsuc n) k = if ltb n k then pos (k - n - 1) else negsuc (n - k)

-- The frame that `tx_gps` builds.
unfoldable pub gps_frame : GpsPost → Result PostError (List ℕ)
gps_frame p = do
  lat ← whole 10000000 p.lat
  lon ← whole 10000000 p.lon
  speed_x10 ← whole 10 p.speed
  head_x100 ← whole 100 p.heading
  alt ← whole 1 p.alt
  let alt_offset = add_ℕ alt 1000
  sats ← whole 1 p.satellites
  latitude ← float_of p.lat
  longitude ← float_of p.lon
  _ ← require (float_within (neg (int 90)) (int 90) latitude)
  _ ← require (float_within (neg (int 180)) (int 180) longitude)
  _ ← require (within (pos 0) (pos 0xFFFF) speed_x10)
  _ ← require (within (pos 0) (pos 0xFFFF) head_x100)
  _ ← require (within (pos 0) (pos 0xFFFF) alt_offset)
  _ ← require (within (pos 0) (pos 99) sats)
  built (
      make_frame addr_flight_ctrl frame_gps (
        to_bytes_signed 4 lat
        ++ (to_bytes_signed 4 lon
            ++ (be 2 (pos_part speed_x10)
                ++ (be 2 (pos_part head_x100)
                    ++ (be 2 (pos_part alt_offset) ++ (pos_part sats ∷ [])))))))

pub record AttitudePost : Type 0 where
  pub pitch : Option Num
  pub roll : Option Num
  pub yaw : Option Num

abbrev pub int16 : ℤ → Bool
int16 z = within (negsuc 32767) (pos 32767) z

abbrev pub attitude_payload : ℤ → ℤ → ℤ → List ℕ
attitude_payload pitch roll yaw =
    to_bytes_signed 2 pitch ++ (to_bytes_signed 2 roll ++ to_bytes_signed 2 yaw)

-- The frame that `tx_attitude` builds.
unfoldable pub attitude_frame : AttitudePost → Result PostError (List ℕ)
attitude_frame p = do
  pitch ← whole 10000 p.pitch
  roll ← whole 10000 p.roll
  yaw ← whole 10000 p.yaw
  _ ← require (int16 pitch)
  _ ← require (int16 roll)
  _ ← require (int16 yaw)
  built (make_frame addr_flight_ctrl frame_attitude (attitude_payload pitch roll yaw))

abbrev pub is_printable : List ℕ → Bool
is_printable [] = true
is_printable (c ∷ cs) = leb 0x20 c && ltb c 0x7F && is_printable cs

-- The frame that `tx_flight_mode` builds, of the text without the blanks around it.
unfoldable pub flight_mode_frame : List ℕ → Result PostError (List ℕ)
flight_mode_frame text = do
  _ ← require (not (length text == 0) && leb (length text) 32)
  _ ← require (is_printable text)
  built (make_flight_mode text)

-- How each of the endpoints goes on with its frame.
abbrev pub post_frame : Sender → ℕ → Result PostError (List ℕ) → Sender × Result PostError Reply
post_frame s now (err e) = (s, err e)
post_frame s now (ok frame) = let done = enqueue s frame now in (done.0, ok done.1)
