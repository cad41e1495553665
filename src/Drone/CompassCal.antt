-- ===== src/Drone/CompassCal.antt =====
-- ros2/src/drone_control/drone_control/compass_cal.py: the decoder of the compass calibration.
-- A float of the wire is the number of its 32 bits. Time is in microseconds. What the subscription
-- delivers is an argument.
pub mod Wire
pub mod Runs
mod Examples
use nova_robotics_drone_cont.Common.{
  ℕ, ◌+◌, Bool, true, false, not, ◌&&◌, ◌||◌, Option, none, some, List, [], ◌∷◌, ◌++◌, ltb, ◌==◌,
  if◌then◌else◌, length, take, drop, get_or,
}
use nova_robotics_drone_cont.Common.Bytes.{le, of_le}

-- `mavros_msgs/Mavlink`, as far as it is read.
pub record Mavlink : Type 0 where
  pub msgid : ℕ
  pub len : ℕ
  pub payload64 : List ℕ

abbrev pub msg_id_progress : ℕ
msg_id_progress = 191

abbrev pub msg_id_report : ℕ
msg_id_report = 192

-- `_CAL_STATUS_NAMES`, and the text of a number that has no name.
pub data StatusName : Type 0 where
  not_started waiting_to_start running_step_one running_step_two success failed bad_orientation
        bad_radius :
      StatusName
  numbered : ℕ → StatusName

unfoldable pub status_name : ℕ → StatusName
status_name n =
    if n == 0
    then not_started
    else if n == 1
    then waiting_to_start
    else if n == 2
    then running_step_one
    else if n == 3
    then running_step_two
    else if n == 4
    then success
    else if n == 5
    then failed
    else if n == 6
    then bad_orientation
    else if n == 7
    then bad_radius
    else numbered n

-- `_TERMINAL_STATUSES`
abbrev pub is_terminal : ℕ → Bool
is_terminal n = n == 4 || n == 5 || n == 6 || n == 7

pub record Progress : Type 0 where
  pub compass_id : ℕ
  pub cal_status : ℕ
  pub cal_status_name : StatusName
  pub completion_pct : ℕ
  pub attempt : ℕ
  pub direction : List ℕ

pub record Report : Type 0 where
  pub compass_id : ℕ
  pub cal_status : ℕ
  pub cal_status_name : StatusName
  pub autosaved : Bool
  pub fitness : ℕ
  pub offsets : List ℕ
  pub diag : List ℕ
  pub offdiag : List ℕ

abbrev pub joined_words : List ℕ → List ℕ
joined_words [] = []
joined_words (w ∷ ws) = le 8 w ++ joined_words ws

unfoldable pub payload_bytes : Mavlink → List ℕ
payload_bytes msg = take msg.len (joined_words msg.payload64)

-- `struct.unpack_from("<f", buf, i)`
abbrev pub float_at : List ℕ → ℕ → ℕ
float_at buf i = of_le (take 4 (drop i buf))

unfoldable pub decode_progress : List ℕ → Option Progress
decode_progress buf =
    if ltb (length buf) 17
    then none
    else some (record {
      compass_id = get_or buf 12 0;
      cal_status = get_or buf 14 0;
      cal_status_name = status_name (get_or buf 14 0);
      completion_pct = get_or buf 16 0;
      attempt = get_or buf 15 0;
      direction = float_at buf 0 ∷ float_at buf 4 ∷ float_at buf 8 ∷ [];
    })

unfoldable pub decode_report : List ℕ → Option Report
decode_report buf =
    if ltb (length buf) 44
    then none
    else some (record {
      compass_id = get_or buf 40 0;
      cal_status = get_or buf 42 0;
      cal_status_name = status_name (get_or buf 42 0);
      autosaved = not (get_or buf 43 0 == 0);
      fitness = float_at buf 0;
      offsets = float_at buf 4 ∷ float_at buf 8 ∷ float_at buf 12 ∷ [];
      diag = float_at buf 16 ∷ float_at buf 20 ∷ float_at buf 24 ∷ [];
      offdiag = float_at buf 28 ∷ float_at buf 32 ∷ float_at buf 36 ∷ [];
    })

-- `_state`
pub record Calibration : Type 0 where
  pub progress : Option Progress
  pub report : Option Report
  pub last_update_t : ℕ

abbrev pub put_progress : Option Progress → Calibration → ℕ → Calibration
put_progress none st now = st
put_progress (some p) st now = record st { progress = some p; last_update_t = now }

abbrev pub put_report : Option Report → Calibration → ℕ → Calibration
put_report none st now = st
put_report (some r) st now = record st { report = some r; last_update_t = now }

-- `_on_mavlink`
unfoldable pub on_mavlink : Calibration → Mavlink → ℕ → Calibration
on_mavlink st msg now =
    if not (msg.msgid == msg_id_progress) && not (msg.msgid == msg_id_report)
    then st
    else (let buf = payload_bytes msg in
        if msg.msgid == msg_id_progress
        then put_progress (decode_progress buf) st now
        else put_report (decode_report buf) st now)

abbrev pub reset : Calibration
reset = record { progress = none; report = none; last_update_t = 0 }

abbrev pub is_running : Option Progress → Bool
is_running none = false
is_running (some p) = not (is_terminal p.cal_status)

abbrev pub is_over : Option Report → Bool
is_over none = false
is_over (some r) = is_terminal r.cal_status

-- `get_state`
pub record View : Type 0 where
  pub active : Bool
  pub progress : Option Progress
  pub report : Option Report
  pub last_update_t : ℕ

unfoldable pub get_state : Calibration → View
get_state st = record {
  active = if is_over st.report then false else is_running st.progress;
  progress = st.progress;
  report = st.report;
  last_update_t = st.last_update_t;
}
