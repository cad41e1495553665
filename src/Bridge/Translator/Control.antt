-- ===== src/Bridge/Translator/Control.antt =====
-- modules/drone_bridge/translator.py: one round of the sender of stick commands.
use nova_robotics_drone_cont.Common.{
  ℕ, ◌+◌, ◌-◌, ◌*◌, min, max, Bool, true, Option, none, some, List, leb, ltb, if◌then◌else◌,
  get_elem?,
}
use nova_robotics_drone_cont.Common.Maybe.{◌>>=◌}
use nova_robotics_drone_cont.Common.Int.{ℤ, pos, sub_ℕ}
use nova_robotics_drone_cont.Bridge.Translator.{TranslatorState, arm_threshold}

-- An axis from -1.0 to 1.0 as its number of 1639ths: `(crsf - 992) / 819.5`.
unfoldable pub axis_pm1 : ℕ → ℤ
axis_pm1 crsf_val =
    if leb crsf_val 992
    then sub_ℕ 0 (min 1639 (2 * (992 - crsf_val)))
    else pos (min 1639 (2 * (crsf_val - 992)))

-- A throttle from 0.0 to 1.0 as its number of 1639ths.
unfoldable pub throttle_01 : ℕ → ℕ
throttle_01 crsf_val = max 0 (min 1639 (crsf_val - 172))

-- `/control/command`, its axes in 1639ths.
pub record Command : Type 0 where
  pub throttle : ℕ
  pub roll : ℤ
  pub pitch : ℤ
  pub yaw : ℤ

-- 300 ms
abbrev pub link_loss : ℕ
link_loss = 300_000

-- No frame yet, or one that is too old.
abbrev pub is_link_lost : Option ℕ → ℕ → Bool
is_link_lost none t0 = true
is_link_lost (some last_rc_ts) t0 = ltb link_loss (t0 - last_rc_ts)

abbrev pub skip_link_loss : TranslatorState → TranslatorState
skip_link_loss state = record state {
  commands_skipped_link_loss = state.commands_skipped_link_loss + 1;
}

abbrev pub skip_disarmed : TranslatorState → TranslatorState
skip_disarmed state = record state {
  commands_skipped_disarmed = state.commands_skipped_disarmed + 1;
}

-- The payload; `none` is an `IndexError`.
unfoldable pub command_of : List ℕ → Option Command
unfolding axis_pm1 throttle_01
command_of ch = do
  throttle ← get_elem? ch 0
  roll ← get_elem? ch 1
  pitch ← get_elem? ch 2
  yaw ← get_elem? ch 3
  some (record {
    throttle = throttle_01 throttle;
    roll = axis_pm1 roll;
    pitch = axis_pm1 pitch;
    yaw = axis_pm1 yaw;
  })

abbrev pub sent : TranslatorState → Bool → Command → TranslatorState × Option Command
sent state accepted command = (
  if accepted then record state { commands_sent = state.commands_sent + 1 } else state,
  some command,
)

abbrev pub send_command :
    TranslatorState → Bool → Option Command → Option (TranslatorState × Option Command)
send_command state accepted none = none
send_command state accepted (some command) = some (sent state accepted command)

abbrev pub send_if_armed :
    TranslatorState → Bool → Option ℕ → Option Command → Option (TranslatorState × Option Command)
send_if_armed state accepted none command = none
send_if_armed state accepted (some ch5) command =
    if ltb ch5 arm_threshold
    then some (skip_disarmed state, none)
    else send_command state accepted command

-- One round of `_control_sender_loop`; `accepted` says whether the post ends without a
-- `RequestError`. `none` is an `IndexError`, which would end the loop.
unfoldable pub send_control : TranslatorState → ℕ → Bool → Option (TranslatorState × Option Command)
unfolding command_of
send_control state t0 accepted =
    if is_link_lost state.last_rc_ts t0
    then some (skip_link_loss state, none)
    else send_if_armed state accepted (get_elem? state.channels_us 4)
        (command_of state.channels_crsf)
