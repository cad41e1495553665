-- ===== src/Bridge/Translator/Examples.antt =====
-- modules/drone_bridge/translator.py: runs of the edge handler, the reader and the sender.
use nova_robotics_drone_cont.Common.{
  ℕ, ◌+◌, ◌≡◌, refl, true, false, Option, some, List, [], ◌∷◌, replicate,
}
use nova_robotics_drone_cont.Common.Int.{pos, negsuc}
use nova_robotics_drone_cont.Bridge.VisionLock.Handler.{Clocks}
use nova_robotics_drone_cont.Bridge.Translator.{
  TranslatorState, new_state, post_mode, control_arm, control_disarm, loiter, mode_index_from_us,
}
use nova_robotics_drone_cont.Bridge.Translator.Receive.{Message, receive}
use nova_robotics_drone_cont.Bridge.Translator.Control.{Command, send_control}
use nova_robotics_drone_cont.Bridge.Translator.Edges.{between_all}
use nova_robotics_drone_cont.Bridge.Translator.Session.{started, message, sender_goes_on}
use nova_robotics_drone_cont.Bridge.Translator.Sender.{Cleared, InRange, send_needs_link}

-- Twelve channels with the given arm switch, force switch and mode switch.
abbrev frame : ℕ → ℕ → ℕ → List ℕ
frame arm force mode =
    1500 ∷ 1500 ∷ 1500 ∷ 1500 ∷ arm ∷ force ∷ mode ∷ 988 ∷ 988 ∷ 988 ∷ 988 ∷ 988 ∷ []

abbrev flight : List (List ℕ)
flight = frame 2000 1507 988 ∷ frame 988 1507 988 ∷ frame 2000 1507 1174 ∷ []

flight_posts : between_all flight ≡ control_disarm ∷ control_arm ∷ post_mode loiter ∷ []
unfolding between_all mode_index_from_us
flight_posts = refl

abbrev clocks : Clocks
clocks = record { fsm_now = 7000; frame_now = 7000; engage_now = 7000 }

abbrev first_message : Message
first_message = record { channels_crsf = replicate 16 992; channels_us = replicate 16 1500 }

sender_goes_on_example :
    (r : TranslatorState × Option Command) × (send_control
        (receive new_state first_message 7000 clocks).state
        20_000
        false
      ≡ some r)
sender_goes_on_example =
    sender_goes_on (receive new_state first_message 7000 clocks).state 20_000 false
      (message started first_message 7000 clocks refl)

abbrev flying : TranslatorState
flying = record new_state {
  channels_crsf = 1000 ∷ 992 ∷ 172 ∷ 1811 ∷ [];
  channels_us = frame 2000 988 988;
  last_rc_ts = some 7000;
}

abbrev command : Command
command = record { throttle = 828; roll = pos 0; pitch = negsuc 1638; yaw = pos 1638 }

send_needs_link_example : Cleared flying 20_000 × InRange command
unfolding send_control
send_needs_link_example =
    send_needs_link flying (record flying { commands_sent = flying.commands_sent + 1 }) 20_000 true
      command refl
