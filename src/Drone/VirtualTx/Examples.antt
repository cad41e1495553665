-- ===== src/Drone/VirtualTx/Examples.antt =====
-- ros2/src/drone_control/drone_control/virtual_tx.py: runs at the default configuration.
use nova_robotics_drone_cont.Common.{
  ◌≡◌, ◌≢◌, refl, true, false, List, [], ◌∷◌, none, some, arith, replicate,
}
use nova_robotics_drone_cont.Common.Int.{ℤ, pos}
use nova_robotics_drone_cont.Common.Frac.{Frac, int, over, add, mul, leb_frac}
use nova_robotics_drone_cont.Drone.VirtualTx.{Axis, ControlInput, ChannelState, VirtualTxNode, Mode}
use nova_robotics_drone_cont.Drone.VirtualTx.Shaping.{
  to_pwm_bidirectional, to_pwm_throttle, process_axis, apply_deadzone, apply_expo, apply_smoothing,
  apply_rate_limit,
}
use nova_robotics_drone_cont.Drone.VirtualTx.Node.{
  publish_loop, published, skipped, set_input, refusal, set_unless, accept, is_same, put_raw,
  at_rest, pwm_release, released, check_failsafe, move_sticks, process_channels, rc_channels,
  disable, out_of_order,
}
use nova_robotics_drone_cont.Drone.VirtualTx.Config.{
  default_config, update_config, deadzone, of_axis,
}
use nova_robotics_drone_cont.Drone.VirtualTx.Runs.{tick, step, run}
use nova_robotics_drone_cont.Drone.VirtualTx.Pwm.{InRange, publish_loop-InRange}
use nova_robotics_drone_cont.Drone.VirtualTx.Recentre.{failsafe_centres, ticks, Hovers, Home}
use nova_robotics_drone_cont.Drone.VirtualTx.Raises.{publish_loop_raises, is_raised, turn_raises}
use nova_robotics_drone_cont.Drone.VirtualTx.Silence.{disable_is_silent}

-- Seconds and hundredths of them.
abbrev at : Frac
at = over 1000 99

-- A transmitter enabled at 10 s.
abbrev started : VirtualTxNode
started = record {
  config = default_config;
  state = record {
    enabled = true;
    last_command_time = int 10;
    hold_until = int 0;
    last_accepted_ts = int 0;
    in_failsafe = false;
    centering = false;
    sticks = record { roll = at_rest; pitch = at_rest; yaw = at_rest; throttle = at_rest };
  };
  last_update_time = int 10;
}

-- Full roll to the right for a second, sent at 10 s.
abbrev roll_right : ControlInput
roll_right = record {
  timestamp = int 10;
  throttle = int 0;
  roll = int 1;
  pitch = int 0;
  yaw = int 0;
  duration = int 1;
}

abbrev rolling : VirtualTxNode
rolling = record started {
  state = record started.state {
    last_accepted_ts = int 10;
    hold_until = int 11;
    sticks = record started.state.sticks { roll = record at_rest { raw = int 1 } };
  };
}

-- In 20 ms the roll moves by 0.06, which is 30 of 500.
first_turn :
    (publish_loop (over 1002 99) Mode.loiter rolling).1
    ≡ published (pos 1530 ∷ pos 1500 ∷ pos 1100 ∷ pos 1500 ∷ replicate 14 pwm_release)
unfolding publish_loop check_failsafe move_sticks process_channels process_axis apply_deadzone
    apply_expo apply_smoothing apply_rate_limit rc_channels to_pwm_bidirectional to_pwm_throttle
    leb_frac
first_turn = refl

publish_loop-InRange_example :
    InRange 1100 2000 (pos 1530 ∷ pos 1500 ∷ pos 1100 ∷ pos 1500 ∷ replicate 14 pwm_release)
publish_loop-InRange_example =
    publish_loop-InRange (over 1002 99) Mode.loiter rolling 1100 2000
      (pos 1530 ∷ pos 1500 ∷ pos 1100 ∷ pos 1500 ∷ replicate 14 pwm_release) refl refl (omega arith)
      first_turn

-- Level, and sent a tenth of a second before.
abbrev level_late : ControlInput
level_late = record roll_right { timestamp = over 99 9; roll = int 0 }

level_late_refused :
    (set_input (over 103 9) level_late (set_input (int 10) roll_right started).0).1 ≡ out_of_order
unfolding set_input set_unless refusal accept is_same put_raw leb_frac
level_late_refused = refl

-- The hold is over at 11 s, and the roll stands at a tenth: three steps of 0.04.
abbrev held_on : VirtualTxNode
held_on = record rolling {
  state = record rolling.state {
    sticks = record rolling.state.sticks { roll = record at_rest { output = over 1 9 } };
  };
  last_update_time = int 11;
}

abbrev three_turns : List (Frac × Mode)
three_turns =
    (over 1102 99, Mode.loiter) ∷ (over 1104 99, Mode.loiter) ∷ (over 1106 99, Mode.loiter) ∷ []

held_on-Home : Home held_on.state.sticks 3 (over 4 99)
held_on-Home = record {
  roll = (omega arith, omega arith);
  pitch = (omega arith, omega arith);
  yaw = (omega arith, omega arith);
}

failsafe_centres_example :
    ((run (ticks three_turns) held_on).state.in_failsafe ≡ true)
    × ((channels : List ℤ) × ((publish_loop
            (over 1108 99)
            Mode.loiter
            (run (ticks three_turns) held_on)).1
          ≡ published channels)
        × Hovers channels)
unfolding run step publish_loop check_failsafe move_sticks leb_frac
failsafe_centres_example =
    failsafe_centres held_on (over 4 99) 3 (over 1102 99) Mode.loiter
      ((over 1104 99, Mode.loiter) ∷ (over 1106 99, Mode.loiter) ∷ []) (over 1108 99) Mode.loiter
      refl refl refl (omega arith) held_on-Home (omega arith, (omega arith, (omega arith, tt)))
      (omega arith) (omega arith)

-- A deadzone of one, which `update_config` takes.
abbrev numb : VirtualTxNode
numb = record rolling {
  config =
      (update_config ((some (of_axis Axis.roll deadzone), some (int 1)) ∷ []) default_config).0;
}

numb_raises : turn_raises (over 1002 99) numb ≡ true
unfolding update_config check_failsafe leb_frac
numb_raises = refl

publish_loop_raises_example :
    is_raised (publish_loop (over 1002 99) Mode.loiter numb).1 ≡ turn_raises (over 1002 99) numb
publish_loop_raises_example = publish_loop_raises (over 1002 99) Mode.loiter numb

disable_is_silent_example :
    ((disable rolling).1 ≡ some released)
    × ((publish_loop
          (over 1102 99)
          Mode.loiter
          (run (tick (over 1101 99) Mode.loiter ∷ []) (disable rolling).0)).1
        ≡ skipped)
    × (refusal
          (over 1102 99)
          roll_right
          (run (tick (over 1101 99) Mode.loiter ∷ []) (disable rolling).0)
        ≢ none)
disable_is_silent_example =
    disable_is_silent rolling (tick (over 1101 99) Mode.loiter ∷ []) (over 1102 99) Mode.loiter
      roll_right refl (refl, tt)

-- A full stick after 20 ms at 3 a second.
abbrev after_20_ms : ChannelState
after_20_ms =
    let v = add (int 0) (mul (int 3) (over 2 99)) in
    record { raw = int 1; smoothed = v; output = v }
