-- ===== src/Drone/VirtualTx/Node.antt =====
-- ros2/src/drone_control/drone_control/virtual_tx.py: the operations of the node.
use nova_robotics_drone_cont.Common.{
  Bool, true, false, ◌&&◌, not, Option, none, some, List, [], ◌∷◌, if◌then◌else◌, replicate,
}
use nova_robotics_drone_cont.Common.Int.{ℤ, pos}
use nova_robotics_drone_cont.Common.Frac.{
  Frac, over, int, neg, add, sub, mul, leb_frac, ltb_frac, min_frac, abs_frac,
}
use nova_robotics_drone_cont.Drone.VirtualTx.{
  Axis, Sticks, stick, put_stick, VirtualTxConfig, ControlInput, ChannelState, TxState,
  VirtualTxNode, Mode, holds_altitude,
}
use nova_robotics_drone_cont.Drone.VirtualTx.Shaping.{
  one, clamp, to_pwm_bidirectional, to_pwm_throttle, process_axis, move_toward,
}

abbrev pub pwm_release : ℤ
pwm_release = pos 65535

abbrev pub released : List ℤ
released = replicate 18 pwm_release

abbrev pub at_rest : ChannelState
at_rest = record { raw = int 0; smoothed = int 0; output = int 0 }

abbrev pub all_axes : List Axis
all_axes = Axis.roll ∷ Axis.pitch ∷ Axis.yaw ∷ Axis.throttle ∷ []

-- What a failed axis leaves: the axes before it are done, it and those after it are not.
abbrev pub put_done : Sticks ChannelState → Axis → Option ChannelState → Sticks ChannelState
put_done s a none = s
put_done s a (some ch) = put_stick s a ch

abbrev pub is_done : Option ChannelState → Bool
is_done none = false
is_done (some ch) = true

-- `_process_channels`; `false` when an axis raises.
unfoldable pub process_channels :
    VirtualTxConfig → Frac → List Axis → Sticks ChannelState → Sticks ChannelState × Bool
process_channels cfg dt [] s = (s, true)
process_channels cfg dt (a ∷ others) s =
    let ch = process_axis (stick cfg.axes a) dt (stick s a) in
    let rest = process_channels cfg dt others (put_done s a ch) in
    if is_done ch then rest else (s, false)

abbrev pub failsafe_throttle_stabilize : Frac
failsafe_throttle_stabilize = int 0

-- 0.44
abbrev pub failsafe_throttle_alt_hold : Frac
failsafe_throttle_alt_hold = over 11 24

abbrev pub throttle_target : Mode → Frac
throttle_target mode =
    if holds_altitude mode then failsafe_throttle_alt_hold else failsafe_throttle_stabilize

-- `_auto_center`
unfoldable pub auto_center :
    VirtualTxConfig → Frac → Mode → Sticks ChannelState → Sticks ChannelState
auto_center cfg dt mode s =
    let rate = mul cfg.center_rate dt in
    record {
      roll = record s.roll { output = move_toward s.roll.output (int 0) rate };
      pitch = record s.pitch { output = move_toward s.pitch.output (int 0) rate };
      yaw = record s.yaw { output = move_toward s.yaw.output (int 0) rate };
      throttle = record s.throttle {
        output = move_toward s.throttle.output (throttle_target mode) rate;
      };
    }

-- The message of the loop: roll, pitch, throttle and yaw, and the other channels released.
unfoldable pub rc_channels : VirtualTxConfig → Sticks ChannelState → List ℤ
rc_channels cfg s =
    to_pwm_bidirectional s.roll.output
    ∷ to_pwm_bidirectional s.pitch.output
    ∷ to_pwm_throttle s.throttle.output cfg.throttle_pwm_idle cfg.throttle_pwm_max
    ∷ to_pwm_bidirectional s.yaw.output
    ∷ replicate 14 pwm_release

-- What one turn of the loop does outside the node: nothing while disabled, one message, or an
-- exception, which ends the thread.
pub data Turn : Type 0 where
  skipped : Turn
  published : List ℤ → Turn
  raised : Turn

abbrev pub is_expired : TxState → Frac → Bool
is_expired s now = ltb_frac (int 0) s.hold_until && ltb_frac s.hold_until now

-- The failsafe check at the head of the loop.
unfoldable pub check_failsafe : Frac → TxState → TxState
check_failsafe now s =
    if is_expired s now && not s.in_failsafe
    then record s { in_failsafe = true; centering = true }
    else s

unfoldable pub move_sticks : VirtualTxConfig → Frac → Mode → TxState → Sticks ChannelState × Bool
move_sticks cfg dt mode s =
    if s.centering
    then (auto_center cfg dt mode s.sticks, true)
    else process_channels cfg dt all_axes s.sticks

abbrev pub turn_of : Bool → List ℤ → Turn
turn_of true channels = published channels
turn_of false channels = raised

-- The node and the message after the sticks have moved.
abbrev pub send_sticks : TxState → VirtualTxNode → Sticks ChannelState × Bool → VirtualTxNode × Turn
send_sticks s n moved = (
  record n { state = record s { sticks = moved.0 } },
  turn_of moved.1 (rc_channels n.config moved.0),
)

-- The loop behind its test of `enabled`, with `dt` taken before `_last_update_time` is set.
abbrev pub publish_if : Bool → Frac → Frac → Mode → VirtualTxNode → VirtualTxNode × Turn
publish_if false now dt mode n = (n, skipped)
publish_if true now dt mode n =
    let s = check_failsafe now n.state in send_sticks s n (move_sticks n.config dt mode s)

-- `_publish_loop`
unfoldable pub publish_loop : Frac → Mode → VirtualTxNode → VirtualTxNode × Turn
publish_loop now mode n =
    publish_if n.state.enabled now (sub now n.last_update_time) mode
      (record n { last_update_time = now })

-- The answers of `set_input`.
pub data InputReply : Type 0 where
  too_old : InputReply
  from_future : InputReply
  invalid_duration : InputReply
  not_enabled : InputReply
  out_of_order : InputReply
  hold : InputReply
  accepted : InputReply

abbrev pub is_near : Frac → Frac → Bool
is_near a b = ltb_frac (abs_frac (sub a b)) (over 1 49)

abbrev pub targets : ControlInput → Sticks Frac
targets inp = record {
  roll = clamp (neg one) one inp.roll;
  pitch = clamp (neg one) one inp.pitch;
  yaw = clamp (neg one) one inp.yaw;
  throttle = clamp (int 0) one inp.throttle;
}

unfoldable pub is_same : Sticks Frac → Sticks ChannelState → Bool
is_same t s =
    is_near t.roll s.roll.raw
    && is_near t.pitch s.pitch.raw
    && is_near t.yaw s.yaw.raw
    && is_near t.throttle s.throttle.raw

unfoldable pub put_raw : Sticks Frac → Sticks ChannelState → Sticks ChannelState
put_raw t s = record {
  roll = record s.roll { raw = t.roll };
  pitch = record s.pitch { raw = t.pitch };
  yaw = record s.yaw { raw = t.yaw };
  throttle = record s.throttle { raw = t.throttle };
}

-- The part of `set_input` that accepts a command.
unfoldable pub accept : Frac → ControlInput → TxState → TxState
accept now inp s = record s {
  sticks = if is_same (targets inp) s.sticks then s.sticks else put_raw (targets inp) s.sticks;
  last_command_time = now;
  last_accepted_ts = min_frac inp.timestamp now;
  hold_until = add now inp.duration;
  in_failsafe = false;
  centering = false;
}

-- The early returns of `set_input`, in their order.
unfoldable pub refusal : Frac → ControlInput → VirtualTxNode → Option InputReply
refusal now inp n =
    let age = sub now inp.timestamp in
    if ltb_frac n.config.command_timeout age
    then some too_old
    else (if ltb_frac age (neg one)
        then some from_future
        else (if leb_frac inp.duration (int 0)
            then some invalid_duration
            else (if not n.state.enabled
                then some not_enabled
                else (if ltb_frac (min_frac inp.timestamp now) n.state.last_accepted_ts
                    then some out_of_order
                    else none))))

unfoldable pub set_unless :
    Option InputReply → Frac → ControlInput → VirtualTxNode → VirtualTxNode × InputReply
set_unless (some reply) now inp n = (n, reply)
set_unless none now inp n = (
  record n { state = accept now inp n.state },
  if is_same (targets inp) n.state.sticks then hold else accepted,
)

unfoldable pub set_input : Frac → ControlInput → VirtualTxNode → VirtualTxNode × InputReply
set_input now inp n = set_unless (refusal now inp n) now inp n

-- The state that `enable` leaves on a disabled transmitter.
unfoldable pub fresh : Frac → TxState
fresh now = record {
  enabled = true;
  last_command_time = now;
  hold_until = int 0;
  last_accepted_ts = int 0;
  in_failsafe = false;
  centering = false;
  sticks = record { roll = at_rest; pitch = at_rest; yaw = at_rest; throttle = at_rest };
}

unfoldable pub enable : Frac → VirtualTxNode → VirtualTxNode
enable now n = if n.state.enabled then n else record n { state = fresh now }

-- The node and the message that releases all channels, if one is sent.
abbrev pub release_if : Bool → VirtualTxNode → VirtualTxNode × Option (List ℤ)
release_if false n = (n, none)
release_if true n = (record n { state = record n.state { enabled = false } }, some released)

unfoldable pub disable : VirtualTxNode → VirtualTxNode × Option (List ℤ)
disable n = release_if n.state.enabled n
