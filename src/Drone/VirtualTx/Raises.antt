-- ===== src/Drone/VirtualTx/Raises.antt =====
-- ros2/src/drone_control/drone_control/virtual_tx.py: when the loop raises.
use nova_robotics_drone_cont.Common.{
  suc, ◌+◌, ◌≡◌, refl, ap, ◌∙◌, Bool, true, false, not, ◌&&◌, ◌||◌, List, [], ◌∷◌, Option, none,
  some, ◌==◌, if◌then◌else◌, arith, Bool-cases, inl, inr,
}
use nova_robotics_drone_cont.Common.Int.{ℤ}
use nova_robotics_drone_cont.Common.Maybe.{◌>>=◌}
use nova_robotics_drone_cont.Common.Frac.{Frac, sub, mul, div, abs_frac, ltb_frac}
use nova_robotics_drone_cont.Drone.VirtualTx.{
  Axis, Sticks, stick, AxisConfig, ChannelState, VirtualTxConfig, VirtualTxNode, Mode, TxState,
}
use nova_robotics_drone_cont.Drone.VirtualTx.Shaping.{one, sign_of, apply_deadzone, process_axis}
use nova_robotics_drone_cont.Drone.VirtualTx.Node.{
  process_channels, all_axes, put_done, is_done, move_sticks, check_failsafe, auto_center,
  publish_loop, publish_if, raised, turn_of, Turn, rc_channels,
}

-- A deadzone of one, on a position that it does not take in.
abbrev pub is_stuck : AxisConfig → Frac → Bool
is_stuck cfg raw =
    not (ltb_frac (abs_frac raw) cfg.deadzone)
    && (cfg.deadzone.plus == cfg.deadzone.minus + suc cfg.deadzone.below)

abbrev is_some : Option Frac → Bool
is_some none = false
is_some (some v) = true

is_some-div : (a b : Frac) → is_some (div a b) ≡ not (b.plus == b.minus)
is_some-div a b = ground arith

dead_is_some :
    (cfg : AxisConfig) (raw : Frac)
    → is_some (apply_deadzone raw cfg.deadzone) ≡ not (is_stuck cfg raw)
unfolding apply_deadzone
dead_is_some cfg raw = elim (Bool-cases (ltb_frac (abs_frac raw) cfg.deadzone)) [
  | inl e ↦ rw e refl
  | inr e ↦ rw e (
      is_some-div (mul (sign_of raw) (sub (abs_frac raw) cfg.deadzone)) (sub one cfg.deadzone)
      ∙ ap not (same_test cfg.deadzone))
]
  where
    same_test :
        (d : Frac) → ((sub one d).plus == (sub one d).minus) ≡ (d.plus == d.minus + suc d.below)
    same_test d = ground arith

axis_is_done :
    (cfg : AxisConfig) (dt : Frac) (ch : ChannelState)
    → is_done (process_axis cfg dt ch) ≡ not (is_stuck cfg ch.raw)
unfolding process_axis
axis_is_done cfg dt ch = by_dead _ (apply_deadzone ch.raw cfg.deadzone) ∙ dead_is_some cfg ch.raw
  where
    by_dead :
        (f : Frac → ChannelState) (o : Option Frac)
        → is_done (o >>= λ dead. some (f dead)) ≡ is_some o
    by_dead f none = refl
    by_dead f (some dead) = refl

-- An axis keeps its position.
abbrev KeepsRaw : ChannelState → Option ChannelState → Type 0
KeepsRaw ch none = Unit
KeepsRaw ch (some ch') = ch'.raw ≡ ch.raw

axis-KeepsRaw :
    (cfg : AxisConfig) (dt : Frac) (ch : ChannelState) → KeepsRaw ch (process_axis cfg dt ch)
unfolding process_axis
axis-KeepsRaw cfg dt ch = by_dead _ (apply_deadzone ch.raw cfg.deadzone)
  where
    by_dead :
        (f : Frac → Frac) (o : Option Frac)
        → KeepsRaw ch (o >>= λ dead. some (record ch { smoothed = f dead; output = f dead }))
    by_dead f none = tt
    by_dead f (some dead) = refl

raw_kept :
    (s : Sticks ChannelState) (a b : Axis) (o : Option ChannelState)
    → KeepsRaw (stick s a) o
    → (stick (put_done s a o) b).raw ≡ (stick s b).raw
raw_kept s a b none h = refl
raw_kept s Axis.roll Axis.roll (some c) h = h
raw_kept s Axis.roll Axis.pitch (some c) h = refl
raw_kept s Axis.roll Axis.yaw (some c) h = refl
raw_kept s Axis.roll Axis.throttle (some c) h = refl
raw_kept s Axis.pitch Axis.roll (some c) h = refl
raw_kept s Axis.pitch Axis.pitch (some c) h = h
raw_kept s Axis.pitch Axis.yaw (some c) h = refl
raw_kept s Axis.pitch Axis.throttle (some c) h = refl
raw_kept s Axis.yaw Axis.roll (some c) h = refl
raw_kept s Axis.yaw Axis.pitch (some c) h = refl
raw_kept s Axis.yaw Axis.yaw (some c) h = h
raw_kept s Axis.yaw Axis.throttle (some c) h = refl
raw_kept s Axis.throttle Axis.roll (some c) h = refl
raw_kept s Axis.throttle Axis.pitch (some c) h = refl
raw_kept s Axis.throttle Axis.yaw (some c) h = refl
raw_kept s Axis.throttle Axis.throttle (some c) h = h

-- Whether an axis of the list is stuck at its position.
abbrev pub any_stuck : Sticks AxisConfig → Sticks ChannelState → List Axis → Bool
any_stuck cfg s [] = false
any_stuck cfg s (a ∷ others) = is_stuck (stick cfg a) (stick s a).raw || any_stuck cfg s others

any_stuck_kept :
    (cfg : Sticks AxisConfig) (s s' : Sticks ChannelState) (axes : List Axis)
    → ((b : Axis) → (stick s' b).raw ≡ (stick s b).raw)
    → any_stuck cfg s' axes ≡ any_stuck cfg s axes
any_stuck_kept cfg s s' [] h = refl
any_stuck_kept cfg s s' (a ∷ others) h = rw (h a, any_stuck_kept cfg s s' others h) refl

by_parts :
    (b d c : Bool) (x y : Sticks ChannelState × Bool)
    → d ≡ not b
    → x.1 ≡ not c
    → y.1 ≡ false
    → (if d then x else y).1 ≡ not (b || c)
by_parts true d c x y e h k = rw e k
by_parts false d c x y e h k = rw e h

process_channels_done :
    (cfg : VirtualTxConfig) (dt : Frac) (axes : List Axis) (s : Sticks ChannelState)
    → (process_channels cfg dt axes s).1 ≡ not (any_stuck cfg.axes s axes)
unfolding process_channels
process_channels_done cfg dt [] s = refl
process_channels_done cfg dt (a ∷ others) s =
    let ch = process_axis (stick cfg.axes a) dt (stick s a) in
    let s' = put_done s a ch in
    let same =
      any_stuck_kept cfg.axes s s' others
        (λ b. raw_kept s a b ch (axis-KeepsRaw (stick cfg.axes a) dt (stick s a))) in
    by_parts (is_stuck (stick cfg.axes a) (stick s a).raw) (is_done ch)
      (any_stuck cfg.axes s others) (process_channels cfg dt others s') (s, false)
      (axis_is_done (stick cfg.axes a) dt (stick s a))
      (process_channels_done cfg dt others s' ∙ ap not same) refl

-- Whether this turn raises.
abbrev pub turn_raises : Frac → VirtualTxNode → Bool
turn_raises now n =
    let s = check_failsafe now n.state in
    n.state.enabled && not s.centering && any_stuck n.config.axes s.sticks all_axes

abbrev pub is_raised : Turn → Bool
is_raised raised = true
is_raised _ = false

raised_of : (b : Bool) (channels : List ℤ) → is_raised (turn_of b channels) ≡ not b
raised_of true channels = refl
raised_of false channels = refl

not_twice : (b : Bool) → not (not b) ≡ b
not_twice true = refl
not_twice false = refl

moved_done :
    (cfg : VirtualTxConfig) (dt : Frac) (mode : Mode) (s : TxState)
    → (move_sticks cfg dt mode s).1 ≡ not (not s.centering && any_stuck cfg.axes s.sticks all_axes)
unfolding move_sticks
moved_done cfg dt mode s = by_flag s.centering
  where
    by_flag :
        (b : Bool)
        → (if b
            then (auto_center cfg dt mode s.sticks, true)
            else process_channels cfg dt all_axes s.sticks).1
          ≡ not (not b && any_stuck cfg.axes s.sticks all_axes)
    by_flag true = refl
    by_flag false = process_channels_done cfg dt all_axes s.sticks

-- A turn of the loop raises, which ends its thread, exactly if the transmitter is enabled and not
-- being centred, and on some axis the deadzone is one and the position is not below it.
pub publish_loop_raises :
    (now : Frac) (mode : Mode) (n : VirtualTxNode)
    → is_raised (publish_loop now mode n).1 ≡ turn_raises now n
unfolding publish_loop
publish_loop_raises now mode n = by_state n.state.enabled
  where
    s : TxState
    s = check_failsafe now n.state

    dt : Frac
    dt = sub now n.last_update_time

    moved : Sticks ChannelState × Bool
    moved = move_sticks n.config dt mode s

    by_state :
        (b : Bool)
        → is_raised (publish_if b now dt mode (record n { last_update_time = now })).1
          ≡ (b && not s.centering && any_stuck n.config.axes s.sticks all_axes)
    by_state true =
        raised_of moved.1 (rc_channels n.config moved.0)
        ∙ ap not (moved_done n.config dt mode s)
        ∙ not_twice (not s.centering && any_stuck n.config.axes s.sticks all_axes)
    by_state false = refl
