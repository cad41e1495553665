-- ===== src/Drone/VirtualTx/Pwm.antt =====
-- ros2/src/drone_control/drone_control/virtual_tx.py: what the loop publishes is in range.
use nova_robotics_drone_cont.Common.{
  ℕ, suc, ◌+◌, ◌-◌, ◌≤◌, ◌≡◌, ◌≢◌, refl, subst, ap, Bool, true, false, List, [], ◌∷◌, replicate,
  arith, Bool-cases, inl, inr,
}
use nova_robotics_drone_cont.Common.Int.{ℤ, pos}
use nova_robotics_drone_cont.Common.Frac.{
  Frac, int, neg, add, sub, mul, leb_frac, ◌≤F◌, trunc, mul_le, false_ge,
}
use nova_robotics_drone_cont.Drone.VirtualTx.{
  Sticks, VirtualTxConfig, ChannelState, VirtualTxNode, Mode,
}
use nova_robotics_drone_cont.Drone.VirtualTx.Shaping.{
  one, clamp, pwm_center, to_pwm_bidirectional, to_pwm_throttle,
}
use nova_robotics_drone_cont.Drone.VirtualTx.Node.{
  Turn, skipped, published, raised, turn_of, publish_if, publish_loop, rc_channels, pwm_release,
  move_sticks, check_failsafe,
}
use nova_robotics_drone_cont.Common.Trunc.{Between, trunc-Between}

clamp_between :
    (lo hi value : Frac) → lo ≤F hi → (lo ≤F clamp lo hi value) × (clamp lo hi value ≤F hi)
clamp_between lo hi value h = elim (Bool-cases (leb_frac hi value)) [
  | inl e ↦ elim (Bool-cases (leb_frac hi lo)) [
    | inl g ↦ rw (e, g) (omega arith, h)
    | inr g ↦ rw (e, g) (omega arith, omega arith)
  ]
  | inr e ↦ elim (Bool-cases (leb_frac value lo)) [
    | inl g ↦ rw (e, g) (omega arith, h)
    | inr g ↦ rw (e, g) (false_ge value lo g, false_ge hi value e)
  ]
]

bidirectional-Between : (value : Frac) → Between (pos 1000) (pos 2000) (to_pwm_bidirectional value)
unfolding to_pwm_bidirectional
bidirectional-Between value =
    let c = clamp_between (neg one) one value (omega arith) in
    scaled (clamp (neg one) one value) c.0 c.1
  where
    scaled :
        (c : Frac)
        → neg one ≤F c
        → c ≤F one
        → Between (pos 1000) (pos 2000) (trunc (add pwm_center (mul c (int 500))))
    scaled c h k =
        trunc-Between 1000 2000 (add pwm_center (mul c (int 500))) (omega arith) (omega arith)

throttle_scaled :
    (i k : ℕ) (c : Frac)
    → int 0 ≤F c
    → c ≤F one
    → Between (pos i) (pos (i + k)) (trunc (add (int i) (mul c (sub (int (i + k)) (int i)))))
throttle_scaled i k c h l =
    let span = mul_le c.plus (suc c.below + c.minus) k (omega arith) in
    let floor = mul_le c.minus c.plus k (omega arith) in
    trunc-Between i (i + k) (add (int i) (mul c (sub (int (i + k)) (int i)))) (omega arith)
      (omega arith)

throttle-Between :
    (i x : ℕ) (value : Frac)
    → i ≤ x
    → Between (pos i) (pos x) (to_pwm_throttle value (int i) (int x))
unfolding to_pwm_throttle
throttle-Between i x value h =
    let c = clamp_between (int 0) one value (omega arith) in
    subst (λ y. Between (pos i) (pos y) (to_pwm_throttle value (int i) (int y))) (omega arith)
      (throttle_scaled i (x - i) (clamp (int 0) one value) c.0 c.1)

-- The channels of a message: three in the full range, the throttle between `idle` and `top`, and
-- the others released.
pub record InRange (idle top : ℕ) (channels : List ℤ) : Type 0 where
  pub roll : ℤ
  pub pitch : ℤ
  pub throttle : ℤ
  pub yaw : ℤ
  pub all : channels ≡ roll ∷ pitch ∷ throttle ∷ yaw ∷ replicate 14 pwm_release
  pub roll_ok : Between (pos 1000) (pos 2000) roll
  pub pitch_ok : Between (pos 1000) (pos 2000) pitch
  pub throttle_ok : Between (pos idle) (pos top) throttle
  pub yaw_ok : Between (pos 1000) (pos 2000) yaw

channels-InRange :
    (cfg : VirtualTxConfig) (i x : ℕ) (s : Sticks ChannelState)
    → cfg.throttle_pwm_idle ≡ int i
    → cfg.throttle_pwm_max ≡ int x
    → i ≤ x
    → InRange i x (rc_channels cfg s)
unfolding rc_channels
channels-InRange cfg i x s e g h = record {
  roll = to_pwm_bidirectional s.roll.output;
  pitch = to_pwm_bidirectional s.pitch.output;
  throttle = to_pwm_throttle s.throttle.output cfg.throttle_pwm_idle cfg.throttle_pwm_max;
  yaw = to_pwm_bidirectional s.yaw.output;
  all = refl;
  roll_ok = bidirectional-Between s.roll.output;
  pitch_ok = bidirectional-Between s.pitch.output;
  throttle_ok = rw (e, g) (throttle-Between i x s.throttle.output h);
  yaw_ok = bidirectional-Between s.yaw.output;
}

abbrev message_of : Turn → List ℤ
message_of (published channels) = channels
message_of _ = []

not_raised : {channels : List ℤ} → raised ≢ published channels
not_raised = λ h. cc

not_skipped : {channels : List ℤ} → skipped ≢ published channels
not_skipped = λ h. cc

-- In any state of the transmitter, at any time and in any mode: what a turn of the loop publishes
-- has roll, pitch and yaw between 1000 and 2000, the throttle between the configured idle and
-- maximum, where these are whole numbers in order, and the other fourteen channels released.
pub publish_loop-InRange :
    (now : Frac) (mode : Mode) (n : VirtualTxNode) (i x : ℕ) (channels : List ℤ)
    → n.config.throttle_pwm_idle ≡ int i
    → n.config.throttle_pwm_max ≡ int x
    → i ≤ x
    → (publish_loop now mode n).1 ≡ published channels
    → InRange i x channels
unfolding publish_loop
publish_loop-InRange now mode n i x channels e g h out = by_state n.state.enabled out
  where
    n' : VirtualTxNode
    n' = record n { last_update_time = now }

    moved : Sticks ChannelState × Bool
    moved = move_sticks n.config (sub now n.last_update_time) mode (check_failsafe now n.state)

    by_turn :
        (b : Bool)
        → turn_of b (rc_channels n.config moved.0) ≡ published channels
        → InRange i x channels
    by_turn true o =
        subst (InRange i x) (ap message_of o) (channels-InRange n.config i x moved.0 e g h)
    by_turn false o = absurd (not_raised o)

    by_state :
        (b : Bool)
        → (publish_if b now (sub now n.last_update_time) mode n').1 ≡ published channels
        → InRange i x channels
    by_state true o = by_turn moved.1 o
    by_state false o = absurd (not_skipped o)
