-- ===== src/Drone/VirtualTx/Failsafe.antt =====
-- ros2/src/drone_control/drone_control/virtual_tx.py: the failsafe when the hold of a command ends.
use nova_robotics_drone_cont.Common.{
  ◌≡◌, ◌⊎◌, refl, sym, ◌∙◌, Bool, true, false, not, ◌&&◌, List, [], ◌∷◌, arith, Bool-cases, inl,
  inr, Option, none, some,
}
use nova_robotics_drone_cont.Common.Frac.{Frac, sub}
use nova_robotics_drone_cont.Drone.VirtualTx.{
  VirtualTxConfig, ControlInput, TxState, VirtualTxNode, Mode,
}
use nova_robotics_drone_cont.Drone.VirtualTx.Node.{
  published, publish_if, publish_loop, rc_channels, check_failsafe, move_sticks, auto_center,
  is_expired, set_input, set_unless, refusal, accept, InputReply, enable, fresh, release_if,
  disable,
}
use nova_robotics_drone_cont.Drone.VirtualTx.Runs.{
  Event, tick, command, switch_on, switch_off, retune, step, run,
}

abbrev pub FlagsAgree : TxState → Type 0
FlagsAgree s = s.in_failsafe ≡ s.centering

check-FlagsAgree : (now : Frac) (s : TxState) → FlagsAgree s → FlagsAgree (check_failsafe now s)
unfolding check_failsafe
check-FlagsAgree now s h = elim (Bool-cases (is_expired s now && not s.in_failsafe)) [
  | inl e ↦ rw e refl
  | inr e ↦ rw e h
]

-- The failsafe is on, and the sticks are on their way to the centre.
pub record Falling (s : TxState) : Type 0 where
  pub enabled : s.enabled ≡ true
  pub in_failsafe : s.in_failsafe ≡ true
  pub centering : s.centering ≡ true

-- What the check of the failsafe leaves alone.
pub record Kept (s s' : TxState) : Type 0 where
  pub enabled : s'.enabled ≡ s.enabled
  pub sticks : s'.sticks ≡ s.sticks

pub check-Kept : (now : Frac) (s : TxState) → Kept s (check_failsafe now s)
unfolding check_failsafe
check-Kept now s = elim (Bool-cases (is_expired s now && not s.in_failsafe)) [
  | inl e ↦ rw e (record { enabled = refl; sticks = refl })
  | inr e ↦ rw e (record { enabled = refl; sticks = refl })
]

-- An expired hold starts the failsafe, and the failsafe stays.
pub check-Falling :
    (now : Frac) (s : TxState)
    → s.enabled ≡ true
    → FlagsAgree s
    → (is_expired s now ≡ true) ⊎ (s.in_failsafe ≡ true)
    → Falling (check_failsafe now s)
unfolding check_failsafe
check-Falling now s on h k = elim (Bool-cases (is_expired s now && not s.in_failsafe)) [
  | inl e ↦ rw e (record { enabled = on; in_failsafe = refl; centering = refl })
  | inr e ↦
      let f : s.in_failsafe ≡ true = ground arith in
      rw e (record { enabled = on; in_failsafe = f; centering = sym h ∙ f })
]

move_falling :
    (cfg : VirtualTxConfig) (dt : Frac) (mode : Mode) (s : TxState)
    → s.centering ≡ true
    → move_sticks cfg dt mode s ≡ (auto_center cfg dt mode s.sticks, true)
unfolding move_sticks
move_falling cfg dt mode s h = rw h refl

-- The node after a turn in which the failsafe is on.
abbrev pub centred_node : Frac → Mode → VirtualTxNode → VirtualTxNode
centred_node now mode n =
    let s = check_failsafe now n.state in
    record n {
      last_update_time = now;
      state = record s { sticks = auto_center n.config (sub now n.last_update_time) mode s.sticks };
    }

pub tick-Falling :
    (now : Frac) (mode : Mode) (n : VirtualTxNode)
    → n.state.enabled ≡ true
    → Falling (check_failsafe now n.state)
    → publish_loop now mode n ≡ (
      centred_node now mode n,
      published (rc_channels n.config (centred_node now mode n).state.sticks),
    )
unfolding publish_loop
tick-Falling now mode n on f = by_state n.state.enabled on
  where
    s : TxState
    s = check_failsafe now n.state

    dt : Frac
    dt = sub now n.last_update_time

    by_state :
        (b : Bool)
        → b ≡ true
        → publish_if b now dt mode (record n { last_update_time = now }) ≡ (
          centred_node now mode n,
          published (rc_channels n.config (centred_node now mode n).state.sticks),
        )
    by_state true e = rw (move_falling n.config dt mode s f.centering) refl
    by_state false e = absurd (ground arith)

set_unless-FlagsAgree :
    (o : Option InputReply) (now : Frac) (inp : ControlInput) (n : VirtualTxNode)
    → FlagsAgree n.state
    → FlagsAgree (set_unless o now inp n).0.state
unfolding set_unless accept
set_unless-FlagsAgree none now inp n h = refl
set_unless-FlagsAgree (some r) now inp n h = h

publish_if-FlagsAgree :
    (b : Bool) (now dt : Frac) (mode : Mode) (n : VirtualTxNode)
    → FlagsAgree n.state
    → FlagsAgree (publish_if b now dt mode n).0.state
publish_if-FlagsAgree true now dt mode n h = check-FlagsAgree now n.state h
publish_if-FlagsAgree false now dt mode n h = h

enable-FlagsAgree :
    (now : Frac) (n : VirtualTxNode) → FlagsAgree n.state → FlagsAgree (enable now n).state
unfolding enable fresh
enable-FlagsAgree now n h = elim (Bool-cases n.state.enabled) [
  | inl e ↦ simp e h
  | inr e ↦ simp e refl
]

release-FlagsAgree :
    (b : Bool) (n : VirtualTxNode) → FlagsAgree n.state → FlagsAgree (release_if b n).0.state
release-FlagsAgree true n h = h
release-FlagsAgree false n h = h

step-FlagsAgree : (e : Event) (n : VirtualTxNode) → FlagsAgree n.state → FlagsAgree (step e n).state
unfolding step publish_loop set_input disable
step-FlagsAgree (tick now mode) n h =
    publish_if-FlagsAgree n.state.enabled now (sub now n.last_update_time) mode
      (record n { last_update_time = now }) h
step-FlagsAgree (command now inp) n h = set_unless-FlagsAgree (refusal now inp n) now inp n h
step-FlagsAgree (switch_on now) n h = enable-FlagsAgree now n h
step-FlagsAgree switch_off n h = release-FlagsAgree n.state.enabled n h
step-FlagsAgree (retune us) n h = h

-- Whatever happens, a transmitter whose marks of the failsafe and of centring agree keeps them so:
-- the sticks are centred exactly while the failsafe is on.
run-FlagsAgree :
    (es : List Event) (n : VirtualTxNode) → FlagsAgree n.state → FlagsAgree (run es n).state
unfolding run
run-FlagsAgree [] n h = h
run-FlagsAgree (e ∷ es) n h = run-FlagsAgree es (step e n) (step-FlagsAgree e n h)
