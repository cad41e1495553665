-- ===== src/Drone/VirtualTx/Silence.antt =====
-- ros2/src/drone_control/drone_control/virtual_tx.py: a transmitter that is switched off.
use nova_robotics_drone_cont.Common.{
  ◌≡◌, ◌≢◌, refl, Bool, true, false, List, [], ◌∷◌, Option, none, some, All, arith,
}
use nova_robotics_drone_cont.Common.Frac.{Frac}
use nova_robotics_drone_cont.Drone.VirtualTx.{ControlInput, VirtualTxNode, Mode}
use nova_robotics_drone_cont.Drone.VirtualTx.Node.{
  publish_loop, skipped, set_input, set_unless, refusal, disable, release_if, released, InputReply,
}
use nova_robotics_drone_cont.Drone.VirtualTx.Runs.{
  Event, tick, command, switch_on, switch_off, retune, step, run, is_switch_on,
}

abbrev IsOff : VirtualTxNode → Type 0
IsOff n = n.state.enabled ≡ false

tick-IsOff :
    (now : Frac) (mode : Mode) (n : VirtualTxNode)
    → IsOff n
    → IsOff (publish_loop now mode n).0 × ((publish_loop now mode n).1 ≡ skipped)
unfolding publish_loop
tick-IsOff now mode n h = simp h (refl, refl)

off_is_refused :
    (now : Frac) (inp : ControlInput) (n : VirtualTxNode) → IsOff n → refusal now inp n ≡ none → ⊥
unfolding refusal
off_is_refused now inp n h k = ground arith

command-IsOff :
    (now : Frac) (inp : ControlInput) (n : VirtualTxNode) → IsOff n → IsOff (set_input now inp n).0
unfolding set_input set_unless
command-IsOff now inp n h = by_refusal (refusal now inp n) (off_is_refused now inp n h)
  where
    by_refusal : (o : Option InputReply) → (o ≡ none → ⊥) → IsOff (set_unless o now inp n).0
    by_refusal none k = absurd (k refl)
    by_refusal (some r) k = h

release-IsOff : (b : Bool) (n : VirtualTxNode) → n.state.enabled ≡ b → IsOff (release_if b n).0
release-IsOff true n h = refl
release-IsOff false n h = h

step-IsOff : (e : Event) (n : VirtualTxNode) → is_switch_on e ≡ false → IsOff n → IsOff (step e n)
unfolding step disable
step-IsOff (tick now mode) n k h = (tick-IsOff now mode n h).0
step-IsOff (command now inp) n k h = command-IsOff now inp n h
step-IsOff (switch_on now) n k h = absurd (ground arith)
step-IsOff switch_off n k h = release-IsOff n.state.enabled n refl
step-IsOff (retune us) n k h = h

run-IsOff :
    (es : List Event) (n : VirtualTxNode)
    → All (λ e. is_switch_on e ≡ false) es
    → IsOff n
    → IsOff (run es n)
unfolding run
run-IsOff [] n k h = h
run-IsOff (e ∷ es) n k h = run-IsOff es (step e n) k.1 (step-IsOff e n k.0 h)

release_sent :
    (b : Bool) (n : VirtualTxNode)
    → n.state.enabled ≡ b
    → b ≡ true
    → (release_if b n).1 ≡ some released
release_sent true n h k = refl
release_sent false n h k = absurd (ground arith)

-- Switching off an enabled transmitter sends the release of all eighteen channels. After that,
-- whatever happens but switching on, no turn of the loop publishes, and every command is refused.
pub disable_is_silent :
    (n : VirtualTxNode) (es : List Event) (now : Frac) (mode : Mode) (inp : ControlInput)
    → n.state.enabled ≡ true
    → All (λ e. is_switch_on e ≡ false) es
    → ((disable n).1 ≡ some released)
      × ((publish_loop now mode (run es (disable n).0)).1 ≡ skipped)
      × (refusal now inp (run es (disable n).0) ≢ none)
unfolding disable
disable_is_silent n es now mode inp on k =
    let off =
      run-IsOff es (release_if n.state.enabled n).0 k (release-IsOff n.state.enabled n refl) in
    let m : VirtualTxNode = run es (release_if n.state.enabled n).0 in
    (
      release_sent n.state.enabled n refl on,
      (tick-IsOff now mode m off).1,
      off_is_refused now inp m off,
    )
