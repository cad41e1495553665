-- ===== src/Drone/VirtualTx/Runs.antt =====
-- ros2/src/drone_control/drone_control/virtual_tx.py: runs of the node, one locked call at a time.
use nova_robotics_drone_cont.Common.{Bool, true, false, List, [], ◌∷◌}
use nova_robotics_drone_cont.Common.Frac.{Frac}
use nova_robotics_drone_cont.Drone.VirtualTx.{ControlInput, VirtualTxNode, Mode}
use nova_robotics_drone_cont.Drone.VirtualTx.Node.{
  publish_loop, set_input, enable, disable, InputReply, hold, accepted,
}
use nova_robotics_drone_cont.Drone.VirtualTx.Config.{Update, update_config}

pub data Event : Type 0 where
  tick : (now : Frac) → Mode → Event
  command : (now : Frac) → ControlInput → Event
  switch_on : (now : Frac) → Event
  switch_off : Event
  retune : List Update → Event

unfoldable pub step : Event → VirtualTxNode → VirtualTxNode
step (tick now mode) n = (publish_loop now mode n).0
step (command now inp) n = (set_input now inp n).0
step (switch_on now) n = enable now n
step switch_off n = (disable n).0
step (retune us) n = record n { config = (update_config us n.config).0 }

unfoldable pub run : List Event → VirtualTxNode → VirtualTxNode
run [] n = n
run (e ∷ es) n = run es (step e n)

abbrev pub is_switch_on : Event → Bool
is_switch_on (switch_on now) = true
is_switch_on _ = false

abbrev pub is_taken : InputReply → Bool
is_taken hold = true
is_taken accepted = true
is_taken _ = false
