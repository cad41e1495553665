-- ===== src/Drone/VirtualTx/Order.antt =====
-- ros2/src/drone_control/drone_control/virtual_tx.py: the order of commands.
use nova_robotics_drone_cont.Common.{Bool, false, not, Option, none, some}
use nova_robotics_drone_cont.Common.Frac.{Frac, ltb_frac, min_frac}
use nova_robotics_drone_cont.Drone.VirtualTx.{ControlInput, VirtualTxNode}
use nova_robotics_drone_cont.Drone.VirtualTx.Node.{InputReply}
use nova_robotics_drone_cont.Drone.VirtualTx.Runs.{is_taken}

abbrev last : VirtualTxNode → Frac
last n = n.state.last_accepted_ts

abbrev overtaken : Frac → ControlInput → VirtualTxNode → Bool
overtaken now inp n = ltb_frac (min_frac inp.timestamp now) (last n)

abbrev is_refusal : Option InputReply → Bool
is_refusal none = false
is_refusal (some r) = not (is_taken r)

abbrev taken_of : VirtualTxNode × InputReply → Bool
taken_of r = is_taken r.1
