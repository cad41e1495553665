-- ===== src/Drone/VirtualTx/Service.antt =====
-- ros2/src/drone_control/drone_control/virtual_tx.py: the functions of the module.
use nova_robotics_drone_cont.Common.{
  Bool, true, false, not, Option, none, some, List, if◌then◌else◌,
}
use nova_robotics_drone_cont.Common.Int.{ℤ}
use nova_robotics_drone_cont.Common.Frac.{Frac}
use nova_robotics_drone_cont.Drone.VirtualTx.{ControlInput, VirtualTxNode}
use nova_robotics_drone_cont.Drone.VirtualTx.Node.{disable, set_input, InputReply}

-- The globals: `_config` and `_state` are in `node` whether or not there is a node, which shares
-- them; `_node` is set while `started`.
pub record VirtualTxModule : Type 0 where
  pub node : VirtualTxNode
  pub started : Bool
  pub running : Bool

unfoldable pub start : Frac → VirtualTxModule → VirtualTxModule
start now m = if m.running then m else record m {
  node = record m.node { last_update_time = now };
  started = true;
  running = true;
}

-- With the message of `disable`, if it sends one.
unfoldable pub stop : VirtualTxModule → VirtualTxModule × Option (List ℤ)
stop m =
    let off = disable m.node in
    if m.started
    then (record { node = off.0; started = false; running = false }, off.1)
    else (record m { running = false }, none)

-- `none` is the answer that nothing is started.
unfoldable pub send_command :
    Frac → ControlInput → VirtualTxModule → VirtualTxModule × Option InputReply
send_command now inp m =
    let done = set_input now inp m.node in
    if not m.started then (m, none) else (record m { node = done.0 }, some done.1)
