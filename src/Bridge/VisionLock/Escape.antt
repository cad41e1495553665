-- ===== src/Bridge/VisionLock/Escape.antt =====
-- modules/drone_bridge/vision_lock.py: the ESCAPE prefix and its sub-opcodes.
use nova_robotics_drone_cont.Common.{ℕ, ◌+◌, ◌-◌, ◌≤◌, ◌≡◌, true, false, Option, some, arith, ◌==◌}
use nova_robotics_drone_cont.Bridge.VisionLock.Decode.{is_reserved, ops_code_escape}
use nova_robotics_drone_cont.Bridge.VisionLock.State.{VisionLockState, normal}
use nova_robotics_drone_cont.Bridge.VisionLock.Handler.{Clocks, on_code}

-- The state after ESCAPE and then a sub-opcode.
abbrev pub after_subop : VisionLockState → ℕ → Option ℕ → Clocks → Clocks → VisionLockState
after_subop vl code rc c c' = (on_code (on_code vl ops_code_escape rc c).0 code rc c').0

module _ (vl : VisionLockState) (code : ℕ) (rc : Option ℕ) (c c' : Clocks)
    (n : vl.escape_state ≡ normal) (new : (vl.prev_ops_code == ops_code_escape) ≡ false)
    (k : is_reserved code ≡ true) (h : c'.frame_now - c.frame_now ≤ 200_000) where
  -- From no pending ESCAPE, the code ESCAPE and then, within 200 ms, a code from 10 to 15: the code
  -- is recorded as a sub-opcode, once, and the previous code is again that before the ESCAPE.
  pub escape_then_subop :
      ((after_subop vl code rc c c').prev_ops_code ≡ vl.prev_ops_code)
      × ((after_subop vl code rc c c').escape_state ≡ normal)
      × ((after_subop vl code rc c c').events_sub_opcode ≡ vl.events_sub_opcode + 1)
      × ((after_subop vl code rc c c').events_escape ≡ vl.events_escape + 1)
      × ((after_subop vl code rc c c').last_subop_code ≡ some code)
      × ((after_subop vl code rc c c').rejections_reserved ≡ vl.rejections_reserved)
  unfolding on_code
  escape_then_subop = ground arith
