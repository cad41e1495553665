-- ===== src/Bridge/VisionLock/Rearm.antt =====
-- modules/drone_bridge/vision_lock.py: the phase DISPATCHED, and when an engage is possible again.
use nova_robotics_drone_cont.Common.{ℕ, ◌≡◌, true, Option, some, arith}
use nova_robotics_drone_cont.Bridge.VisionLock.Decode.{NormBox}
use nova_robotics_drone_cont.Bridge.VisionLock.State.{
  VisionLockState, dispatched, advance_selection_fsm, is_candidate,
}
use nova_robotics_drone_cont.Bridge.VisionLock.Handler.{Clocks, on_code}
use nova_robotics_drone_cont.Bridge.VisionLock.Dispatch.{Engages}

-- After an engage is committed the phase is DISPATCHED with no frame of debounce left. A frame that
-- selects the same box again changes nothing of the selection, so the phase stays DISPATCHED.
dispatched_is_kept :
    (vl : VisionLockState) (b : NormBox) (now : ℕ)
    → vl.phase ≡ dispatched
    → vl.debounce_frames_remaining ≡ 0
    → is_candidate vl.candidate_box b ≡ true
    → advance_selection_fsm vl (some b) now ≡ vl
unfolding advance_selection_fsm
dispatched_is_kept vl b now p z s = ground arith

-- While the phase is DISPATCHED and no frame of debounce is left, a frame that selects the candidate
-- box again starts no engage of any box, whatever its code and the clock.
dispatched_blocks_engage :
    (vl : VisionLockState) (b : NormBox) (code : ℕ) (rc : Option ℕ) (c : Clocks)
    → vl.phase ≡ dispatched
    → vl.debounce_frames_remaining ≡ 0
    → is_candidate vl.candidate_box b ≡ true
    → (x : NormBox) → Engages x (on_code (advance_selection_fsm vl (some b) c.fsm_now) code rc c).1
    → ⊥
unfolding on_code
dispatched_blocks_engage vl b code rc c p z s x e =
    ground (arith, dispatched_is_kept vl b c.fsm_now p z s)
