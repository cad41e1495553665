-- ===== src/Bridge/VisionLock/Dispatch.antt =====
-- modules/drone_bridge/vision_lock.py: what a frame may set off.
use nova_robotics_drone_cont.Common.{ℕ, ◌≤◌, ◌≡◌, ◌⊎◌, false, Option, some, List, [], ◌∷◌, arith}
use nova_robotics_drone_cont.Bridge.VisionLock.Decode.{
  NormBox, ops_code_vision_box, ops_code_btn_engage,
}
use nova_robotics_drone_cont.Bridge.VisionLock.State.{VisionLockState, ready, normal}
use nova_robotics_drone_cont.Bridge.VisionLock.Handler.{
  Task, engage_io_phase, Clocks, link_too_old, stable_for, expire_escape, on_code,
}

-- The selection's fields are left alone by all that follows the selection state machine.
pub record SameSelection (vl vl' : VisionLockState) : Type 0 where
  pub phase : vl'.phase ≡ vl.phase
  pub candidate : vl'.candidate_box ≡ vl.candidate_box
  pub stable : vl'.stable_box ≡ vl.stable_box
  pub since : vl'.stable_since_mono ≡ vl.stable_since_mono
  pub remaining : vl'.debounce_frames_remaining ≡ vl.debounce_frames_remaining

module _ (vl : VisionLockState) (code : ℕ) (rc : Option ℕ) (c : Clocks) where
  pub on_code-SameSelection : SameSelection vl (on_code vl code rc c).0
  unfolding on_code
  on_code-SameSelection = ground arith

-- The tasks hold the start of an engage of `b`.
abbrev pub Engages : NormBox → List Task → Type 0
Engages b [] = ⊥
Engages b (engage_io_phase x ∷ tasks) = (x ≡ b) ⊎ Engages b tasks
Engages b (_ ∷ tasks) = Engages b tasks

-- What the code before this frame was, a wait for a sub-opcode that is over included.
pub record AfterVisionBox (vl : VisionLockState) (now : ℕ) : Type 0 where
  pub code : (expire_escape vl.escape_state vl now).prev_ops_code ≡ ops_code_vision_box
  pub normal_again : (expire_escape vl.escape_state vl now).escape_state ≡ normal

-- All that a frame must meet to start an engage of `b`: rules 2a, 2c and 2d and the edge.
pub record Cleared (vl : VisionLockState) (code : ℕ) (rc : Option ℕ) (c : Clocks) (b : NormBox)
    : Type 0 where
  pub pressed : code ≡ ops_code_btn_engage
  pub after_box : AfterVisionBox vl c.frame_now
  pub selected : vl.stable_box ≡ some b
  pub settled : vl.phase ≡ ready
  pub long_enough : 100_000 ≤ stable_for vl.stable_since_mono c.engage_now
  pub link_fresh : link_too_old rc c.engage_now ≡ false

module _ (vl : VisionLockState) (code : ℕ) (rc : Option ℕ) (c : Clocks) where
  -- From any state, a frame that starts an engage of `b` has the code of the button ENGAGE right after
  -- the code VISION_BOX, `b` is the stable box and has been it for 100 ms in the phase READY, and the
  -- last reading of the link is at most 500 ms old.
  pub engage_needs_clearance :
      (b : NormBox) → Engages b (on_code vl code rc c).1 → Cleared vl code rc c b
  unfolding on_code
  engage_needs_clearance b e = ground arith
