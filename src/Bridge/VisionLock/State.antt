-- ===== src/Bridge/VisionLock/State.antt =====
-- modules/drone_bridge/vision_lock.py: the sub-state and the selection state machine (rule 1).
-- A clock reading is a number of microseconds.
use nova_robotics_drone_cont.Common.{
  ℕ, ◌-◌, Bool, false, ◌&&◌, Option, none, some, ltb, ◌==◌, if◌then◌else◌,
}
use nova_robotics_drone_cont.Bridge.VisionLock.Decode.{NormBox, ops_code_idle}
use nova_robotics_drone_cont.Bridge.VisionLock.Gate.{ButtonStabilityGate}

pub data SelectionPhase : Type 0 where
  idle stabilizing ready dispatched : SelectionPhase

pub data EscapeState : Type 0 where
  normal escape_pending : EscapeState

pub data SourceName : Type 0 where
  black front ground vision : SourceName

pub record VisionLockState : Type 0 where
  pub phase : SelectionPhase
  pub candidate_box : Option NormBox
  pub stable_box : Option NormBox
  pub stable_since_mono : Option ℕ
  pub debounce_frames_remaining : ℕ
  pub last_button_code : ℕ
  pub last_source_code : ℕ
  pub escape_state : EscapeState
  pub escape_started_mono : ℕ
  pub prev_ops_code : ℕ
  pub prev_source_name : SourceName
  pub prev_box_committed : Bool
  pub pre_escape_ops_code : ℕ
  -- `none` for -1
  pub last_subop_code : Option ℕ
  pub last_subop_consumed_mono : ℕ
  pub button_gate : ButtonStabilityGate
  pub is_follow_active : Bool
  pub events_engage : ℕ
  pub events_follow : ℕ
  pub events_abort : ℕ
  pub events_cancel_lock : ℕ
  pub events_source_change : ℕ
  pub events_escape : ℕ
  pub events_sub_opcode : ℕ
  pub rejections_no_selection : ℕ
  pub rejections_state_stale : ℕ
  pub rejections_link_age : ℕ
  pub rejections_engage_gate : ℕ
  pub rejections_idempotent : ℕ
  pub rejections_reserved : ℕ
  pub rejections_escape_timeout : ℕ
  pub suppressed_unstable : ℕ

unfoldable pub initial : VisionLockState
initial = record {
  phase = idle;
  candidate_box = none;
  stable_box = none;
  stable_since_mono = none;
  debounce_frames_remaining = 0;
  last_button_code = 0;
  last_source_code = 0;
  escape_state = normal;
  escape_started_mono = 0;
  prev_ops_code = ops_code_idle;
  prev_source_name = black;
  prev_box_committed = false;
  pre_escape_ops_code = ops_code_idle;
  last_subop_code = none;
  last_subop_consumed_mono = 0;
  button_gate = record { candidate_code = 0; candidate_count = 0; last_dispatched_code = 0 };
  is_follow_active = false;
  events_engage = 0;
  events_follow = 0;
  events_abort = 0;
  events_cancel_lock = 0;
  events_source_change = 0;
  events_escape = 0;
  events_sub_opcode = 0;
  rejections_no_selection = 0;
  rejections_state_stale = 0;
  rejections_link_age = 0;
  rejections_engage_gate = 0;
  rejections_idempotent = 0;
  rejections_reserved = 0;
  rejections_escape_timeout = 0;
  suppressed_unstable = 0;
}

abbrev pub selection_debounce_frames : ℕ
selection_debounce_frames = 3

abbrev pub box_eq : NormBox → NormBox → Bool
box_eq a b = a.x1 == b.x1 && a.y1 == b.y1 && a.x2 == b.x2 && a.y2 == b.y2

abbrev pub is_candidate : Option NormBox → NormBox → Bool
is_candidate none b = false
is_candidate (some a) b = box_eq a b

-- The same candidate as in the last frame.
tick_debounce : VisionLockState → NormBox → ℕ → VisionLockState
tick_debounce vl decoded now =
    if ltb 0 vl.debounce_frames_remaining
    then (let vl' = record vl { debounce_frames_remaining = vl.debounce_frames_remaining - 1 } in
        if vl'.debounce_frames_remaining == 0
        then record vl' { phase = ready; stable_box = some decoded; stable_since_mono = some now }
        else record vl' { phase = stabilizing })
    else vl

unfoldable pub advance_selection_fsm : VisionLockState → Option NormBox → ℕ → VisionLockState
unfolding tick_debounce
advance_selection_fsm vl none now = record vl {
  phase = idle;
  candidate_box = none;
  stable_box = none;
  stable_since_mono = none;
  debounce_frames_remaining = 0;
}
advance_selection_fsm vl (some decoded) now =
    if is_candidate vl.candidate_box decoded then tick_debounce vl decoded now else record vl {
      candidate_box = some decoded;
      debounce_frames_remaining = selection_debounce_frames;
      phase = stabilizing;
      stable_box = none;
      stable_since_mono = none;
    }
