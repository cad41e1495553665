-- ===== src/Bridge/VisionLock/Examples.antt =====
-- modules/drone_bridge/vision_lock.py: runs of the handler on concrete frames.
use nova_robotics_drone_cont.Common.{
  ℕ, ◌+◌, length, ◌≡◌, inl, refl, Option, none, some, List, [], ◌∷◌, arith,
}
use nova_robotics_drone_cont.Bridge.VisionLock.Decode.{
  NormBox, quantize_64, decode_ops_code, decode_box_norm_from_us, decode_selection,
}
use nova_robotics_drone_cont.Bridge.VisionLock.State.{
  VisionLockState, initial, dispatched, ready, escape_pending, advance_selection_fsm,
}
use nova_robotics_drone_cont.Bridge.VisionLock.Handler.{Task, Clocks, on_code, on_channels}
use nova_robotics_drone_cont.Bridge.VisionLock.Handler
use nova_robotics_drone_cont.Bridge.VisionLock.Engage.{PixelBox, VisionReply, Threshold}
use nova_robotics_drone_cont.Bridge.VisionLock.Margins.{wide_us, quantize_64-wide_us}
use nova_robotics_drone_cont.Bridge.VisionLock.Dispatch.{Cleared, engage_needs_clearance}
use nova_robotics_drone_cont.Bridge.VisionLock.Effects.{
  rejections, press_answered, Quiet, failsafe_frame,
}
use nova_robotics_drone_cont.Bridge.VisionLock.History.{Leading}
use nova_robotics_drone_cont.Bridge.VisionLock.Debounce.{Reach, start, frame, engage_is_debounced}
use nova_robotics_drone_cont.Bridge.VisionLock.Commit.{Answer, commit_needs_age}

-- A frame with the given channel 8 that selects one box.
abbrev box_frame : ℕ → List ℕ
box_frame ch8 =
    1500 ∷ 1500 ∷ 1500 ∷ 1500 ∷ 1000 ∷ 1000 ∷ 1000 ∷ ch8 ∷ 1102 ∷ 1150 ∷ 1800 ∷ 1850 ∷ []

abbrev at : ℕ → Clocks
at now = record { fsm_now = now; frame_now = now; engage_now = now }

abbrev held_box : NormBox
held_box = record { x1 = 114; y1 = 162; x2 = 812; y2 = 861 }

abbrev other_box : NormBox
other_box = record { x1 = 0; y1 = 0; x2 = 100; y2 = 100 }

-- The handler on a frame; a frame that it does not decode leaves it as it is.
abbrev run : VisionLockState → List ℕ → ℕ → VisionLockState × List Task
run vl us now = elim (on_channels vl us (some now) (at now)) [ none ↦ (vl, []) | some r ↦ r ]

abbrev after_1 : VisionLockState
after_1 = (run initial (box_frame 1248) 1000).0

abbrev after_2 : VisionLockState
after_2 = (run after_1 (box_frame 1248) 2000).0

abbrev after_3 : VisionLockState
after_3 = (run after_2 (box_frame 1248) 3000).0

abbrev after_4 : VisionLockState
after_4 = (run after_3 (box_frame 1248) 4000).0

abbrev pressed : VisionLockState × List Task
pressed = run after_4 (box_frame 1313) 200_000

four_frames : Reach after_4 (box_frame 1248 ∷ box_frame 1248 ∷ box_frame 1248 ∷ box_frame 1248 ∷ [])
unfolding on_channels decode_selection decode_ops_code decode_box_norm_from_us advance_selection_fsm
    initial
four_frames =
    frame
      (frame
        (frame
          (frame start (box_frame 1248) (some 1000) (at 1000) (run initial (box_frame 1248) 1000)
            refl)
          (box_frame 1248) (some 2000) (at 2000) (run after_1 (box_frame 1248) 2000) refl)
        (box_frame 1248) (some 3000) (at 3000) (run after_2 (box_frame 1248) 3000) refl)
      (box_frame 1248) (some 4000) (at 4000) (run after_3 (box_frame 1248) 4000) refl

engage_is_debounced_example :
    Leading 4 held_box
      (box_frame 1313 ∷ box_frame 1248 ∷ box_frame 1248 ∷ box_frame 1248 ∷ box_frame 1248 ∷ [])
unfolding on_channels decode_selection decode_ops_code decode_box_norm_from_us advance_selection_fsm
    initial
engage_is_debounced_example =
    engage_is_debounced after_4
      (box_frame 1248 ∷ box_frame 1248 ∷ box_frame 1248 ∷ box_frame 1248 ∷ []) (box_frame 1313)
      (some 200_000) (at 200_000) pressed held_box four_frames refl (inl refl)

-- The state in which a press of ENGAGE is good.
abbrev armed_box : VisionLockState
armed_box = record initial {
  phase = ready;
  stable_box = some held_box;
  stable_since_mono = some 4000;
  candidate_box = some held_box;
  prev_ops_code = 4;
}

engage_needs_clearance_example : Cleared armed_box 5 (some 200_000) (at 200_000) held_box
unfolding on_code initial
engage_needs_clearance_example =
    engage_needs_clearance armed_box 5 (some 200_000) (at 200_000) held_box (inl refl)

press_answered_example :
    (length (on_code armed_box 6 none (at 5000)).1
        + rejections (on_code armed_box 6 none (at 5000)).0
      ≡ rejections armed_box + 1)
    × ((on_code armed_box 6 none (at 5000)).0.prev_source_name ≡ armed_box.prev_source_name)
unfolding initial
press_answered_example = press_answered armed_box 6 none (at 5000) refl refl refl

failsafe_frame_example :
    (r : VisionLockState × List Task) × (on_channels armed_box (box_frame 988) none (at 5000)
      ≡ some r)
    × Quiet armed_box none (at 5000) r
failsafe_frame_example =
    failsafe_frame armed_box none (at 5000) (box_frame 988) 988 refl (omega arith)

abbrev escaping : VisionLockState
escaping = record armed_box { escape_state = escape_pending; escape_started_mono = 5000 }

abbrev engaged : VisionLockState
engaged = record armed_box { phase = dispatched }

abbrev threshold : Threshold
threshold = record { num = 1; den = 2 }

abbrev reply : ℕ → Option PixelBox → VisionReply
reply age locked = record {
  frame_age_ms = some age;
  locked_box = locked;
  frame_w = 640;
  frame_h = 480;
}

commit_needs_age_example : Answer armed_box held_box 0 640 480 threshold
commit_needs_age_example = commit_needs_age armed_box held_box 0 640 480 threshold

quantize_64-wide_us_example : quantize_64 (wide_us 20) ≡ 20
quantize_64-wide_us_example = quantize_64-wide_us 20 (omega arith)
