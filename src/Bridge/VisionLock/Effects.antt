-- ===== src/Bridge/VisionLock/Effects.antt =====
-- modules/drone_bridge/vision_lock.py: every post has its cause, and every press its answer.
use nova_robotics_drone_cont.Common.{
  ℕ, ◌+◌, ◌≤◌, ◌≡◌, refl, true, false, Option, none, some, List, [], ◌∷◌, arith, length, ◌==◌,
  if◌then◌else◌, get_elem?,
}
use nova_robotics_drone_cont.Bridge.VisionLock.Decode.{is_button, decode_selection, decode_ops_code}
use nova_robotics_drone_cont.Bridge.VisionLock.State.{
  VisionLockState, SourceName, idle, normal, advance_selection_fsm,
}
use nova_robotics_drone_cont.Bridge.VisionLock.Handler.{
  Task, post_source, post_inet_source, source_eq, Clocks, on_code, on_channels,
}

-- The posts that tell both video routers of a new source.
abbrev pub announced : SourceName → SourceName → List Task
announced old new = if source_eq old new then [] else (post_source new ∷ post_inet_source new ∷ [])

-- On any code that is no button, from any state, the tasks of a frame are the two posts of the new
-- source if the source changed, and none at all otherwise: the two routers are always told together.
sources_in_step :
    (vl : VisionLockState) (code : ℕ) (rc : Option ℕ) (c : Clocks)
    → is_button code ≡ false
    → (on_code vl code rc c).1
      ≡ announced vl.prev_source_name (on_code vl code rc c).0.prev_source_name
unfolding on_code
sources_in_step vl code rc c h = ground arith

abbrev pub rejections : VisionLockState → ℕ
rejections vl = vl.rejections_no_selection + vl.rejections_engage_gate + vl.rejections_link_age

-- A button code that is new in this frame, with no ESCAPE pending, is either carried out by exactly
-- one task or counted by exactly one rejection; the source, and what is posted of it, do not change.
pub press_answered :
    (vl : VisionLockState) (code : ℕ) (rc : Option ℕ) (c : Clocks)
    → vl.escape_state ≡ normal
    → is_button code ≡ true
    → (code == vl.prev_ops_code) ≡ false
    → (length (on_code vl code rc c).1 + rejections (on_code vl code rc c).0 ≡ rejections vl + 1)
      × ((on_code vl code rc c).0.prev_source_name ≡ vl.prev_source_name)
unfolding on_code
press_answered vl code rc c n h k = ground arith

low_code_is_idle : (ch8 : ℕ) → ch8 ≤ 1000 → decode_ops_code ch8 ≡ 0
unfolding decode_ops_code
low_code_is_idle ch8 h = ground arith

low_code_selects_none :
    (us : List ℕ) (ch8 : ℕ)
    → get_elem? us 7 ≡ some ch8
    → ch8 ≤ 1000
    → decode_selection us ≡ some none
unfolding decode_selection
low_code_selects_none us ch8 e h = rw (e, low_code_is_idle ch8 h) refl

module _ (vl : VisionLockState) (rc : Option ℕ) (c : Clocks) where
  abbrev pub Quiet : VisionLockState × List Task → Type 0
  Quiet (vl', tasks) =
      (tasks ≡ [])
      × (vl'.stable_box ≡ none)
      × (vl'.phase ≡ idle)
      × (vl'.prev_source_name ≡ vl.prev_source_name)
      × (vl'.is_follow_active ≡ vl.is_follow_active)

  idle_code_is_Quiet : Quiet (on_code (advance_selection_fsm vl none c.fsm_now) 0 rc c)
  unfolding on_code advance_selection_fsm
  idle_code_is_Quiet = ground arith

  -- A frame whose channel 8 is at its low end, which is what a lost link sends, sets off nothing from
  -- any state: no task, no change of source or following, and the selection is cleared.
  pub failsafe_frame :
      (us : List ℕ) (ch8 : ℕ)
      → get_elem? us 7 ≡ some ch8
      → ch8 ≤ 1000
      → (r : VisionLockState × List Task) × (on_channels vl us rc c ≡ some r) × Quiet r
  unfolding on_channels
  failsafe_frame us ch8 e h = (
    on_code (advance_selection_fsm vl none c.fsm_now) 0 rc c,
    rw (low_code_selects_none us ch8 e h, e, low_code_is_idle ch8 h) refl,
    idle_code_is_Quiet,
  )
