-- ===== src/Bridge/VisionLock/Handler.antt =====
-- modules/drone_bridge/vision_lock.py: `VisionLockHandler.on_channels`, frame by frame.
-- A background task is a value; it is run by `Engage` or posts to drone-control.
use nova_robotics_drone_cont.Common.{
  ℕ, ◌+◌, ◌-◌, Bool, true, false, ◌&&◌, not, Option, none, some, List, [], ◌∷◌, ltb, ◌==◌,
  if◌then◌else◌, get_elem?,
}
use nova_robotics_drone_cont.Common.Maybe.{◌>>=◌}
use nova_robotics_drone_cont.Bridge.VisionLock.Decode.{
  NormBox, decode_ops_code, decode_selection, ch8_index, is_button, is_reserved, ops_code_idle,
  ops_code_src_front, ops_code_src_ground, ops_code_src_vision, ops_code_vision_box,
  ops_code_btn_engage, ops_code_btn_follow, ops_code_btn_abort, ops_code_btn_cancel_lock,
  ops_code_escape,
}
use nova_robotics_drone_cont.Bridge.VisionLock.State.{
  VisionLockState, SelectionPhase, ready, EscapeState, normal, escape_pending, SourceName, black,
  front, ground, vision, advance_selection_fsm,
}

pub data Task : Type 0 where
  post_source : SourceName → Task
  post_inet_source : SourceName → Task
  engage_io_phase : NormBox → Task
  post_follow post_abort post_cancel_lock : Task

-- The readings of the clock that one call may take, in this order.
pub record Clocks : Type 0 where
  pub fsm_now : ℕ
  pub frame_now : ℕ
  pub engage_now : ℕ

-- 200 ms, 250 ms, 100 ms and 500 ms, in microseconds.
abbrev pub escape_timeout : ℕ
escape_timeout = 200_000

abbrev pub subop_trailing_grace : ℕ
subop_trailing_grace = 250_000

abbrev pub engage_gate : ℕ
engage_gate = 100_000

abbrev pub link_age_limit : ℕ
link_age_limit = 500_000

abbrev pub is_ready : SelectionPhase → Bool
is_ready ready = true
is_ready _ = false

abbrev pub stable_for : Option ℕ → ℕ → ℕ
stable_for none now = 0
stable_for (some since) now = now - since

-- No reading of the link is an infinite age.
abbrev pub link_too_old : Option ℕ → ℕ → Bool
link_too_old none now = true
link_too_old (some last_rc_ts) now = ltb link_age_limit (now - last_rc_ts)

abbrev pub reject_no_selection : VisionLockState → VisionLockState
reject_no_selection vl = record vl { rejections_no_selection = vl.rejections_no_selection + 1 }

-- Rules 2d, 2a and 2c.
unfoldable pub engage_box :
    Option NormBox → VisionLockState → Option ℕ → ℕ → VisionLockState × List Task
engage_box none vl last_rc_ts now = (reject_no_selection vl, [])
engage_box (some box) vl last_rc_ts now =
    if not (is_ready vl.phase)
    then (reject_no_selection vl, [])
    else (if ltb (stable_for vl.stable_since_mono now) engage_gate
        then (record vl { rejections_engage_gate = vl.rejections_engage_gate + 1 }, [])
        else (if link_too_old last_rc_ts now
            then (record vl { rejections_link_age = vl.rejections_link_age + 1 }, [])
            else (vl, engage_io_phase box ∷ [])))

unfoldable pub on_engage_rising : VisionLockState → Option ℕ → ℕ → VisionLockState × List Task
unfolding engage_box
on_engage_rising vl last_rc_ts now = engage_box vl.stable_box vl last_rc_ts now

unfoldable pub on_follow_rising : VisionLockState → VisionLockState × List Task
on_follow_rising vl =
    (record vl { events_follow = vl.events_follow + 1; is_follow_active = true }, post_follow ∷ [])

unfoldable pub on_abort_rising : VisionLockState → VisionLockState × List Task
on_abort_rising vl =
    (record vl { events_abort = vl.events_abort + 1; is_follow_active = false }, post_abort ∷ [])

unfoldable pub on_cancel_lock_rising : VisionLockState → VisionLockState × List Task
on_cancel_lock_rising vl = (
  record vl { events_cancel_lock = vl.events_cancel_lock + 1; is_follow_active = false },
  post_cancel_lock ∷ [],
)

abbrev pub source_eq : SourceName → SourceName → Bool
source_eq black black = true
source_eq front front = true
source_eq ground ground = true
source_eq vision vision = true
source_eq _ _ = false

unfoldable pub dispatch_source_change : VisionLockState → SourceName → VisionLockState × List Task
dispatch_source_change vl name = if source_eq vl.prev_source_name name then (vl, []) else (
  record vl { events_source_change = vl.events_source_change + 1; prev_source_name = name },
  post_source name ∷ post_inet_source name ∷ [],
)

abbrev pub set_committed : Bool → VisionLockState × List Task → VisionLockState × List Task
set_committed committed (vl, tasks) = (record vl { prev_box_committed = committed }, tasks)

-- Codes 5 to 8.
unfoldable pub button : VisionLockState → ℕ → Option ℕ → ℕ → VisionLockState × List Task
unfolding on_engage_rising on_follow_rising on_abort_rising on_cancel_lock_rising
button vl code last_rc_ts now =
    if not (vl.prev_ops_code == ops_code_vision_box)
    then (reject_no_selection vl, [])
    else (if code == ops_code_btn_engage
        then on_engage_rising vl last_rc_ts now
        else (if code == ops_code_btn_follow
            then on_follow_rising vl
            else (if code == ops_code_btn_abort
                then on_abort_rising vl
                else (if code == ops_code_btn_cancel_lock
                    then on_cancel_lock_rising vl
                    else (vl, [])))))

unfoldable pub enter_escape : VisionLockState → ℕ → VisionLockState
enter_escape vl now = record vl {
  escape_state = escape_pending;
  escape_started_mono = now;
  pre_escape_ops_code = vl.prev_ops_code;
  events_escape = vl.events_escape + 1;
}

abbrev pub is_last_subop : Option ℕ → ℕ → Bool
is_last_subop none code = false
is_last_subop (some last) code = code == last

-- Codes 10 to 15 outside an ESCAPE window.
unfoldable pub reserved_outside : VisionLockState → ℕ → ℕ → VisionLockState
reserved_outside vl code now =
    if is_last_subop vl.last_subop_code code
      && ltb (now - vl.last_subop_consumed_mono) subop_trailing_grace
    then vl
    else record vl { rejections_reserved = vl.rejections_reserved + 1 }

-- Part 4: the branch that a new code takes.
unfoldable pub transition : VisionLockState → ℕ → Option ℕ → Clocks → VisionLockState × List Task
unfolding dispatch_source_change button enter_escape reserved_outside
transition vl code last_rc_ts clocks =
    if code == ops_code_idle
    then set_committed false (vl, [])
    else (if code == ops_code_src_front
        then set_committed false (dispatch_source_change vl front)
        else (if code == ops_code_src_ground
            then set_committed false (dispatch_source_change vl ground)
            else (if code == ops_code_src_vision
                then set_committed false (dispatch_source_change vl vision)
                else (if code == ops_code_vision_box
                    then set_committed true (dispatch_source_change vl vision)
                    else (if is_button code
                        then button vl code last_rc_ts clocks.engage_now
                        else (if code == ops_code_escape
                            then (enter_escape vl clocks.frame_now, [])
                            else (if is_reserved code
                                then (reserved_outside vl code clocks.frame_now, [])
                                else (vl, []))))))))

abbrev pub remember : ℕ → VisionLockState × List Task → VisionLockState × List Task
remember code (vl, tasks) = (record vl { prev_ops_code = code }, tasks)

unfoldable pub dispatch : VisionLockState → ℕ → Option ℕ → Clocks → VisionLockState × List Task
unfolding transition
dispatch vl code last_rc_ts clocks =
    if code == vl.prev_ops_code
    then (vl, [])
    else remember code (transition vl code last_rc_ts clocks)

abbrev pub leave_escape : VisionLockState → VisionLockState
leave_escape vl = record vl { escape_state = normal; prev_ops_code = vl.pre_escape_ops_code }

abbrev pub abandon_escape : VisionLockState → VisionLockState
abandon_escape vl =
    leave_escape (record vl { rejections_escape_timeout = vl.rejections_escape_timeout + 1 })

-- Part 2: the timeout of a pending ESCAPE.
unfoldable pub expire_escape : EscapeState → VisionLockState → ℕ → VisionLockState
expire_escape normal vl now = vl
expire_escape escape_pending vl now =
    if ltb escape_timeout (now - vl.escape_started_mono) then abandon_escape vl else vl

-- Part 3: a frame while ESCAPE is pending.
unfoldable pub sub_opcode : VisionLockState → ℕ → ℕ → VisionLockState
sub_opcode vl code now =
    if is_reserved code
    then record (leave_escape vl) {
      events_sub_opcode = vl.events_sub_opcode + 1;
      last_subop_code = some code;
      last_subop_consumed_mono = now;
    }
    else (if code == ops_code_escape
        then record vl { escape_started_mono = now }
        else abandon_escape vl)

unfoldable pub by_escape :
    EscapeState → VisionLockState → ℕ → Option ℕ → Clocks → VisionLockState × List Task
unfolding sub_opcode dispatch
by_escape escape_pending vl code last_rc_ts clocks = (sub_opcode vl code clocks.frame_now, [])
by_escape normal vl code last_rc_ts clocks = dispatch vl code last_rc_ts clocks

-- Parts 2 to 4, on a code that is decoded.
unfoldable pub on_code : VisionLockState → ℕ → Option ℕ → Clocks → VisionLockState × List Task
unfolding expire_escape by_escape
on_code vl code last_rc_ts clocks =
    let vl' = expire_escape vl.escape_state vl clocks.frame_now in
    by_escape vl'.escape_state vl' code last_rc_ts clocks

-- `none` is the `IndexError` of a frame with too few channels: it is raised before any change.
unfoldable pub on_channels :
    VisionLockState → List ℕ → Option ℕ → Clocks → Option (VisionLockState × List Task)
unfolding on_code
on_channels vl us last_rc_ts clocks = do
  selection ← decode_selection us
  ch8 ← get_elem? us ch8_index
  some (
      on_code (advance_selection_fsm vl selection clocks.fsm_now) (decode_ops_code ch8) last_rc_ts
        clocks)
