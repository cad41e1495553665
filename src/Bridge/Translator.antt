-- ===== src/Bridge/Translator.antt =====
-- modules/drone_bridge/translator.py: from the channels to the commands of drone-control.
-- A clock reading is a number of microseconds.
pub mod Receive
pub mod Control
pub mod Parts
pub mod Edges
pub mod Sender
pub mod Reader
pub mod Session
mod Examples
use nova_robotics_drone_cont.Common.{
  ℕ, zero, suc, ◌+◌, ◌-◌, ◌*◌, min, max, Bool, true, false, ◌&&◌, ◌||◌, not, Option, none, some,
  List, [], ◌∷◌, ◌++◌, leb, ltb, ◌==◌, if◌then◌else◌, get_elem?, get_or, length, replicate,
}
use nova_robotics_drone_cont.Common.Maybe.{◌>>=◌}
use nova_robotics_drone_cont.Common.Int.{ℤ, pos, negsuc, sub_ℕ}
use nova_robotics_drone_cont.Bridge.VisionLock.State.{VisionLockState, initial}
use nova_robotics_drone_cont.Bridge.VisionLock.Handler.{Task, Clocks, on_channels}

unfoldable pub mode_index_from_us : ℕ → ℕ
mode_index_from_us us =
    if ltb us 1035
    then 0
    else (if ltb us 1128
        then 1
        else (if ltb us 1221
            then 2
            else (if ltb us 1314
                then 3
                else (if ltb us 1407
                    then 4
                    else (if ltb us 1500
                        then 5
                        else (if ltb us 1593
                            then 6
                            else (if ltb us 1686
                                then 7
                                else (if ltb us 1779
                                    then 8
                                    else (if ltb us 1872
                                        then 9
                                        else (if ltb us 1965 then 10 else 11))))))))))

pub data FlightMode : Type 0 where
  stabilize alt_hold loiter auto guided brake rtl land poshold acro smart_rtl autotune : FlightMode

abbrev modes : List FlightMode
modes =
    stabilize ∷ alt_hold ∷ loiter ∷ auto ∷ guided ∷ brake ∷ rtl ∷ land ∷ poshold ∷ acro ∷ smart_rtl
    ∷ autotune ∷ []

abbrev pub phone_mode_map : ℕ → Option FlightMode
phone_mode_map idx = get_elem? modes idx

pub record TranslatorState : Type 0 where
  pub channels_crsf : List ℕ
  pub channels_us : List ℕ
  pub last_rc_ts : Option ℕ
  pub last_ch5_armed : Option Bool
  pub last_ch6_forced : Option Bool
  pub last_mode_idx : Option ℕ
  pub frames_in : ℕ
  pub commands_sent : ℕ
  pub commands_skipped_link_loss : ℕ
  pub commands_skipped_disarmed : ℕ
  pub events_arm : ℕ
  pub events_disarm : ℕ
  pub events_mode : ℕ
  pub vision_lock : VisionLockState

unfoldable pub new_state : TranslatorState
new_state = record {
  channels_crsf = replicate 16 992;
  channels_us = replicate 16 1500;
  last_rc_ts = none;
  last_ch5_armed = none;
  last_ch6_forced = none;
  last_mode_idx = none;
  frames_in = 0;
  commands_sent = 0;
  commands_skipped_link_loss = 0;
  commands_skipped_disarmed = 0;
  events_arm = 0;
  events_disarm = 0;
  events_mode = 0;
  vision_lock = initial;
}

-- The posts of `EdgeEventHandler`, each a background task.
pub data Post : Type 0 where
  control_arm control_disarm disarm_force : Post
  post_mode : FlightMode → Post

-- The state, the posts started, and whether an `IndexError` was raised after them.
abbrev pub Step : Type 0
Step = TranslatorState × List Post × Bool

abbrev pub then_step : Step → (TranslatorState → Step) → Step
then_step (state, posts, true) next = (state, posts, true)
then_step (state, posts, false) next = let rest = next state in (rest.0, posts ++ rest.1, rest.2)

abbrev pub differs : Bool → Bool → Bool
differs true b = not b
differs false b = b

abbrev pub arm_edge : Option Bool → Bool → TranslatorState → TranslatorState × List Post
arm_edge none armed state = (state, [])
arm_edge (some before) armed state =
    if differs armed before
    then (if armed
        then (record state { events_arm = state.events_arm + 1 }, control_arm ∷ [])
        else (record state { events_disarm = state.events_disarm + 1 }, control_disarm ∷ []))
    else (state, [])

abbrev pub force_edge : Option Bool → Bool → TranslatorState → TranslatorState × List Post
force_edge none forced state = (state, [])
force_edge (some before) forced state =
    if forced && not before
    then (record state { events_disarm = state.events_disarm + 1 }, disarm_force ∷ [])
    else (state, [])

abbrev pub announce_mode : Option FlightMode → TranslatorState → TranslatorState × List Post
announce_mode none state = (state, [])
announce_mode (some mode) state =
    (record state { events_mode = state.events_mode + 1 }, post_mode mode ∷ [])

abbrev pub mode_edge : Option ℕ → ℕ → TranslatorState → TranslatorState × List Post
mode_edge none idx state = (state, [])
mode_edge (some before) idx state =
    if idx == before then (state, []) else announce_mode (phone_mode_map idx) state

abbrev pub arm_threshold : ℕ
arm_threshold = 1500

abbrev pub force_threshold : ℕ
force_threshold = 1700

unfoldable pub on_ch5 : Option ℕ → TranslatorState → Step
on_ch5 none state = (state, [], true)
on_ch5 (some us) state =
    let armed = leb arm_threshold us in
    let edge = arm_edge state.last_ch5_armed armed state in
    (record edge.0 { last_ch5_armed = some armed }, edge.1, false)

unfoldable pub on_ch6 : Option ℕ → TranslatorState → Step
on_ch6 none state = (state, [], true)
on_ch6 (some us) state =
    let forced = leb force_threshold us in
    let edge = force_edge state.last_ch6_forced forced state in
    (record edge.0 { last_ch6_forced = some forced }, edge.1, false)

unfoldable pub on_ch7 : Option ℕ → TranslatorState → Step
unfolding mode_index_from_us
on_ch7 none state = (state, [], true)
on_ch7 (some us) state =
    let idx = mode_index_from_us us in
    let edge = mode_edge state.last_mode_idx idx state in
    (record edge.0 { last_mode_idx = some idx }, edge.1, false)

-- `EdgeEventHandler.on_channels`
unfoldable pub on_edges : TranslatorState → Step
unfolding on_ch5 on_ch6 on_ch7
on_edges state =
    let us = state.channels_us in
    then_step (on_ch5 (get_elem? us 4) state)
      (λ s5. then_step (on_ch6 (get_elem? us 5) s5) (λ s6. on_ch7 (get_elem? us 6) s6))
