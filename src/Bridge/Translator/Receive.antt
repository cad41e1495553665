-- ===== src/Bridge/Translator/Receive.antt =====
-- modules/drone_bridge/translator.py: one message of the WebSocket, for both handlers.
use nova_robotics_drone_cont.Common.{
  ℕ, ◌+◌, Bool, true, false, ◌||◌, Option, none, some, List, [], ltb, ◌==◌, if◌then◌else◌, length,
}
use nova_robotics_drone_cont.Bridge.VisionLock.State.{VisionLockState}
use nova_robotics_drone_cont.Bridge.VisionLock.Handler.{Task, Clocks, on_channels}
use nova_robotics_drone_cont.Bridge.Translator.{Post, Step, TranslatorState, on_edges}

-- A message of the WebSocket; a missing key is an empty list.
pub record Message : Type 0 where
  pub channels_crsf : List ℕ
  pub channels_us : List ℕ

pub record Received : Type 0 where
  pub state : TranslatorState
  pub posts : List Post
  pub tasks : List Task
  pub raised : Bool

abbrev pub with_vision_lock :
    TranslatorState → List Post → Option (VisionLockState × List Task) → Received
with_vision_lock state posts none = record {
  state = state;
  posts = posts;
  tasks = [];
  raised = true;
}
with_vision_lock state posts (some (vl, tasks)) = record {
  state = record state { vision_lock = vl };
  posts = posts;
  tasks = tasks;
  raised = false;
}

-- `_fanout` of `run`: both handlers in turn; the second is not reached if the first raises.
unfoldable pub fanout : Step → Clocks → Received
fanout (state, posts, true) clocks = record {
  state = state;
  posts = posts;
  tasks = [];
  raised = true;
}
fanout (state, posts, false) clocks =
    with_vision_lock state posts
      (on_channels state.vision_lock state.channels_us state.last_rc_ts clocks)

-- The body of `_ws_reader_loop` on one decoded message.
unfoldable pub receive : TranslatorState → Message → ℕ → Clocks → Received
unfolding fanout on_edges
receive state msg now clocks =
    if length msg.channels_crsf == 0
      || length msg.channels_us == 0
      || ltb (length msg.channels_crsf) 16
    then record { state = state; posts = []; tasks = []; raised = false }
    else fanout
        (on_edges (record state {
          channels_crsf = msg.channels_crsf;
          channels_us = msg.channels_us;
          last_rc_ts = some now;
          frames_in = state.frames_in + 1;
        }))
        clocks
