-- ===== src/Bridge/VisionLock/Gate.antt =====
-- modules/drone_bridge/vision_lock.py: `ButtonStabilityGate`, the three-frame filter.
use nova_robotics_drone_cont.Common.{
  ℕ, ◌+◌, Option, none, some, ◌&&◌, not, leb, ◌==◌, if◌then◌else◌,
}

pub record ButtonStabilityGate : Type 0 where
  pub candidate_code : ℕ
  pub candidate_count : ℕ
  pub last_dispatched_code : ℕ

abbrev pub required_stable_frames : ℕ
required_stable_frames = 3

unfoldable pub reset : ButtonStabilityGate → ButtonStabilityGate
reset g = record { candidate_code = 0; candidate_count = 0; last_dispatched_code = 0 }

count_frame : ButtonStabilityGate → ℕ → ButtonStabilityGate
count_frame g current_code =
    if current_code == g.candidate_code
    then record g { candidate_count = g.candidate_count + 1 }
    else record g { candidate_code = current_code; candidate_count = 1 }

settle : ButtonStabilityGate → ButtonStabilityGate × Option ℕ
settle g =
    if leb required_stable_frames g.candidate_count
      && not (g.candidate_code == g.last_dispatched_code)
    then (record g { last_dispatched_code = g.candidate_code }, some g.candidate_code)
    else (g, none)

unfoldable pub consume : ButtonStabilityGate → ℕ → ButtonStabilityGate × Option ℕ
unfolding count_frame settle reset
consume g current_code =
    if current_code == 0 then (reset g, none) else settle (count_frame g current_code)
