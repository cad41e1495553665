-- ===== src/Drone/PrecisionLand/Abort.antt =====
-- ros2/src/drone_control/drone_control/precision_land.py: `abort` beside running loops.
use nova_robotics_drone_cont.Common.{
  ℕ, ◌≡◌, refl, Bool, true, false, Option, none, some, List, [], ◌∷◌, ◌++◌, All, Bool-cases, inl,
  inr, get_elem?,
}
use nova_robotics_drone_cont.Common.Frac.{Frac, int, leb_frac}
use nova_robotics_drone_cont.Drone.PrecisionLand.{
  Tuning, hover_throttle, Landing, Locals, Command, Effect, send, switch_to_land, Sight, QrInfo, Pc,
  at_check, at_lost, at_found, ended, failed, Phase, is_over,
}
use nova_robotics_drone_cont.Drone.PrecisionLand.Control.{correct}
use nova_robotics_drone_cont.Drone.PrecisionLand.Loop.{
  System, advance, found, corrected, Out, abort, abort_if, turn,
}

-- Steps of the loops, in any order.
unfoldable pub run_turns : List (ℕ × Sight) → System → System × List Effect
run_turns [] s = (s, [])
run_turns ((i, sight) ∷ ts) s =
    let done = turn i sight s in let rest = run_turns ts done.0 in (rest.0, done.1 ++ rest.1)

-- The loop is at its check, or before the lock of a lost code, or over.
abbrev pub IsQuiet : Pc → Type 0
IsQuiet (at_check l) = Unit
IsQuiet (at_lost l now) = Unit
IsQuiet ended = Unit
IsQuiet failed = Unit
IsQuiet _ = ⊥

abbrev pub IsHover : Effect → Type 0
IsHover (send c) = (c.throttle ≡ hover_throttle) × (c.roll ≡ int 0) × (c.pitch ≡ int 0)
IsHover switch_to_land = ⊥

pub record Obeyed (s : System) : Type 0 where
  pub phase : s.landing.phase ≡ Phase.aborted
  pub loops : All IsQuiet s.loops

-- What a quiet loop leaves.
record QuietOut (o : Out) : Type 0 where
  phase : o.landing.phase ≡ Phase.aborted
  pc : IsQuiet o.pc
  effects : All IsHover o.effects

found_descends :
    (t : Tuning) (g : Landing) (l : Locals) (now : Frac) (seen : QrInfo)
    → (found t g l now seen).landing.phase ≡ Phase.descending
unfolding found
found_descends t g l now seen = elim (Bool-cases (leb_frac t.land_box_ratio seen.ratio)) [
  | inl e ↦ rw e refl
  | inr e ↦ rw e (by_command (correct t now seen.ratio l))
]
  where
    by_command :
        (o : Option (Locals × Command))
        → (corrected (record { phase = Phase.descending; qr_info = some seen }) o).landing.phase
          ≡ Phase.descending
    by_command none = refl
    by_command (some x) = refl

abort_keeps_loops : (b : Bool) (s : System) → (abort_if b s).0.loops ≡ s.loops
abort_keeps_loops true s = refl
abort_keeps_loops false s = refl

-- An abort while a loop has found a code and waits for its lock is lost: the next step of this loop
-- puts the landing back to descending.
pub abort_is_lost :
    (s : System) (i : ℕ) (l : Locals) (now : Frac) (seen : QrInfo) (sight : Sight)
    → get_elem? s.loops i ≡ some (at_found l now seen)
    → (turn i sight (abort s).0).0.landing.phase ≡ Phase.descending
unfolding turn abort advance
abort_is_lost s i l now seen sight e =
    rw (abort_keeps_loops (is_over s.landing.phase) s, e)
      (found_descends (abort s).0.tuning (abort s).0.landing l now seen)
