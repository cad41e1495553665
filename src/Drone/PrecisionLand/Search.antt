-- ===== src/Drone/PrecisionLand/Search.antt =====
-- ros2/src/drone_control/drone_control/precision_land.py: the search for the code ends.
use nova_robotics_drone_cont.Common.{◌≡◌, Bool, none, List, [], ◌∷◌}
use nova_robotics_drone_cont.Common.Frac.{Frac, sub, ltb_frac}
use nova_robotics_drone_cont.Drone.PrecisionLand.{
  Tuning, Landing, Locals, Sight, no_qr, Pc, at_check, Phase,
}
use nova_robotics_drone_cont.Drone.PrecisionLand.Loop.{advance}

-- A loop alone: the landing and where it stands.
abbrev pub Alone : Type 0
Alone = Landing × Pc

abbrev pub one_step : Tuning → Sight → Alone → Alone
one_step t sight a = ((advance t a.0 a.1 sight).landing, (advance t a.0 a.1 sight).pc)

-- One pass of a loop that sees no code: its check, the frame, and the lock.
unfoldable pub blind_pass : Tuning → Frac → Alone → Alone
blind_pass t now a = one_step t (no_qr now) (one_step t (no_qr now) (one_step t (no_qr now) a))

unfoldable pub blind_passes : Tuning → List Frac → Alone → Alone
blind_passes t [] a = a
blind_passes t (now ∷ ts) a = blind_passes t ts (blind_pass t now a)

-- The search since `search_start` is over its time.
abbrev pub is_late : Tuning → Frac → Frac → Bool
is_late t search_start now = ltb_frac t.search_timeout (sub now search_start)

abbrev Searching : Locals → Alone
Searching l = (record { phase = Phase.searching; qr_info = none }, at_check l)

-- A loop that searches since `start`.
record Since (t : Tuning) (start : Frac) (a : Alone) : Type 0 where
  l : Locals
  at : a.1 ≡ at_check l
  phase : a.0.phase ≡ Phase.searching
  search_start : l.search_start ≡ start
