-- ===== src/Drone/PrecisionLand/Loop.antt =====
-- ros2/src/drone_control/drone_control/precision_land.py: the loop, `start_landing` and `abort`.
use nova_robotics_drone_cont.Common.{
  ℕ, Bool, true, false, not, ◌&&◌, Option, none, some, List, [], ◌∷◌, ◌++◌, if◌then◌else◌,
  get_elem?, set,
}
use nova_robotics_drone_cont.Common.Frac.{Frac, int, sub, leb_frac, ltb_frac}
use nova_robotics_drone_cont.Drone.PrecisionLand.{
  Tuning, Phase, is_over, QrInfo, Landing, Locals, Command, Effect, send, switch_to_land, Sight,
  no_frame, no_qr, qr, Pc, at_check, at_frame, at_lost, at_found, at_land, ended, failed,
}
use nova_robotics_drone_cont.Drone.PrecisionLand.Control.{
  reset_pid, filter_seen, info_of, correct, hover,
}

-- What one step of a loop leaves: the globals, where it stands, and what it sets off.
pub record Out : Type 0 where
  pub landing : Landing
  pub pc : Pc
  pub effects : List Effect

abbrev pub new_locals : Frac → Locals
new_locals now = record {
  search_start = now;
  pid_x = reset_pid;
  pid_y = reset_pid;
  filt_ex = int 0;
  filt_ey = int 0;
  has_filter = false;
}

abbrev pub leave : Landing → Out
leave g = record { landing = g; pc = ended; effects = send (hover (int 2)) ∷ [] }

abbrev pub forget : Locals → Locals
forget l = record l { pid_x = reset_pid; pid_y = reset_pid; has_filter = false }

abbrev pub look : Tuning → Landing → Locals → Sight → Out
look t g l no_frame = record { landing = g; pc = at_check l; effects = [] }
look t g l (no_qr now) = record {
  landing = g;
  pc = at_lost (forget l) now;
  effects = send (hover (int 1)) ∷ [];
}
look t g l (qr now r) =
    let l' = filter_seen t now r l in
    record { landing = g; pc = at_found l' now (info_of r l'); effects = [] }

abbrev pub back_to_search : Phase → Frac → Locals → Phase × Locals
back_to_search Phase.descending now l = (Phase.searching, record l { search_start = now })
back_to_search p now l = (p, l)

abbrev pub is_searching : Phase → Bool
is_searching Phase.searching = true
is_searching _ = false

-- The locked part without a code.
unfoldable pub lose : Tuning → Landing → Locals → Frac → Out
lose t g l now =
    let s = back_to_search g.phase now l in
    let late = is_searching s.0 && ltb_frac t.search_timeout (sub now s.1.search_start) in
    record {
      landing = record { phase = if late then Phase.aborted else s.0; qr_info = none };
      pc = at_check s.1;
      effects = [];
    }

abbrev pub corrected : Landing → Option (Locals × Command) → Out
corrected g none = record { landing = g; pc = failed; effects = [] }
corrected g (some (l, c)) = record { landing = g; pc = at_check l; effects = send c ∷ [] }

-- The locked part with a code, and the turn after it.
unfoldable pub found : Tuning → Landing → Locals → Frac → QrInfo → Out
found t g l now seen =
    let g' : Landing = record { phase = Phase.descending; qr_info = some seen } in
    if leb_frac t.land_box_ratio seen.ratio
    then record { landing = g'; pc = at_land; effects = switch_to_land ∷ [] }
    else corrected g' (correct t now seen.ratio l)

-- `_control_loop`, from one lock to the next.
unfoldable pub advance : Tuning → Landing → Pc → Sight → Out
advance t g (at_check l) sight =
    if is_over g.phase then leave g else record { landing = g; pc = at_frame l; effects = [] }
advance t g (at_frame l) sight = look t g l sight
advance t g (at_lost l now) sight = lose t g l now
advance t g (at_found l now seen) sight = found t g l now seen
advance t g at_land sight = leave (record g { phase = Phase.complete })
advance t g ended sight = record { landing = g; pc = ended; effects = [] }
advance t g failed sight = record { landing = g; pc = failed; effects = [] }

-- The globals, with the loops that were started.
pub record System : Type 0 where
  pub tuning : Tuning
  pub landing : Landing
  pub loops : List Pc

pub data Reply : Type 0 where
  started : Reply
  already_active : Reply
  no_camera : Reply
  missing_dependency : Reply
  tx_failed : Reply
  stopped : Reply
  not_active : Reply

-- `start_landing`, with what the camera, the imports and `virtual_tx.enable` answer.
unfoldable pub start_landing : Frac → Bool → Bool → Bool → System → System × Reply
start_landing now has_frame has_libs tx_ok s =
    if not (is_over s.landing.phase)
    then (s, already_active)
    else (if not has_frame
        then (s, no_camera)
        else (if not has_libs
            then (s, missing_dependency)
            else (if not tx_ok then (s, tx_failed) else (
              record s {
                landing = record { phase = Phase.searching; qr_info = none };
                loops = s.loops ++ (at_check (new_locals now) ∷ []);
              },
              started,
            ))))

abbrev pub abort_if : Bool → System → System × Reply × List Effect
abort_if true s = (s, not_active, [])
abort_if false s = (
  record s { landing = record s.landing { phase = Phase.aborted } },
  stopped,
  send (hover (int 2)) ∷ [],
)

unfoldable pub abort : System → System × Reply × List Effect
abort s = abort_if (is_over s.landing.phase) s

abbrev pub turn_at : System → ℕ → Option Pc → Sight → System × List Effect
turn_at s i none sight = (s, [])
turn_at s i (some pc) sight =
    let o = advance s.tuning s.landing pc sight in
    (record s { landing = o.landing; loops = set s.loops i o.pc }, o.effects)

-- One step of loop `i`.
unfoldable pub turn : ℕ → Sight → System → System × List Effect
turn i sight s = turn_at s i (get_elem? s.loops i) sight
