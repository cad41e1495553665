-- ===== src/Drone/CompassCal/Runs.antt =====
-- ros2/src/drone_control/drone_control/compass_cal.py: the state over messages and resets.
use nova_robotics_drone_cont.Common.{
  ℕ, ◌≡◌, ◌⊎◌, inl, inr, refl, ap, ◌∙◌, Bool, true, false, not, ◌&&◌, Option, none, some, List, [],
  ◌∷◌, ◌==◌, if◌then◌else◌, All, arith,
}
use nova_robotics_drone_cont.Drone.CompassCal.{
  Mavlink, Progress, Report, msg_id_report, msg_id_progress, payload_bytes, decode_progress,
  decode_report, put_progress, put_report, Calibration, on_mavlink, reset, get_state, is_terminal,
}

pub data Event : Type 0 where
  mavlink : Mavlink → ℕ → Event
  new_run : Event

abbrev pub step : Calibration → Event → Calibration
step st (mavlink msg now) = on_mavlink st msg now
step st new_run = reset

abbrev pub run : Calibration → List Event → Calibration
run st [] = st
run st (e ∷ es) = run (step st e) es

-- Neither a report that can be read nor a new run.
abbrev pub KeepsReport : Event → Type 0
KeepsReport (mavlink msg now) =
    (msg.msgid == msg_id_report) ≡ false ⊎ decode_report (payload_bytes msg) ≡ none
KeepsReport new_run = ⊥

put_progress_report :
    (p : Option Progress) (st : Calibration) (now : ℕ) → (put_progress p st now).report ≡ st.report
put_progress_report none st now = refl
put_progress_report (some p) st now = refl

choice_report :
    (p q : Bool) (buf : List ℕ) (st : Calibration) (now : ℕ)
    → q ≡ false ⊎ decode_report buf ≡ none
    → (if not p && not q
        then st
        else (if p
            then put_progress (decode_progress buf) st now
            else put_report (decode_report buf) st now)).report
      ≡ st.report
choice_report true q buf st now h = put_progress_report (decode_progress buf) st now
choice_report false true buf st now (inl h) = absurd (ground arith)
choice_report false true buf st now (inr h) = ap (λ r. (put_report r st now).report) h
choice_report false false buf st now h = refl

step-report : (st : Calibration) (e : Event) → KeepsReport e → (step st e).report ≡ st.report
unfolding on_mavlink
step-report st (mavlink msg now) h =
    choice_report (msg.msgid == msg_id_progress) (msg.msgid == msg_id_report) (payload_bytes msg) st
      now h
step-report st new_run h = absurd h

run-report :
    (es : List Event) (st : Calibration) → All KeepsReport es → (run st es).report ≡ st.report
run-report [] st h = refl
run-report (e ∷ es) st (h, hs) = run-report es (step st e) hs ∙ step-report st e h

-- Once a report has come with a terminal status, the service shows that report and no active
-- calibration, whatever progress messages, unreadable reports and other messages follow, until a
-- new run begins or another report is read.
pub terminal_report_stays :
    (st : Calibration) (r : Report) (es : List Event)
    → st.report ≡ some r
    → is_terminal r.cal_status ≡ true
    → All KeepsReport es
    → ((get_state (run st es)).active ≡ false) × ((get_state (run st es)).report ≡ some r)
unfolding get_state
terminal_report_stays st r es e t h =
    let kept : (run st es).report ≡ some r = run-report es st h ∙ e in (rw (kept, t) refl, kept)
