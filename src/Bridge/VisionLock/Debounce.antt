-- ===== src/Bridge/VisionLock/Debounce.antt =====
-- modules/drone_bridge/vision_lock.py: how long a box is selected before an engage of it starts.
use nova_robotics_drone_cont.Common.{
  ℕ, ◌≡◌, inl, inr, sym, ◌∙◌, subst, Option, some, List, [], ◌∷◌, arith, get_elem?, Option-cases,
}
use nova_robotics_drone_cont.Bridge.VisionLock.Decode.{NormBox, decode_selection, decode_ops_code}
use nova_robotics_drone_cont.Bridge.VisionLock.State.{
  VisionLockState, initial, advance_selection_fsm,
}
use nova_robotics_drone_cont.Bridge.VisionLock.Handler.{Task, Clocks, on_code, on_channels}
use nova_robotics_drone_cont.Bridge.VisionLock.Engage.{VisionReply, Threshold, engage_io_phase}
use nova_robotics_drone_cont.Bridge.VisionLock.Dispatch.{
  SameSelection, on_code-SameSelection, Engages, Cleared, engage_needs_clearance,
}
use nova_robotics_drone_cont.Bridge.VisionLock.History.{Leading, Debounced, advance-Debounced}

-- The runs of the handler: frames that are decoded, and engages that end, in any order. The list
-- holds the frames, the newest first.
pub data Reach : VisionLockState → List (List ℕ) → Type 0 where
  start : Reach initial []
  frame :
      {vl : VisionLockState} {history : List (List ℕ)}
      → Reach vl history
      → (us : List ℕ) (rc : Option ℕ) (c : Clocks) (r : VisionLockState × List Task)
      → on_channels vl us rc c ≡ some r
      → Reach r.0 (us ∷ history)
  engage_ends :
      {vl : VisionLockState} {history : List (List ℕ)}
      → Reach vl history
      → (box : NormBox) (reply : Option VisionReply) (t : Threshold)
      → Reach (engage_io_phase vl box reply t).0 history

-- What on_channels does to a frame that it decodes.
record Decoded (vl : VisionLockState) (us : List ℕ) (rc : Option ℕ) (c : Clocks)
    (r : VisionLockState × List Task) : Type 0 where
  selection : Option NormBox
  code : ℕ
  selects : decode_selection us ≡ some selection
  result : r ≡ on_code (advance_selection_fsm vl selection c.fsm_now) code rc c

decoded :
    (vl : VisionLockState) (us : List ℕ) (rc : Option ℕ) (c : Clocks)
    (r : VisionLockState × List Task)
    → on_channels vl us rc c ≡ some r
    → Decoded vl us rc c r
unfolding on_channels
decoded vl us rc c r h = elim (Option-cases (decode_selection us)) [
  | inl n ↦ absurd (ground arith)
  | inr (selection, e) ↦ elim (Option-cases (get_elem? us 7)) [
    | inl m ↦ absurd (ground arith)
    | inr (x, g) ↦ record {
      selection = selection;
      code = decode_ops_code x;
      selects = e;
      result = ground arith;
    }
  ]
]

same_boxes :
    (vl vl' : VisionLockState) (history : List (List ℕ))
    → vl'.candidate_box ≡ vl.candidate_box
    → vl'.stable_box ≡ vl.stable_box
    → vl'.debounce_frames_remaining ≡ vl.debounce_frames_remaining
    → Debounced vl history
    → Debounced vl' history
same_boxes vl vl' history k l m i = record {
  at_most = rw m i.at_most;
  candidate = λ b e. rw m (i.candidate b (sym k ∙ e));
  stable = λ b e. i.stable b (sym l ∙ e);
}

engage-Debounced :
    (vl : VisionLockState) (history : List (List ℕ)) (box : NormBox) (reply : Option VisionReply)
    (t : Threshold)
    → Debounced vl history
    → Debounced (engage_io_phase vl box reply t).0 history
unfolding engage_io_phase
engage-Debounced vl history box reply t i =
    same_boxes vl (engage_io_phase vl box reply t).0 history (ground arith) (ground arith)
      (ground arith) i

module _ (vl : VisionLockState) (history : List (List ℕ)) (us : List ℕ) (rc : Option ℕ) (c : Clocks)
    (r : VisionLockState × List Task) (i : Debounced vl history) where
  step_Debounced : Decoded vl us rc c r → Debounced r.0 (us ∷ history)
  step_Debounced d =
      let vl' = advance_selection_fsm vl d.selection c.fsm_now in
      let k : SameSelection vl' (on_code vl' d.code rc c).0 =
        on_code-SameSelection vl' d.code rc c in
      rw d.result (
        same_boxes vl' (on_code vl' d.code rc c).0 (us ∷ history) k.candidate k.stable k.remaining
          (advance-Debounced vl history us c.fsm_now i d.selection d.selects))

  step_engage : Decoded vl us rc c r → (b : NormBox) → Engages b r.1 → Leading 4 b (us ∷ history)
  step_engage d b e =
      let vl' = advance_selection_fsm vl d.selection c.fsm_now in
      let k : Cleared vl' d.code rc c b =
        engage_needs_clearance vl' d.code rc c b (subst (λ x. Engages b x.1) d.result e) in
      (advance-Debounced vl history us c.fsm_now i d.selection d.selects).stable b k.selected

initial-Debounced : Debounced initial []
unfolding initial
initial-Debounced = record {
  at_most = omega arith;
  candidate = λ b e. ground arith;
  stable = λ b e. ground arith;
}

Reach-Debounced :
    (vl : VisionLockState) (history : List (List ℕ)) → Reach vl history → Debounced vl history
Reach-Debounced vl history start = initial-Debounced
Reach-Debounced vl history (frame {vl = vl0} {history = h} x us rc c r e) =
    step_Debounced vl0 h us rc c r (Reach-Debounced vl0 h x) (decoded vl0 us rc c r e)
Reach-Debounced vl history (engage_ends {vl = vl0} x box reply t) =
    engage-Debounced vl0 history box reply t (Reach-Debounced vl0 history x)

-- In every run of the handler from its start, with frames, ends of engages and clock readings in any
-- order: a frame that starts an engage of `b`, and the three frames before it, all select exactly
-- `b`. No corruption of one frame makes the drone engage a box that the operator did not hold.
pub engage_is_debounced :
    (vl : VisionLockState) (history : List (List ℕ)) (us : List ℕ) (rc : Option ℕ) (c : Clocks)
    (r : VisionLockState × List Task) (b : NormBox)
    → Reach vl history
    → on_channels vl us rc c ≡ some r
    → Engages b r.1
    → Leading 4 b (us ∷ history)
engage_is_debounced vl history us rc c r b x e g =
    step_engage vl history us rc c r (Reach-Debounced vl history x) (decoded vl us rc c r e) b g
