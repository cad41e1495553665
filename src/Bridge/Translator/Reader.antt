-- ===== src/Bridge/Translator/Reader.antt =====
-- modules/drone_bridge/translator.py: what one message of the WebSocket does.
use nova_robotics_drone_cont.Common.{
  ℕ, ◌+◌, ◌≤◌, ◌≡◌, inl, inr, refl, ◌∙◌, ap, Bool, true, false, ◌||◌, Option, none, some, List,
  arith, ltb, ◌==◌, get_elem?, get_or, get_elem_full, Bool-cases, ◌&&◌, not, length, Option-cases,
}
use nova_robotics_drone_cont.Bridge.VisionLock.State.{VisionLockState, advance_selection_fsm}
use nova_robotics_drone_cont.Bridge.VisionLock.Decode.{
  NormBox, decode_selection, decode_ops_code, decode_box_norm_from_us, is_button,
}
use nova_robotics_drone_cont.Bridge.Translator.Parts.{edges_calm}
use nova_robotics_drone_cont.Bridge.VisionLock.Handler.{Task, Clocks, on_code, on_channels}
use nova_robotics_drone_cont.Bridge.Translator.{
  TranslatorState, Step, then_step, on_ch5, on_ch6, on_ch7, on_edges, mode_edge, mode_index_from_us,
  phone_mode_map,
}
use nova_robotics_drone_cont.Bridge.Translator.Receive.{Message, with_vision_lock, fanout, receive}

-- The fields that the edge handler leaves alone.
pub record Kept (s s' : TranslatorState) : Type 0 where
  pub crsf : s'.channels_crsf ≡ s.channels_crsf
  pub us : s'.channels_us ≡ s.channels_us
  pub rc : s'.last_rc_ts ≡ s.last_rc_ts
  pub frames : s'.frames_in ≡ s.frames_in
  pub vision : s'.vision_lock ≡ s.vision_lock

Kept-trans : (s t u : TranslatorState) → Kept s t → Kept t u → Kept s u
Kept-trans s t u k l = record {
  crsf = l.crsf ∙ k.crsf;
  us = l.us ∙ k.us;
  rc = l.rc ∙ k.rc;
  frames = l.frames ∙ k.frames;
  vision = l.vision ∙ k.vision;
}

on_ch5-Kept : (u : Option ℕ) (s : TranslatorState) → Kept s (on_ch5 u s).0
unfolding on_ch5
on_ch5-Kept none s = ground arith
on_ch5-Kept (some u) s = ground arith

on_ch6-Kept : (u : Option ℕ) (s : TranslatorState) → Kept s (on_ch6 u s).0
unfolding on_ch6
on_ch6-Kept none s = ground arith
on_ch6-Kept (some u) s = ground arith

mode_edge-Kept : (last : Option ℕ) (idx : ℕ) (s : TranslatorState) → Kept s (mode_edge last idx s).0
mode_edge-Kept none idx s = ground arith
mode_edge-Kept (some before) idx s = elim (Option-cases (phone_mode_map idx)) [
  | inl e ↦ ground arith
  | inr (x, e) ↦ ground arith
]

on_ch7-Kept : (u : Option ℕ) (s : TranslatorState) → Kept s (on_ch7 u s).0
unfolding on_ch7
on_ch7-Kept none s = ground arith
on_ch7-Kept (some u) s =
    (let k = mode_edge-Kept s.last_mode_idx (mode_index_from_us u) s in
      record { crsf = k.crsf; us = k.us; rc = k.rc; frames = k.frames; vision = k.vision })

then_step-Kept :
    (s : TranslatorState) (x : Step) (next : TranslatorState → Step)
    → Kept s x.0
    → ((t : TranslatorState) → Kept t (next t).0)
    → Kept s (then_step x next).0
then_step-Kept s (t, posts, true) next k l = k
then_step-Kept s (t, posts, false) next k l = Kept-trans s t (next t).0 k (l t)

pub on_edges-Kept : (s : TranslatorState) → Kept s (on_edges s).0
unfolding on_edges
on_edges-Kept s =
    then_step-Kept s (on_ch5 (get_elem? s.channels_us 4) s)
      (λ s5.
        then_step (on_ch6 (get_elem? s.channels_us 5) s5)
          (λ s6. on_ch7 (get_elem? s.channels_us 6) s6))
      (on_ch5-Kept (get_elem? s.channels_us 4) s)
      (λ t.
        then_step-Kept t (on_ch6 (get_elem? s.channels_us 5) t)
          (λ s6. on_ch7 (get_elem? s.channels_us 6) s6) (on_ch6-Kept (get_elem? s.channels_us 5) t)
          (λ v. on_ch7-Kept (get_elem? s.channels_us 6) v))

-- What every call leaves of the frame that came in.
pub fanout-Kept :
    (x : Step) (clocks : Clocks) (s : TranslatorState)
    → Kept s x.0
    → ((fanout x clocks).state.channels_crsf ≡ s.channels_crsf)
      × ((fanout x clocks).state.channels_us ≡ s.channels_us)
      × ((fanout x clocks).state.last_rc_ts ≡ s.last_rc_ts)
      × ((fanout x clocks).state.frames_in ≡ s.frames_in)
unfolding fanout
fanout-Kept (t, posts, true) clocks s k = (k.crsf, k.us, k.rc, k.frames)
fanout-Kept (t, posts, false) clocks s k =
    elim (Option-cases (on_channels t.vision_lock t.channels_us t.last_rc_ts clocks)) [
      | inl e ↦ rw e (k.crsf, k.us, k.rc, k.frames)
      | inr (r, e) ↦ rw e (k.crsf, k.us, k.rc, k.frames)
    ]

abbrev pub took_in : TranslatorState → Message → ℕ → TranslatorState
took_in state msg now = record state {
  channels_crsf = msg.channels_crsf;
  channels_us = msg.channels_us;
  last_rc_ts = some now;
  frames_in = state.frames_in + 1;
}

abbrev pub is_refused : Message → Bool
is_refused msg =
    length msg.channels_crsf == 0
    || length msg.channels_us == 0
    || ltb (length msg.channels_crsf) 16

module _ (s : TranslatorState) (msg : Message) (now : ℕ) (clocks : Clocks) where
  pub receive_refused : is_refused msg ≡ true → (receive s msg now clocks).state ≡ s
  unfolding receive
  receive_refused h = rw h refl

  pub receive_taken :
      is_refused msg ≡ false
      → receive s msg now clocks ≡ fanout (on_edges (took_in s msg now)) clocks
  unfolding receive
  receive_taken h = rw h refl

selection_total :
    (us : List ℕ)
    → 12 ≤ length us
    → (selection : Option NormBox) × (decode_selection us ≡ some selection)
unfolding decode_selection
selection_total us h =
    let code = decode_ops_code (get_or us 7 0) in
    elim (Bool-cases (not (code == 4) && not (is_button code))) [
      | inl e ↦ (none, rw (get_elem_full us 7 (omega arith), e) refl)
      | inr n ↦ (
        some (record {
          x1 = decode_box_norm_from_us (get_or us 8 0);
          y1 = decode_box_norm_from_us (get_or us 9 0);
          x2 = decode_box_norm_from_us (get_or us 10 0);
          y2 = decode_box_norm_from_us (get_or us 11 0);
        }),
        rw
            (
              get_elem_full us 7 (omega arith),
              n,
              get_elem_full us 8 (omega arith),
              get_elem_full us 9 (omega arith),
              get_elem_full us 10 (omega arith),
              get_elem_full us 11 (omega arith),
            )
            refl,
      )
    ]

on_channels_total :
    (vl : VisionLockState) (us : List ℕ) (rc : Option ℕ) (clocks : Clocks)
    → 12 ≤ length us
    → (r : VisionLockState × List Task) × (on_channels vl us rc clocks ≡ some r)
unfolding on_channels
on_channels_total vl us rc clocks h =
    let k = selection_total us h in
    (
      on_code (advance_selection_fsm vl k.0 clocks.fsm_now) (decode_ops_code (get_or us 7 0)) rc
          clocks,
      rw (k.1, get_elem_full us 7 (omega arith)) refl,
    )

fanout_calm :
    (x : Step) (clocks : Clocks)
    → x.2 ≡ false
    → fanout x clocks
      ≡ with_vision_lock x.0 x.1 (on_channels x.0.vision_lock x.0.channels_us x.0.last_rc_ts clocks)
unfolding fanout
fanout_calm (t, posts, true) clocks h = absurd (ground arith)
fanout_calm (t, posts, false) clocks h = refl

-- A message with at least 16 channels of CRSF and 12 of microseconds is taken in, and both handlers
-- get it: nothing is raised, the frame and its time are kept, and the vision lock moves on, with its
-- tasks, as its own handler does on exactly these channels.
receive_feeds_both :
    (s : TranslatorState) (msg : Message) (now : ℕ) (clocks : Clocks)
    → 16 ≤ length msg.channels_crsf
    → 12 ≤ length msg.channels_us
    → (r : VisionLockState × List Task) × (on_channels s.vision_lock msg.channels_us
          (some now)
          clocks
        ≡ some r)
      × ((receive s msg now clocks).tasks ≡ r.1)
      × ((receive s msg now clocks).state.vision_lock ≡ r.0)
      × ((receive s msg now clocks).posts ≡ (on_edges (took_in s msg now)).1)
      × ((receive s msg now clocks).raised ≡ false)
      × ((receive s msg now clocks).state.last_rc_ts ≡ some now)
      × ((receive s msg now clocks).state.frames_in ≡ s.frames_in + 1)
receive_feeds_both s msg now clocks h k =
    let t = on_channels_total s.vision_lock msg.channels_us (some now) clocks k in
    let e = on_edges-Kept (took_in s msg now) in
    let x = on_edges (took_in s msg now) in
    let given : on_channels x.0.vision_lock x.0.channels_us x.0.last_rc_ts clocks ≡ some t.0 =
      rw (e.vision, e.us, e.rc) t.1 in
    let whole : receive s msg now clocks ≡ with_vision_lock x.0 x.1 (some t.0) =
      receive_taken s msg now clocks (ground arith)
      ∙ fanout_calm x clocks (edges_calm (took_in s msg now) (omega arith))
      ∙ ap (with_vision_lock x.0 x.1) given in
    rw whole (t.0, t.1, refl, refl, refl, refl, e.rc, e.frames)
