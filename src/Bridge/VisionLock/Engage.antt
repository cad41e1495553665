-- ===== src/Bridge/VisionLock/Engage.antt =====
-- modules/drone_bridge/vision_lock.py: the asynchronous half of ENGAGE, rules 2b and 4.
-- Pixel coordinates are natural numbers.
use nova_robotics_drone_cont.Common.{
  ℕ, ◌+◌, ◌-◌, ◌*◌, min, max, Bool, true, false, ◌&&◌, ◌||◌, Option, none, some, List, [], ◌∷◌, ltb,
  leb, ◌==◌, if◌then◌else◌,
}
use nova_robotics_drone_cont.Bridge.VisionLock.Decode.{NormBox, round_half_even, norm_range}
use nova_robotics_drone_cont.Bridge.VisionLock.State.{VisionLockState, dispatched}

pub record PixelBox : Type 0 where
  pub x1 : ℕ
  pub y1 : ℕ
  pub x2 : ℕ
  pub y2 : ℕ

-- The reply of `/vision/state`: `frame_age_ms` is `none` if it is missing, null or negative, and
-- `locked_box` is `none` unless it is a list of four.
pub record VisionReply : Type 0 where
  pub frame_age_ms : Option ℕ
  pub locked_box : Option PixelBox
  pub frame_w : ℕ
  pub frame_h : ℕ

abbrev pub state_freshness_ms : ℕ
state_freshness_ms = 500

-- `IOU_IDEMPOTENCY_THRESHOLD`, as a fraction.
pub record Threshold : Type 0 where
  pub num : ℕ
  pub den : ℕ

pub record Overlap : Type 0 where
  pub inter : ℕ
  pub union : ℕ

area : ℕ → ℕ → ℕ → ℕ → ℕ
area x1 y1 x2 y2 = max 0 (x2 - x1) * max 0 (y2 - y1)

-- `_iou_xyxy`, as the fraction `inter / union`; 0 / 1 where it returns 0.0.
unfoldable pub iou_xyxy : PixelBox → PixelBox → Overlap
unfolding area
iou_xyxy a b =
    let inter = area (max a.x1 b.x1) (max a.y1 b.y1) (min a.x2 b.x2) (min a.y2 b.y2) in
    let union : ℕ = area a.x1 a.y1 a.x2 a.y2 + area b.x1 b.y1 b.x2 b.y2 - inter in
    if inter == 0 || union == 0
    then record { inter = 0; union = 1 }
    else record { inter = inter; union = union }

-- The divisions are by 1024, which a float makes exactly.
unfoldable pub norm_box_to_pixels : NormBox → ℕ → ℕ → PixelBox
norm_box_to_pixels box frame_w frame_h =
    let nx1 = round_half_even (min box.x1 box.x2 * frame_w) norm_range in
    let ny1 = round_half_even (min box.y1 box.y2 * frame_h) norm_range in
    let nx2 = round_half_even (max box.x1 box.x2 * frame_w) norm_range in
    let ny2 = round_half_even (max box.y1 box.y2 * frame_h) norm_range in
    let px1 = max 0 (min (frame_w - 2) nx1) in
    let py1 = max 0 (min (frame_h - 2) ny1) in
    record {
      x1 = px1;
      y1 = py1;
      x2 = max (px1 + 1) (min (frame_w - 1) nx2);
      y2 = max (py1 + 1) (min (frame_h - 1) ny2);
    }

-- `float(vstate.get("frame_age_ms") or -1)`, -1 as `none`: an age of 0 is false, so it is -1 too.
abbrev pub seq_age_ms : Option ℕ → Option ℕ
seq_age_ms none = none
seq_age_ms (some age) = if age == 0 then none else some age

abbrev pub is_stale : Option ℕ → Bool
is_stale none = true
is_stale (some age) = ltb state_freshness_ms age

-- `iou >= IOU_IDEMPOTENCY_THRESHOLD`
abbrev pub reaches : Overlap → Threshold → Bool
reaches o t = leb (t.num * o.union) (o.inter * t.den)

-- Rule 4: the selection is what is locked already.
same_target : Option PixelBox → NormBox → ℕ → ℕ → Threshold → Bool
same_target none box frame_w frame_h t = false
same_target (some locked) box frame_w frame_h t =
    ltb 0 frame_w
    && ltb 0 frame_h
    && reaches (iou_xyxy (norm_box_to_pixels box frame_w frame_h) locked) t

reject_stale : VisionLockState → VisionLockState
reject_stale vl = record vl { rejections_state_stale = vl.rejections_state_stale + 1 }

-- The boxes are those posted to `/vision/engage`; `none` is a probe that failed.
unfoldable pub engage_io_phase :
    VisionLockState → NormBox → Option VisionReply → Threshold → VisionLockState × List NormBox
unfolding reject_stale same_target
engage_io_phase vl box none t = (reject_stale vl, [])
engage_io_phase vl box (some reply) t =
    if is_stale (seq_age_ms reply.frame_age_ms)
    then (reject_stale vl, [])
    else (if same_target reply.locked_box box reply.frame_w reply.frame_h t
        then (record vl { rejections_idempotent = vl.rejections_idempotent + 1 }, [])
        else (record vl { events_engage = vl.events_engage + 1; phase = dispatched }, box ∷ []))
