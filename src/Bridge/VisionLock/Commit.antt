-- ===== src/Bridge/VisionLock/Commit.antt =====
-- modules/drone_bridge/vision_lock.py: which engages reach drone-control.
use nova_robotics_drone_cont.Common.{
  ℕ, zero, suc, ◌⊎◌, length, ◌||◌, if◌then◌else◌, ◌+◌, ◌-◌, ◌*◌, ◌≤◌, ◌<◌, ◌≡◌, min, max, Option,
  none, some, List, [], ◌∷◌, arith, ◌==◌,
}
use nova_robotics_drone_cont.Bridge.VisionLock.Decode.{NormBox}
use nova_robotics_drone_cont.Bridge.VisionLock.State.{VisionLockState}
use nova_robotics_drone_cont.Bridge.VisionLock.Engage.{
  PixelBox, VisionReply, Threshold, Overlap, iou_xyxy, norm_box_to_pixels, engage_io_phase,
}

pub record InFrame (b : PixelBox) (w h : ℕ) : Type 0 where
  pub x_order : b.x1 < b.x2
  pub y_order : b.y1 < b.y2
  pub x_bound : b.x2 < w
  pub y_bound : b.y2 < h

abbrev pub whole : ℕ → Overlap
whole s = record { inter = s; union = s }

min_self : (n : ℕ) → min n n ≡ n
min_self n = omega arith

max_self : (n : ℕ) → max n n ≡ n
max_self n = omega arith

-- In a frame of at least 2 by 2 pixels any box on the 0..1023 scale, its corners in any order, becomes
-- a box of at least one pixel that lies in the frame.
norm_box_to_pixels-InFrame :
    (box : NormBox) (w h : ℕ) → 2 ≤ w → 2 ≤ h → InFrame (norm_box_to_pixels box w h) w h
unfolding norm_box_to_pixels
norm_box_to_pixels-InFrame box w h hw hh = record {
  x_order = omega arith;
  y_order = omega arith;
  x_bound = omega arith;
  y_bound = omega arith;
}

mul_pos : (m n : ℕ) → 1 ≤ m → 1 ≤ n → 1 ≤ m * n
mul_pos zero n hm hn = omega arith
mul_pos (suc m) n hm hn = omega arith

mul_le_swap : (m n s : ℕ) → m ≤ n → m * s ≤ s * n
mul_le_swap m n zero h = omega arith
mul_le_swap m n (suc s) h = omega (arith, mul_le_swap m n s h)

overlap :
    (s : ℕ)
    → 1 ≤ s
    → (if s == 0 || (s + s - s) == 0
        then record { inter = 0; union = 1 }
        else record { inter = s; union = s + s - s })
      ≡ whole s
overlap s h = ground arith

-- A box overlaps itself wholly.
iou_self : (a : PixelBox) (w h : ℕ) → InFrame a w h → (s : ℕ) × (1 ≤ s) × (iou_xyxy a a ≡ whole s)
unfolding iou_xyxy
iou_self a w h k =
    let s : ℕ = max 0 (a.x2 - a.x1) * max 0 (a.y2 - a.y1) in
    let p : 1 ≤ s =
      mul_pos (max 0 (a.x2 - a.x1)) (max 0 (a.y2 - a.y1)) (let e = k.x_order in omega arith)
        (let e = k.y_order in omega arith) in
    (s, p, rw (min_self a.x2, min_self a.y2, max_self a.x1, max_self a.y1) (overlap s p))

-- An engage of the very box that is locked, on a state read that is fresh, is refused as already done
-- and nothing is posted.
relock_is_refused :
    (vl : VisionLockState) (box : NormBox) (age w h : ℕ) (t : Threshold)
    → 1 ≤ age
    → age ≤ 500
    → 2 ≤ w
    → 2 ≤ h
    → t.num ≤ t.den
    → engage_io_phase vl box
        (some (record {
          frame_age_ms = some age;
          locked_box = some (norm_box_to_pixels box w h);
          frame_w = w;
          frame_h = h;
        }))
        t
      ≡ (record vl { rejections_idempotent = vl.rejections_idempotent + 1 }, [])
unfolding engage_io_phase
relock_is_refused vl box age w h t lo hi hw hh ht =
    let s = iou_self (norm_box_to_pixels box w h) w h (norm_box_to_pixels-InFrame box w h hw hh) in
    rw s.2 (ground (arith, mul_le_swap t.num t.den s.0 ht))

module _ (vl : VisionLockState) (box : NormBox) (age w h : ℕ) (t : Threshold) where
  abbrev pub unlocked : VisionLockState × List NormBox
  unlocked =
      engage_io_phase vl box
        (some (record { frame_age_ms = some age; locked_box = none; frame_w = w; frame_h = h })) t

  -- Either the box is posted, or the reply counts as stale.
  abbrev pub Answer : Type 0
  Answer =
      ((1 ≤ age)
        × (age ≤ 500)
        × (unlocked.1 ≡ box ∷ [])
        × (unlocked.0.events_engage ≡ vl.events_engage + 1)
        × (unlocked.0.rejections_state_stale ≡ vl.rejections_state_stale))
      ⊎ (((age ≡ 0) ⊎ (500 < age))
          × (unlocked.1 ≡ [])
          × (unlocked.0.events_engage ≡ vl.events_engage)
          × (unlocked.0.rejections_state_stale ≡ vl.rejections_state_stale + 1))

  -- A reply with no box locked is committed, and its box posted, if its frame is 1 to 500 ms old. It is
  -- refused as stale if the frame is older, or is 0 ms old: the freshest frame counts as one of unknown
  -- age.
  pub commit_needs_age : Answer
  unfolding engage_io_phase
  commit_needs_age = ground arith

module _ (vl : VisionLockState) (box : NormBox) (reply : Option VisionReply) (t : Threshold) where
  abbrev pub answer : VisionLockState × List NormBox
  answer = engage_io_phase vl box reply t

  abbrev pub Answered : Type 0
  Answered =
      (length answer.1 + vl.events_engage ≡ answer.0.events_engage)
      × (answer.0.events_engage + answer.0.rejections_state_stale + answer.0.rejections_idempotent
          ≡ vl.events_engage + vl.rejections_state_stale + vl.rejections_idempotent + 1)
      × (answer.0.stable_box ≡ vl.stable_box)

  -- Every engage that is started ends in exactly one of these, a failed probe included: one post and
  -- one counted engage, or no post and one counted rejection; what is selected stays selected.
  pub probe_answered : Answered
  unfolding engage_io_phase
  probe_answered = ground arith
