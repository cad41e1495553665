-- ===== src/Elrs/Crsf/Units.antt =====
-- modules/elrs_telemetry/crsf.py: channel units and microseconds, and RC channels end to end.
use nova_robotics_drone_cont.Common.{
  ℕ, suc, ◌+◌, ◌-◌, ◌*◌, ◌/◌, ◌≤◌, ◌<◌, ◌≡◌, refl, sym, ◌∙◌, ap, true, List, [], ◌∷◌, ◌++◌, arith,
  All, length, map, append-nil,
}
use nova_robotics_drone_cont.Common.Bits.{bit_and_mask}
use nova_robotics_drone_cont.Common.Int.{pos}
use nova_robotics_drone_cont.Elrs.Crsf.{
  Frame, is_address, crsf_to_us, us_to_crsf, mask_11, pack_channels, unpack_channels, make_frame,
  make_rc_channels, frame_rc_channels_packed, feed, parse_loop,
}
use nova_robotics_drone_cont.Elrs.Crsf.Crc.{IsByte}
use nova_robotics_drone_cont.Elrs.Crsf.Channels.{pack_channels_shape, unpack_channels-pack_channels}
use nova_robotics_drone_cont.Elrs.Crsf.Parser.Frames.{bytes_or_nothing, parser_feed-wires}

-- Converting microseconds to channel units and back loses at most one microsecond.
crsf_to_us-us_to_crsf :
    (us : ℕ)
    → 880 ≤ us
    → us < 2160
    → let c = mask_11 (us_to_crsf us) in
      (us_to_crsf us ≡ pos c) × (crsf_to_us c ≤ us) × (us ≤ crsf_to_us c + 1)
unfolding crsf_to_us us_to_crsf
crsf_to_us-us_to_crsf us lo hi = ground (arith, bit_and_mask 11 ((us * 8 + 992 * 5 - 1500 * 8) / 5))

-- The other way round at most two units are lost.
us_to_crsf-crsf_to_us :
    (c : ℕ) → (d : ℕ) × (us_to_crsf (crsf_to_us c) ≡ pos d) × (d ≤ c) × (c ≤ d + 2)
unfolding crsf_to_us us_to_crsf
us_to_crsf-crsf_to_us c =
    let us : ℕ = (c * 5 + 1500 * 8 - 992 * 5) / 8 in
    ((us * 8 + 992 * 5 - 1500 * 8) / 5, ground arith, omega arith, omega arith)

-- Each value is met from below by at most one.
abbrev pub Near : List ℕ → List ℕ → Type 0
Near [] [] = Unit
Near (u ∷ us) (v ∷ vs) = (v ≤ u) × (u ≤ v + 1) × Near us vs
Near _ _ = ⊥

abbrev pub InRange : ℕ → Type 0
InRange us = (880 ≤ us) × (us < 2160)

received-Near :
    (us : List ℕ) → All InRange us → Near us (map crsf_to_us (map mask_11 (map us_to_crsf us)))
received-Near [] h = tt
received-Near (u ∷ us) ((lo, hi), h) =
    let c = crsf_to_us-us_to_crsf u lo hi in (c.1, c.2, received-Near us h)

length-map {ℓ κ} :
    {A : Type ℓ} {B : Type κ} (f : A → B) (xs : List A) → length (map f xs) ≡ length xs
length-map f [] = refl
length-map f (x ∷ xs) = ap suc (length-map f xs)

feed_nothing : feed [] [] ≡ ([], [])
unfolding feed parse_loop
feed_nothing = refl

-- One frame alone.
arrives :
    (source : ℕ) (p : List ℕ)
    → is_address source ≡ true
    → All IsByte p
    → length p ≤ 60
    → feed [] (bytes_or_nothing (make_frame source frame_rc_channels_packed p))
      ≡ ([], record { addr = source; ftype = frame_rc_channels_packed; payload = p } ∷ [])
arrives source p a b l =
    let f : Frame = record { addr = source; ftype = frame_rc_channels_packed; payload = p } in
    let bytes = bytes_or_nothing (make_frame source frame_rc_channels_packed p) in
    ap (feed []) (sym (append-nil bytes) ∙ sym (append-nil (bytes ++ [])))
    ∙ parser_feed-wires (f ∷ []) [] ((a, omega arith, b, l), tt)
    ∙ rw feed_nothing

-- Sixteen stick positions from 880 to 2159 microseconds, sent by `make_rc_channels` from a sync
-- address, reach the other end: an empty parser yields one RC frame and keeps nothing, and its
-- payload unpacks to positions at most one microsecond below those that were sent.
pub rc_channels_arrive :
    (us : List ℕ) (source : ℕ)
    → length us ≡ 16
    → All InRange us
    → is_address source ≡ true
    → (payload : List ℕ) × (feed [] (bytes_or_nothing (make_rc_channels us source))
        ≡ ([], record { addr = source; ftype = frame_rc_channels_packed; payload = payload } ∷ []))
      × Near us (map crsf_to_us (unpack_channels payload))
unfolding make_rc_channels
rc_channels_arrive us source l h a =
    let chs = map us_to_crsf us in
    let sixteen : length chs ≡ 16 = length-map us_to_crsf us ∙ l in
    let shape = pack_channels_shape chs sixteen in
    (
      pack_channels chs,
      arrives source (pack_channels chs) a shape.1 (omega (arith, shape.0)),
      rw (unpack_channels-pack_channels chs sixteen) (received-Near us h),
    )
