-- ===== src/Bridge/VisionLock/Margins.antt =====
-- modules/drone_bridge/vision_lock.py: how far a channel may drift before it is misread.
use nova_robotics_drone_cont.Common.{
  ℕ, ◌+◌, ◌-◌, ◌*◌, ◌/◌, ◌≤◌, ◌<◌, ◌≡◌, refl, true, min, arith, inl, inr, ◌==◌, ==_iff, all_below,
  all_below_sound, leb-cases,
}
use nova_robotics_drone_cont.Bridge.VisionLock.Decode.{
  round_half_even, quantize_64, decode_ops_code,
}

-- The microseconds at which the sender puts position `pos` of the 64, on the span from 988 to 2012.
unfoldable pub wide_us : ℕ → ℕ
unfolding round_half_even
wide_us pos = 988 + round_half_even (pos * 1024) 63

positions_table : all_below 64 (λ pos. quantize_64 (wide_us pos) == pos) ≡ true
unfolding all_below quantize_64 wide_us
positions_table = refl

-- Every one of the 64 positions is read back as it was sent.
pub quantize_64-wide_us : (pos : ℕ) → pos < 64 → quantize_64 (wide_us pos) ≡ pos
quantize_64-wide_us pos h =
    (==_iff _ pos).0 (all_below_sound 64 (λ p. quantize_64 (wide_us p) == p) pos positions_table h)

codes_table : all_below 2000 (λ us. decode_ops_code us == min 15 ((us - 948) / 65)) ≡ true
unfolding all_below decode_ops_code
codes_table = refl

above_guard : (us : ℕ) → 2000 ≤ us → decode_ops_code us ≡ 15
unfolding decode_ops_code
above_guard us h = ground arith

-- The sixteen codes are bands of 65 microseconds: the first ends at 1012, the last begins at 1923,
-- and the guards and the roundings of the two steps of the decoder change nothing in this.
decode_ops_code-bands : (us : ℕ) → decode_ops_code us ≡ min 15 ((us - 948) / 65)
decode_ops_code-bands us = elim (leb-cases 2000 us) [
  | inl high ↦ rw (above_guard us high) (omega arith)
  | inr low ↦
      (==_iff _ (min 15 ((us - 948) / 65))).0 (
        all_below_sound 2000 (λ u. decode_ops_code u == min 15 ((u - 948) / 65)) us codes_table low)
]

-- A code sent at its centre is read right if the channel drifts by at most 40 microseconds down or
-- 24 up.
decode_ops_code_drift :
    (code us : ℕ)
    → code ≤ 15
    → wide_us (4 * code) ≤ us + 40
    → us ≤ wide_us (4 * code) + 24
    → decode_ops_code us ≡ code
decode_ops_code_drift code us h lo hi = omega (arith, decode_ops_code-bands us, centre code h)
  where
    centres : all_below 16 (λ c. wide_us (4 * c) == 988 + 65 * c) ≡ true
    centres = unfold all_below wide_us in refl

    centre : (c : ℕ) → c ≤ 15 → wide_us (4 * c) ≡ 988 + 65 * c
    centre c k =
        (==_iff _ (988 + 65 * c)).0
          (all_below_sound 16 (λ c. wide_us (4 * c) == 988 + 65 * c) c centres (omega arith))
