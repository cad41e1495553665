-- ===== src/Bridge/VisionLock/Decode.antt =====
-- modules/drone_bridge/vision_lock.py: channel microseconds to positions, codes and boxes.
use nova_robotics_drone_cont.Common.{
  ℕ, ◌+◌, ◌-◌, ◌*◌, ◌/◌, ◌%◌, ◌^◌, min, max, Bool, ◌&&◌, ◌||◌, not, Option, none, some, List,
  bit_and, ltb, leb, ◌==◌, if◌then◌else◌, get_elem?,
}
use nova_robotics_drone_cont.Common.Maybe.{◌>>=◌}

-- `round(n / d)`: to the nearest, and a half to the even neighbour.
unfoldable pub round_half_even : ℕ → ℕ → ℕ
round_half_even n d =
    let q : ℕ = n / d in
    let r : ℕ = n % d in
    if ltb (2 * r) d
    then q
    else (if ltb d (2 * r) then q + 1 else (if q % 2 == 0 then q else q + 1))

abbrev pub wide_us_min : ℕ
wide_us_min = 988

abbrev pub wide_us_max : ℕ
wide_us_max = 2012

abbrev pub wide_pos_max : ℕ
wide_pos_max = 63

abbrev pub min_guard_us : ℕ
min_guard_us = 1000

abbrev pub max_guard_us : ℕ
max_guard_us = 2000

abbrev pub norm_range : ℕ
norm_range = 1024

-- Both divisions are by 1024, which a float makes exactly.
unfoldable pub quantize_64 : ℕ → ℕ
unfolding round_half_even
quantize_64 us =
    if leb us min_guard_us
    then 0
    else (if leb max_guard_us us
        then wide_pos_max
        else round_half_even ((us - wide_us_min) * wide_pos_max) (wide_us_max - wide_us_min))

-- `pos * 1023 / 63` is never half way between two integers.
unfoldable pub decode_box_norm_from_us : ℕ → ℕ
unfolding quantize_64
decode_box_norm_from_us coord_us =
    round_half_even (quantize_64 coord_us * (norm_range - 1)) wide_pos_max

pub record Ch8 : Type 0 where
  pub button_code : ℕ
  pub box_valid : Bool
  pub source_code : ℕ

-- The deprecated bit-packed reading of channel 8.
unfoldable pub decode_ch8 : ℕ → Ch8
unfolding quantize_64
decode_ch8 ch8_us =
    let pos = quantize_64 ch8_us in
    record {
      button_code = bit_and pos 0b000111;
      box_valid = not (bit_and pos 0b001000 == 0);
      source_code = bit_and pos 0b110000 / 2 ^ 4;
    }

abbrev pub ops_code_idle : ℕ
ops_code_idle = 0

abbrev pub ops_code_src_front : ℕ
ops_code_src_front = 1

abbrev pub ops_code_src_ground : ℕ
ops_code_src_ground = 2

abbrev pub ops_code_src_vision : ℕ
ops_code_src_vision = 3

abbrev pub ops_code_vision_box : ℕ
ops_code_vision_box = 4

abbrev pub ops_code_btn_engage : ℕ
ops_code_btn_engage = 5

abbrev pub ops_code_btn_follow : ℕ
ops_code_btn_follow = 6

abbrev pub ops_code_btn_abort : ℕ
ops_code_btn_abort = 7

abbrev pub ops_code_btn_cancel_lock : ℕ
ops_code_btn_cancel_lock = 8

abbrev pub ops_code_escape : ℕ
ops_code_escape = 9

abbrev pub ops_code_min_reserved : ℕ
ops_code_min_reserved = 10

abbrev pub ops_code_max : ℕ
ops_code_max = 15

-- `code in BUTTON_CODES_REQUIRING_VISION_BOX`
abbrev pub is_button : ℕ → Bool
is_button code =
    code == ops_code_btn_engage
    || code == ops_code_btn_follow
    || code == ops_code_btn_abort
    || code == ops_code_btn_cancel_lock

abbrev pub is_reserved : ℕ → Bool
is_reserved code = leb ops_code_min_reserved code && leb code ops_code_max

unfoldable pub decode_ops_code : ℕ → ℕ
unfolding quantize_64
decode_ops_code us =
    if leb us min_guard_us
    then ops_code_idle
    else (if leb max_guard_us us
        then ops_code_max
        else (let code : ℕ = (quantize_64 us + 2) / 4 in max 0 (min ops_code_max code)))

pub record NormBox : Type 0 where
  pub x1 : ℕ
  pub y1 : ℕ
  pub x2 : ℕ
  pub y2 : ℕ

abbrev pub ch8_index : ℕ
ch8_index = 7

-- `none` is the `IndexError` of a frame with too few channels, `some none` is no selection.
unfoldable pub decode_selection : List ℕ → Option (Option NormBox)
decode_selection us = do
  ch8 ← get_elem? us ch8_index
  let code = decode_ops_code ch8
  if not (code == ops_code_vision_box) && not (is_button code) then some none else do
    bx1 ← get_elem? us 8
    by1 ← get_elem? us 9
    bx2 ← get_elem? us 10
    by2 ← get_elem? us 11
    some (
        some (record {
          x1 = decode_box_norm_from_us bx1;
          y1 = decode_box_norm_from_us by1;
          x2 = decode_box_norm_from_us bx2;
          y2 = decode_box_norm_from_us by2;
        }))
