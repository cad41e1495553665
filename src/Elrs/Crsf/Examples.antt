-- ===== src/Elrs/Crsf/Examples.antt =====
-- modules/elrs_telemetry/crsf.py: concrete runs, and the theorems at concrete inputs.
use nova_robotics_drone_cont.Common.{ℕ, ◌≡◌, refl, none, List, [], ◌∷◌, ◌++◌, arith, map, replicate}
use nova_robotics_drone_cont.Common.Int.{ℤ, pos, negsuc}
use nova_robotics_drone_cont.Elrs.Crsf.{
  Frame, skip, look, mask_11, crc8_dvbs2, make_frame, pack_channels, unpack_channels, crsf_to_us,
  us_to_crsf, make_rc_channels, frame_rc_channels_packed, parse_link_stats, feed,
}
use nova_robotics_drone_cont.Elrs.Crsf.Channels.{unpack_channels-pack_channels}
use nova_robotics_drone_cont.Elrs.Crsf.Units.{Near, rc_channels_arrive}
use nova_robotics_drone_cont.Elrs.Crsf.Parser.{Ensures, parser_feed-Ensures}
use nova_robotics_drone_cont.Elrs.Crsf.Parser.Frames.{
  before, bytes_or_nothing, wires, parser_feed-wires, on_wire, in_body, look_damaged,
}

-- "123456789" under CRC-8/DVB-S2.
check_value : crc8_dvbs2 (0x31 ∷ 0x32 ∷ 0x33 ∷ 0x34 ∷ 0x35 ∷ 0x36 ∷ 0x37 ∷ 0x38 ∷ 0x39 ∷ []) ≡ 0xBC
unfolding crc8_dvbs2
check_value = refl

abbrev sticks : List ℤ
sticks = map pos (172 ∷ 992 ∷ 1811 ∷ 1000 ∷ replicate 11 992) ++ (negsuc 0 ∷ [])

pack_runs : unpack_channels (pack_channels sticks) ≡ map mask_11 sticks
unfolding pack_channels unpack_channels
pack_runs = refl

frame_too_long : make_frame 0xC8 0x16 (replicate 254 0) ≡ none
unfolding make_frame crc8_dvbs2
frame_too_long = refl

link_stats_short : parse_link_stats (replicate 9 0) ≡ none
unfolding parse_link_stats
link_stats_short = refl

units : (crsf_to_us 992 ≡ 1500) × (us_to_crsf 1500 ≡ pos 992) × (us_to_crsf 860 ≡ negsuc 31)
unfolding crsf_to_us us_to_crsf
units = (refl, refl, refl)

unpack_channels-pack_channels_example : unpack_channels (pack_channels sticks) ≡ map mask_11 sticks
unpack_channels-pack_channels_example = unpack_channels-pack_channels sticks refl

abbrev positions : List ℕ
positions = 988 ∷ 1500 ∷ 2012 ∷ 1501 ∷ replicate 12 1600

rc_channels_arrive_example :
    (payload : List ℕ) × (feed [] (bytes_or_nothing (make_rc_channels positions 0xC8))
      ≡ ([], record { addr = 0xC8; ftype = frame_rc_channels_packed; payload = payload } ∷ []))
    × Near positions (map crsf_to_us (unpack_channels payload))
rc_channels_arrive_example = rc_channels_arrive positions 0xC8 refl (omega arith) refl

parser_feed-Ensures_example : Ensures (feed (0xC8 ∷ []) (0x04 ∷ 0x21 ∷ 0x41 ∷ 0x00 ∷ 0x99 ∷ []))
parser_feed-Ensures_example =
    parser_feed-Ensures (0xC8 ∷ []) (0x04 ∷ 0x21 ∷ 0x41 ∷ 0x00 ∷ 0x99 ∷ [])

abbrev mode_frame : Frame
mode_frame = record { addr = 0xC8; ftype = 0x21; payload = 0x41 ∷ 0x00 ∷ [] }

parser_feed-wires_example :
    feed [] (wires (mode_frame ∷ []) ++ (0xEE ∷ []))
    ≡ before (mode_frame ∷ []) (feed [] (0xEE ∷ []))
parser_feed-wires_example =
    parser_feed-wires (mode_frame ∷ []) (0xEE ∷ [])
      ((refl, omega arith, omega arith, omega arith), tt)

-- The type byte 0x21 read as 0x20.
look_damaged_example :
    look (on_wire 0xC8 (0x20 ∷ 0x41 ∷ []) (crc8_dvbs2 (0x21 ∷ 0x41 ∷ [])) ++ (1 ∷ [])) ≡ skip
look_damaged_example =
    look_damaged 0xC8 (crc8_dvbs2 (0x21 ∷ 0x41 ∷ [])) (0x21 ∷ 0x41 ∷ []) (0x20 ∷ 0x41 ∷ []) (1 ∷ [])
      refl (omega arith) (omega arith) (omega arith) (omega arith)
      (in_body [] (0x41 ∷ []) 0x21 0x20 (omega arith) refl refl refl)
