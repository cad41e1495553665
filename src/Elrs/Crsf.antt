-- ===== src/Elrs/Crsf.antt =====
-- modules/elrs_telemetry/crsf.py: the CRSF codec and the byte-stream parser.
-- A byte is a number, a byte string a list. `none` is the `ValueError` of `bytes([...])`.
pub mod Crc
pub mod Channels
pub mod Units
mod Examples
pub mod Parser
use nova_robotics_drone_cont.Common.{
  ℕ, zero, suc, ◌+◌, ◌-◌, ◌*◌, ◌/◌, ◌^◌, Bool, true, false, ◌&&◌, ◌||◌, not, Option, none, some,
  List, [], ◌∷◌, ◌++◌, bit_and, bit_or, bit_xor, ltb, leb, ◌==◌, if◌then◌else◌, length, take, drop,
  get_or, map, replicate,
}
use nova_robotics_drone_cont.Common.Int.{ℤ, pos, negsuc, sub_ℕ}
use nova_robotics_drone_cont.Common.Maybe.{◌>>=◌}

abbrev pub addr_flight_ctrl : ℕ
addr_flight_ctrl = 0xC8

abbrev pub frame_rc_channels_packed : ℕ
frame_rc_channels_packed = 0x16

abbrev pub frame_link_stats : ℕ
frame_link_stats = 0x14

abbrev pub frame_device_info : ℕ
frame_device_info = 0x29

abbrev pub frame_battery_sensor : ℕ
frame_battery_sensor = 0x08

-- `bytes(xs)` of a list of integers.
abbrev pub bytes_of : List ℕ → Option (List ℕ)
bytes_of [] = some []
bytes_of (b ∷ bs) = do rest ← bytes_of bs; if ltb b 256 then some (b ∷ rest) else none

-- One of the eight rounds of the inner loop.
unfoldable pub crc_shift : ℕ → ℕ
crc_shift crc = bit_and (if bit_and crc 0x80 == 0 then crc * 2 else bit_xor (crc * 2) 0xD5) 0xFF

unfoldable pub crc_rounds : ℕ → ℕ → ℕ
unfolding crc_shift
crc_rounds zero crc = crc
crc_rounds (suc n) crc = crc_rounds n (crc_shift crc)

-- The outer loop, from the value that `crc` has reached.
unfoldable pub crc_from : ℕ → List ℕ → ℕ
unfolding crc_rounds
crc_from crc [] = crc
crc_from crc (b ∷ bs) = crc_from (crc_rounds 8 (bit_xor crc b)) bs

unfoldable pub crc8_dvbs2 : List ℕ → ℕ
unfolding crc_from
crc8_dvbs2 bytes = crc_from 0 bytes

unfoldable pub make_frame : ℕ → ℕ → List ℕ → Option (List ℕ)
make_frame addr frame_type payload = do
  kind ← bytes_of (frame_type ∷ [])
  let body = kind ++ payload
  head ← bytes_of (addr ∷ (length body + 1) ∷ [])
  tail ← bytes_of (crc8_dvbs2 body ∷ [])
  some (head ++ (body ++ tail))

-- `ch & 0x7FF`, on Python's two's complement integers.
abbrev pub mask_11 : ℤ → ℕ
mask_11 (pos n) = bit_and n 0x7FF
mask_11 (negsuc n) = 0x7FF - bit_and n 0x7FF

pub record Packer : Type 0 where
  pub bits : ℕ
  pub val : ℕ
  pub out : List ℕ

-- `while bits >= 8`: each round takes 8 bits, so `bits` rounds are enough.
unfoldable pub flush : ℕ → Packer → Packer
flush zero p = p
flush (suc fuel) p = elim (leb 8 p.bits) [
  | true ↦
      flush fuel (record {
        out = p.out ++ (bit_and p.val 0xFF ∷ []);
        val = p.val / 2 ^ 8;
        bits = p.bits - 8;
      })
  | false ↦ p
]

unfoldable pub pack_loop : Packer → List ℤ → Packer
unfolding flush
pack_loop p [] = p
pack_loop p (ch ∷ chs) =
    let bits = p.bits + 11 in
    pack_loop
      (flush bits
        (record { val = bit_or p.val (mask_11 ch * 2 ^ p.bits); bits = bits; out = p.out }))
      chs

abbrev pub sixteen : List ℤ → List ℤ
sixteen channels =
    if length channels == 16 then channels else take 16 (channels ++ replicate 16 (pos 992))

unfoldable pub pack_channels : List ℤ → List ℕ
unfolding pack_loop
pack_channels channels = (pack_loop (record { bits = 0; val = 0; out = [] }) (sixteen channels)).out

pub record Unpacker : Type 0 where
  pub channels : List ℕ
  pub bits : ℕ
  pub val : ℕ

-- `while bits >= 11 and len(channels) < 16`
unfoldable pub take_channels : ℕ → Unpacker → Unpacker
take_channels zero u = u
take_channels (suc fuel) u = elim (leb 11 u.bits && ltb (length u.channels) 16) [
  | true ↦ take_channels fuel (record {
    channels = u.channels ++ (bit_and u.val 0x7FF ∷ []);
    val = u.val / 2 ^ 11;
    bits = u.bits - 11;
  })
  | false ↦ u
]

unfoldable pub unpack_loop : Unpacker → List ℕ → Unpacker
unfolding take_channels
unpack_loop u [] = u
unpack_loop u (b ∷ bs) =
    let bits = u.bits + 8 in
    unpack_loop
      (take_channels bits
        (record { val = bit_or u.val (b * 2 ^ u.bits); bits = bits; channels = u.channels }))
      bs

unfoldable pub unpack_channels : List ℕ → List ℕ
unfolding unpack_loop
unpack_channels payload =
    take 16 (unpack_loop (record { channels = []; bits = 0; val = 0 }) payload).channels

-- `int((ch - 992) * 5 / 8 + 1500)`: the division by 8 is exact in binary, and for a channel value,
-- which is not negative, the sum is positive, so that `int` rounds it down.
unfoldable pub crsf_to_us : ℕ → ℕ
crsf_to_us ch = (ch * 5 + 1500 * 8 - 992 * 5) / 8

-- `int(q)` of the quotient of two integers cuts towards 0.
abbrev pub truncate : ℤ → ℕ → ℤ
truncate (pos n) d = pos (n / d)
truncate (negsuc n) d = sub_ℕ 0 (suc n / d)

-- `int((us - 1500) * 8 / 5 + 992)`: below 2 ^ 40 the float is nearer to the quotient than a tenth,
-- and a quotient by 5 that is not whole is a fifth away from an integer, so both are cut alike.
unfoldable pub us_to_crsf : ℕ → ℤ
us_to_crsf us = truncate (sub_ℕ (us * 8 + 992 * 5) (1500 * 8)) 5

unfoldable pub make_rc_channels : List ℕ → ℕ → Option (List ℕ)
unfolding us_to_crsf pack_channels make_frame
make_rc_channels channels_us source =
    make_frame source frame_rc_channels_packed (pack_channels (map us_to_crsf channels_us))

abbrev neg : ℕ → ℤ
neg n = sub_ℕ 0 n

-- `struct.unpack('b', ...)`
abbrev signed_byte : ℕ → ℤ
signed_byte b = if ltb b 128 then pos b else negsuc (255 - b)

pub record LinkStats : Type 0 where
  pub uplink_rssi_ant1 : ℤ
  pub uplink_rssi_ant2 : ℤ
  pub uplink_lq : ℕ
  pub uplink_snr : ℤ
  pub active_antenna : ℕ
  pub rf_mode : ℕ
  pub uplink_tx_power : ℕ
  pub downlink_rssi : ℤ
  pub downlink_lq : ℕ
  pub downlink_snr : ℤ

unfoldable pub parse_link_stats : List ℕ → Option LinkStats
parse_link_stats payload =
    if ltb (length payload) 10
    then none
    else some (record {
      uplink_rssi_ant1 = neg (get_or payload 0 0);
      uplink_rssi_ant2 = neg (get_or payload 1 0);
      uplink_lq = get_or payload 2 0;
      uplink_snr = signed_byte (get_or payload 3 0);
      active_antenna = get_or payload 4 0;
      rf_mode = get_or payload 5 0;
      uplink_tx_power = get_or payload 6 0;
      downlink_rssi = neg (get_or payload 7 0);
      downlink_lq = get_or payload 8 0;
      downlink_snr = signed_byte (get_or payload 9 0);
    })

-- What the parser yields: `frame[0], frame[2], frame[3:-1]`.
pub record Frame : Type 0 where
  pub addr : ℕ
  pub ftype : ℕ
  pub payload : List ℕ

abbrev pub is_address : ℕ → Bool
is_address b = b == 0xC8 || b == 0xEA || b == 0xEC || b == 0xEE || b == 0x00

-- What one round of the parser's loop does with its buffer: leave the loop, drop a byte, or take a
-- frame of so many bytes off the front.
pub data Round : Type 0 where
  wait skip : Round
  accept : ℕ → Round

unfoldable pub look : List ℕ → Round
look buf =
    let len = get_or buf 1 0 in
    let total = len + 2 in
    let frame = take total buf in
    if ltb (length buf) 3
    then wait
    else (if not (is_address (get_or buf 0 0))
        then skip
        else (if ltb len 2 || ltb 62 len
            then skip
            else (if ltb (length buf) total
                then wait
                else (if crc8_dvbs2 (drop 2 (take (total - 1) frame)) == get_or frame (total - 1) 0
                    then accept total
                    else skip))))

abbrev pub frame_of : List ℕ → Frame
frame_of frame = record {
  addr = get_or frame 0 0;
  ftype = get_or frame 2 0;
  payload = drop 3 (take (length frame - 1) frame);
}

abbrev pub yield_frame : Frame → List ℕ × List Frame → List ℕ × List Frame
yield_frame f (buf, frames) = (buf, f ∷ frames)

-- The parser's loop. Every round but the last takes a byte off the buffer.
unfoldable pub parse_loop : ℕ → List ℕ → List ℕ × List Frame
parse_loop zero buf = (buf, [])
parse_loop (suc fuel) buf = elim (look buf) [
  | wait ↦ (buf, [])
  | skip ↦ parse_loop fuel (drop 1 buf)
  | accept total ↦ yield_frame (frame_of (take total buf)) (parse_loop fuel (drop total buf))
]

-- `CRSFParser`, whose state is its buffer; `feed` is run to the end of its frames.
unfoldable pub feed : List ℕ → List ℕ → List ℕ × List Frame
feed buf bytes = parse_loop (length (buf ++ bytes)) (buf ++ bytes)
