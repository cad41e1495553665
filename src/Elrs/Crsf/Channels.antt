-- ===== src/Elrs/Crsf/Channels.antt =====
-- modules/elrs_telemetry/crsf.py: sixteen 11-bit channels in 22 bytes, and back.
mod Digits
mod Pack
mod Unpack
use nova_robotics_drone_cont.Common.{
  ℕ, ◌+◌, ◌*◌, ◌^◌, ◌<◌, ◌≡◌, refl, sym, ◌∙◌, ap, List, [], ◌∷◌, arith, All, length, take, take_all,
  map,
}
use nova_robotics_drone_cont.Common.Int.{ℤ}
use nova_robotics_drone_cont.Elrs.Crsf.{
  mask_11, Packer, pack_loop, sixteen, pack_channels, Unpacker, unpack_loop, unpack_channels,
}
use nova_robotics_drone_cont.Elrs.Crsf.Crc.{IsByte}
use Digits.{value, value_injective}
use Pack.{Packs, pack_loop-Packs, mask_11-lt}
use Unpack.{IsChannel, Unpacks, unpack_loop-Unpacks}

masked-IsChannel : (chs : List ℤ) → All IsChannel (map mask_11 chs)
masked-IsChannel [] = tt
masked-IsChannel (ch ∷ chs) = (mask_11-lt ch, masked-IsChannel chs)

length-masked : (chs : List ℤ) → length (map mask_11 chs) ≡ length chs
length-masked [] = refl
length-masked (ch ∷ chs) = omega (arith, length-masked chs)

packed : (chs : List ℤ) → length chs ≡ 16 → Packs (record { bits = 0; val = 0; out = [] }) chs 22
packed chs h =
    pack_loop-Packs chs (record { bits = 0; val = 0; out = [] }) 22 (omega arith) (omega arith)
      (omega arith)

sixteen_same : (chs : List ℤ) → length chs ≡ 16 → sixteen chs ≡ chs
sixteen_same chs h = ground arith

pack_channels_lem : (chs : List ℤ) (h : length chs ≡ 16) → pack_channels chs ≡ (packed chs h).tail
unfolding pack_channels
pack_channels_lem chs h =
    ap (λ c. (pack_loop (record { bits = 0; val = 0; out = [] }) c).out) (sixteen_same chs h)
    ∙ (packed chs h).written

-- Sixteen channels are packed into 22 bytes.
pub pack_channels_shape :
    (chs : List ℤ)
    → length chs ≡ 16
    → (length (pack_channels chs) ≡ 22) × All IsByte (pack_channels chs)
pack_channels_shape chs h = let p = packed chs h in rw (pack_channels_lem chs h) (p.sized, p.bytes)

-- Unpacking what was packed gives back the sixteen channels, each cut to its low 11 bits.
pub unpack_channels-pack_channels :
    (chs : List ℤ) → length chs ≡ 16 → unpack_channels (pack_channels chs) ≡ map mask_11 chs
unpack_channels-pack_channels chs h =
    let p = packed chs h in
    let u =
      unpack_loop-Unpacks p.tail (record { channels = []; bits = 0; val = 0 }) 16 (omega arith)
        (omega arith) (omega arith) (omega (arith, p.sized)) p.bytes in
    rw (pack_channels_lem chs h) (
      unfold unpack_channels in
      (ap (take 16) u.found
        ∙ take_all u.tail 16 (omega (arith, u.sized))
        ∙ value_injective 2048 u.tail (map mask_11 chs) u.fields (masked-IsChannel chs)
            (omega (arith, u.sized, length-masked chs)) (omega (arith, u.valued, p.valued))))
