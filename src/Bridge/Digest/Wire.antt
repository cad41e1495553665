-- ===== src/Bridge/Digest/Wire.antt =====
-- modules/drone_bridge/digest.py: `pack` and `unpack`.
use nova_robotics_drone_cont.Common.{ℕ, Option, none, List, [], ◌∷◌, ◌==◌, if◌then◌else◌, length}
use nova_robotics_drone_cont.Bridge.Digest.{Snapshot, digest_fields, Digest, digest_of}
use nova_robotics_drone_cont.Bridge.Digest.Struct.{
  Code, u8, u16, u32, i16, i32, pack_all, unpack_all,
}

-- "<BBHiihhHhhhBBHI"
abbrev pub digest_format : List Code
digest_format =
    u8 ∷ u8 ∷ u16 ∷ i32 ∷ i32 ∷ i16 ∷ i16 ∷ u16 ∷ i16 ∷ i16 ∷ i16 ∷ u8 ∷ u8 ∷ u16 ∷ u32 ∷ []

abbrev pub digest_size : ℕ
digest_size = 32

-- `DigestSerializer.serialize`, with the uptime in milliseconds.
unfoldable pub pack_digest : Snapshot → ℕ → Option (List ℕ)
pack_digest s uptime_ms = pack_all digest_format (digest_fields s uptime_ms)

-- `none` is the `ValueError` of a wrong length.
unfoldable pub unpack : List ℕ → Option Digest
unpack buf = if length buf == digest_size then digest_of (unpack_all digest_format buf) else none
