-- ===== src/Bridge/Digest/Struct.antt =====
-- modules/drone_bridge/digest.py: the packing of integers that `struct` does, and back.
use nova_robotics_drone_cont.Common.{
  ℕ, ◌+◌, ◌-◌, ◌*◌, ◌^◌, ◌<◌, ◌≡◌, refl, sym, ap, Bool, true, false, Option, none, some, List, [],
  ◌∷◌, ◌++◌, ltb, if◌then◌else◌, length, take, drop, take-append, drop-append, length-append, arith,
}
use nova_robotics_drone_cont.Common.Maybe.{◌>>=◌}
use nova_robotics_drone_cont.Common.Int.{ℤ, pos, negsuc}
use nova_robotics_drone_cont.Common.Bytes.{le, of_le, of_le-le_2, of_le-le_4}

-- The format characters B, H, I, h and i.
pub data Code : Type 0 where
  u8 : Code
  u16 : Code
  u32 : Code
  i16 : Code
  i32 : Code

abbrev pub size : Code → ℕ
size u8 = 1
size u16 = 2
size u32 = 4
size i16 = 2
size i32 = 4

-- The least number of a signed code is minus its half range.
abbrev pub fits : Code → ℤ → Bool
fits u8 (pos n) = ltb n (2 ^ 8)
fits u16 (pos n) = ltb n (2 ^ 16)
fits u32 (pos n) = ltb n (2 ^ 32)
fits i16 (pos n) = ltb n (2 ^ 15)
fits i32 (pos n) = ltb n (2 ^ 31)
fits i16 (negsuc n) = ltb n (2 ^ 15)
fits i32 (negsuc n) = ltb n (2 ^ 31)
fits _ (negsuc n) = false

-- Two's complement.
abbrev pub wrap : ℕ → ℤ → ℕ
wrap m (pos n) = n
wrap m (negsuc n) = m - n - 1

abbrev pub pack_one : Code → ℤ → List ℕ
pack_one c z = le (size c) (wrap (2 ^ (8 * size c)) z)

abbrev pub signed : ℕ → ℕ → ℤ
signed m n = if ltb n (m - n) then pos n else negsuc (m - n - 1)

abbrev pub unpack_one : Code → List ℕ → ℤ
unpack_one u8 bs = pos (of_le bs)
unpack_one u16 bs = pos (of_le bs)
unpack_one u32 bs = pos (of_le bs)
unpack_one i16 bs = signed (2 ^ 16) (of_le bs)
unpack_one i32 bs = signed (2 ^ 32) (of_le bs)

-- `struct.pack`; `none` is the `struct.error`.
unfoldable pub pack_all : List Code → List ℤ → Option (List ℕ)
pack_all [] [] = some []
pack_all [] (z ∷ zs) = none
pack_all (c ∷ cs) [] = none
pack_all (c ∷ cs) (z ∷ zs) =
    let rest = pack_all cs zs in
    if fits c z then (rest >>= λ bs. some (pack_one c z ++ bs)) else none

unfoldable pub unpack_all : List Code → List ℕ → List ℤ
unpack_all [] bs = []
unpack_all (c ∷ cs) bs = unpack_one c (take (size c) bs) ∷ unpack_all cs (drop (size c) bs)

one_byte : (n : ℕ) → n < 2 ^ 8 → of_le (le 1 n) ≡ n
one_byte n h = omega arith

-- A number that fits comes back.
unpack_one-pack_one : (c : Code) (z : ℤ) → fits c z ≡ true → unpack_one c (pack_one c z) ≡ z
unpack_one-pack_one u8 (pos n) h = ap pos (one_byte n (ground arith))
unpack_one-pack_one u16 (pos n) h = ap pos (of_le-le_2 n (ground arith))
unpack_one-pack_one u32 (pos n) h = ap pos (of_le-le_4 n (ground arith))
unpack_one-pack_one i16 (pos n) h = rw (of_le-le_2 n (ground arith)) (ground arith)
unpack_one-pack_one i32 (pos n) h = rw (of_le-le_4 n (ground arith)) (ground arith)
unpack_one-pack_one u8 (negsuc n) h = absurd (ground arith)
unpack_one-pack_one u16 (negsuc n) h = absurd (ground arith)
unpack_one-pack_one u32 (negsuc n) h = absurd (ground arith)
unpack_one-pack_one i16 (negsuc n) h =
    rw (of_le-le_2 (2 ^ 16 - n - 1) (ground arith)) (ground arith)
unpack_one-pack_one i32 (negsuc n) h =
    rw (of_le-le_4 (2 ^ 32 - n - 1) (ground arith)) (ground arith)

-- All values fit their codes.
abbrev pub Fit : List Code → List ℤ → Type 0
Fit [] [] = Unit
Fit (c ∷ cs) (z ∷ zs) = (fits c z ≡ true) × Fit cs zs
Fit _ _ = ⊥

abbrev pub sizes : List Code → ℕ
sizes [] = 0
sizes (c ∷ cs) = size c + sizes cs

length-pack_one : (c : Code) (z : ℤ) → length (pack_one c z) ≡ size c
length-pack_one u8 z = refl
length-pack_one u16 z = refl
length-pack_one u32 z = refl
length-pack_one i16 z = refl
length-pack_one i32 z = refl

abbrev pub packed : List Code → List ℤ → List ℕ
packed [] zs = []
packed (c ∷ cs) [] = []
packed (c ∷ cs) (z ∷ zs) = pack_one c z ++ packed cs zs

pub pack_all_lem : (cs : List Code) (zs : List ℤ) → Fit cs zs → pack_all cs zs ≡ some (packed cs zs)
unfolding pack_all
pack_all_lem [] [] f = refl
pack_all_lem [] (z ∷ zs) f = elim f [ ]
pack_all_lem (c ∷ cs) [] f = elim f [ ]
pack_all_lem (c ∷ cs) (z ∷ zs) f = rw (f.0, pack_all_lem cs zs f.1) refl

pub length-packed : (cs : List Code) (zs : List ℤ) → Fit cs zs → length (packed cs zs) ≡ sizes cs
length-packed [] zs f = refl
length-packed (c ∷ cs) [] f = elim f [ ]
length-packed (c ∷ cs) (z ∷ zs) f = omega (
  arith,
  length-append (pack_one c z) (packed cs zs),
  length-pack_one c z,
  length-packed cs zs f.1,
)

pub unpack_all-packed :
    (cs : List Code) (zs : List ℤ) → Fit cs zs → unpack_all cs (packed cs zs) ≡ zs
unfolding unpack_all
unpack_all-packed [] [] f = refl
unpack_all-packed [] (z ∷ zs) f = elim f [ ]
unpack_all-packed (c ∷ cs) [] f = elim f [ ]
unpack_all-packed (c ∷ cs) (z ∷ zs) f =
    rw
      (
        take-append (pack_one c z) (packed cs zs) (size c) (sym (length-pack_one c z)),
        drop-append (pack_one c z) (packed cs zs) (size c) (sym (length-pack_one c z)),
        unpack_one-pack_one c z f.0,
        unpack_all-packed cs zs f.1,
      )
      refl
