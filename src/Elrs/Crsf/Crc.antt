-- ===== src/Elrs/Crsf/Crc.antt =====
-- modules/elrs_telemetry/crsf.py: what the checksum detects.
use nova_robotics_drone_cont.Common.{
  ℕ, zero, suc, ◌+◌, ◌*◌, ◌/◌, ◌%◌, ◌<◌, ◌≡◌, refl, sym, ◌∙◌, ap, true, List, [], ◌∷◌, ◌++◌, arith,
  All, bit_and, bit_xor, ◌==◌, ==_iff, all_below, all_below_sound, if◌then◌else◌,
}
use nova_robotics_drone_cont.Common.Bits.{
  bit_and_mask, bit_xor-lt, bit_xor_injective, bit_xor_injective_right,
}
use nova_robotics_drone_cont.Elrs.Crsf.{crc_shift, crc_rounds, crc_from, crc8_dvbs2}

abbrev pub IsByte : ℕ → Type 0
IsByte b = b < 256

crc_shift-IsByte : (crc : ℕ) → IsByte (crc_shift crc)
unfolding crc_shift
crc_shift-IsByte crc =
    omega
      (arith, bit_and_mask 8 (if bit_and crc 0x80 == 0 then crc * 2 else bit_xor (crc * 2) 0xD5))

-- A round can be undone: the polynomial is odd, so the lowest bit tells what the top bit was.
unshift : ℕ → ℕ
unshift y = if y % 2 == 0 then y / 2 else bit_xor y 0xD5 / 2 + 128

undone_table : all_below 256 (λ x. unshift (crc_shift x) == x) ≡ true
unfolding all_below unshift crc_shift
undone_table = refl

crc_shift_undone : (x : ℕ) → IsByte x → unshift (crc_shift x) ≡ x
crc_shift_undone x h =
    (==_iff _ x).0 (all_below_sound 256 (λ x. unshift (crc_shift x) == x) x undone_table h)

crc_shift_injective : (x y : ℕ) → IsByte x → IsByte y → crc_shift x ≡ crc_shift y → x ≡ y
crc_shift_injective x y hx hy e = sym (crc_shift_undone x hx) ∙ ap unshift e ∙ crc_shift_undone y hy

crc_rounds-IsByte : (n x : ℕ) → IsByte x → IsByte (crc_rounds n x)
unfolding crc_rounds
crc_rounds-IsByte zero x h = h
crc_rounds-IsByte (suc n) x h = crc_rounds-IsByte n (crc_shift x) (crc_shift-IsByte x)

crc_rounds_injective : (n x y : ℕ) → IsByte x → IsByte y → crc_rounds n x ≡ crc_rounds n y → x ≡ y
unfolding crc_rounds
crc_rounds_injective zero x y hx hy e = e
crc_rounds_injective (suc n) x y hx hy e =
    crc_shift_injective x y hx hy (
      crc_rounds_injective n (crc_shift x) (crc_shift y) (crc_shift-IsByte x) (crc_shift-IsByte y)
        e)

module _ (c b : ℕ) (hc : IsByte c) (hb : IsByte b) where
  next_crc-IsByte : IsByte (crc_rounds 8 (bit_xor c b))
  next_crc-IsByte = crc_rounds-IsByte 8 (bit_xor c b) (bit_xor-lt 8 c b hc hb)

crc_from-IsByte : (bs : List ℕ) (c : ℕ) → IsByte c → All IsByte bs → IsByte (crc_from c bs)
unfolding crc_from
crc_from-IsByte [] c hc h = hc
crc_from-IsByte (b ∷ bs) c hc (hb, hbs) =
    crc_from-IsByte bs (crc_rounds 8 (bit_xor c b)) (next_crc-IsByte c b hc hb) hbs

-- A difference in the checksum so far is never lost.
crc_from_injective :
    (bs : List ℕ) (c c' : ℕ)
    → IsByte c
    → IsByte c'
    → All IsByte bs
    → crc_from c bs ≡ crc_from c' bs
    → c ≡ c'
unfolding crc_from
crc_from_injective [] c c' hc hc' h e = e
crc_from_injective (b ∷ bs) c c' hc hc' (hb, hbs) e = bit_xor_injective 8 c c' b hc hc' (
    crc_rounds_injective 8 (bit_xor c b) (bit_xor c' b) (bit_xor-lt 8 c b hc hb)
      (bit_xor-lt 8 c' b hc' hb)
      (crc_from_injective bs (crc_rounds 8 (bit_xor c b)) (crc_rounds 8 (bit_xor c' b))
        (next_crc-IsByte c b hc hb) (next_crc-IsByte c' b hc' hb) hbs e))

crc_from_detects :
    (front back : List ℕ) (c x y : ℕ)
    → IsByte c
    → All IsByte front
    → All IsByte back
    → IsByte x
    → IsByte y
    → crc_from c (front ++ (x ∷ back)) ≡ crc_from c (front ++ (y ∷ back))
    → x ≡ y
unfolding crc_from
crc_from_detects [] back c x y hc hf hb hx hy e = bit_xor_injective_right 8 c x y hx hy (
    crc_rounds_injective 8 (bit_xor c x) (bit_xor c y) (bit_xor-lt 8 c x hc hx)
      (bit_xor-lt 8 c y hc hy)
      (crc_from_injective back (crc_rounds 8 (bit_xor c x)) (crc_rounds 8 (bit_xor c y))
        (next_crc-IsByte c x hc hx) (next_crc-IsByte c y hc hy) hb e))
crc_from_detects (b ∷ front) back c x y hc (h, hf) hb hx hy e =
    crc_from_detects front back (crc_rounds 8 (bit_xor c b)) x y (next_crc-IsByte c b hc h) hf hb hx
      hy e

pub crc8-IsByte : (bs : List ℕ) → All IsByte bs → IsByte (crc8_dvbs2 bs)
unfolding crc8_dvbs2
crc8-IsByte bs h = crc_from-IsByte bs 0 (omega arith) h

-- Two byte strings that differ in one byte, and only there, have different checksums.
pub crc8_detects :
    (front back : List ℕ) (x y : ℕ)
    → All IsByte front
    → All IsByte back
    → IsByte x
    → IsByte y
    → crc8_dvbs2 (front ++ (x ∷ back)) ≡ crc8_dvbs2 (front ++ (y ∷ back))
    → x ≡ y
unfolding crc8_dvbs2
crc8_detects front back x y hf hb hx hy e =
    crc_from_detects front back 0 x y (omega arith) hf hb hx hy e
