-- ===== src/Elrs/Crsf/Channels/Pack.antt =====
-- modules/elrs_telemetry/crsf.py: what `pack_channels` writes, as a number.
use nova_robotics_drone_cont.Common.{
  ℕ, zero, suc, ◌+◌, ◌-◌, ◌*◌, ◌/◌, ◌%◌, ◌^◌, ◌≤◌, ◌<◌, ◌≡◌, refl, sym, ◌∙◌, ap, subst, inl, inr,
  List, [], ◌∷◌, ◌++◌, arith, All, length, map, append_assoc, append-nil, length-append, All-append,
  leb-cases,
}
use nova_robotics_drone_cont.Common.Bits.{bit_and_mask, bit_or_fields, two_pow-add}
use nova_robotics_drone_cont.Common.Int.{ℤ, pos, negsuc}
use nova_robotics_drone_cont.Elrs.Crsf.{mask_11, Packer, flush, pack_loop}
use nova_robotics_drone_cont.Elrs.Crsf.Crc.{IsByte}
use nova_robotics_drone_cont.Elrs.Crsf.Channels.Digits.{value}

flush_done : (fuel : ℕ) (p : Packer) → p.bits < 8 → flush fuel p ≡ p
unfolding flush
flush_done zero p h = refl
flush_done (suc fuel) p h = ground arith

flush_once :
    (fuel : ℕ) (p : Packer)
    → 8 ≤ p.bits
    → flush (suc fuel) p
      ≡ flush fuel
          (record { out = p.out ++ (p.val % 256 ∷ []); val = p.val / 2 ^ 8; bits = p.bits - 8 })
unfolding flush
flush_once fuel p h = ground (arith, bit_and_mask 8 p.val)

-- `flush` writes one byte of a value of 8 to 15 bits, and two of one of 16 to 23.
flush_one :
    (p : Packer)
    → 8 ≤ p.bits
    → p.bits < 16
    → flush p.bits p
      ≡ record { out = p.out ++ (p.val % 256 ∷ []); val = p.val / 256; bits = p.bits - 8 }
flush_one p h k =
    let e : p.bits ≡ suc (p.bits - 1) = omega arith in
    ap (λ n. flush n p) e ∙ flush_once (p.bits - 1) p h ∙ flush_done (p.bits - 1) _ (omega arith)

flush_two :
    (p : Packer)
    → 16 ≤ p.bits
    → p.bits < 24
    → flush p.bits p ≡ record {
      out = p.out ++ (p.val % 256 ∷ p.val / 256 % 256 ∷ []);
      val = p.val / 256 / 256;
      bits = p.bits - 16;
    }
flush_two p h k =
    let e : p.bits ≡ suc (suc (p.bits - 2)) = omega arith in
    let q : Packer = record {
      out = p.out ++ (p.val % 256 ∷ []);
      val = p.val / 256;
      bits = p.bits - 8;
    } in
    ap (λ n. flush n p) e
    ∙ flush_once (suc (p.bits - 2)) p (omega arith)
    ∙ flush_once (p.bits - 2) q (omega arith)
    ∙ flush_done (p.bits - 2) _ (omega arith)
    ∙ ground (arith, append_assoc p.out (p.val % 256 ∷ []) (p.val / 256 % 256 ∷ []))

-- The bytes that `pack_loop` has still to write from `p` on, read as a number.
pub record Packs (p : Packer) (chs : List ℤ) (m : ℕ) : Type 0 where
  pub tail : List ℕ
  pub written : (pack_loop p chs).out ≡ p.out ++ tail
  pub sized : length tail ≡ m
  pub bytes : All IsByte tail
  pub valued : value 256 tail ≡ p.val + 2 ^ p.bits * value 2048 (map mask_11 chs)

pub mask_11-lt : (ch : ℤ) → mask_11 ch < 2048
mask_11-lt (pos n) = omega (arith, bit_and_mask 11 n)
mask_11-lt (negsuc n) = omega arith

-- A channel above what is left over of the last one.
module _ (p : Packer) (ch : ℤ) (h : p.val < 2 ^ p.bits) where
  filled : Packer
  filled = record { val = p.val + mask_11 ch * 2 ^ p.bits; bits = p.bits + 11; out = p.out }

  filled-lt : p.val + mask_11 ch * 2 ^ p.bits < 2048 * 2 ^ p.bits
  filled-lt = let c = mask_11-lt ch in grind arith

  pack_loop-cons :
      (chs : List ℤ) → pack_loop p (ch ∷ chs) ≡ pack_loop (flush (p.bits + 11) filled) chs
  unfolding pack_loop filled
  pack_loop-cons chs = rw (bit_or_fields p.bits p.val (mask_11 ch) h)

  -- What the rest writes, read as a number, is what this channel left over and the rest.
  Packs-cons :
      (chs : List ℤ) (q : Packer) (bytes : List ℕ) (m k : ℕ)
      → flush (p.bits + 11) filled ≡ q
      → q.out ≡ p.out ++ bytes
      → All IsByte bytes
      → length bytes + m ≡ k
      → ((rest : List ℕ)
          → value 256 rest ≡ q.val + 2 ^ q.bits * value 2048 (map mask_11 chs)
          → value 256 (bytes ++ rest) ≡ p.val + 2 ^ p.bits * value 2048 (map mask_11 (ch ∷ chs)))
      → Packs q chs m
      → Packs p (ch ∷ chs) k
  Packs-cons chs q bytes m k e o b l f r = record {
    tail = bytes ++ r.tail;
    written =
        ap (λ x. x.out) (pack_loop-cons chs)
        ∙ ap (λ x. (pack_loop x chs).out) e
        ∙ r.written
        ∙ ap (λ x. x ++ r.tail) o
        ∙ append_assoc p.out bytes r.tail;
    sized = omega (arith, length-append bytes r.tail, r.sized);
    bytes = All-append IsByte bytes r.tail b r.bytes;
    valued = f r.tail r.valued;
  }

-- The powers of two after one byte of eleven new bits, and after two.
one_power : (b : ℕ) → 2 ^ (b + 11 - 8) ≡ 2 ^ b * 8
one_power b = let e : b + 11 - 8 ≡ b + 3 = omega arith in ap (λ n. 2 ^ n) e ∙ two_pow-add b 3

two_power : (b : ℕ) → 16 ≤ b + 11 → 2 ^ b ≡ 2 ^ (b + 11 - 16) * 32
two_power b h =
    let e : b ≡ b + 11 - 16 + 5 = omega arith in ap (λ n. 2 ^ n) e ∙ two_pow-add (b + 11 - 16) 5

module _ (b c val l t : ℕ) where
  one_value :
      t ≡ (val + c * 2 ^ b) / 256 + 2 ^ (b + 11 - 8) * l
      → (val + c * 2 ^ b) % 256 + 256 * t ≡ val + 2 ^ b * (c + 2048 * l)
  one_value e = omega (arith, ap (λ (x : ℕ). x * l) (one_power b))

  two_value :
      16 ≤ b + 11
      → t ≡ (val + c * 2 ^ b) / 256 / 256 + 2 ^ (b + 11 - 16) * l
      → (val + c * 2 ^ b) % 256 + 256 * ((val + c * 2 ^ b) / 256 % 256 + 256 * t)
        ≡ val + 2 ^ b * (c + 2048 * l)
  two_value h e = omega (arith, ap (λ (x : ℕ). x * l) (two_power b h))

pub pack_loop-Packs :
    (chs : List ℤ) (p : Packer) (m : ℕ)
    → p.bits < 8
    → p.val < 2 ^ p.bits
    → p.bits + 11 * length chs ≡ 8 * m
    → Packs p chs m
unfolding value
pack_loop-Packs [] p m h k e = record {
  tail = [];
  written = unfold pack_loop in (sym (append-nil p.out));
  sized = omega arith;
  bytes = tt;
  valued =
      let z : p.bits ≡ 0 = omega arith in
      let k' : p.val < 1 = subst (λ n. p.val < 2 ^ n) z k in omega arith;
}
pack_loop-Packs (ch ∷ chs) p m h k e =
    let v : ℕ = p.val + mask_11 ch * 2 ^ p.bits in
    let l : ℕ = value 2048 (map mask_11 chs) in
    elim (leb-cases 16 (p.bits + 11)) [
      | inl two ↦
          let q : Packer = record {
            out = p.out ++ (v % 256 ∷ v / 256 % 256 ∷ []);
            val = v / 256 / 256;
            bits = p.bits + 11 - 16;
          } in
          Packs-cons p ch k chs q (v % 256 ∷ v / 256 % 256 ∷ []) (m - 2) m
            (unfold filled in flush_two (filled p ch k) two (omega arith)) refl (omega arith)
            (omega arith) (λ rest w. two_value p.bits (mask_11 ch) p.val l (value 256 rest) two w)
            (pack_loop-Packs chs q (m - 2) (omega arith)
              (omega (arith, two_power p.bits two, filled-lt p ch k)) (omega arith))
      | inr one ↦
          let q : Packer = record {
            out = p.out ++ (v % 256 ∷ []);
            val = v / 256;
            bits = p.bits + 11 - 8;
          } in
          Packs-cons p ch k chs q (v % 256 ∷ []) (m - 1) m
            (unfold filled in flush_one (filled p ch k) (omega arith) one) refl (omega arith)
            (omega arith) (λ rest w. one_value p.bits (mask_11 ch) p.val l (value 256 rest) w)
            (pack_loop-Packs chs q (m - 1) (omega arith)
              (omega (arith, one_power p.bits, filled-lt p ch k)) (omega arith))
    ]
