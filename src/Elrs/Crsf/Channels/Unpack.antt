-- ===== src/Elrs/Crsf/Channels/Unpack.antt =====
-- modules/elrs_telemetry/crsf.py: what `unpack_channels` reads, as a number.
use nova_robotics_drone_cont.Common.{
  ℕ, zero, suc, ◌+◌, ◌-◌, ◌*◌, ◌/◌, ◌%◌, ◌^◌, ◌≤◌, ◌<◌, ◌≡◌, refl, sym, ◌∙◌, ap, subst, inl, inr,
  List, [], ◌∷◌, ◌++◌, arith, All, All-append, length, length-append, append_assoc, append-nil,
  leb-cases,
}
use nova_robotics_drone_cont.Common.Bits.{bit_and_mask, bit_or_fields, two_pow-add}
use nova_robotics_drone_cont.Elrs.Crsf.{Unpacker, take_channels, unpack_loop}
use nova_robotics_drone_cont.Elrs.Crsf.Crc.{IsByte}
use nova_robotics_drone_cont.Elrs.Crsf.Channels.Digits.{value}

abbrev pub IsChannel : ℕ → Type 0
IsChannel c = c < 2048

take_channels_done : (fuel : ℕ) (u : Unpacker) → u.bits < 11 → take_channels fuel u ≡ u
unfolding take_channels
take_channels_done zero u h = refl
take_channels_done (suc fuel) u h = ground arith

take_channels_once :
    (u : Unpacker)
    → 11 ≤ u.bits
    → u.bits < 22
    → length u.channels < 16
    → take_channels u.bits u ≡ record {
      channels = u.channels ++ (u.val % 2048 ∷ []);
      val = u.val / 2048;
      bits = u.bits - 11;
    }
unfolding take_channels
take_channels_once u h k l =
    let e : u.bits ≡ suc (u.bits - 1) = omega arith in
    let u' : Unpacker = record {
      channels = u.channels ++ (u.val % 2048 ∷ []);
      val = u.val / 2048;
      bits = u.bits - 11;
    } in
    ap (λ n. take_channels n u) e
    ∙ ground (arith, bit_and_mask 11 u.val, take_channels_done (u.bits - 1) u')

-- The channels that `unpack_loop` has still to read from `u` on.
pub record Unpacks (u : Unpacker) (bs : List ℕ) (k : ℕ) : Type 0 where
  pub tail : List ℕ
  pub found : (unpack_loop u bs).channels ≡ u.channels ++ tail
  pub sized : length tail ≡ k
  pub fields : All IsChannel tail
  pub valued : value 2048 tail ≡ u.val + 2 ^ u.bits * value 256 bs

module _ (u : Unpacker) (b : ℕ) (h : u.val < 2 ^ u.bits) where
  loaded : Unpacker
  loaded = record { val = u.val + b * 2 ^ u.bits; bits = u.bits + 8; channels = u.channels }

  loaded-lt : IsByte b → u.val + b * 2 ^ u.bits < 256 * 2 ^ u.bits
  loaded-lt c = grind arith

  unpack_loop-cons :
      (bs : List ℕ) → unpack_loop u (b ∷ bs) ≡ unpack_loop (take_channels (u.bits + 8) loaded) bs
  unfolding unpack_loop loaded
  unpack_loop-cons bs = rw (bit_or_fields u.bits u.val b h)

  Unpacks-cons :
      (bs : List ℕ) (q : Unpacker) (fields : List ℕ) (m k : ℕ)
      → take_channels (u.bits + 8) loaded ≡ q
      → q.channels ≡ u.channels ++ fields
      → All IsChannel fields
      → length fields + m ≡ k
      → ((rest : List ℕ)
          → value 2048 rest ≡ q.val + 2 ^ q.bits * value 256 bs
          → value 2048 (fields ++ rest) ≡ u.val + 2 ^ u.bits * value 256 (b ∷ bs))
      → Unpacks q bs m
      → Unpacks u (b ∷ bs) k
  Unpacks-cons bs q fields m k e o c l f r = record {
    tail = fields ++ r.tail;
    found =
        ap (λ x. x.channels) (unpack_loop-cons bs)
        ∙ ap (λ x. (unpack_loop x bs).channels) e
        ∙ r.found
        ∙ ap (λ x. x ++ r.tail) o
        ∙ append_assoc u.channels fields r.tail;
    sized = omega (arith, length-append fields r.tail, r.sized);
    fields = All-append IsChannel fields r.tail c r.fields;
    valued = f r.tail r.valued;
  }

eight_power : (b : ℕ) → 2 ^ (b + 8) ≡ 2 ^ b * 256
eight_power b = two_pow-add b 8

field_power : (b : ℕ) → 11 ≤ b + 8 → 2 ^ b ≡ 2 ^ (b + 8 - 11) * 8
field_power b h =
    let e : b ≡ b + 8 - 11 + 3 = omega arith in ap (λ n. 2 ^ n) e ∙ two_pow-add (b + 8 - 11) 3

module _ (b c val l t : ℕ) where
  kept_value : t ≡ val + c * 2 ^ b + 2 ^ (b + 8) * l → t ≡ val + 2 ^ b * (c + 256 * l)
  kept_value e = omega (arith, ap (λ (x : ℕ). x * l) (eight_power b))

  field_value :
      11 ≤ b + 8
      → t ≡ (val + c * 2 ^ b) / 2048 + 2 ^ (b + 8 - 11) * l
      → (val + c * 2 ^ b) % 2048 + 2048 * t ≡ val + 2 ^ b * (c + 256 * l)
  field_value h e = omega (arith, ap (λ (x : ℕ). x * l) (field_power b h))

pub unpack_loop-Unpacks :
    (bs : List ℕ) (u : Unpacker) (k : ℕ)
    → u.bits < 11
    → u.val < 2 ^ u.bits
    → length u.channels + k ≡ 16
    → u.bits + 8 * length bs ≡ 11 * k
    → All IsByte bs
    → Unpacks u bs k
unfolding value
unpack_loop-Unpacks [] u k h f n e hb = record {
  tail = [];
  found = unfold unpack_loop in (sym (append-nil u.channels));
  sized = omega arith;
  fields = tt;
  valued =
      let z : u.bits ≡ 0 = omega arith in
      let f' : u.val < 1 = subst (λ n. u.val < 2 ^ n) z f in omega arith;
}
unpack_loop-Unpacks (b ∷ bs) u k h f n e (hb, hbs) =
    let v : ℕ = u.val + b * 2 ^ u.bits in
    let l : ℕ = value 256 bs in
    elim (leb-cases 11 (u.bits + 8)) [
      | inl full ↦
          let q : Unpacker = record {
            channels = u.channels ++ (v % 2048 ∷ []);
            val = v / 2048;
            bits = u.bits + 8 - 11;
          } in
          Unpacks-cons u b f bs q (v % 2048 ∷ []) (k - 1) k
            (unfold loaded in take_channels_once (loaded u b f) full (omega arith) (omega arith))
            refl (omega arith) (omega arith)
            (λ rest w. field_value u.bits b u.val l (value 2048 rest) full w)
            (unpack_loop-Unpacks bs q (k - 1) (omega arith)
              (omega (arith, field_power u.bits full, loaded-lt u b f hb))
              (omega (arith, length-append u.channels (v % 2048 ∷ []))) (omega arith) hbs)
      | inr part ↦
          let q : Unpacker = record { channels = u.channels; val = v; bits = u.bits + 8 } in
          Unpacks-cons u b f bs q [] k k
            (unfold loaded in take_channels_done (u.bits + 8) (loaded u b f) part)
            (sym (append-nil u.channels)) tt (omega arith)
            (λ rest w. kept_value u.bits b u.val l (value 2048 rest) w)
            (unpack_loop-Unpacks bs q k part (omega (arith, eight_power u.bits, loaded-lt u b f hb))
              n (omega arith) hbs)
    ]
