-- ===== src/Bridge/Digest/Accuracy.antt =====
-- modules/drone_bridge/digest.py: how near a field is to its value, and where the range ends.
use nova_robotics_drone_cont.Common.{
  ℕ, suc, ◌≡◌, sym, ap, ◌∙◌, subst, some, List, arith, leb-cases, inl, inr,
}
use nova_robotics_drone_cont.Common.Int.{ℤ, pos, negsuc, ◌≤ℤ◌}
use nova_robotics_drone_cont.Common.Frac.{Frac, int, over, mul, ◌≤F◌, mul_le}
use nova_robotics_drone_cont.Bridge.Digest.{
  Float, Snapshot, clamp, clamp_round, round, per, times, i16_of, Digest,
}
use nova_robotics_drone_cont.Bridge.Digest.Round.{IsNearest, round-IsNearest, clamp_id}
use nova_robotics_drone_cont.Bridge.Digest.Wire.{pack_digest, unpack}
use nova_robotics_drone_cont.Bridge.Digest.Arrival.{digest_arrives, shown}

-- `_clamp` of a finite number whose rounding is in range is the nearest whole number.
clamp_round-IsNearest :
    (x : Frac) (lo hi : ℤ)
    → lo ≤ℤ round x
    → round x ≤ℤ hi
    → IsNearest x (clamp_round (some x) lo hi)
unfolding clamp_round
clamp_round-IsNearest x lo hi h k =
    subst (IsNearest x) (sym (clamp_id (round x) lo hi h k)) (round-IsNearest x)

-- A nearest number of one past 32800 is past 32767.
big : (y : Frac) (z : ℤ) → int 32800 ≤F y → IsNearest y z → pos 32768 ≤ℤ z
big y (pos n) h k = elim (leb-cases 32768 n) [
  | inl e ↦ omega arith
  | inr e ↦ absurd (let room = mul_le n 32767 (suc y.below) (omega arith) in omega (arith, k.0, h))
]
big y (negsuc n) h k = absurd (omega (arith, k.0, h))

clamp_big : (z : ℤ) → pos 32768 ≤ℤ z → clamp z (negsuc 32767) (pos 32767) ≡ pos 32767
unfolding clamp
clamp_big z h = ground arith

scaled : (x : Frac) → int 328 ≤F x → int 32800 ≤F mul x (int 100)
scaled x h = omega arith

saturated : (v : Float) (x : Frac) → v ≡ some x → int 328 ≤F x → i16_of (times 100 v) ≡ pos 32767
unfolding clamp_round
saturated v x e h =
    ap (λ f. i16_of (times 100 f)) e
    ∙ clamp_big (round (mul x (int 100))) (
        big (mul x (int 100)) (round (mul x (int 100))) (scaled x h)
          (round-IsNearest (mul x (int 100))))

-- A heading of 328 degrees or more, which a compass gives up to 360, does not fit its signed field:
-- the digest of every such snapshot shows 327.67 degrees.
heading_saturates :
    (s : Snapshot) (uptime_ms : ℕ) (x : Frac)
    → s.heading_deg ≡ some x
    → int 328 ≤F x
    → (bytes : List ℕ) × (d : Digest) × (pack_digest s uptime_ms ≡ some bytes)
      × (unpack bytes ≡ some d)
      × (d.heading_deg ≡ over 32767 99)
heading_saturates s uptime_ms x e h =
    let a = digest_arrives s uptime_ms in
    (a.0, shown s uptime_ms, a.1, a.3, ap (λ z. per z 99) (saturated s.heading_deg x e h))
