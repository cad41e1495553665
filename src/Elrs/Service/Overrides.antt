-- ===== src/Elrs/Service/Overrides.antt =====
-- modules/elrs_telemetry/service.py: what a broadcast shows while channels are overridden.
use nova_robotics_drone_cont.Common.{
  ℕ, ◌+◌, ◌<◌, ◌≡◌, Bool, ◌&&◌, not, Option, none, some, List, [], ◌∷◌, arith, leb, ltb, ◌==◌,
  if◌then◌else◌, length, get_or, All, Option-cases, ◌||◌, Bool-cases, inl, inr,
}
use nova_robotics_drone_cont.Elrs.Service.Channels.{
  Override, Channels, LinkState, write_override, Applied, Broadcast, channels_message, put_override,
  crsf_of_us, inject_now, inject_channel,
}

abbrev pub is_active : ℕ → Override → Bool
is_active now o = not (ltb o.expires now)

-- The value of channel `i` under the overrides in force: the last one on `i`, or `x`.
abbrev pub shown : ℕ → List Override → ℕ → ℕ → ℕ
shown now [] i x = x
shown now (o ∷ os) i x = shown now os i (if is_active now o && o.index == i then o.us else x)

abbrev pub active : ℕ → List Override → List Override
active now [] = []
active now (o ∷ os) = let rest = active now os in if is_active now o then o ∷ rest else rest

-- Every override names one of `n` channels.
abbrev pub InBounds : ℕ → List Override → Type 0
InBounds n os = All (λ o. o.index < n) os

-- The channels sent, when nothing is written past the end.
record Shows (now n : ℕ) (ch : Channels) (os : List Override) (a : Applied) : Type 0 where
  sent : Channels
  result : a.channels ≡ some sent
  left : a.overrides ≡ active now os
  values : (i : ℕ) → get_or sent.channels_us i 0 ≡ shown now os i (get_or ch.channels_us i 0)
  size : length sent.channels_us ≡ n

-- What a broadcast that is due sends, and what it leaves.
pub record Due (state : LinkState) (now : ℕ) (ch : Channels) (r : LinkState × Broadcast)
    : Type 0 where
  pub sent : Channels
  pub message : r.1 ≡ channels_message sent
  pub values :
      (i : ℕ)
      → get_or sent.channels_us i 0 ≡ shown now state.overrides i (get_or ch.channels_us i 0)
  pub kept : r.0.channels ≡ state.channels
  pub left : r.0.overrides ≡ active now state.overrides
  pub stamped : r.0.last_ch_bcast ≡ now

put-InBounds :
    (os : List Override) (o : Override)
    → o.index < 16
    → InBounds 16 os
    → InBounds 16 (put_override os o)
put-InBounds [] o b h = (b, tt)
put-InBounds (x ∷ os) o b h = elim (Bool-cases (x.index == o.index)) [
  | inl e ↦ rw e (b, h.1)
  | inr e ↦ rw e (h.0, put-InBounds os o b h.1)
]

now-InBounds :
    (c : Option Channels) (state : LinkState) (o : Override)
    → InBounds 16 state.overrides
    → InBounds 16 (inject_now c state o).0.overrides
now-InBounds none state o h = h
now-InBounds (some ch) state o h = elim (Option-cases (write_override ch o)) [
  | inl e ↦ rw e h
  | inr (c, e) ↦ rw e h
]

-- An override that the endpoint installs names one of the 16 channels: whatever it is asked, overrides
-- that were in bounds stay so.
inject-InBounds :
    (state : LinkState) (idx us hold_us now : ℕ)
    → InBounds 16 state.overrides
    → InBounds 16 (inject_channel state idx us hold_us now).0.overrides
unfolding inject_channel
inject-InBounds state idx us hold_us now h = elim (Bool-cases (leb 16 idx)) [
  | inl e ↦ rw e h
  | inr e ↦
      (let b : idx < 16 = ground arith in
        let o : Override = record {
          index = idx;
          expires = now + hold_us;
          us = us;
          crsf = crsf_of_us us;
        } in
        elim (Bool-cases (ltb us 988 || ltb 2012 us)) [
          | inl f ↦ rw (e, f) h
          | inr f ↦ elim (Bool-cases (ltb 30_000_000 hold_us)) [
            | inl g ↦ rw (e, f, g) h
            | inr g ↦ elim (Bool-cases (ltb 0 hold_us)) [
              | inl k ↦ rw (e, f, g, k) (put-InBounds state.overrides o b h)
              | inr k ↦ rw (e, f, g, k) (now-InBounds state.channels state o h)
            ]
          ]
        ])
]
