-- ===== src/Bridge/Translator/Sender.antt =====
-- modules/drone_bridge/translator.py: when a stick command goes out, and what it holds.
use nova_robotics_drone_cont.Common.{
  ℕ, ◌+◌, ◌-◌, ◌*◌, ◌/◌, ◌≤◌, ◌<◌, ◌≡◌, inl, inr, refl, Bool, true, false, Option, none, some, List,
  [], ◌∷◌, arith, ltb, ◌==◌, if◌then◌else◌, get_elem?, min, all_below, all_below_sound, ==_iff,
  lt→ltb, leb-cases, subst,
}
use nova_robotics_drone_cont.Common.Int.{ℤ, pos, negsuc}
use nova_robotics_drone_cont.Bridge.Translator.{TranslatorState, mode_index_from_us}
use nova_robotics_drone_cont.Bridge.Translator.Control.{
  Command, axis_pm1, throttle_01, is_link_lost, command_of, skip_link_loss, send_if_armed,
  send_command, send_control,
}

-- A number from -1639 to 1639: an axis in its range.
abbrev pub IsAxis : ℤ → Type 0
IsAxis (pos n) = n ≤ 1639
IsAxis (negsuc n) = n < 1639

pub record InRange (c : Command) : Type 0 where
  pub throttle : c.throttle ≤ 1639
  pub roll : IsAxis c.roll
  pub pitch : IsAxis c.pitch
  pub yaw : IsAxis c.yaw

axis_pm1-IsAxis : (n : ℕ) → IsAxis (axis_pm1 n)
unfolding axis_pm1
axis_pm1-IsAxis n = ground arith

throttle_bound : (n : ℕ) → throttle_01 n ≤ 1639
unfolding throttle_01
throttle_bound n = omega arith

-- The frame that the state holds lets a command out at `t0`.
pub record Cleared (s : TranslatorState) (t0 : ℕ) : Type 0 where
  pub received : ℕ
  pub fresh : (s.last_rc_ts ≡ some received) × (t0 - received ≤ 300_000)
  pub ch5 : ℕ
  pub armed : (get_elem? s.channels_us 4 ≡ some ch5) × (1500 ≤ ch5)

abbrev IfCommand : Option Command → Type 0
IfCommand none = Unit {0}
IfCommand (some c) = InRange c

command_of-InRange : (ch : List ℕ) → IfCommand (command_of ch)
unfolding command_of
command_of-InRange [] = tt
command_of-InRange (a ∷ []) = tt
command_of-InRange (a ∷ b ∷ []) = tt
command_of-InRange (a ∷ b ∷ c ∷ []) = tt
command_of-InRange (a ∷ b ∷ c ∷ d ∷ ch) = record {
  throttle = throttle_bound a;
  roll = axis_pm1-IsAxis b;
  pitch = axis_pm1-IsAxis c;
  yaw = axis_pm1-IsAxis d;
}

-- A command that is in the result was cleared and is in range.
abbrev Sound : TranslatorState → ℕ → Option (TranslatorState × Option Command) → Type 0
Sound s t0 none = Unit {0}
Sound s t0 (some (s', none)) = Unit {0}
Sound s t0 (some (s', some c)) = Cleared s t0 × InRange c

module _ (s : TranslatorState) (t0 : ℕ) (accepted : Bool) where
  armed-Sound :
      (ch5 : ℕ) (command : Option Command)
      → IfCommand command
      → Cleared s t0
      → Sound s t0 (send_command s accepted command)
  armed-Sound ch5 none k c = tt
  armed-Sound ch5 (some x) k c = (c, k)

  link-Sound :
      (received : ℕ)
      → s.last_rc_ts ≡ some received
      → t0 - received ≤ 300_000
      → (ch5 : Option ℕ) → get_elem? s.channels_us 4 ≡ ch5
      → Sound s t0 (send_if_armed s accepted ch5 (command_of s.channels_crsf))
  link-Sound received e h none g = tt
  link-Sound received e h (some ch5) g = elim (leb-cases 1500 ch5) [
    | inl high ↦ rw (let f : ltb ch5 1500 ≡ false = ground arith in f) (
        armed-Sound ch5 (command_of s.channels_crsf) (command_of-InRange s.channels_crsf)
          (record { received = received; fresh = (e, h); ch5 = ch5; armed = (g, high) }))
    | inr low ↦ rw (lt→ltb ch5 1500 low) tt
  ]

  by_link :
      (last : Option ℕ)
      → s.last_rc_ts ≡ last
      → Sound s t0 (
          if is_link_lost last t0
          then some (skip_link_loss s, none)
          else send_if_armed s accepted (get_elem? s.channels_us 4) (command_of s.channels_crsf))
  by_link none e = tt
  by_link (some received) e = elim (leb-cases (t0 - received) 300_000) [
    | inl fresh ↦
        rw (let f : ltb 300_000 (t0 - received) ≡ false = ground arith in f)
          (link-Sound received e fresh (get_elem? s.channels_us 4) refl)
    | inr old ↦ rw (lt→ltb 300_000 (t0 - received) old) tt
  ]

  send_control-Sound : Sound s t0 (send_control s t0 accepted)
  unfolding send_control
  send_control-Sound = by_link s.last_rc_ts refl

-- From any state, whatever the channels hold: a stick command goes out only if a frame arrived in
-- the last 300 ms and its channel 5 is at 1500 microseconds or more; its throttle is from 0 to 1 and
-- its axes from -1 to 1.
pub send_needs_link :
    (s s' : TranslatorState) (t0 : ℕ) (accepted : Bool) (c : Command)
    → send_control s t0 accepted ≡ some (s', some c)
    → Cleared s t0 × InRange c
send_needs_link s s' t0 accepted c e =
    subst (λ r. Sound s t0 r) e (send_control-Sound s t0 accepted)

abbrev pub rounds : TranslatorState → ℕ
rounds s = s.commands_sent + s.commands_skipped_link_loss + s.commands_skipped_disarmed

-- A round of the sender that ends well is counted exactly once: as sent, as skipped for the lost link
-- or as skipped for the switch; it changes nothing else that the reader set.
send_counts :
    (s s' : TranslatorState) (t0 : ℕ) (c : Option Command)
    → send_control s t0 true ≡ some (s', c)
    → (rounds s' ≡ rounds s + 1)
      × (s'.last_rc_ts ≡ s.last_rc_ts)
      × (s'.channels_us ≡ s.channels_us)
      × (s'.vision_lock ≡ s.vision_lock)
unfolding send_control
send_counts s s' t0 c e = ground arith

modes_table : all_below 2000 (λ us. mode_index_from_us us == min 11 ((us - 942) / 93)) ≡ true
unfolding all_below mode_index_from_us
modes_table = refl

above_last : (us : ℕ) → 2000 ≤ us → mode_index_from_us us ≡ 11
unfolding mode_index_from_us
above_last us h = ground arith

mode_bands : (us : ℕ) → mode_index_from_us us ≡ min 11 ((us - 942) / 93)
mode_bands us = elim (leb-cases 2000 us) [
  | inl high ↦ rw (above_last us high) (omega arith)
  | inr low ↦ (==_iff _ (min 11 ((us - 942) / 93))).0 (
      all_below_sound 2000 (λ u. mode_index_from_us u == min 11 ((u - 942) / 93)) us modes_table
        low)
]

-- The microseconds of the switch at position `p` of twelve, evenly spaced from 988 to 2012.
abbrev pub mode_us : ℕ → ℕ
mode_us p = ((988 * 11 + 1024 * p) * 2 + 11) / 22

-- A mode sent at one of the twelve positions is read right under a drift of up to 45 microseconds
-- either way.
mode_drift :
    (p us : ℕ) → p ≤ 11 → mode_us p ≤ us + 45 → us ≤ mode_us p + 45 → mode_index_from_us us ≡ p
mode_drift p us h lo hi = omega (arith, mode_bands us)
