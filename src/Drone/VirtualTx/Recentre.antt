-- ===== src/Drone/VirtualTx/Recentre.antt =====
-- ros2/src/drone_control/drone_control/virtual_tx.py: the failsafe brings the sticks back.
use nova_robotics_drone_cont.Common.{
  ℕ, zero, suc, ◌≤◌, ◌≡◌, refl, sym, ap, ◌∙◌, subst, true, List, [], ◌∷◌, map, replicate, length,
  arith, inl, inr,
}
use nova_robotics_drone_cont.Common.Int.{ℤ, pos}
use nova_robotics_drone_cont.Common.Frac.{Frac, ◌≤F◌, int, sub, mul}
use nova_robotics_drone_cont.Drone.VirtualTx.{
  Sticks, VirtualTxConfig, ChannelState, TxState, VirtualTxNode, Mode,
}
use nova_robotics_drone_cont.Drone.VirtualTx.Shaping.{to_pwm_throttle}
use nova_robotics_drone_cont.Drone.VirtualTx.Node.{
  published, publish_loop, rc_channels, pwm_release, check_failsafe, auto_center, is_expired,
}
use nova_robotics_drone_cont.Drone.VirtualTx.Runs.{Event, tick, step, run}
use nova_robotics_drone_cont.Drone.VirtualTx.Centering.{Within, pred, move-Within, pwm_centered}
use nova_robotics_drone_cont.Drone.VirtualTx.Failsafe.{
  FlagsAgree, Falling, check-Kept, check-Falling, centred_node, tick-Falling,
}

-- Roll, pitch and yaw are at most `k` steps of size `s` from the centre.
pub record Home (sticks : Sticks ChannelState) (k : ℕ) (s : Frac) : Type 0 where
  pub roll : Within sticks.roll.output k s
  pub pitch : Within sticks.pitch.output k s
  pub yaw : Within sticks.yaw.output k s

center-Home :
    (cfg : VirtualTxConfig) (dt : Frac) (mode : Mode) (sticks : Sticks ChannelState) (k : ℕ)
    (s : Frac)
    → int 0 ≤F s
    → s ≤F mul cfg.center_rate dt
    → Home sticks k s
    → Home (auto_center cfg dt mode sticks) (pred k) s
unfolding auto_center
center-Home cfg dt mode sticks k s h g w =
    let rate = mul cfg.center_rate dt in
    record {
      roll = move-Within sticks.roll.output s rate k h g w.roll;
      pitch = move-Within sticks.pitch.output s rate k h g w.pitch;
      yaw = move-Within sticks.yaw.output s rate k h g w.yaw;
    }

-- Each turn gives the sticks at least `s` to move, by the time since the turn before it.
abbrev pub Paced : Frac → Frac → Frac → List (Frac × Mode) → Type 0
Paced s rate last [] = Unit
Paced s rate last ((now, mode) ∷ ts) = (s ≤F mul rate (sub now last)) × Paced s rate now ts

abbrev pub ticks : List (Frac × Mode) → List Event
ticks ts = map (λ t. tick t.0 t.1) ts

-- `k` less one for each turn.
abbrev left : ℕ → List (Frac × Mode) → ℕ
left k [] = k
left k (t ∷ ts) = left (pred k) ts

left_none : (k : ℕ) (ts : List (Frac × Mode)) → k ≤ length ts → left k ts ≡ 0
left_none zero [] h = refl
left_none (suc k) [] h = absurd (omega arith)
left_none zero (t ∷ ts) h = left_none zero ts (omega arith)
left_none (suc k) (t ∷ ts) h = left_none k ts (omega arith)

-- A transmitter in failsafe, `k` steps from the centre.
record Returning (rate : Frac) (k : ℕ) (s : Frac) (n : VirtualTxNode) : Type 0 where
  falling : Falling n.state
  rate_eq : n.config.center_rate ≡ rate
  home : Home n.state.sticks k s

tick-Returning :
    (rate s now : Frac) (mode : Mode) (k : ℕ) (n : VirtualTxNode)
    → int 0 ≤F s
    → s ≤F mul rate (sub now n.last_update_time)
    → n.state.enabled ≡ true
    → Falling (check_failsafe now n.state)
    → n.config.center_rate ≡ rate
    → Home n.state.sticks k s
    → Returning rate (pred k) s (centred_node now mode n)
tick-Returning rate s now mode k n h g on f e w =
    let kept = check-Kept now n.state in
    let w' : Home (check_failsafe now n.state).sticks k s =
      subst (λ x. Home x k s) (sym kept.sticks) w in
    let g' : s ≤F mul n.config.center_rate (sub now n.last_update_time) =
      subst (λ r. s ≤F mul r (sub now n.last_update_time)) (sym e) g in
    record {
      falling = record {
        enabled = f.enabled;
        in_failsafe = f.in_failsafe;
        centering = f.centering;
      };
      rate_eq = e;
      home =
          center-Home n.config (sub now n.last_update_time) mode (check_failsafe now n.state).sticks
            k s h g' w';
    }

still-Falling : (now : Frac) (s : TxState) → Falling s → Falling (check_failsafe now s)
still-Falling now s f =
    check-Falling now s f.enabled (f.in_failsafe ∙ sym f.centering) (inr f.in_failsafe)

ticks-Returning :
    (rate s : Frac) (ts : List (Frac × Mode)) (k : ℕ) (n : VirtualTxNode)
    → int 0 ≤F s
    → Paced s rate n.last_update_time ts
    → Returning rate k s n
    → Returning rate (left k ts) s (run (ticks ts) n)
unfolding run step
ticks-Returning rate s [] k n h p r = r
ticks-Returning rate s ((now, mode) ∷ ts) k n h p r =
    let f = still-Falling now n.state r.falling in
    let r' = tick-Returning rate s now mode k n h p.0 r.falling.enabled f r.rate_eq r.home in
    subst (λ m. Returning rate (left (pred k) ts) s (run (ticks ts) m.0))
      (sym (tick-Falling now mode n r.falling.enabled f))
      (ticks-Returning rate s ts (pred k) (centred_node now mode n) h p.1 r')

-- From the turn that finds the hold over.
returned :
    (n : VirtualTxNode) (s : Frac) (k : ℕ) (now : Frac) (mode : Mode) (ts : List (Frac × Mode))
    → n.state.enabled ≡ true
    → FlagsAgree n.state
    → is_expired n.state now ≡ true
    → int 0 ≤F s
    → Home n.state.sticks k s
    → Paced s n.config.center_rate n.last_update_time ((now, mode) ∷ ts)
    → Returning n.config.center_rate
        (left k ((now, mode) ∷ ts))
        s
        (run (ticks ((now, mode) ∷ ts)) n)
unfolding run step
returned n s k now mode ts on agree over h w p =
    let rate = n.config.center_rate in
    let f = check-Falling now n.state on agree (inl over) in
    let r = tick-Returning rate s now mode k n h p.0 on f refl w in
    subst (λ m. Returning rate (left (pred k) ts) s (run (ticks ts) m.0))
      (sym (tick-Falling now mode n on f))
      (ticks-Returning rate s ts (pred k) (centred_node now mode n) h p.1 r)

-- All but the throttle in the middle, and the other channels released.
abbrev pub Hovers : List ℤ → Type 0
Hovers channels =
    (t : ℤ) × (channels ≡ pos 1500 ∷ pos 1500 ∷ t ∷ pos 1500 ∷ replicate 14 pwm_release)

Home-Hovers :
    (cfg : VirtualTxConfig) (sticks : Sticks ChannelState) (s : Frac)
    → Home sticks 0 s
    → Hovers (rc_channels cfg sticks)
unfolding rc_channels
Home-Hovers cfg sticks s w = (
  to_pwm_throttle sticks.throttle.output cfg.throttle_pwm_idle cfg.throttle_pwm_max,
  rw
      (
        pwm_centered sticks.roll.output s w.roll,
        pwm_centered sticks.pitch.output s w.pitch,
        pwm_centered sticks.yaw.output s w.yaw,
      )
      refl,
)

-- At the centre a turn publishes the centre.
turn-Hovers :
    (rate s now : Frac) (mode : Mode) (m : VirtualTxNode)
    → int 0 ≤F s
    → s ≤F mul rate (sub now m.last_update_time)
    → Returning rate 0 s m
    → (channels : List ℤ) × ((publish_loop now mode m).1 ≡ published channels) × Hovers channels
turn-Hovers rate s now mode m h g r =
    let f = still-Falling now m.state r.falling in
    let r' = tick-Returning rate s now mode 0 m h g r.falling.enabled f r.rate_eq r.home in
    (
      rc_channels m.config (centred_node now mode m).state.sticks,
      ap (λ t. t.1) (tick-Falling now mode m r.falling.enabled f),
      Home-Hovers m.config (centred_node now mode m).state.sticks s r'.home,
    )

-- A transmitter is enabled, the two marks of the failsafe agree, and at the next turn of the loop
-- the hold of the last command is over. Roll, pitch and yaw are at most `k` steps from the centre,
-- and each turn, by its time and the configured rate, allows at least one step. Then after at least
-- `k` turns, in whatever modes, with no call between, the failsafe is on, and the turn after them
-- publishes roll, pitch and yaw at exactly 1500.
pub failsafe_centres :
    (n : VirtualTxNode) (s : Frac) (k : ℕ) (now : Frac) (mode : Mode) (ts : List (Frac × Mode))
    (now' : Frac) (mode' : Mode)
    → n.state.enabled ≡ true
    → FlagsAgree n.state
    → is_expired n.state now ≡ true
    → int 0 ≤F s
    → Home n.state.sticks k s
    → Paced s n.config.center_rate n.last_update_time ((now, mode) ∷ ts)
    → k ≤ suc (length ts)
    → s ≤F mul n.config.center_rate (sub now' (run (ticks ((now, mode) ∷ ts)) n).last_update_time)
    → ((run (ticks ((now, mode) ∷ ts)) n).state.in_failsafe ≡ true)
      × ((channels : List ℤ) × ((publish_loop now' mode' (run (ticks ((now, mode) ∷ ts)) n)).1
            ≡ published channels)
          × Hovers channels)
failsafe_centres n s k now mode ts now' mode' on agree over h w p enough g =
    let rate = n.config.center_rate in
    let r = returned n s k now mode ts on agree over h w p in
    let r' : Returning rate 0 s (run (ticks ((now, mode) ∷ ts)) n) =
      subst (λ j. Returning rate j s (run (ticks ((now, mode) ∷ ts)) n))
        (left_none k ((now, mode) ∷ ts) enough) r in
    (
      r'.falling.in_failsafe,
      turn-Hovers rate s now' mode' (run (ticks ((now, mode) ∷ ts)) n) h g r',
    )
