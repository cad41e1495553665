-- ===== src/Bridge/Translator/Session.antt =====
-- modules/drone_bridge/translator.py: runs of the reader and the sender.
use nova_robotics_drone_cont.Common.{
  ℕ, ◌≤◌, ◌≡◌, inl, inr, refl, Bool, Option, none, some, List, [], ◌∷◌, arith, ltb, get_or,
  get_elem_full, Bool-cases, length,
}
use nova_robotics_drone_cont.Bridge.VisionLock.Handler.{Clocks}
use nova_robotics_drone_cont.Bridge.Translator.{TranslatorState, new_state, on_edges}
use nova_robotics_drone_cont.Bridge.Translator.Receive.{Message, receive}
use nova_robotics_drone_cont.Bridge.Translator.Control.{
  send_control, Command, command_of, skip_link_loss, skip_disarmed, sent, is_link_lost,
}
use nova_robotics_drone_cont.Bridge.Translator.Reader.{
  took_in, is_refused, receive_refused, receive_taken, fanout-Kept, on_edges-Kept,
}

-- The channels suffice for the sender.
record Enough (s : TranslatorState) : Type 0 where
  us : 5 ≤ length s.channels_us
  crsf : 4 ≤ length s.channels_crsf

-- The states of a run: messages whose two lists are equally long, and rounds of the sender, in any
-- order.
pub data Run : TranslatorState → Type 0 where
  started : Run new_state
  message :
      {s : TranslatorState}
      → Run s
      → (msg : Message) (now : ℕ) (clocks : Clocks)
      → length msg.channels_crsf ≡ length msg.channels_us
      → Run (receive s msg now clocks).state
  round :
      {s : TranslatorState}
      → Run s
      → (t0 : ℕ) (accepted : Bool) (s' : TranslatorState) (command : Option Command)
      → send_control s t0 accepted ≡ some (s', command)
      → Run s'

receive-Enough :
    (s : TranslatorState) (msg : Message) (now : ℕ) (clocks : Clocks)
    → length msg.channels_crsf ≡ length msg.channels_us
    → Enough s
    → Enough (receive s msg now clocks).state
receive-Enough s msg now clocks h k = elim (Bool-cases (is_refused msg)) [
  | inl e ↦ rw (receive_refused s msg now clocks e) k
  | inr n ↦
      (let f =
          fanout-Kept (on_edges (took_in s msg now)) clocks (took_in s msg now)
            (on_edges-Kept (took_in s msg now)) in
        let long : 16 ≤ length msg.channels_crsf = ground arith in
        rw (receive_taken s msg now clocks n)
          (record { us = rw f.1 (omega arith); crsf = rw f.0 (omega arith) }))
]

send_keeps :
    (s s' : TranslatorState) (t0 : ℕ) (accepted : Bool) (command : Option Command)
    → send_control s t0 accepted ≡ some (s', command)
    → (s'.channels_us ≡ s.channels_us) × (s'.channels_crsf ≡ s.channels_crsf)
unfolding send_control
send_keeps s s' t0 accepted command e = ground arith

send-Enough :
    (s s' : TranslatorState) (t0 : ℕ) (accepted : Bool) (command : Option Command)
    → send_control s t0 accepted ≡ some (s', command)
    → Enough s
    → Enough s'
send-Enough s s' t0 accepted command e k =
    let f = send_keeps s s' t0 accepted command e in
    record { us = rw f.0 k.us; crsf = rw f.1 k.crsf }

Run-Enough : (s : TranslatorState) → Run s → Enough s
unfolding new_state
Run-Enough s started = record { us = omega arith; crsf = omega arith }
Run-Enough s (message {s = t} r msg now clocks h) =
    receive-Enough t msg now clocks h (Run-Enough t r)
Run-Enough s (round {s = t} r t0 accepted s' command e) =
    send-Enough t s t0 accepted command e (Run-Enough t r)

command_total : (ch : List ℕ) → 4 ≤ length ch → (c : Command) × (command_of ch ≡ some c)
unfolding command_of
command_total [] h = absurd (omega arith)
command_total (a ∷ []) h = absurd (omega arith)
command_total (a ∷ b ∷ []) h = absurd (omega arith)
command_total (a ∷ b ∷ c ∷ []) h = absurd (omega arith)
command_total (a ∷ b ∷ c ∷ d ∷ ch) h = (_, refl)

send_total :
    (s : TranslatorState) (t0 : ℕ) (accepted : Bool)
    → Enough s
    → (r : TranslatorState × Option Command) × (send_control s t0 accepted ≡ some r)
unfolding send_control
send_total s t0 accepted k =
    let c = command_total s.channels_crsf k.crsf in
    let u = get_elem_full s.channels_us 4 k.us in
    elim (Bool-cases (is_link_lost s.last_rc_ts t0)) [
      | inl e ↦ ((skip_link_loss s, none), rw e refl)
      | inr e ↦ elim (Bool-cases (ltb (get_or s.channels_us 4 0) 1500)) [
        | inl l ↦ ((skip_disarmed s, none), rw (e, u, l) refl)
        | inr n ↦ (sent s accepted c.0, rw (e, u, n, c.1) refl)
      ]
    ]

-- In every run in which the two lists of each message are equally long, however messages and rounds
-- of the sender alternate, no round of the sender ends in an `IndexError`: the loop goes on.
pub sender_goes_on :
    (s : TranslatorState) (t0 : ℕ) (accepted : Bool)
    → Run s
    → (r : TranslatorState × Option Command) × (send_control s t0 accepted ≡ some r)
sender_goes_on s t0 accepted r = send_total s t0 accepted (Run-Enough s r)
