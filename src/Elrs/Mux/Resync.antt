-- ===== src/Elrs/Mux/Resync.antt =====
-- modules/elrs_telemetry/mux.py: the decoder finds its feet again after any damage.
use nova_robotics_drone_cont.Common.{
  ℕ, zero, suc, ◌-◌, ◌≤◌, ◌≡◌, refl, sym, ◌∙◌, ap, Bool, Option, none, some, List, ◌++◌, arith, All,
  replicate,
}
use nova_robotics_drone_cont.Elrs.Mux.{
  MuxState, wait_magic1, wait_magic2, wait_chan, wait_len_lo, wait_len_hi, read_payload, read_diag,
  MuxDecoder, Output, newline, feed_in, feed_byte, emit, feed,
}
use nova_robotics_drone_cont.Elrs.Mux.Total.{IsValid, Ensures, feed_byte-Ensures}
use nova_robotics_drone_cont.Elrs.Mux.RoundTrip.{and_then, feed-append, feed-cons, Yields}
use nova_robotics_drone_cont.Elrs.Mux.Stream.{Item, Sendable, wires, all_heard, feed-wires}

-- How many newlines bring the decoder to rest, at most.
abbrev rank : MuxDecoder → MuxState → ℕ
rank d wait_magic1 = 0
rank d wait_magic2 = 1
rank d wait_chan = 259
rank d wait_len_lo = 258
rank d wait_len_hi = 257
rank d read_payload = d.len - d.read
rank d read_diag = 1

-- Any payload that is opened fits, so 256 bytes more end it.
abbrev Budget : ℕ → MuxDecoder → Type 0
Budget n d = rank d d.state ≤ n

abbrev Falls : ℕ → Option (MuxDecoder × List Output) → Type 0
Falls n none = ⊥
Falls n (some (d', out)) = Budget n d'

module _ (d : MuxDecoder) (v : IsValid d) where
  newline-Falls :
      (n : ℕ) (s : MuxState) → d.state ≡ s → Budget (suc n) d → Falls n (feed_in s d newline)
  unfolding feed_in
  newline-Falls n wait_magic1 e h = ground arith
  newline-Falls n wait_magic2 e h = ground arith
  newline-Falls n wait_chan e h = ground arith
  newline-Falls n wait_len_lo e h = ground arith
  newline-Falls n wait_len_hi e h = ground arith
  newline-Falls n read_payload e h = ground arith
  newline-Falls n read_diag e h = ground arith

rank_bound : (d : MuxDecoder) → IsValid d → Budget 259 d
rank_bound d v = go d.state refl
  where
    go : (s : MuxState) → d.state ≡ s → rank d s ≤ 259
    go wait_magic1 e = omega arith
    go wait_magic2 e = omega arith
    go wait_chan e = omega arith
    go wait_len_lo e = omega arith
    go wait_len_hi e = omega arith
    go read_payload e = omega (arith, v.payload_fits e)
    go read_diag e = omega arith

rest_of_zero : (d : MuxDecoder) → IsValid d → Budget 0 d → d.state ≡ wait_magic1
rest_of_zero d v h = go d.state refl
  where
    go : (s : MuxState) → d.state ≡ s → s ≡ wait_magic1
    go wait_magic1 e = refl
    go read_payload e = absurd (ground (arith, v.payload_open e))
    go s e = absurd (ground arith)

-- Valid, and at rest, whatever was handed out on the way.
abbrev Settles : Option (MuxDecoder × List Output) → Type 0
Settles none = ⊥
Settles (some (d, out)) = IsValid d × (d.state ≡ wait_magic1)

Settles-emit :
    (out : List Output) (r : Option (MuxDecoder × List Output)) → Settles r → Settles (emit out r)
Settles-emit out none h = h
Settles-emit out (some (d, more)) h = h

settle_step :
    (n : ℕ) (d : MuxDecoder) (r : Option (MuxDecoder × List Output))
    → Ensures d r
    → Falls n r
    → ((d' : MuxDecoder) → IsValid d' → Budget n d' → Settles (feed d' (replicate n newline)))
    → Settles (and_then r (replicate n newline))
settle_step n d none e f ih = e
settle_step n d (some (d', out)) e f ih =
    Settles-emit out (feed d' (replicate n newline)) (ih d' e.0 f)

newlines_settle :
    (n : ℕ) (d : MuxDecoder) → IsValid d → Budget n d → Settles (feed d (replicate n newline))
newlines_settle zero d v h = unfold feed in (v, rest_of_zero d v h)
newlines_settle (suc n) d v h = rw (feed-cons d newline (replicate n newline)) (
    settle_step n d (feed_byte d newline) (feed_byte-Ensures d newline v)
      (unfold feed_byte in newline-Falls d v n d.state refl h)
      (λ d' v' h'. newlines_settle n d' v' h'))

-- The run did not fault, and what it handed out ends in `expected`.
abbrev pub EndsWith : Option (MuxDecoder × List Output) → (Bool → List Output) → Type 0
EndsWith none expected = ⊥
EndsWith (some (d, out)) expected =
    (junk : List Output) × (out ≡ junk ++ expected d.diag_cb) × (d.state ≡ wait_magic1)

EndsWith-emit :
    (d : MuxDecoder) (junk : List Output) (expected : Bool → List Output)
    (r : Option (MuxDecoder × List Output))
    → Yields d r (expected d.diag_cb)
    → EndsWith (emit junk r) expected
EndsWith-emit d junk expected none y = y
EndsWith-emit d junk expected (some (d', out)) y =
    (junk, ap (λ o. junk ++ o) (y.0 ∙ ap expected (sym y.3)), y.1)

after_settling :
    (r : Option (MuxDecoder × List Output)) (items : List Item)
    → Settles r
    → All Sendable items
    → EndsWith (and_then r (wires items)) (λ cb. all_heard cb items)
after_settling none items s h = s
after_settling (some (d, junk)) items s h =
    EndsWith-emit d junk (λ cb. all_heard cb items) (feed d (wires items))
      (feed-wires items d s.1 s.0.buf_size h)

-- Whatever state earlier bytes left a decoder in, 259 newlines bring it to rest: after them every
-- packet, diagnostic line and stray byte that is sent is read as it was sent, behind what the
-- damage may have produced.
pub feed-resync :
    (d : MuxDecoder) (items : List Item)
    → IsValid d
    → All Sendable items
    → EndsWith (feed d (replicate 259 newline ++ wires items)) (λ cb. all_heard cb items)
feed-resync d items v h = rw (feed-append d (replicate 259 newline) (wires items)) (
    after_settling (feed d (replicate 259 newline)) items (newlines_settle 259 d v (rank_bound d v))
      h)
