-- ===== src/Elrs/Mux/Examples.antt =====
-- modules/elrs_telemetry/mux.py: concrete runs, and the theorems at concrete inputs.
use nova_robotics_drone_cont.Common.{
  ◌≡◌, refl, ◌++◌, ◌∷◌, [], List, ℕ, true, false, some, none, Option, arith, All, replicate,
}
use nova_robotics_drone_cont.Common.Result.{ok, err}
use nova_robotics_drone_cont.Elrs.Mux.{
  MuxDecoder, Output, frame, line, newline, new, encode, rstrip, feed_byte, feed, invalid_channel,
  invalid_payload_length,
}
use nova_robotics_drone_cont.Elrs.Mux.Total.{Ensures, feed-Ensures, new-IsValid}
use nova_robotics_drone_cont.Elrs.Mux.RoundTrip.{Yields}
use nova_robotics_drone_cont.Elrs.Mux.Stream.{
  Item, packet, diag, noise, Sendable, wires, all_heard, feed-wires,
}
use nova_robotics_drone_cont.Elrs.Mux.Resync.{EndsWith, feed-resync}

-- "#ok\n" among a packet for channel 2, a stray byte and a packet for channel 1.
abbrev traffic : List Item
traffic =
    packet 2 (0xC8 ∷ 0x18 ∷ 0xFE ∷ [])
    ∷ diag (b'o' ∷ b'k' ∷ [])
    ∷ noise 0x41
    ∷ packet 1 (7 ∷ [])
    ∷ []

traffic-Sendable : All Sendable traffic
traffic-Sendable = ground arith

outputs : Option (MuxDecoder × List Output) → List Output
outputs none = []
outputs (some (d, out)) = out

encode_one : encode 1 (7 ∷ []) ≡ ok (0xFE ∷ 0xCA ∷ 1 ∷ 1 ∷ 0 ∷ 7 ∷ [])
unfolding encode
encode_one = refl

encode_bad_channel : encode 3 (7 ∷ []) ≡ err (invalid_channel 3)
unfolding encode
encode_bad_channel = refl

encode_empty : encode 1 [] ≡ err (invalid_payload_length 0)
unfolding encode
encode_empty = refl

traffic_runs :
    outputs (feed (new true) (wires traffic))
    ≡ frame 2 (0xC8 ∷ 0x18 ∷ 0xFE ∷ []) ∷ line (b'#' ∷ b'o' ∷ b'k' ∷ []) ∷ frame 1 (7 ∷ []) ∷ []
unfolding feed feed_byte new encode rstrip outputs
traffic_runs = refl

-- A header that is cut short, with a length of 0xFE01.
abbrev damaged : List ℕ
damaged = 0xFE ∷ 0xCA ∷ 2 ∷ 1 ∷ 0xFE ∷ 0xCA ∷ 0x23 ∷ []

feed-Ensures_example : Ensures (new true) (feed (new true) damaged)
feed-Ensures_example = feed-Ensures (new true) damaged (new-IsValid true)

feed-wires_example :
    Yields (new true) (feed (new true) (wires traffic)) (all_heard (new true).diag_cb traffic)
feed-wires_example =
    feed-wires traffic (new true) (unfold new in refl) (new-IsValid true).buf_size traffic-Sendable

feed-resync_example :
    EndsWith
      (feed (new false) (replicate 259 newline ++ wires traffic))
      (λ cb. all_heard cb traffic)
feed-resync_example = feed-resync (new false) traffic (new-IsValid false) traffic-Sendable
