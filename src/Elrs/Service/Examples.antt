-- ===== src/Elrs/Service/Examples.antt =====
-- modules/elrs_telemetry/service.py: the bucket, the queue, the broker and the overrides at work.
use nova_robotics_drone_cont.Common.{
  ℕ, ◌+◌, ◌-◌, ◌*◌, ◌≤◌, ◌≡◌, refl, Bool, true, not, none, some, List, [], ◌∷◌, arith, length, ◌==◌,
  replicate,
}
use nova_robotics_drone_cont.Elrs.Crsf.{unpack_channels, crsf_to_us}
use nova_robotics_drone_cont.Elrs.Mux.{new, feed, chan_tx}
use nova_robotics_drone_cont.Elrs.Mux.RoundTrip.{Yields}
use nova_robotics_drone_cont.Elrs.Mux.Stream.{packet, all_heard}
use nova_robotics_drone_cont.Elrs.Service.Transmit.{new_bucket, Sender, working, writer_turn}
use nova_robotics_drone_cont.Elrs.Service.Channels.{
  Channels, LinkState, raised, apply_overrides, handle_frame,
}
use nova_robotics_drone_cont.Elrs.Service.Rate.{attempts, attempts_rate}
use nova_robotics_drone_cont.Elrs.Service.Queue.{IsValid, writer_reaches_mux}

attempts_rate_example :
    (attempts (new_bucket 5 10 0) (0 ∷ 0 ∷ 200_000 ∷ [])).1 * 1_000_000
    ≤ 10 * 1_000_000 + (200_000 - 0) * 5
attempts_rate_example =
    attempts_rate 5 10 0 (0 ∷ 0 ∷ 200_000 ∷ []) (omega arith, (omega arith, (omega arith, tt)))

abbrev raw : List ℕ
raw = 0xC8 ∷ 2 ∷ 0x21 ∷ 0x41 ∷ []

abbrev sender : Sender
sender = record {
  bucket = record { rate = 5; capacity = 10; tokens = 3_000_000; last = 0 };
  queue = raw ∷ [];
  bytes_out = 0;
}

sender-IsValid : IsValid sender
sender-IsValid = record { bounded = omega arith; encodable = ((omega arith, omega arith), tt) }

writer_reaches_mux_example :
    (bytes : List ℕ) × (writer_turn sender working
      ≡ some (record sender { queue = []; bytes_out = 0 + length raw }, bytes))
    × Yields
        (new true)
        (feed (new true) bytes)
        (all_heard (new true).diag_cb (packet chan_tx raw ∷ []))
writer_reaches_mux_example =
    writer_reaches_mux sender raw [] (new true) sender-IsValid refl (unfold new in refl)
      (unfold new in refl)

abbrev is_open : ℕ → Bool
is_open c = not (c == 3)

abbrev centred : Channels
centred = record { channels_crsf = replicate 16 992; channels_us = replicate 16 1500 }

abbrev held : LinkState
held = record {
  channels = some centred;
  last_rc_ts = some 0;
  rc_count = 1;
  link = none;
  last_ls_ts = none;
  ls_count = 0;
  devices = [];
  overrides = record { index = 6; expires = 900_000; us = 1174; crsf = 470 } ∷ [];
  last_ch_bcast = 0;
  last_ls_bcast = 0;
}

-- An RC frame of two bytes has one channel: the override of channel 7 is written past its end.
short_frame_raises :
    (handle_frame held
      (record { addr = 0xC8; ftype = 0x16; payload = 1 ∷ 2 ∷ [] })
      500_000
      500_000).1
    ≡ raised
unfolding handle_frame unpack_channels crsf_to_us apply_overrides
short_frame_raises = refl
