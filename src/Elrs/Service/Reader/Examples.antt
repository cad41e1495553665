-- ===== src/Elrs/Service/Reader/Examples.antt =====
-- modules/elrs_telemetry/service.py: a stream at the serial port.
use nova_robotics_drone_cont.Common.{◌≡◌, refl, false, none, List, [], ◌∷◌}
use nova_robotics_drone_cont.Elrs.Mux.{chan_tx}
use nova_robotics_drone_cont.Elrs.Mux.Stream.{Item, packet, diag, noise}
use nova_robotics_drone_cont.Elrs.Mux.Stream
use nova_robotics_drone_cont.Elrs.Crsf.{
  Frame, frame_device_info, frame_rc_channels_packed, unpack_channels,
}
use nova_robotics_drone_cont.Elrs.Service.Channels.{
  LinkState, handle_frame, maybe_broadcast_channels, apply_overrides,
}
use nova_robotics_drone_cont.Elrs.Service.Reader.{handle_one}
use nova_robotics_drone_cont.Elrs.Service.Reader.Stream.{handle_all}

-- A device that calls itself "Rx", and a frame of the channels whose payload is empty.
abbrev announced : List Frame
announced =
    record { addr = 0xEA; ftype = frame_device_info; payload = 0xEA ∷ 0xEC ∷ b'R' ∷ b'x' ∷ 0 ∷ [] }
    ∷ record { addr = 0xC8; ftype = frame_rc_channels_packed; payload = [] }
    ∷ []

-- Their bytes, cut in the middle of the first frame, with a line of the firmware, a packet of the
-- other channel and a stray byte between the two parts.
abbrev announcement : List Item
announcement =
    packet 2 (0xEA ∷ 7 ∷ frame_device_info ∷ 0xEA ∷ [])
    ∷ diag (b'o' ∷ b'k' ∷ [])
    ∷ packet chan_tx (0xC8 ∷ 2 ∷ 0x21 ∷ 0x41 ∷ [])
    ∷ noise 0x41
    ∷ packet 2 (0xEC ∷ b'R' ∷ b'x' ∷ 0 ∷ 0xCA ∷ 0xC8 ∷ 2 ∷ frame_rc_channels_packed ∷ 0xD3 ∷ [])
    ∷ []

abbrev started : LinkState
started = record {
  channels = none;
  last_rc_ts = none;
  rc_count = 0;
  link = none;
  last_ls_ts = none;
  ls_count = 0;
  devices = [];
  overrides = [];
  last_ch_bcast = 0;
  last_ls_bcast = 0;
}

-- An override on a channel that an empty payload does not have ends the reader.
reader_raises :
    (handle_all
      (record started {
        overrides = record { index = 6; expires = 900_000; us = 1174; crsf = 470 } ∷ [];
      })
      announced
      500_000).good
    ≡ false
unfolding handle_all handle_one handle_frame maybe_broadcast_channels apply_overrides
    unpack_channels
reader_raises = refl
