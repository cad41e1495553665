-- ===== src/Elrs/Service/Channels.antt =====
-- modules/elrs_telemetry/service.py: the state of the link, its frames and the broadcasts.
-- A clock reading is a number of microseconds. A dictionary is the list of its entries in order.
use nova_robotics_drone_cont.Common.{
  ℕ, ◌+◌, ◌-◌, ◌*◌, ◌/◌, Bool, true, false, ◌&&◌, ◌||◌, Option, none, some, List, [], ◌∷◌, map, leb,
  ltb, ◌==◌, if◌then◌else◌, length, set, drop,
}
use nova_robotics_drone_cont.Elrs.Crsf.{
  Frame, LinkStats, parse_link_stats, unpack_channels, crsf_to_us, frame_rc_channels_packed,
  frame_link_stats, frame_device_info,
}

pub record Override : Type 0 where
  pub index : ℕ
  pub expires : ℕ
  pub us : ℕ
  pub crsf : ℕ

pub record Channels : Type 0 where
  pub channels_crsf : List ℕ
  pub channels_us : List ℕ

-- Without the counters of the reader and the writer, which are in `Sender` or only shown.
pub record LinkState : Type 0 where
  -- `channels_crsf` and `channels_us` are set together
  pub channels : Option Channels
  pub last_rc_ts : Option ℕ
  pub rc_count : ℕ
  pub link : Option LinkStats
  pub last_ls_ts : Option ℕ
  pub ls_count : ℕ
  pub devices : List (List ℕ × ℕ)
  pub overrides : List Override
  pub last_ch_bcast : ℕ
  pub last_ls_bcast : ℕ

abbrev pub ws_channels_hz : ℕ
ws_channels_hz = 30

abbrev pub ws_link_hz : ℕ
ws_link_hz = 5

-- `now - last < 1.0 / hz`
abbrev pub is_too_soon : ℕ → ℕ → ℕ → Bool
is_too_soon hz last now = ltb ((now - last) * hz) 1_000_000

-- One override is written; `none` is the `IndexError` of a write past the end.
abbrev pub write_override : Channels → Override → Option Channels
write_override ch o =
    if ltb o.index (length ch.channels_us) && ltb o.index (length ch.channels_crsf)
    then some (record {
      channels_crsf = set ch.channels_crsf o.index o.crsf;
      channels_us = set ch.channels_us o.index o.us;
    })
    else none

-- What the loop leaves: the overrides, and the channels to send unless it raised.
pub record Applied : Type 0 where
  pub overrides : List Override
  pub channels : Option Channels

abbrev pub keep_override : Override → Applied → Applied
keep_override o a = record a { overrides = o ∷ a.overrides }

-- The loop over the overrides, on the channels written so far; after an `IndexError` no more runs.
unfoldable pub apply_overrides : ℕ → Option Channels → List Override → Applied
apply_overrides now ch [] = record { overrides = []; channels = ch }
apply_overrides now none (o ∷ os) = record { overrides = o ∷ os; channels = none }
apply_overrides now (some ch) (o ∷ os) =
    let expired = ltb o.expires now in
    let rest = apply_overrides now (if expired then some ch else write_override ch o) os in
    if expired then rest else keep_override o rest

-- What a broadcast sends.
pub data Broadcast : Type 0 where
  quiet : Broadcast
  channels_message : Channels → Broadcast
  link_message : Option LinkStats → Broadcast
  raised : Broadcast

abbrev pub sent_or_raised : Option Channels → Broadcast
sent_or_raised none = raised
sent_or_raised (some ch) = channels_message ch

abbrev pub broadcast_with : Option Channels → LinkState → ℕ → LinkState × Broadcast
broadcast_with none state now = (record state { last_ch_bcast = now }, quiet)
broadcast_with (some ch) state now =
    let a = apply_overrides now (some ch) state.overrides in
    (record state { last_ch_bcast = now; overrides = a.overrides }, sent_or_raised a.channels)

-- `_maybe_broadcast_channels`
unfoldable pub maybe_broadcast_channels : LinkState → ℕ → LinkState × Broadcast
maybe_broadcast_channels state now =
    if is_too_soon ws_channels_hz state.last_ch_bcast now
    then (state, quiet)
    else broadcast_with state.channels state now

-- `_maybe_broadcast_link`
unfoldable pub maybe_broadcast_link : LinkState → ℕ → LinkState × Broadcast
maybe_broadcast_link state now =
    if is_too_soon ws_link_hz state.last_ls_bcast now
    then (state, quiet)
    else (record state { last_ls_bcast = now }, link_message state.link)

abbrev pub on_link_stats : Option LinkStats → LinkState → ℕ → ℕ → LinkState × Broadcast
on_link_stats none state now later = (state, quiet)
on_link_stats (some ls) state now later =
    maybe_broadcast_link
      (record state { link = some ls; last_ls_ts = some now; ls_count = state.ls_count + 1 }) later

-- The bytes up to the first 0; `none` is the `ValueError` of `index`.
abbrev pub until_zero : List ℕ → Option (List ℕ)
until_zero [] = none
until_zero (b ∷ bs) =
    let rest = until_zero bs in
    if b == 0 then some [] else elim rest [ none ↦ none | some name ↦ some (b ∷ name) ]

-- `decode('ascii', errors='ignore')`
abbrev pub ascii_only : List ℕ → List ℕ
ascii_only [] = []
ascii_only (b ∷ bs) = let rest = ascii_only bs in if ltb b 128 then b ∷ rest else rest

abbrev pub same_name : List ℕ → List ℕ → Bool
same_name [] [] = true
same_name [] (y ∷ ys) = false
same_name (x ∷ xs) [] = false
same_name (x ∷ xs) (y ∷ ys) = x == y && same_name xs ys

abbrev pub put_device : List (List ℕ × ℕ) → List ℕ → ℕ → List (List ℕ × ℕ)
put_device [] name now = (name, now) ∷ []
put_device ((n, t) ∷ devices) name now =
    let rest = put_device devices name now in
    if same_name n name then (n, now) ∷ devices else (n, t) ∷ rest

abbrev pub on_device : Option (List ℕ) → LinkState → ℕ → LinkState
on_device none state now = state
on_device (some bytes) state now =
    let name = ascii_only bytes in
    if length name == 0 then state else record state { devices = put_device state.devices name now }

-- `_handle_frame`; `later` is the reading of the clock in the broadcast.
unfoldable pub handle_frame : LinkState → Frame → ℕ → ℕ → LinkState × Broadcast
unfolding maybe_broadcast_channels
handle_frame state f now later =
    let ch = unpack_channels f.payload in
    if f.ftype == frame_rc_channels_packed
    then maybe_broadcast_channels
        (record state {
          channels = some (record { channels_crsf = ch; channels_us = map crsf_to_us ch });
          last_rc_ts = some now;
          rc_count = state.rc_count + 1;
        })
        later
    else (if f.ftype == frame_link_stats
        then on_link_stats (parse_link_stats f.payload) state now later
        else (if f.ftype == frame_device_info
            then (on_device (until_zero (drop 2 f.payload)) state now, quiet)
            else (state, quiet)))

pub data InjectReply : Type 0 where
  index_out_of_range us_out_of_range hold_out_of_range no_data index_error hold oneshot :
      InjectReply

-- `state.overrides[idx] = ...`
abbrev pub put_override : List Override → Override → List Override
put_override [] o = o ∷ []
put_override (x ∷ os) o =
    let rest = put_override os o in if x.index == o.index then o ∷ os else x ∷ rest

-- `int(round((us - 1500) * 8 / 5 + 992))`, for `us` from 988 on; a quotient by 5 is never half way.
abbrev pub crsf_of_us : ℕ → ℕ
crsf_of_us us = ((us * 8 + 992 * 5 - 1500 * 8) * 2 + 5) / 10

abbrev pub write_oneshot :
    Option Channels → LinkState → Override → LinkState × InjectReply × Broadcast
write_oneshot none state o = (state, index_error, quiet)
write_oneshot (some ch) state o =
    (record state { channels = some ch }, oneshot, channels_message ch)

abbrev pub inject_now : Option Channels → LinkState → Override → LinkState × InjectReply × Broadcast
inject_now none state o = (state, no_data, quiet)
inject_now (some ch) state o = write_oneshot (write_override ch o) state o

-- `debug_inject_channel`, on numbers that are not negative: a negative one is refused as one that is
-- too large is. `hold_us` is `hold_s` in microseconds.
unfoldable pub inject_channel : LinkState → ℕ → ℕ → ℕ → ℕ → LinkState × InjectReply × Broadcast
inject_channel state idx us hold_us now =
    let o : Override = record {
      index = idx;
      expires = now + hold_us;
      us = us;
      crsf = crsf_of_us us;
    } in
    if leb 16 idx
    then (state, index_out_of_range, quiet)
    else (if ltb us 988 || ltb 2012 us
        then (state, us_out_of_range, quiet)
        else (if ltb 30_000_000 hold_us
            then (state, hold_out_of_range, quiet)
            else (if ltb 0 hold_us
                then (record state { overrides = put_override state.overrides o }, hold, quiet)
                else inject_now state.channels state o)))

-- `debug_clear_overrides`, with the number that it reports.
unfoldable pub clear_overrides : LinkState → LinkState × ℕ
clear_overrides state = (record state { overrides = [] }, length state.overrides)
