-- ===== src/Elrs/Service/Reader.antt =====
-- modules/elrs_telemetry/service.py: the reader, from the bytes of the serial port to the frames.
-- The clock stands still within one read. The counters of the reader are left out. The loop does not
-- catch an exception of the handler: the thread ends, and decoder and parser are gone with it, so
-- that after a pass that is not good only its state and its broadcasts mean anything.
pub mod Stream
pub mod Outputs
pub mod Arrive
mod Examples
use nova_robotics_drone_cont.Common.{
  ℕ, zero, suc, Bool, true, false, not, Option, none, some, List, [], ◌∷◌, ◌++◌, ◌==◌,
  if◌then◌else◌, length, take, drop,
}
use nova_robotics_drone_cont.Elrs.Mux.{MuxDecoder, Output, frame, line, feed_byte, chan_rx}
use nova_robotics_drone_cont.Elrs.Crsf.{Frame, wait, skip, accept, look, frame_of}
use nova_robotics_drone_cont.Elrs.Service.Channels.{LinkState, Broadcast, raised, handle_frame}

-- What some of the work leaves: the state, what was broadcast, and whether no exception ended it.
pub record Pass : Type 0 where
  pub state : LinkState
  pub sent : List Broadcast
  pub good : Bool

abbrev pub nothing : LinkState → Pass
nothing st = record { state = st; sent = []; good = true }

abbrev pub is_raise : Broadcast → Bool
is_raise raised = true
is_raise _ = false

-- One call of `_handle_frame`.
unfoldable pub handle_one : LinkState → Frame → ℕ → Pass
handle_one st f now =
    let h = handle_frame st f now now in
    record { state = h.0; sent = h.1 ∷ []; good = not (is_raise h.1) }

-- Work goes on after a pass that did not raise; the first component is the parser's buffer.
abbrev pub go_on : Bool → List ℕ → Pass → List ℕ × Pass → List ℕ × Pass
go_on true buf p (buf', q) = (buf', record q { sent = p.sent ++ q.sent })
go_on false buf p rest = (buf, p)

-- `for addr, ftype, pl in parser.feed(payload): _handle_frame(addr, ftype, pl)`: a frame is handled
-- before the parser looks for the next one.
unfoldable pub parse_pass : ℕ → List ℕ → LinkState → ℕ → List ℕ × Pass
parse_pass zero buf st now = (buf, nothing st)
parse_pass (suc fuel) buf st now = elim (look buf) [
  | wait ↦ (buf, nothing st)
  | skip ↦ parse_pass fuel (drop 1 buf) st now
  | accept total ↦
      let p = handle_one st (frame_of (take total buf)) now in
      go_on p.good (drop total buf) p (parse_pass fuel (drop total buf) p.state now)
]

-- One output of the mux decoder: only the uplink goes to the CRSF parser.
abbrev pub take_out : List ℕ → LinkState → ℕ → Output → List ℕ × Pass
take_out buf st now (line text) = (buf, nothing st)
take_out buf st now (frame c payload) =
    if c == chan_rx
    then parse_pass (length (buf ++ payload)) (buf ++ payload) st now
    else (buf, nothing st)

unfoldable pub take_outs : List ℕ → LinkState → ℕ → List Output → List ℕ × Pass
take_outs buf st now [] = (buf, nothing st)
take_outs buf st now (o ∷ os) =
    let a = take_out buf st now o in go_on a.1.good a.0 a.1 (take_outs a.0 a.1.state now os)

abbrev pub go_on_reading :
    Bool
    → MuxDecoder
    → List ℕ × Pass
    → Option (MuxDecoder × List ℕ × Pass)
    → Option (MuxDecoder × List ℕ × Pass)
go_on_reading true d a none = none
go_on_reading true d a (some (d', buf, q)) = some (d', buf, record q { sent = a.1.sent ++ q.sent })
go_on_reading false d a rest = some (d, a.0, a.1)

-- The inner loop of `_reader_loop` on one chunk, byte by byte as the generators run. `none` is a
-- fault of the decoder.
unfoldable pub read_chunk :
    MuxDecoder → List ℕ → LinkState → ℕ → List ℕ → Option (MuxDecoder × List ℕ × Pass)
read_chunk d buf st now [] = some (d, buf, nothing st)
read_chunk d buf st now (b ∷ bs) = elim (feed_byte d b) [
  | none ↦ none
  | some (d', outs) ↦
      let a = take_outs buf st now outs in
      go_on_reading a.1.good d' a (read_chunk d' a.0 a.1.state now bs)
]
