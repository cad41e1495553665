-- ===== src/Elrs/Mux.antt =====
-- modules/elrs_telemetry/mux.py: the framing of two UARTs on one USB-CDC byte stream.
-- A byte is a number, a byte string a list. `none` is the `IndexError` of a write past `_buf`.
pub mod Total
pub mod RoundTrip
pub mod Stream
pub mod Resync
mod Examples
use nova_robotics_drone_cont.Common.{
  ℕ, ◌+◌, ◌*◌, ◌/◌, ◌^◌, Bool, ◌||◌, not, Option, none, some, List, [], ◌∷◌, ◌++◌, bit_and, bit_or,
  ltb, leb, ◌==◌, if◌then◌else◌, length, set, take, replicate,
}
use nova_robotics_drone_cont.Common.Result.{Result, ok, err}

abbrev pub magic_byte_1 : ℕ
magic_byte_1 = 0xFE

abbrev pub magic_byte_2 : ℕ
magic_byte_2 = 0xCA

abbrev pub max_payload : ℕ
max_payload = 256

abbrev pub chan_tx : ℕ
chan_tx = 1

abbrev pub chan_rx : ℕ
chan_rx = 2

-- '#' opens a diagnostic line, '\n' ends it.
abbrev pub hash : ℕ
hash = 0x23

abbrev pub newline : ℕ
newline = 0x0A

abbrev pub diag_cap : ℕ
diag_cap = 512

-- The two texts of `MuxEncodeError`, with the number that each shows.
pub data MuxEncodeError : Type 0 where
  invalid_channel : ℕ → MuxEncodeError
  invalid_payload_length : ℕ → MuxEncodeError

abbrev pub is_channel : ℕ → Bool
is_channel channel = channel == chan_tx || channel == chan_rx

unfoldable pub encode : ℕ → List ℕ → Result MuxEncodeError (List ℕ)
encode channel payload =
    let n = length payload in
    if not (is_channel channel)
    then err (invalid_channel channel)
    else (if n == 0 || ltb max_payload n
        then err (invalid_payload_length n)
        else ok (
            magic_byte_1
            ∷ magic_byte_2
            ∷ channel
            ∷ bit_and n 0xFF
            ∷ bit_and (n / 2 ^ 8) 0xFF
            ∷ payload))

pub data MuxState : Type 0 where
  wait_magic1 wait_magic2 wait_chan wait_len_lo wait_len_hi read_payload read_diag : MuxState

pub record MuxDecoder : Type 0 where
  pub state : MuxState
  pub chan : ℕ
  pub len : ℕ
  pub read : ℕ
  pub buf : List ℕ
  pub diag_buf : List ℕ
  -- whether a diagnostic callback was given
  pub diag_cb : Bool
  pub bad_sync : ℕ
  pub diag_lines : ℕ
  pub frames_decoded : ℕ

unfoldable pub new : Bool → MuxDecoder
new diag_callback = record {
  state = wait_magic1;
  chan = 0;
  len = 0;
  read = 0;
  buf = replicate max_payload 0;
  diag_buf = [];
  diag_cb = diag_callback;
  bad_sync = 0;
  diag_lines = 0;
  frames_decoded = 0;
}

-- What leaves the decoder: a frame that is yielded, or a line handed to the callback.
pub data Output : Type 0 where
  frame : ℕ → List ℕ → Output
  line : List ℕ → Output

abbrev is_crlf : ℕ → Bool
is_crlf b = b == 0x0D || b == newline

keep_unless_blank : ℕ → List ℕ → List ℕ
keep_unless_blank b [] = if is_crlf b then [] else (b ∷ [])
keep_unless_blank b (c ∷ cs) = b ∷ c ∷ cs

-- `rstrip("\r\n")`, on the bytes of the line: the decoding to text is left to the reader of it.
unfoldable pub rstrip : List ℕ → List ℕ
unfolding keep_unless_blank
rstrip [] = []
rstrip (b ∷ bs) = keep_unless_blank b (rstrip bs)

start_diag : MuxDecoder → ℕ → MuxDecoder
start_diag d b = record d { state = read_diag; diag_buf = b ∷ [] }

resync : MuxDecoder → MuxDecoder
resync d = record d { state = wait_magic1; bad_sync = d.bad_sync + 1 }

-- What runs between a yield and the next byte.
abbrev pub resume : MuxDecoder → MuxDecoder
resume d = record d { frames_decoded = d.frames_decoded + 1; state = wait_magic1 }

-- The decoder as it stands at a yield, before `resume`.
abbrev pub stored : MuxDecoder → ℕ → MuxDecoder
stored d b = record d { buf = set d.buf d.read b; read = d.read + 1 }

feed_payload : MuxDecoder → ℕ → Option (MuxDecoder × List Output)
feed_payload d b =
    let d' = stored d b in
    if leb (length d.buf) d.read
    then none
    else (if leb d'.len d'.read
        then some (resume d', frame d'.chan (take d'.len d'.buf) ∷ [])
        else some (d', []))

feed_len_hi : MuxDecoder → ℕ → MuxDecoder
unfolding resync
feed_len_hi d b =
    let d' = record d { len = bit_or d.len (b * 2 ^ 8) } in
    if d'.len == 0 || ltb max_payload d'.len || not (is_channel d'.chan)
    then resync d'
    else record d' { read = 0; state = read_payload }

feed_diag : MuxDecoder → ℕ → MuxDecoder × List Output
unfolding resync
feed_diag d b =
    if b == newline
    then (
      record d { diag_lines = d.diag_lines + 1; diag_buf = []; state = wait_magic1 },
      if d.diag_cb then (line (rstrip d.diag_buf) ∷ []) else [],
    )
    else (if ltb (length d.diag_buf) diag_cap
        then (record d { diag_buf = d.diag_buf ++ (b ∷ []) }, [])
        else (record (resync d) { diag_buf = [] }, []))

-- `_feed_byte`, by the state that it finds.
feed_in : MuxState → MuxDecoder → ℕ → Option (MuxDecoder × List Output)
unfolding start_diag resync feed_len_hi feed_payload feed_diag
feed_in wait_magic1 d b =
    if b == magic_byte_1
    then some (record d { state = wait_magic2 }, [])
    else (if b == hash then some (start_diag d b, []) else some (d, []))
feed_in wait_magic2 d b =
    if b == magic_byte_2
    then some (record d { state = wait_chan }, [])
    else (if b == magic_byte_1
        then some (d, [])
        else (if b == hash
            then some (record (start_diag d b) { bad_sync = d.bad_sync + 1 }, [])
            else some (resync d, [])))
feed_in wait_chan d b = some (record d { chan = b; state = wait_len_lo }, [])
feed_in wait_len_lo d b = some (record d { len = b; state = wait_len_hi }, [])
feed_in wait_len_hi d b = some (feed_len_hi d b, [])
feed_in read_payload d b = feed_payload d b
feed_in read_diag d b = some (feed_diag d b)

unfoldable pub feed_byte : MuxDecoder → ℕ → Option (MuxDecoder × List Output)
unfolding feed_in
feed_byte d b = feed_in d.state d b

abbrev pub emit :
    List Output → Option (MuxDecoder × List Output) → Option (MuxDecoder × List Output)
emit out none = none
emit out (some (d, more)) = some (d, out ++ more)

-- `feed`, run to the end of its bytes: the decoder after them, and what left it, in order.
unfoldable pub feed : MuxDecoder → List ℕ → Option (MuxDecoder × List Output)
feed d [] = some (d, [])
feed d (b ∷ bs) = elim (feed_byte d b) [ none ↦ none | some (d', out) ↦ emit out (feed d' bs) ]
