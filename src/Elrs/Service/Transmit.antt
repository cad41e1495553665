-- ===== src/Elrs/Service/Transmit.antt =====
-- modules/elrs_telemetry/service.py: the token bucket, the queue of frames and the writer.
-- A clock reading is a number of microseconds, a token a million millionths, and the rate a number
-- of tokens per second. Calls follow one another: the locks are not modelled.
use nova_robotics_drone_cont.Common.{
  ℕ, ◌+◌, ◌-◌, ◌*◌, min, Bool, true, false, ◌&&◌, ◌||◌, not, Option, none, some, List, [], ◌∷◌,
  ◌++◌, leb, ◌==◌, if◌then◌else◌, get_or, length,
}
use nova_robotics_drone_cont.Common.Result.{Result, ok, err}
use nova_robotics_drone_cont.Elrs.Mux.{encode, chan_tx, MuxEncodeError}

pub record TokenBucket : Type 0 where
  pub rate : ℕ
  pub capacity : ℕ
  pub tokens : ℕ
  pub last : ℕ

abbrev pub whole_token : ℕ
whole_token = 1_000_000

unfoldable pub new_bucket : ℕ → ℕ → ℕ → TokenBucket
new_bucket rate_hz capacity now = record {
  rate = rate_hz;
  capacity = capacity;
  tokens = capacity * whole_token;
  last = now;
}

abbrev pub refill : TokenBucket → ℕ → TokenBucket
refill bucket now = record bucket {
  tokens = min (bucket.capacity * whole_token) (bucket.tokens + (now - bucket.last) * bucket.rate);
  last = now;
}

-- `TokenBucket.take`
unfoldable pub take_token : TokenBucket → ℕ → TokenBucket × Bool
take_token bucket now =
    let b = refill bucket now in
    if leb whole_token b.tokens
    then (record b { tokens = b.tokens - whole_token }, true)
    else (b, false)

abbrev pub tx_queue_max : ℕ
tx_queue_max = 20

abbrev pub Frame : Type 0
Frame = List ℕ

-- `queue.Queue(maxsize)`: the oldest entry stands first.
abbrev pub put_nowait : List Frame → Frame → Option (List Frame)
put_nowait queue frame =
    if leb tx_queue_max (length queue) then none else some (queue ++ (frame ∷ []))

abbrev pub get_nowait : List Frame → List Frame
get_nowait [] = []
get_nowait (oldest ∷ queue) = queue

pub record Sender : Type 0 where
  pub bucket : TokenBucket
  pub queue : List Frame
  pub bytes_out : ℕ

pub data Reply : Type 0 where
  enqueued : Reply
  -- 429 and 503
  rate_limited queue_full : Reply

abbrev pub retry_put : Sender → Option (List Frame) → Sender × Reply
retry_put s none = (s, queue_full)
retry_put s (some queue) = (record s { queue = queue }, enqueued)

abbrev pub put_or_drop_oldest : Sender → Frame → Option (List Frame) → Sender × Reply
put_or_drop_oldest s frame (some queue) = (record s { queue = queue }, enqueued)
put_or_drop_oldest s frame none =
    let s' = record s { queue = get_nowait s.queue } in retry_put s' (put_nowait s'.queue frame)

abbrev pub enqueue_taken : TokenBucket × Bool → Sender → Frame → Sender × Reply
enqueue_taken (bucket, false) s frame = (record s { bucket = bucket }, rate_limited)
enqueue_taken (bucket, true) s frame =
    let s' = record s { bucket = bucket } in put_or_drop_oldest s' frame (put_nowait s'.queue frame)

-- `_enqueue`
unfoldable pub enqueue : Sender → Frame → ℕ → Sender × Reply
unfolding take_token
enqueue s frame now = enqueue_taken (take_token s.bucket now) s frame

pub data RawReply : Type 0 where
  bad_length bad_address bad_length_byte : RawReply
  answered : Reply → RawReply

abbrev pub is_sync_address : ℕ → Bool
is_sync_address b = b == 0x00 || b == 0xC8 || b == 0xEA || b == 0xEC || b == 0xEE

abbrev pub answer : Sender × Reply → Sender × RawReply
answer (s, r) = (s, answered r)

-- `tx_raw`, from the bytes that the hex string stands for.
unfoldable pub tx_raw : Sender → Frame → ℕ → Sender × RawReply
unfolding enqueue
tx_raw s frame now =
    if not (leb 4 (length frame) && leb (length frame) 64)
    then (s, bad_length)
    else (if not (is_sync_address (get_or frame 0 0))
        then (s, bad_address)
        else (if not (get_or frame 1 0 + 2 == length frame)
            then (s, bad_length_byte)
            else answer (enqueue s frame now)))

-- The serial port at a turn of the writer.
pub data Port : Type 0 where
  closed failing working : Port

-- The bytes on the wire.
abbrev pub write_framed : Port → Sender → Frame → Result MuxEncodeError (List ℕ) → Sender × List ℕ
write_framed closed s frame framed = (s, [])
write_framed _ s frame (err e) = (s, [])
write_framed failing s frame (ok framed) = (s, [])
write_framed working s frame (ok framed) =
    (record s { bytes_out = s.bytes_out + length frame }, framed)

abbrev pub write_next : List Frame → Port → Sender → Option (Sender × List ℕ)
write_next [] port s = none
write_next (frame ∷ queue) port s =
    some (write_framed port (record s { queue = queue }) frame (encode chan_tx frame))

-- One turn of `_writer_loop`; `none` is a wait on the empty queue.
unfoldable pub writer_turn : Sender → Port → Option (Sender × List ℕ)
writer_turn s port = write_next s.queue port s
