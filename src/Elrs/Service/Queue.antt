-- ===== src/Elrs/Service/Queue.antt =====
-- modules/elrs_telemetry/service.py: the queue of frames to send, and the writer that empties it.
use nova_robotics_drone_cont.Common.{
  ℕ, bit_and, ◌/◌, ◌^◌, ◌||◌, ◌+◌, ◌≤◌, ◌<◌, ◌≡◌, ◌≢◌, inl, inr, refl, subst, append-nil, Bool,
  true, false, some, List, [], ◌∷◌, ◌++◌, arith, length, leb, ltb, All, if◌then◌else◌,
  length-append, All-append, not, get_or, ◌==◌, ◌&&◌, Bool-cases,
}
use nova_robotics_drone_cont.Common.Result.{ok}
use nova_robotics_drone_cont.Elrs.Mux.{
  magic_byte_1, magic_byte_2, max_payload, MuxDecoder, wait_magic1, feed, encode, chan_tx,
}
use nova_robotics_drone_cont.Elrs.Mux.RoundTrip.{Yields}
use nova_robotics_drone_cont.Elrs.Mux.Stream.{packet, wires, all_heard, feed-wires}
use nova_robotics_drone_cont.Elrs.Service.Transmit.{
  Sender, Frame, enqueued, rate_limited, queue_full, RawReply, answered, answer, bad_length,
  bad_address, bad_length_byte, is_sync_address, enqueue_taken, take_token, put_nowait, get_nowait,
  put_or_drop_oldest, tx_raw, working, writer_turn, TokenBucket,
}

abbrev pub Encodable : Frame → Type 0
Encodable f = (1 ≤ length f) × (length f ≤ 256)

-- At most 20 frames, each fit for the mux.
pub record IsValid (s : Sender) : Type 0 where
  pub bounded : length s.queue ≤ 20
  pub encodable : All Encodable s.queue

-- What an accepted frame does to the queue: it comes last, and only a full queue loses its oldest.
abbrev pub queued : List Frame → Frame → List Frame
queued queue frame =
    if leb 20 (length queue) then get_nowait queue ++ (frame ∷ []) else queue ++ (frame ∷ [])

shorter : (q : List Frame) → length q ≤ 20 → leb 20 (length (get_nowait q)) ≡ false
shorter [] h = ground arith
shorter (f ∷ q) h = ground arith

put_lem :
    (s : Sender) (frame : Frame)
    → length s.queue ≤ 20
    → put_or_drop_oldest s frame (put_nowait s.queue frame)
      ≡ (record s { queue = queued s.queue frame }, enqueued)
put_lem s frame h = elim (Bool-cases (leb 20 (length s.queue))) [
  | inl e ↦ rw (e, shorter s.queue h) refl
  | inr e ↦ rw e refl
]

shortened : (q : List Frame) → length q ≤ 20 → length (get_nowait q) ≤ 19
shortened [] h = omega arith
shortened (f ∷ q) h = omega arith

rest-Encodable : (q : List Frame) → All Encodable q → All Encodable (get_nowait q)
rest-Encodable [] a = tt
rest-Encodable (f ∷ q) a = a.1

queued_fits :
    (q : List Frame) (frame : Frame)
    → length q ≤ 20
    → All Encodable q
    → Encodable frame
    → (length (queued q frame) ≤ 20) × All Encodable (queued q frame)
queued_fits q frame h a f = elim (Bool-cases (leb 20 (length q))) [
  | inl e ↦ rw e (
    omega (arith, length-append (get_nowait q) (frame ∷ []), shortened q h),
    All-append Encodable (get_nowait q) (frame ∷ []) (rest-Encodable q a) (f, tt),
  )
  | inr e ↦ rw e (
    (let k : length q < 20 = ground arith in omega (arith, length-append q (frame ∷ []))),
    All-append Encodable q (frame ∷ []) a (f, tt),
  )
]

-- Every outcome of a post of a raw frame: nothing happens to the queue and the answer is not that the
-- frame was enqueued, or it was, and the frame was one that a CRSF parser may take for whole.
pub data Outcome (s : Sender) (frame : Frame) : Sender × RawReply → Type 0 where
  turned_away :
      (s' : Sender) (r : RawReply)
      → s'.queue ≡ s.queue
      → r ≢ answered enqueued
      → r ≢ answered queue_full
      → Outcome s frame (s', r)
  taken :
      (s' : Sender)
      → s'.queue ≡ queued s.queue frame
      → Encodable frame
      → get_or frame 1 0 + 2 ≡ length frame
      → Outcome s frame (s', answered enqueued)

module _ (s : Sender) (frame : Frame) (now : ℕ) (h : length s.queue ≤ 20) where
  by_token :
      (t : TokenBucket × Bool)
      → Encodable frame
      → get_or frame 1 0 + 2 ≡ length frame
      → Outcome s frame (answer (enqueue_taken t s frame))
  by_token (bucket, false) f l =
      turned_away (record s { bucket = bucket }) (answered rate_limited) refl (λ e. ground arith)
        (λ e. ground arith)
  by_token (bucket, true) f l =
      rw (put_lem (record s { bucket = bucket }) frame h)
        (taken (record s { bucket = bucket; queue = queued s.queue frame }) refl f l)

  -- For any frame and any state whose queue holds at most 20: a raw frame is either turned away, with
  -- the queue as it was and never for a full queue, or comes last in the queue, in which case it
  -- has the length that its length byte says, fit for the mux. Only a full queue gives up its
  -- oldest frame.
  pub tx_raw_outcome : Outcome s frame (tx_raw s frame now)
  unfolding tx_raw
  tx_raw_outcome = elim (Bool-cases (not (leb 4 (length frame) && leb (length frame) 64))) [
    | inl e ↦ rw e (turned_away s bad_length refl (λ x. ground arith) (λ x. ground arith))
    | inr e ↦ elim (Bool-cases (not (is_sync_address (get_or frame 0 0)))) [
      | inl g ↦ rw (e, g) (turned_away s bad_address refl (λ x. ground arith) (λ x. ground arith))
      | inr g ↦ elim (Bool-cases (not (get_or frame 1 0 + 2 == length frame))) [
        | inl l ↦
            rw (e, g, l)
              (turned_away s bad_length_byte refl (λ x. ground arith) (λ x. ground arith))
        | inr l ↦ rw (e, g, l) (by_token (take_token s.bucket now) (ground arith) (ground arith))
      ]
    ]
  ]

outcome-IsValid :
    (s : Sender) (frame : Frame) (r : Sender × RawReply)
    → IsValid s
    → Outcome s frame r
    → IsValid r.0
outcome-IsValid s frame r v (turned_away s' reply e n m) = record {
  bounded = rw e v.bounded;
  encodable = rw e v.encodable;
}
outcome-IsValid s frame r v (taken s' e f l) =
    let q = queued_fits s.queue frame v.bounded v.encodable f in
    record { bounded = rw e q.0; encodable = rw e q.1 }

-- From a valid state a post of any bytes as a raw frame leaves a valid one.
tx_raw-IsValid : (s : Sender) (frame : Frame) (now : ℕ) → IsValid s → IsValid (tx_raw s frame now).0
tx_raw-IsValid s frame now v =
    outcome-IsValid s frame (tx_raw s frame now) v (tx_raw_outcome s frame now v.bounded)

encode_fits :
    (frame : Frame) → Encodable frame → (bytes : List ℕ) × (encode chan_tx frame ≡ ok bytes)
unfolding encode
encode_fits frame h = (
  magic_byte_1
      ∷ magic_byte_2
      ∷ chan_tx
      ∷ bit_and (length frame) 0xFF
      ∷ bit_and (length frame / 2 ^ 8) 0xFF
      ∷ frame,
  rw (let e : (length frame == 0 || ltb max_payload (length frame)) ≡ false = ground arith in e)
      refl,
)

-- In a valid state with a frame in the queue, a turn of the writer on a working port writes that
-- frame, the oldest, and counts its bytes: the mux never refuses it. A mux decoder at rest reads what
-- was written as exactly that frame on the channel of the downlink.
pub writer_reaches_mux :
    (s : Sender) (frame : Frame) (queue : List Frame) (d : MuxDecoder)
    → IsValid s
    → s.queue ≡ frame ∷ queue
    → d.state ≡ wait_magic1
    → length d.buf ≡ 256
    → (bytes : List ℕ) × (writer_turn s working
        ≡ some (record s { queue = queue; bytes_out = s.bytes_out + length frame }, bytes))
      × Yields d (feed d bytes) (all_heard d.diag_cb (packet chan_tx frame ∷ []))
unfolding writer_turn
writer_reaches_mux s frame queue d v e w b =
    let q : All Encodable (frame ∷ queue) = subst (All Encodable) e v.encodable in
    let x = encode_fits frame q.0 in
    (
      x.0,
      rw (e, x.1) refl,
      subst (λ bs. Yields d (feed d bs) (all_heard d.diag_cb (packet chan_tx frame ∷ [])))
          (let j : wires (packet chan_tx frame ∷ []) ≡ x.0 = rw x.1 (append-nil x.0) in j)
          (feed-wires (packet chan_tx frame ∷ []) d w b
            ((refl, (let k = q.0 in omega arith), q.0.1), tt)),
    )
