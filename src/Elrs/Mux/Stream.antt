-- ===== src/Elrs/Mux/Stream.antt =====
-- modules/elrs_telemetry/mux.py: whole streams of packets, diagnostic lines and stray bytes.
use nova_robotics_drone_cont.Common.{
  ℕ, ◌+◌, ◌/◌, ◌^◌, ◌≤◌, ◌<◌, ◌≡◌, ◌≢◌, refl, ◌∙◌, ap, Bool, true, Option, none, some, List, [],
  ◌∷◌, ◌++◌, arith, length, length-append, append_assoc, append-nil, All, bit_and, if◌then◌else◌,
}
use nova_robotics_drone_cont.Common.Result.{Result, ok, err}
use nova_robotics_drone_cont.Elrs.Mux.{
  wait_magic1, read_payload, read_diag, MuxDecoder, Output, frame, line, is_channel, hash, newline,
  magic_byte_1, magic_byte_2, encode, rstrip, feed_byte, emit, feed,
}
use nova_robotics_drone_cont.Elrs.Mux.RoundTrip.{
  and_then, feed-append, feed-cons, emit_nothing, Yields, Yields-from, feed-payload, header_bytes,
}

-- What the other end may send: a payload through `encode`, a diagnostic line of the firmware, or a
-- stray byte.
pub data Item : Type 0 where
  packet : ℕ → List ℕ → Item
  diag : List ℕ → Item
  noise : ℕ → Item

abbrev pub bytes_or_nothing {ℓ} : {E : Type ℓ} → Result E (List ℕ) → List ℕ
bytes_or_nothing (ok bytes) = bytes
bytes_or_nothing (err e) = []

abbrev pub wire : Item → List ℕ
wire (packet c p) = bytes_or_nothing (encode c p)
wire (diag text) = hash ∷ (text ++ (newline ∷ []))
wire (noise b) = b ∷ []

-- What the decoder hands out for it, with or without a callback.
abbrev pub heard : Bool → Item → List Output
heard cb (packet c p) = frame c p ∷ []
heard cb (diag text) = if cb then (line (rstrip (hash ∷ text)) ∷ []) else []
heard cb (noise b) = []

abbrev pub wires : List Item → List ℕ
wires [] = []
wires (i ∷ items) = wire i ++ wires items

abbrev pub all_heard : Bool → List Item → List Output
all_heard cb [] = []
all_heard cb (i ∷ items) = heard cb i ++ all_heard cb items

-- `encode` takes the payload; the line fits the decoder's cap and has no newline of its own; the
-- stray byte opens nothing.
abbrev pub Sendable : Item → Type 0
Sendable (packet c p) = (is_channel c ≡ true) × (0 < length p) × (length p ≤ 256)
Sendable (diag text) = All (λ b. b ≢ newline) text × (length text ≤ 511)
Sendable (noise b) = (b ≢ magic_byte_1) × (b ≢ hash)

module _ (d : MuxDecoder) (s : d.state ≡ read_diag) where
  line_end :
      Yields d (feed d (newline ∷ [])) (if d.diag_cb then (line (rstrip d.diag_buf) ∷ []) else [])
  unfolding feed feed_byte
  line_end = ground arith

  line_inner :
      (b : ℕ)
      → b ≢ newline
      → length d.diag_buf < 512
      → feed_byte d b ≡ some (record d { diag_buf = d.diag_buf ++ (b ∷ []) }, [])
  unfolding feed_byte
  line_inner b h k = ground arith

feed_line :
    (text : List ℕ) (d : MuxDecoder)
    → d.state ≡ read_diag
    → All (λ b. b ≢ newline) text
    → length d.diag_buf + length text ≤ 512
    → Yields d
        (feed d (text ++ (newline ∷ [])))
        (if d.diag_cb then (line (rstrip (d.diag_buf ++ text)) ∷ []) else [])
feed_line [] d s h k = rw append-nil (line_end d s)
feed_line (b ∷ bs) d s h k =
    let d' = record d { diag_buf = d.diag_buf ++ (b ∷ []) } in
    rw (feed-cons d b (bs ++ (newline ∷ [])), line_inner d s b h.0 (omega arith), emit_nothing)
      (Yields-from d' d (feed d' (bs ++ (newline ∷ []))) _ _
        (feed_line bs d' s h.1 (omega (arith, length-append d.diag_buf (b ∷ [])))) refl refl refl
        (ap (λ l. if d.diag_cb then (line (rstrip l) ∷ []) else [])
          (append_assoc d.diag_buf (b ∷ []) bs)))

open_line :
    (d : MuxDecoder)
    → d.state ≡ wait_magic1
    → feed_byte d hash ≡ some (record d { state = read_diag; diag_buf = hash ∷ [] }, [])
unfolding feed_byte
open_line d s = ground arith

stray :
    (d : MuxDecoder) (b : ℕ)
    → d.state ≡ wait_magic1
    → b ≢ magic_byte_1
    → b ≢ hash
    → feed_byte d b ≡ some (d, [])
unfolding feed_byte
stray d b s h k = ground arith

encode-ok :
    (c : ℕ) (p : List ℕ)
    → is_channel c ≡ true
    → 0 < length p
    → length p ≤ 256
    → encode c p
      ≡ ok (
          magic_byte_1
          ∷ magic_byte_2
          ∷ c
          ∷ bit_and (length p) 0xFF
          ∷ bit_and (length p / 2 ^ 8) 0xFF
          ∷ p)
unfolding encode
encode-ok c p h k l = ground arith

feed-wire :
    (i : Item) (d : MuxDecoder)
    → d.state ≡ wait_magic1
    → length d.buf ≡ 256
    → Sendable i
    → Yields d (feed d (wire i)) (heard d.diag_cb i)
feed-wire (packet c []) d s l h = absurd (omega arith)
feed-wire (packet c (b ∷ bs)) d s l (k, pos, fits) =
    let d' = record d { state = read_payload; chan = c; len = length (b ∷ bs); read = 0 } in
    rw (encode-ok c (b ∷ bs) k pos fits, header_bytes d c (b ∷ bs) s k pos fits)
      (Yields-from d' d (feed d' (b ∷ bs)) _ _
        (feed-payload b bs d' refl (omega arith) (omega arith)) refl refl refl refl)
feed-wire (diag text) d s l (ok_text, fits) =
    let d' = record d { state = read_diag; diag_buf = hash ∷ [] } in
    rw (feed-cons d hash (text ++ (newline ∷ [])), open_line d s, emit_nothing)
      (Yields-from d' d (feed d' (text ++ (newline ∷ []))) _ _
        (feed_line text d' refl ok_text (omega arith)) refl refl refl refl)
feed-wire (noise b) d s l (h, k) =
    rw (feed-cons d b [], stray d b s h k, emit_nothing)
      (unfold feed in (refl, s, refl, refl, refl))

-- What was handed out before joins what comes after.
Yields-emit :
    (d d' : MuxDecoder) (got more : List Output) (r : Option (MuxDecoder × List Output))
    → d'.bad_sync ≡ d.bad_sync
    → d'.diag_cb ≡ d.diag_cb
    → length d'.buf ≡ length d.buf
    → Yields d' r more
    → Yields d (emit got r) (got ++ more)
Yields-emit d d' got more none q c l y = y
Yields-emit d d' got more (some (e, rest)) q c l (o, s, q', c', l') =
    (ap (λ m. got ++ m) o, s, q' ∙ q, c' ∙ c, l' ∙ l)

Yields-and_then :
    (d : MuxDecoder) (r : Option (MuxDecoder × List Output)) (bs : List ℕ) (out more : List Output)
    → Yields d r out
    → ((d' : MuxDecoder)
        → d'.state ≡ wait_magic1
        → d'.diag_cb ≡ d.diag_cb
        → length d'.buf ≡ length d.buf
        → Yields d' (feed d' bs) more)
    → Yields d (and_then r bs) (out ++ more)
Yields-and_then d none bs out more y k = y
Yields-and_then d (some (d', got)) bs out more (o, s, q, c, l) k =
    rw (← o) (Yields-emit d d' got more (feed d' bs) q c l (k d' s c l))

-- A decoder at rest reads any sequence of packets, diagnostic lines and stray bytes as exactly what
-- was sent: the frames in order with their payloads byte for byte, and, if there is a callback, the
-- lines in their places. It counts no sync error, and is at rest again. The packets are what
-- `encode` makes of a payload of 1 to 256 bytes for channel 1 or 2; a line has up to 511 bytes
-- behind its '#', none of them a newline; a stray byte is neither the first magic byte nor '#'.
pub feed-wires :
    (items : List Item) (d : MuxDecoder)
    → d.state ≡ wait_magic1
    → length d.buf ≡ 256
    → All Sendable items
    → Yields d (feed d (wires items)) (all_heard d.diag_cb items)
feed-wires [] d s l h = unfold feed in (refl, s, refl, refl, refl)
feed-wires (i ∷ items) d s l (h, hs) = rw (feed-append d (wire i) (wires items)) (
    Yields-and_then d (feed d (wire i)) (wires items) (heard d.diag_cb i)
      (all_heard d.diag_cb items) (feed-wire i d s l h)
      λ d' s' c l'. rw (← c) (feed-wires items d' s' (l' ∙ l) hs))
