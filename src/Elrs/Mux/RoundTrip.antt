-- ===== src/Elrs/Mux/RoundTrip.antt =====
-- modules/elrs_telemetry/mux.py: the decoder reads back what `encode` and the firmware's
-- diagnostic lines put on the wire, however the bytes are cut into chunks.
use nova_robotics_drone_cont.Common.{
  ℕ, suc, ◌+◌, ◌*◌, ◌/◌, ◌%◌, ◌^◌, ◌≤◌, ◌<◌, ◌≡◌, refl, sym, ◌∙◌, ap, true, Option, none, some,
  List, [], ◌∷◌, ◌++◌, arith, length, set, take, take-set, length-set, append_assoc, bit_and,
  bit_or,
}
use nova_robotics_drone_cont.Common.Bits.{bit_and_mask, bit_or_fields}
use nova_robotics_drone_cont.Elrs.Mux.{
  wait_magic1, read_payload, MuxDecoder, Output, frame, is_channel, magic_byte_1, magic_byte_2,
  stored, resume, feed_byte, emit, feed,
}

abbrev pub and_then : Option (MuxDecoder × List Output) → List ℕ → Option (MuxDecoder × List Output)
and_then none bs = none
and_then (some (d, out)) bs = emit out (feed d bs)

emit-and_then :
    (out : List Output) (r : Option (MuxDecoder × List Output)) (bs : List ℕ)
    → emit out (and_then r bs) ≡ and_then (emit out r) bs
emit-and_then out none bs = refl
emit-and_then out (some (d, more)) bs = go (feed d bs)
  where
    go : (r : Option (MuxDecoder × List Output)) → emit out (emit more r) ≡ emit (out ++ more) r
    go none = refl
    go (some (d', rest)) = ap (λ o. some (d', o)) (sym (append_assoc out more rest))

feed_rest-append :
    (r : Option (MuxDecoder × List Output)) (xs ys : List ℕ)
    → ((d : MuxDecoder) → feed d (xs ++ ys) ≡ and_then (feed d xs) ys)
    → and_then r (xs ++ ys) ≡ and_then (and_then r xs) ys
feed_rest-append none xs ys ih = refl
feed_rest-append (some (d, out)) xs ys ih = rw ih (emit-and_then out (feed d xs) ys)

pub emit_nothing : (r : Option (MuxDecoder × List Output)) → emit [] r ≡ r
emit_nothing none = refl
emit_nothing (some (d, out)) = refl

-- One byte: the `elim` of `feed` is `and_then`.
pub feed-cons :
    (d : MuxDecoder) (b : ℕ) (bs : List ℕ) → feed d (b ∷ bs) ≡ and_then (feed_byte d b) bs
unfolding feed
feed-cons d b bs = go (feed_byte d b)
  where
    go :
        (r : Option (MuxDecoder × List Output))
        → elim r [ none ↦ none | some (d', out) ↦ emit out (feed d' bs) ] ≡ and_then r bs
    go none = refl
    go (some (d', out)) = refl

pub feed-append : (d : MuxDecoder) (xs ys : List ℕ) → feed d (xs ++ ys) ≡ and_then (feed d xs) ys
feed-append d [] ys = sym (emit_nothing (feed d ys)) ∙ (unfold feed in refl)
feed-append d (x ∷ xs) ys =
    feed-cons d x (xs ++ ys)
    ∙ feed_rest-append (feed_byte d x) xs ys (λ d'. feed-append d' xs ys)
    ∙ ap (λ r. and_then r ys) (sym (feed-cons d x xs))

-- What a consumer gets from a run that ends between two messages, with the counters of errors
-- and the shape of the buffers as they were.
abbrev pub Yields : MuxDecoder → Option (MuxDecoder × List Output) → List Output → Type 0
Yields d none expected = ⊥
Yields d (some (d', out)) expected =
    (out ≡ expected)
    × (d'.state ≡ wait_magic1)
    × (d'.bad_sync ≡ d.bad_sync)
    × (d'.diag_cb ≡ d.diag_cb)
    × (length d'.buf ≡ length d.buf)

module _ (d : MuxDecoder) (b : ℕ) (reading : d.state ≡ read_payload) where
  payload_inner : d.read < length d.buf → d.read + 1 < d.len → feed_byte d b ≡ some (stored d b, [])
  unfolding feed_byte
  payload_inner h k = ground arith

  payload_last :
      d.read < length d.buf
      → d.read + 1 ≡ d.len
      → feed_byte d b
        ≡ some (resume (stored d b), frame d.chan (take d.len (set d.buf d.read b)) ∷ [])
  unfolding feed_byte
  payload_last h k = ground arith

-- `Yields` reads only three things of where the run began.
pub Yields-from :
    (d e : MuxDecoder) (r : Option (MuxDecoder × List Output)) (out expected : List Output)
    → Yields d r out
    → d.bad_sync ≡ e.bad_sync
    → d.diag_cb ≡ e.diag_cb
    → length d.buf ≡ length e.buf
    → out ≡ expected
    → Yields e r expected
Yields-from d e none out expected y p q l o = y
Yields-from d e (some r) out expected y p q l o = (y.0 ∙ o, y.1, y.2 ∙ p, y.3 ∙ q, y.4 ∙ l)

-- The bytes read so far, with one more written behind them.
written :
    (d : MuxDecoder) (b n : ℕ)
    → d.read < length d.buf
    → n ≡ suc d.read
    → take n (set d.buf d.read b) ≡ take d.read d.buf ++ (b ∷ [])
written d b n h e = ap (λ n. take n (set d.buf d.read b)) e ∙ take-set d.buf d.read b h

pub feed-payload :
    (b : ℕ) (bs : List ℕ) (d : MuxDecoder)
    → d.state ≡ read_payload
    → d.read + length (b ∷ bs) ≡ d.len
    → d.len ≤ length d.buf
    → Yields d (feed d (b ∷ bs)) (frame d.chan (take d.read d.buf ++ (b ∷ bs)) ∷ [])
feed-payload b [] d s e h =
    rw (feed-cons d b [], payload_last d b s (omega arith) (omega arith))
      (unfold feed in
        (
          ap (λ p. frame d.chan p ∷ []) (written d b d.len (omega arith) (omega arith)),
          refl,
          refl,
          refl,
          length-set d.buf d.read b,
        ))
feed-payload b (c ∷ cs) d s e h =
    let size = length-set d.buf d.read b in
    rw (feed-cons d b (c ∷ cs), payload_inner d b s (omega arith) (omega arith), emit_nothing)
      (Yields-from (stored d b) d (feed (stored d b) (c ∷ cs)) _ _
        (feed-payload c cs (stored d b) s (omega arith) (omega arith)) refl refl size
        (ap (λ p. frame d.chan p ∷ [])
          (ap (λ p. p ++ (c ∷ cs)) (written d b (d.read + 1) (omega arith) (omega arith))
            ∙ append_assoc (take d.read d.buf) (b ∷ []) (c ∷ cs))))

-- The two length bytes of a header, put together again.
length_bytes : (n : ℕ) → n < 2 ^ 16 → bit_or (bit_and n 0xFF) (bit_and (n / 2 ^ 8) 0xFF * 2 ^ 8) ≡ n
length_bytes n h =
    rw (bit_and_mask 8 n, bit_and_mask 8 (n / 2 ^ 8))
      (bit_or_fields 8 (n % 2 ^ 8) (n / 2 ^ 8 % 2 ^ 8) (omega arith) ∙ omega arith)

pub header_bytes :
    (d : MuxDecoder) (c : ℕ) (p : List ℕ)
    → d.state ≡ wait_magic1
    → is_channel c ≡ true
    → 0 < length p
    → length p ≤ 256
    → feed d (
        magic_byte_1
        ∷ magic_byte_2
        ∷ c
        ∷ bit_and (length p) 0xFF
        ∷ bit_and (length p / 2 ^ 8) 0xFF
        ∷ p)
      ≡ feed (record d { state = read_payload; chan = c; len = length p; read = 0 }) p
unfolding feed feed_byte
header_bytes d c p s k h h' =
    let d' = record d { state = read_payload; chan = c; len = length p; read = 0 } in
    ground (arith, length_bytes (length p), emit_nothing (feed d' p))
