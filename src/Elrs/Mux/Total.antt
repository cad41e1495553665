-- ===== src/Elrs/Mux/Total.antt =====
-- modules/elrs_telemetry/mux.py: what holds of the decoder whatever bytes arrive.
use nova_robotics_drone_cont.Common.{
  ℕ, suc, ◌+◌, ◌≤◌, ◌<◌, ◌≡◌, refl, Bool, true, false, Option, none, some, List, [], ◌∷◌, ◌++◌,
  arith, length, length-set, length-append, length-take, length-replicate, set, All, All-append,
}
use nova_robotics_drone_cont.Elrs.Mux.{
  MuxState, wait_magic1, wait_magic2, wait_chan, wait_len_lo, wait_len_hi, read_payload, read_diag,
  MuxDecoder, Output, frame, line, is_channel, new, rstrip, feed_in, feed_byte, emit, feed,
}

pub record IsValid (d : MuxDecoder) : Type 0 where
  pub buf_size : length d.buf ≡ 256
  pub diag_bounded : length d.diag_buf ≤ 512
  pub payload_open : d.state ≡ read_payload → d.read < d.len
  pub payload_fits : d.state ≡ read_payload → d.len ≤ 256
  pub payload_chan : d.state ≡ read_payload → is_channel d.chan ≡ true

-- What a consumer may rely on of anything that it is handed.
abbrev pub Deliverable : Output → Type 0
Deliverable (frame chan payload) =
    (is_channel chan ≡ true) × (1 ≤ length payload) × (length payload ≤ 256)
Deliverable (line text) = length text ≤ 512

abbrev pub frames : List Output → ℕ
frames [] = 0
frames (frame chan payload ∷ out) = suc (frames out)
frames (line text ∷ out) = frames out

abbrev pub lines : List Output → ℕ
lines [] = 0
lines (frame chan payload ∷ out) = lines out
lines (line text ∷ out) = suc (lines out)

-- The counters tell what was handed out.
pub record Accounts (d d' : MuxDecoder) (out : List Output) : Type 0 where
  pub frames_counted : d'.frames_decoded ≡ d.frames_decoded + frames out
  pub lines_counted : d.diag_cb ≡ true → d'.diag_lines ≡ d.diag_lines + lines out
  pub lines_hidden : d.diag_cb ≡ false → lines out ≡ 0
  pub same_cb : d'.diag_cb ≡ d.diag_cb
  pub bad_sync_grows : d.bad_sync ≤ d'.bad_sync

-- `feed` did not fault, and left all of this.
abbrev pub Ensures : MuxDecoder → Option (MuxDecoder × List Output) → Type 0
Ensures d none = ⊥
Ensures d (some (d', out)) = IsValid d' × All Deliverable out × Accounts d d' out

length-rstrip : (bs : List ℕ) → length (rstrip bs) ≤ length bs
unfolding rstrip
length-rstrip [] = omega arith
length-rstrip (b ∷ bs) = ground (arith, length-rstrip bs)

module _ (d : MuxDecoder) (b : ℕ) (v : IsValid d) where
  feed_in-Ensures : (s : MuxState) → d.state ≡ s → Ensures d (feed_in s d b)
  unfolding feed_in
  feed_in-Ensures wait_magic1 e = ground arith
  feed_in-Ensures wait_magic2 e = ground arith
  feed_in-Ensures wait_chan e = ground arith
  feed_in-Ensures wait_len_lo e = ground arith
  feed_in-Ensures wait_len_hi e = ground arith
  feed_in-Ensures read_payload e =
      ground (arith, length-set d.buf d.read b, length-take d.len (set d.buf d.read b))
  feed_in-Ensures read_diag e =
      ground (arith, length-rstrip d.diag_buf, length-append d.diag_buf (b ∷ []))

  pub feed_byte-Ensures : Ensures d (feed_byte d b)
  unfolding feed_byte
  feed_byte-Ensures = feed_in-Ensures d.state refl

frames-append : (out more : List Output) → frames (out ++ more) ≡ frames out + frames more
frames-append [] more = omega arith
frames-append (frame chan payload ∷ out) more = omega (arith, frames-append out more)
frames-append (line text ∷ out) more = frames-append out more

lines-append : (out more : List Output) → lines (out ++ more) ≡ lines out + lines more
lines-append [] more = omega arith
lines-append (frame chan payload ∷ out) more = lines-append out more
lines-append (line text ∷ out) more = omega (arith, lines-append out more)

Accounts-trans :
    (d d' d'' : MuxDecoder) (out more : List Output)
    → Accounts d d' out
    → Accounts d' d'' more
    → Accounts d d'' (out ++ more)
Accounts-trans d d' d'' out more a c = ground (arith, frames-append out more, lines-append out more)

emit-Ensures :
    (d d' : MuxDecoder) (out : List Output) (r : Option (MuxDecoder × List Output))
    → All Deliverable out
    → Accounts d d' out
    → Ensures d' r
    → Ensures d (emit out r)
emit-Ensures d d' out none h a e = e
emit-Ensures d d' out (some (d'', more)) h a e =
    (e.0, All-append Deliverable out more h e.1, Accounts-trans d d' d'' out more a e.2)

-- The rest of the bytes, after a byte that did what it must.
rest-Ensures :
    (d : MuxDecoder) (bs : List ℕ) (r : Option (MuxDecoder × List Output))
    → ((d' : MuxDecoder) → IsValid d' → Ensures d' (feed d' bs))
    → Ensures d r
    → Ensures d (elim r [ none ↦ none | some (d', out) ↦ emit out (feed d' bs) ])
rest-Ensures d bs none ih e = e
rest-Ensures d bs (some (d', out)) ih e = emit-Ensures d d' out (feed d' bs) e.1 e.2 (ih d' e.0)

-- From a valid decoder no sequence of bytes at all makes `feed` fault. It ends in a valid decoder;
-- each frame that it yields names channel 1 or 2 and carries 1 to 256 bytes, each diagnostic line
-- has at most 512; `frames_decoded` and, if there is a callback, `diag_lines` rise by the number of
-- frames and lines handed out, with none handed out if there is no callback; `bad_sync` never falls.
pub feed-Ensures : (d : MuxDecoder) (bs : List ℕ) → IsValid d → Ensures d (feed d bs)
unfolding feed
feed-Ensures d [] v = (v, tt, ground arith)
feed-Ensures d (b ∷ bs) v =
    rest-Ensures d bs (feed_byte d b) (λ d' v'. feed-Ensures d' bs v') (feed_byte-Ensures d b v)

pub new-IsValid : (cb : Bool) → IsValid (new cb)
unfolding new
new-IsValid cb = ground (arith, length-replicate {A = ℕ} 256 0)
