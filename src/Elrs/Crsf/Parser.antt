-- ===== src/Elrs/Crsf/Parser.antt =====
-- modules/elrs_telemetry/crsf.py: what holds of `CRSFParser` whatever bytes arrive.
pub mod Chunks
pub mod Frames
use nova_robotics_drone_cont.Common.{
  ℕ, zero, suc, ◌+◌, ◌-◌, ◌≤◌, ◌<◌, ◌≡◌, refl, sym, ◌∙◌, ap, ◌⊎◌, inl, inr, true, false, List, [],
  ◌∷◌, ◌++◌, arith, All, length, length-append, length-take, length-drop, take, drop, get_or,
  take-append_le, drop-append_le, get_or-append, append_assoc,
}
use nova_robotics_drone_cont.Elrs.Crsf.{
  Frame, is_address, Round, wait, skip, accept, look, frame_of, yield_frame, parse_loop, feed,
}

-- What each decision of a round says of the buffer.
look-wait : (buf : List ℕ) → look buf ≡ wait → length buf < 64
unfolding look
look-wait buf e = ground arith

pub look-skip : (buf : List ℕ) → look buf ≡ skip → 3 ≤ length buf
unfolding look
look-skip buf e = ground arith

pub record Accepted (buf : List ℕ) (n : ℕ) : Type 0 where
  pub shortest : 4 ≤ n
  pub longest : n ≤ 64
  pub present : n ≤ length buf
  pub addressed : is_address (get_or buf 0 0) ≡ true

pub look-accept : (buf : List ℕ) (n : ℕ) → look buf ≡ accept n → Accepted buf n
unfolding look
look-accept buf n e = ground arith

-- What a consumer may rely on of each frame.
abbrev pub Deliverable : Frame → Type 0
Deliverable f = (is_address f.addr ≡ true) × (length f.payload ≤ 60)

first_taken : (buf : List ℕ) (n : ℕ) → 0 < n → get_or (take n buf) 0 0 ≡ get_or buf 0 0
first_taken buf zero h = absurd (omega arith)
first_taken [] (suc n) h = refl
first_taken (b ∷ buf) (suc n) h = refl

frame_of-Deliverable : (buf : List ℕ) (n : ℕ) → Accepted buf n → Deliverable (frame_of (take n buf))
frame_of-Deliverable buf n a =
    let frame : List ℕ = take n buf in
    (
      ap is_address (first_taken buf n (omega (arith, a.shortest))) ∙ a.addressed,
      omega (
        arith,
        length-drop 3 (take (length frame - 1) frame),
        length-take (length frame - 1) frame,
        length-take n buf,
        a.longest,
      ),
    )

-- The parser waits for more bytes, of which it holds fewer than 64, and yielded only such frames.
abbrev pub Ensures : List ℕ × List Frame → Type 0
Ensures (buf, frames) = (look buf ≡ wait) × (length buf < 64) × All Deliverable frames

yield_frame-Ensures :
    (f : Frame) (r : List ℕ × List Frame) → Deliverable f → Ensures r → Ensures (yield_frame f r)
yield_frame-Ensures f (buf, frames) d e = (e.0, e.1, (d, e.2))

look_nothing : look [] ≡ wait
unfolding look
look_nothing = refl

module _ (fuel : ℕ) (buf : List ℕ) where
  pub parse_loop-wait : look buf ≡ wait → parse_loop (suc fuel) buf ≡ (buf, [])
  unfolding parse_loop
  parse_loop-wait e = rw (e, parse_loop)

  pub parse_loop-skip : look buf ≡ skip → parse_loop (suc fuel) buf ≡ parse_loop fuel (drop 1 buf)
  unfolding parse_loop
  parse_loop-skip e = rw (e, parse_loop)

  pub parse_loop-accept :
      (n : ℕ)
      → look buf ≡ accept n
      → parse_loop (suc fuel) buf
        ≡ yield_frame (frame_of (take n buf)) (parse_loop fuel (drop n buf))
  unfolding parse_loop
  parse_loop-accept n e = rw (e, parse_loop)

pub parse_loop_empty : (fuel : ℕ) → parse_loop fuel [] ≡ ([], [])
parse_loop_empty zero = unfold parse_loop in refl
parse_loop_empty (suc fuel) = parse_loop-wait fuel [] look_nothing

pub Round-cases : (r : Round) → (r ≡ wait) ⊎ ((r ≡ skip) ⊎ ((n : ℕ) × (r ≡ accept n)))
Round-cases wait = inl refl
Round-cases skip = inr (inl refl)
Round-cases (accept n) = inr (inr (n, refl))

parse_loop-Ensures : (fuel : ℕ) (buf : List ℕ) → length buf ≤ fuel → Ensures (parse_loop fuel buf)
parse_loop-Ensures zero [] h = unfold parse_loop in (look_nothing, omega arith, tt)
parse_loop-Ensures zero (b ∷ buf) h = absurd (omega arith)
parse_loop-Ensures (suc fuel) buf h = elim (Round-cases (look buf)) [
  | inl e ↦ rw (parse_loop-wait fuel buf e) (e, look-wait buf e, tt)
  | inr (inl e) ↦
      rw (parse_loop-skip fuel buf e)
        (parse_loop-Ensures fuel (drop 1 buf) (omega (arith, length-drop 1 buf, look-skip buf e)))
  | inr (inr (n, e)) ↦
      let a = look-accept buf n e in
      rw (parse_loop-accept fuel buf n e) (
        yield_frame-Ensures (frame_of (take n buf)) (parse_loop fuel (drop n buf))
          (frame_of-Deliverable buf n a)
          (parse_loop-Ensures fuel (drop n buf)
            (omega (arith, length-drop n buf, a.shortest, a.present))))
]

-- On any bytes, in any number of calls, the loop of `feed` ends for want of bytes. It then keeps
-- fewer than 64 of them, and each frame that it yielded had one of the five sync addresses and a
-- payload of at most 60 bytes.
pub parser_feed-Ensures : (buf bytes : List ℕ) → Ensures (feed buf bytes)
unfolding feed
parser_feed-Ensures buf bytes =
    parse_loop-Ensures (length (buf ++ bytes)) (buf ++ bytes) (omega arith)

-- More fuel than bytes changes nothing.
pub parse_loop_fuel :
    (f g : ℕ) (buf : List ℕ) → length buf ≤ f → length buf ≤ g → parse_loop f buf ≡ parse_loop g buf
parse_loop_fuel zero g [] h k = parse_loop_empty zero ∙ sym (parse_loop_empty g)
parse_loop_fuel zero g (b ∷ buf) h k = absurd (omega arith)
parse_loop_fuel (suc f) zero [] h k = parse_loop_empty (suc f) ∙ sym (parse_loop_empty zero)
parse_loop_fuel (suc f) zero (b ∷ buf) h k = absurd (omega arith)
parse_loop_fuel (suc f) (suc g) buf h k = elim (Round-cases (look buf)) [
  | inl e ↦ parse_loop-wait f buf e ∙ sym (parse_loop-wait g buf e)
  | inr (inl e) ↦
      let l = look-skip buf e in
      let m = length-drop 1 buf in
      parse_loop-skip f buf e
      ∙ parse_loop_fuel f g (drop 1 buf) (omega arith) (omega arith)
      ∙ sym (parse_loop-skip g buf e)
  | inr (inr (n, e)) ↦
      let a = look-accept buf n e in
      let m = length-drop n buf in
      parse_loop-accept f buf n e
      ∙ ap (yield_frame (frame_of (take n buf))) (
          parse_loop_fuel f g (drop n buf) (omega (arith, a.shortest, a.present))
            (omega (arith, a.shortest, a.present)))
      ∙ sym (parse_loop-accept g buf n e)
]
