-- ===== src/Elrs/Crsf/Parser/Chunks.antt =====
-- modules/elrs_telemetry/crsf.py: the parser's frames do not depend on how the bytes are cut.
use nova_robotics_drone_cont.Common.{
  ℕ, zero, suc, ◌+◌, ◌≤◌, ◌≡◌, refl, sym, ◌∙◌, ap, inl, inr, List, [], ◌∷◌, ◌++◌, arith, length,
  length-append, length-drop, take, drop, get_or, take-append_le, drop-append_le, get_or-append,
  append_assoc,
}
use nova_robotics_drone_cont.Elrs.Crsf.{
  Frame, skip, accept, look, frame_of, yield_frame, parse_loop, feed,
}
use nova_robotics_drone_cont.Elrs.Crsf.Parser.{
  look-skip, look-accept, parse_loop-wait, parse_loop-skip, parse_loop-accept, Round-cases,
  parse_loop_empty, parse_loop_fuel,
}

-- A decision that was made stands when bytes are added behind.
module _ (buf ys : List ℕ) where
  look_skip-append : look buf ≡ skip → look (buf ++ ys) ≡ skip
  unfolding look
  look_skip-append e =
      let total : ℕ = get_or buf 1 0 + 2 in
      ground (
        arith,
        length-append buf ys,
        get_or-append buf ys 0 0,
        get_or-append buf ys 1 0,
        take-append_le buf ys total,
      )

  look-accept-append : (n : ℕ) → look buf ≡ accept n → look (buf ++ ys) ≡ accept n
  unfolding look
  look-accept-append n e =
      let total : ℕ = get_or buf 1 0 + 2 in
      ground (
        arith,
        length-append buf ys,
        get_or-append buf ys 0 0,
        get_or-append buf ys 1 0,
        take-append_le buf ys total,
      )

-- The frames of one call, then those of the next on the buffer that the first left.
abbrev pub and_then : List ℕ × List Frame → List ℕ → List ℕ × List Frame
and_then (buf, frames) bytes = let (buf', more) = feed buf bytes in (buf', frames ++ more)

and_then-yield_frame :
    (f : Frame) (r : List ℕ × List Frame) (bytes : List ℕ)
    → yield_frame f (and_then r bytes) ≡ and_then (yield_frame f r) bytes
and_then-yield_frame f (buf, frames) bytes = refl

-- One round more than there are bytes, so that the first can be stepped.
one_more : (buf : List ℕ) → parse_loop (length buf) buf ≡ parse_loop (suc (length buf)) buf
one_more buf = parse_loop_fuel (length buf) (suc (length buf)) buf (omega arith) (omega arith)

parse_loop-append :
    (f : ℕ) (buf ys : List ℕ)
    → length buf ≤ f
    → parse_loop (length (buf ++ ys)) (buf ++ ys) ≡ and_then (parse_loop f buf) ys
parse_loop-append zero [] ys h = rw (parse_loop_empty zero) (unfold feed in refl)
parse_loop-append zero (b ∷ buf) ys h = absurd (omega arith)
parse_loop-append (suc f) buf ys h = elim (Round-cases (look buf)) [
  | inl e ↦ rw (parse_loop-wait f buf e) (unfold feed in refl)
  | inr (inl e) ↦
      let l = look-skip buf e in
      let whole = buf ++ ys in
      one_more whole
      ∙ parse_loop-skip (length whole) whole (look_skip-append buf ys e)
      ∙ ap (parse_loop (length whole)) (drop-append_le buf ys 1 (omega arith))
      ∙ parse_loop_fuel (length whole) (length (drop 1 buf ++ ys)) (drop 1 buf ++ ys)
          (omega (arith, length-append buf ys, length-append (drop 1 buf) ys, length-drop 1 buf))
          (omega arith)
      ∙ parse_loop-append f (drop 1 buf) ys (omega (arith, length-drop 1 buf))
      ∙ ap (λ r. and_then r ys) (sym (parse_loop-skip f buf e))
  | inr (inr (n, e)) ↦
      let a = look-accept buf n e in
      let whole = buf ++ ys in
      let frame = frame_of (take n buf) in
      one_more whole
      ∙ parse_loop-accept (length whole) whole n (look-accept-append buf ys n e)
      ∙ ap (λ t. yield_frame (frame_of t) (parse_loop (length whole) (drop n whole)))
          (take-append_le buf ys n a.present)
      ∙ ap (λ t. yield_frame frame (parse_loop (length whole) t))
          (drop-append_le buf ys n a.present)
      ∙ ap (yield_frame frame) (
          parse_loop_fuel (length whole) (length (drop n buf ++ ys)) (drop n buf ++ ys)
            (omega (arith, length-append buf ys, length-append (drop n buf) ys, length-drop n buf))
            (omega arith)
          ∙ parse_loop-append f (drop n buf) ys
              (omega (arith, length-drop n buf, a.shortest, a.present)))
      ∙ and_then-yield_frame frame (parse_loop f (drop n buf)) ys
      ∙ ap (λ r. and_then r ys) (sym (parse_loop-accept f buf n e))
]

-- How the stream is cut into reads does not matter: feeding two chunks at once yields the same
-- frames, and leaves the same buffer, as feeding one after the other.
pub parser_feed-append : (buf xs ys : List ℕ) → feed buf (xs ++ ys) ≡ and_then (feed buf xs) ys
unfolding feed
parser_feed-append buf xs ys =
    ap loop (sym (append_assoc buf xs ys))
    ∙ parse_loop-append (length (buf ++ xs)) (buf ++ xs) ys (omega arith)
  where
    loop : List ℕ → List ℕ × List Frame
    loop t = parse_loop (length t) t
