-- ===== src/Elrs/Service/Reader/Arrive.antt =====
-- modules/elrs_telemetry/service.py: a whole stream of the serial port, from the other end to the
-- handler.
use nova_robotics_drone_cont.Common.{
  ℕ, ◌≡◌, refl, sym, ap, ◌∙◌, subst, true, Option, none, some, List, [], All, append-nil,
}
use nova_robotics_drone_cont.Elrs.Mux
use nova_robotics_drone_cont.Elrs.Mux.{MuxDecoder, Output, wait_magic1}
use nova_robotics_drone_cont.Elrs.Mux.RoundTrip.{Yields}
use nova_robotics_drone_cont.Elrs.Mux.Stream
use nova_robotics_drone_cont.Elrs.Crsf.{Frame, parse_loop, feed}
use nova_robotics_drone_cont.Elrs.Crsf.Parser.Frames.{Sendable, wires, before, parser_feed-wires}
use nova_robotics_drone_cont.Elrs.Service.Channels.{LinkState}
use nova_robotics_drone_cont.Elrs.Service.Reader.{Pass, take_outs}
use nova_robotics_drone_cont.Elrs.Service.Reader.Stream.{handle_all, Handles}
use nova_robotics_drone_cont.Elrs.Service.Reader.Outputs.{uplink, Follows, take_outs-Handles}

-- Decoder and parser stand between two messages, and the handler did what `p` says.
abbrev pub Settled : Option (MuxDecoder × List ℕ × Pass) → Pass → Type 0
Settled none p = ⊥
Settled (some (d, buf, q)) p = (d.state ≡ wait_magic1) × (buf ≡ []) × (q ≡ p)

empty_rest : feed [] [] ≡ ([], [])
unfolding feed parse_loop
empty_rest = refl

frames_read :
    (fs : List Frame) (bytes : List ℕ)
    → All Sendable fs
    → bytes ≡ wires fs
    → feed [] bytes ≡ ([], fs)
frames_read fs bytes ok_frames e =
    ap (feed []) (e ∙ sym (append-nil (wires fs)))
    ∙ parser_feed-wires fs [] ok_frames
    ∙ ap (before fs) empty_rest
    ∙ ap (λ l. ([], l)) (append-nil fs)

settle :
    (d : MuxDecoder) (fs : List Frame) (st : LinkState) (now : ℕ) (expected : List Output)
    (r : Option (MuxDecoder × List Output)) (x : Option (MuxDecoder × List ℕ × Pass))
    → All Sendable fs
    → uplink expected ≡ wires fs
    → (handle_all st fs now).good ≡ true
    → Yields d r expected
    → Follows [] st now r x
    → Settled x (handle_all st fs now)
settle d fs st now expected none x ok_frames e good y k = absurd y
settle d fs st now expected (some (d', outs)) x ok_frames e good (o, s, q, c, l) k =
    let handled : take_outs [] st now outs ≡ ([], handle_all st fs now) =
      subst (λ r. Handles st now r (take_outs [] st now outs))
        (frames_read fs (uplink outs) ok_frames (ap uplink o ∙ e))
        (take_outs-Handles outs [] st now empty_rest) good in
    subst (λ t. Settled t (handle_all st fs now))
      (sym (k (ap (λ t. t.1.good) handled ∙ good) ∙ ap (λ t. some (d', t.0, t.1)) handled))
      (s, refl, refl)
