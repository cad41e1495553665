-- ===== src/Elrs/Service/Reader/Outputs.antt =====
-- modules/elrs_telemetry/service.py: the reader, from the chunks to the frames.
use nova_robotics_drone_cont.Common.{
  ℕ, ◌≡◌, refl, sym, ap, ◌∙◌, subst, Bool, true, false, Option, none, some, List, [], ◌∷◌, ◌++◌,
  ◌==◌, if◌then◌else◌, length, arith, append-nil, append_assoc, length-append,
}
use nova_robotics_drone_cont.Elrs.Mux.{MuxDecoder, Output, frame, line, feed_byte, chan_rx, emit}
use nova_robotics_drone_cont.Elrs.Mux
use nova_robotics_drone_cont.Elrs.Crsf.{Frame, feed}
use nova_robotics_drone_cont.Elrs.Crsf.Parser.Chunks.{and_then, parser_feed-append}
use nova_robotics_drone_cont.Elrs.Service.Channels.{LinkState}
use nova_robotics_drone_cont.Elrs.Service.Reader.{
  Pass, nothing, handle_one, go_on, parse_pass, take_out, take_outs, go_on_reading, read_chunk,
}
use nova_robotics_drone_cont.Elrs.Service.Reader.Stream.{
  handle_all, joined, Handles, parse_pass-Handles,
}

-- Two passes, then what follows, against the first pass, then the two others.
regroup_last :
    (c : Bool) (p q : Pass) (u : List ℕ) (y : List ℕ × Pass)
    → (let x = go_on c u q y in (x.0, record x.1 { sent = p.sent ++ x.1.sent }))
      ≡ go_on c u (record q { sent = p.sent ++ q.sent }) y
regroup_last true p q u (v, r) =
    ap (λ l. (v, record r { sent = l })) (sym (append_assoc p.sent q.sent r.sent))
regroup_last false p q u y = refl

regroup :
    (b : Bool) (p : Pass) (u : List ℕ) (y : List ℕ × Pass) (g : List ℕ → LinkState → List ℕ × Pass)
    → p.good ≡ b
    → go_on b u p (go_on y.1.good y.0 y.1 (g y.0 y.1.state))
      ≡ (let m = go_on b u p y in go_on m.1.good m.0 m.1 (g m.0 m.1.state))
regroup true p u (v, q) g e = regroup_last q.good p q v (g v q.state)
regroup false p u y g e = ap (λ c. go_on c u p (g u p.state)) (sym e)

regroup_passes :
    (b : Bool) (p q : Pass) (g : LinkState → Pass)
    → p.good ≡ b
    → (go_on b [] p ([], (go_on q.good [] q ([], g q.state)).1)).1
      ≡ (let m = (go_on b [] p ([], q)).1 in (go_on m.good [] m ([], g m.state)).1)
regroup_passes true p q g e = ap (λ x. x.1) (regroup_last q.good p q [] ([], g q.state))
regroup_passes false p q g e = ap (λ c. (go_on c [] p ([], g p.state)).1) (sym e)

-- The uplink's bytes among the outputs of the decoder.
abbrev pub uplink_of : Output → List ℕ
uplink_of (line text) = []
uplink_of (frame c payload) = if c == chan_rx then payload else []

abbrev pub uplink : List Output → List ℕ
uplink [] = []
uplink (o ∷ os) = uplink_of o ++ uplink os

-- The parser finds no frame in its buffer without new bytes.
abbrev pub AtRest : List ℕ → Type 0
AtRest buf = feed buf [] ≡ (buf, [])

handle_all-append :
    (fs gs : List Frame) (st : LinkState) (now : ℕ)
    → handle_all st (fs ++ gs) now
      ≡ (let p = handle_all st fs now in (go_on p.good [] p ([], handle_all p.state gs now)).1)
unfolding handle_all
handle_all-append [] gs st now = refl
handle_all-append (f ∷ fs) gs st now =
    let p = handle_one st f now in
    ap (λ r. (go_on p.good [] p ([], r)).1) (handle_all-append fs gs p.state now)
    ∙ regroup_passes p.good p (handle_all p.state fs now) (λ s. handle_all s gs now) refl

take_outs-append :
    (outs more : List Output) (buf : List ℕ) (st : LinkState) (now : ℕ)
    → take_outs buf st now (outs ++ more) ≡ (
        let a = take_outs buf st now outs in
        go_on a.1.good a.0 a.1 (take_outs a.0 a.1.state now more))
unfolding take_outs
take_outs-append [] more buf st now = refl
take_outs-append (o ∷ outs) more buf st now =
    let a = take_out buf st now o in
    ap (go_on a.1.good a.0 a.1) (take_outs-append outs more a.0 a.1.state now)
    ∙ regroup a.1.good a.1 a.0 (take_outs a.0 a.1.state now outs) (λ u s. take_outs u s now more)
        refl

-- A row of passes goes well only if the first does.
first_goes_well :
    (b : Bool) (u : List ℕ) (p : Pass) (x : List ℕ × Pass)
    → p.good ≡ b
    → (go_on b u p x).1.good ≡ true
    → b ≡ true
first_goes_well true u p x e h = refl
first_goes_well false u p x e h = sym e ∙ h

-- The parser's part and what follows it, on the frames of both.
Handles-then :
    (st : LinkState) (now : ℕ) (r r' : List ℕ × List Frame) (x : List ℕ × Pass)
    (g : List ℕ → LinkState → List ℕ × Pass)
    → Handles st now r x
    → Handles (handle_all st r.1 now).state now r' (g r.0 (handle_all st r.1 now).state)
    → Handles st now (r'.0, r.1 ++ r'.1) (go_on x.1.good x.0 x.1 (g x.0 x.1.state))
Handles-then st now r r' x g a b h =
    let p = handle_all st r.1 now in
    let q = handle_all p.state r'.1 now in
    let whole = handle_all-append r.1 r'.1 st now in
    let h' = ap (λ m. m.good) (sym whole) ∙ h in
    let first = first_goes_well p.good [] p ([], q) refl h' in
    ap (λ y. go_on y.1.good y.0 y.1 (g y.0 y.1.state)) (a first)
    ∙ joined p.good p q r.0 r'.0 (g r.0 p.state) refl b h'
    ∙ ap (λ m. (r'.0, m)) (sym whole)

append_nothing : {A : Type 0} (xs ys : List A) → xs ≡ xs ++ ys → ys ≡ []
append_nothing [] [] e = refl
append_nothing xs (y ∷ ys) e = absurd (omega (arith, length-append xs (y ∷ ys), ap length e))
append_nothing (x ∷ xs) [] e = refl

-- A parser that has had its bytes is at rest.
feed-AtRest : (buf bytes : List ℕ) → AtRest (feed buf bytes).0
feed-AtRest buf bytes =
    let r = feed buf bytes in
    let again : r ≡ and_then r [] =
      ap (feed buf) (sym (append-nil bytes)) ∙ parser_feed-append buf bytes [] in
    let more = (feed r.0 []).1 in
    ap (λ l. (l, more)) (sym (ap (λ x. x.0) again))
    ∙ ap (λ l. (r.0, l)) (append_nothing r.1 more (ap (λ x. x.1) again))

nothing-Handles :
    (buf : List ℕ) (st : LinkState) (now : ℕ)
    → AtRest buf
    → Handles st now (feed buf []) (buf, nothing st)
nothing-Handles buf st now a =
    subst (λ r. Handles st now r (buf, nothing st)) (sym a) (λ h. unfold handle_all in refl)

take_bytes-Handles :
    (b : Bool) (payload buf : List ℕ) (st : LinkState) (now : ℕ)
    → AtRest buf
    → Handles st now (feed buf (if b then payload else [])) (
        if b
        then parse_pass (length (buf ++ payload)) (buf ++ payload) st now
        else (buf, nothing st))
take_bytes-Handles true payload buf st now a =
    unfold feed in parse_pass-Handles (length (buf ++ payload)) (buf ++ payload) st now
take_bytes-Handles false payload buf st now a = nothing-Handles buf st now a

take_out-Handles :
    (o : Output) (buf : List ℕ) (st : LinkState) (now : ℕ)
    → AtRest buf
    → Handles st now (feed buf (uplink_of o)) (take_out buf st now o)
take_out-Handles (line text) buf st now a = nothing-Handles buf st now a
take_out-Handles (frame c payload) buf st now a =
    take_bytes-Handles (c == chan_rx) payload buf st now a

pub take_outs-Handles :
    (outs : List Output) (buf : List ℕ) (st : LinkState) (now : ℕ)
    → AtRest buf
    → Handles st now (feed buf (uplink outs)) (take_outs buf st now outs)
unfolding take_outs
take_outs-Handles [] buf st now a = nothing-Handles buf st now a
take_outs-Handles (o ∷ outs) buf st now a =
    let r = feed buf (uplink_of o) in
    let s = (handle_all st r.1 now).state in
    subst (λ y. Handles st now y (take_outs buf st now (o ∷ outs)))
      (sym (parser_feed-append buf (uplink_of o) (uplink outs)))
      (Handles-then st now r (feed r.0 (uplink outs)) (take_out buf st now o)
        (λ u s'. take_outs u s' now outs) (take_out-Handles o buf st now a)
        (take_outs-Handles outs r.0 s now (feed-AtRest buf (uplink_of o))))

-- What the reader does on a chunk, from what the decoder does on it: where nothing raises, the
-- outputs are taken in their order, as if the whole chunk had been decoded first.
abbrev pub Follows :
    List ℕ
    → LinkState
    → ℕ
    → Option (MuxDecoder × List Output)
    → Option (MuxDecoder × List ℕ × Pass)
    → Type 0
Follows buf st now none x = Unit
Follows buf st now (some (e, outs)) x =
    (take_outs buf st now outs).1.good ≡ true
    → x ≡ (let y = take_outs buf st now outs in some (e, y.0, y.1))

-- One output list, then the rest of the chunk, when the first goes as `b` says.
rest-Follows :
    (b : Bool) (d e : MuxDecoder) (a y : List ℕ × Pass) (x : Option (MuxDecoder × List ℕ × Pass))
    → a.1.good ≡ b
    → (y.1.good ≡ true → x ≡ some (e, y.0, y.1))
    → (go_on b a.0 a.1 y).1.good ≡ true
    → go_on_reading b d a x ≡ (let z = go_on b a.0 a.1 y in some (e, z.0, z.1))
rest-Follows true d e a y x g k h = ap (go_on_reading true d a) (k h)
rest-Follows false d e a y x g k h = absurd (ground arith)

emit-Follows :
    (outs : List Output) (d : MuxDecoder) (buf : List ℕ) (st : LinkState) (now : ℕ)
    (r : Option (MuxDecoder × List Output)) (x : Option (MuxDecoder × List ℕ × Pass))
    → (let a = take_outs buf st now outs in Follows a.0 a.1.state now r x)
    → Follows buf st now
        (emit outs r)
        (let a = take_outs buf st now outs in go_on_reading a.1.good d a x)
emit-Follows outs d buf st now none x k = tt
emit-Follows outs d buf st now (some (e, more)) x k =
    let a = take_outs buf st now outs in
    subst (λ y. y.1.good ≡ true → go_on_reading a.1.good d a x ≡ some (e, y.0, y.1))
      (sym (take_outs-append outs more buf st now))
      (rest-Follows a.1.good d e a (take_outs a.0 a.1.state now more) x refl k)

step-Follows :
    (fed : Option (MuxDecoder × List Output)) (bs : List ℕ) (buf : List ℕ) (st : LinkState)
    (now : ℕ)
    → ((d : MuxDecoder) (buf' : List ℕ) (st' : LinkState)
        → Follows buf' st' now (Mux.feed d bs) (read_chunk d buf' st' now bs))
    → Follows buf st now
        (elim fed [ none ↦ none | some (d, outs) ↦ emit outs (Mux.feed d bs) ])
        (elim fed [
          | none ↦ none
          | some (d, outs) ↦
              let a = take_outs buf st now outs in
              go_on_reading a.1.good d a (read_chunk d a.0 a.1.state now bs)
        ])
step-Follows none bs buf st now k = tt
step-Follows (some (d, outs)) bs buf st now k =
    let a = take_outs buf st now outs in
    emit-Follows outs d buf st now (Mux.feed d bs) (read_chunk d a.0 a.1.state now bs)
      (k d a.0 a.1.state)

pub read_chunk-Follows :
    (bs : List ℕ) (d : MuxDecoder) (buf : List ℕ) (st : LinkState) (now : ℕ)
    → Follows buf st now (Mux.feed d bs) (read_chunk d buf st now bs)
unfolding Mux.feed read_chunk take_outs
read_chunk-Follows [] d buf st now = λ h. refl
read_chunk-Follows (b ∷ bs) d buf st now =
    step-Follows (feed_byte d b) bs buf st now (λ d' u s. read_chunk-Follows bs d' u s now)
