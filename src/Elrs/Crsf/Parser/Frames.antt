-- ===== src/Elrs/Crsf/Parser/Frames.antt =====
-- modules/elrs_telemetry/crsf.py: the parser reads back the frames that `make_frame` builds, and
-- takes no frame in which one byte was damaged.
use nova_robotics_drone_cont.Common.{
  ℕ, zero, suc, ◌+◌, ◌-◌, ◌≤◌, ◌<◌, ◌≡◌, ◌≢◌, refl, sym, ◌∙◌, ap, true, Option, none, some, List,
  [], ◌∷◌, ◌++◌, arith, All, length, length-append, take, drop, get_or, take-append, drop-append,
  get_or_middle, append_assoc, ◌==◌, if◌then◌else◌,
}
use nova_robotics_drone_cont.Elrs.Crsf.{
  Frame, is_address, skip, accept, look, frame_of, yield_frame, parse_loop, feed, crc8_dvbs2,
  make_frame,
}
use nova_robotics_drone_cont.Elrs.Crsf.Crc.{IsByte, crc8-IsByte, crc8_detects}
use nova_robotics_drone_cont.Elrs.Crsf.Parser.{parse_loop-accept, parse_loop_fuel}

-- A frame on the wire: address, length, type and payload, checksum.
abbrev pub on_wire : ℕ → List ℕ → ℕ → List ℕ
on_wire a body c = a ∷ (length body + 1) ∷ (body ++ (c ∷ []))

pub make_frame_lem :
    (a t : ℕ) (p : List ℕ)
    → IsByte a
    → IsByte t
    → All IsByte p
    → length p < 254
    → make_frame a t p ≡ some (on_wire a (t ∷ p) (crc8_dvbs2 (t ∷ p)))
unfolding make_frame
make_frame_lem a t p ha ht hp h = ground (arith, crc8-IsByte (t ∷ p) (ht, hp))

-- The parser at a well-formed header, whatever follows: it takes the frame exactly when the
-- checksum fits.
module _ (a c : ℕ) (body rest : List ℕ) where
  taken : take (length body + 1 + 2) (on_wire a body c ++ rest) ≡ on_wire a body c
  taken =
      take-append (on_wire a body c) rest (length body + 1 + 2)
        (omega (arith, length-append body (c ∷ [])))

  left : drop (length body + 1 + 2) (on_wire a body c ++ rest) ≡ rest
  left =
      drop-append (on_wire a body c) rest (length body + 1 + 2)
        (omega (arith, length-append body (c ∷ [])))

  shorn : take (length body + 1 + 2 - 1) (on_wire a body c) ≡ a ∷ (length body + 1) ∷ body
  shorn =
      take-append (a ∷ (length body + 1) ∷ body) (c ∷ []) (length body + 1 + 2 - 1) (omega arith)

  last : get_or (on_wire a body c) (length body + 1 + 2 - 1) 0 ≡ c
  last = get_or_middle (a ∷ (length body + 1) ∷ body) [] c 0 (length body + 1 + 2 - 1) (omega arith)

  look-on_wire :
      is_address a ≡ true
      → 1 ≤ length body
      → length body ≤ 61
      → look (on_wire a body c ++ rest)
        ≡ (if crc8_dvbs2 body == c then accept (length body + 1 + 2) else skip)
  unfolding look
  look-on_wire h lo hi = ground (
    arith,
    taken,
    shorn,
    last,
    length-append (body ++ (c ∷ [])) rest,
    length-append body (c ∷ []),
  )

-- A body and its checksum of which one byte was changed on the way.
pub data OneByteOff (body : List ℕ) (c : ℕ) (body' : List ℕ) (c' : ℕ) : Type 0 where
  in_body :
      (front back : List ℕ) (x y : ℕ)
      → x ≢ y
      → body ≡ front ++ (x ∷ back)
      → body' ≡ front ++ (y ∷ back)
      → c' ≡ c
      → OneByteOff body c body' c'
  in_checksum : body' ≡ body → c' ≢ c → OneByteOff body c body' c'

All-split :
    (front back : List ℕ) (x : ℕ)
    → All IsByte (front ++ (x ∷ back))
    → All IsByte front × IsByte x × All IsByte back
All-split [] back x (h, hs) = (tt, h, hs)
All-split (f ∷ front) back x (h, hs) =
    let (hf, hx, hb) = All-split front back x hs in ((h, hf), hx, hb)

checksum_off :
    (body body' : List ℕ) (c' : ℕ)
    → OneByteOff body (crc8_dvbs2 body) body' c'
    → All IsByte body
    → All IsByte body'
    → crc8_dvbs2 body' ≢ c'
checksum_off body body' c' (in_checksum same off) h h' e = off (sym e ∙ ap crc8_dvbs2 same)
checksum_off body body' c' (in_body front back x y off is is' same) h h' e =
    let (hf, hx, hb) = All-split front back x (rw is at h) in
    let (_, hy, _) = All-split front back y (rw is' at h') in
    off (
      crc8_detects front back x y hf hb hx hy
        (sym (ap crc8_dvbs2 is) ∙ sym same ∙ sym e ∙ ap crc8_dvbs2 is'))

length_off :
    (body body' : List ℕ) (c c' : ℕ) → OneByteOff body c body' c' → length body' ≡ length body
length_off body body' c c' (in_checksum same off) = ap length same
length_off body body' c c' (in_body front back x y off is is' same) =
    rw (is, is') (omega (arith, length-append front (x ∷ back), length-append front (y ∷ back)))

-- A frame with a sync address, of whose type, payload and checksum one byte was changed, is not
-- taken: the parser drops its first byte and looks for another frame. The body, the type and the
-- payload together, has 1 to 61 bytes.
pub look_damaged :
    (a c' : ℕ) (body body' rest : List ℕ)
    → is_address a ≡ true
    → 1 ≤ length body
    → length body ≤ 61
    → All IsByte body
    → All IsByte body'
    → OneByteOff body (crc8_dvbs2 body) body' c'
    → look (on_wire a body' c' ++ rest) ≡ skip
look_damaged a c' body body' rest h lo hi hb hb' off =
    let l = length_off body body' (crc8_dvbs2 body) c' off in
    let n = checksum_off body body' c' off hb hb' in
    look-on_wire a c' body' rest h (omega arith) (omega arith) ∙ ground arith

-- What `make_frame` takes for a frame that the parser lets through.
abbrev pub Sendable : Frame → Type 0
Sendable f =
    (is_address f.addr ≡ true) × IsByte f.ftype × All IsByte f.payload × (length f.payload ≤ 60)

abbrev pub bytes_or_nothing : Option (List ℕ) → List ℕ
bytes_or_nothing none = []
bytes_or_nothing (some bytes) = bytes

abbrev pub wires : List Frame → List ℕ
wires [] = []
wires (f ∷ fs) = bytes_or_nothing (make_frame f.addr f.ftype f.payload) ++ wires fs

abbrev pub before : List Frame → List ℕ × List Frame → List ℕ × List Frame
before fs (buf, more) = (buf, fs ++ more)

frame_of-on_wire :
    (a t c : ℕ) (p : List ℕ)
    → frame_of (on_wire a (t ∷ p) c) ≡ record { addr = a; ftype = t; payload = p }
frame_of-on_wire a t c p =
    let n : ℕ = length (on_wire a (t ∷ p) c) - 1 in
    let e =
      take-append (a ∷ (length (t ∷ p) + 1) ∷ t ∷ p) (c ∷ []) n
        (omega (arith, length-append p (c ∷ []))) in
    ap (λ b. record { addr = a; ftype = t; payload = drop 3 b }) e

parse_one :
    (a t c fuel : ℕ) (p rest : List ℕ)
    → is_address a ≡ true
    → length p ≤ 60
    → crc8_dvbs2 (t ∷ p) ≡ c
    → length (on_wire a (t ∷ p) c ++ rest) ≤ fuel
    → parse_loop fuel (on_wire a (t ∷ p) c ++ rest)
      ≡ yield_frame (record { addr = a; ftype = t; payload = p }) (feed [] rest)
parse_one a t c zero p rest h l e k = absurd (omega arith)
parse_one a t c (suc fuel) p rest h l e k =
    let look_here : look (on_wire a (t ∷ p) c ++ rest) ≡ accept (length (t ∷ p) + 1 + 2) =
      look-on_wire a c (t ∷ p) rest h (omega arith) (omega arith) ∙ ground arith in
    parse_loop-accept fuel (on_wire a (t ∷ p) c ++ rest) (length (t ∷ p) + 1 + 2) look_here
    ∙ ap
        (λ f.
          yield_frame (frame_of f)
            (parse_loop fuel (drop (length (t ∷ p) + 1 + 2) (on_wire a (t ∷ p) c ++ rest))))
        (taken a c (t ∷ p) rest)
    ∙ ap (λ r. yield_frame (frame_of (on_wire a (t ∷ p) c)) (parse_loop fuel r))
        (left a c (t ∷ p) rest)
    ∙ ap (λ f. yield_frame f (parse_loop fuel rest)) (frame_of-on_wire a t c p)
    ∙ ap (yield_frame (record { addr = a; ftype = t; payload = p })) feeds
  where
    feeds : parse_loop fuel rest ≡ feed [] rest
    feeds =
        unfold feed in
        parse_loop_fuel fuel (length rest) rest
          (omega (arith, length-append (p ++ (c ∷ [])) rest, length-append p (c ∷ [])))
          (omega arith)

yield_frame-before :
    (f : Frame) (fs : List Frame) (r : List ℕ × List Frame)
    → yield_frame f (before fs r) ≡ before (f ∷ fs) r
yield_frame-before f fs (buf, more) = refl

before_nothing : (r : List ℕ × List Frame) → before [] r ≡ r
before_nothing (buf, more) = refl

-- An empty parser reads the frames that `make_frame` built, one behind the other, as exactly those
-- frames, and then goes on with the bytes that follow as if nothing had stood before them. Each
-- frame has one of the sync addresses, a byte for its type, and up to 60 bytes of payload.
pub parser_feed-wires :
    (fs : List Frame) (rest : List ℕ)
    → All Sendable fs
    → feed [] (wires fs ++ rest) ≡ before fs (feed [] rest)
parser_feed-wires [] rest h = sym (before_nothing (feed [] rest))
parser_feed-wires (f ∷ fs) rest ((ha, ht, hp, l), hs) =
    let c = crc8_dvbs2 (f.ftype ∷ f.payload) in
    let made = make_frame_lem f.addr f.ftype f.payload (ground arith) ht hp (omega arith) in
    let wire = on_wire f.addr (f.ftype ∷ f.payload) c in
    ap (λ m. feed [] ((bytes_or_nothing m ++ wires fs) ++ rest)) made
    ∙ ap (feed []) (append_assoc wire (wires fs) rest)
    ∙ feeds
    ∙ ap (yield_frame f) (parser_feed-wires fs rest hs)
    ∙ yield_frame-before f fs (feed [] rest)
  where
    feeds :
        feed [] (
          on_wire f.addr (f.ftype ∷ f.payload) (crc8_dvbs2 (f.ftype ∷ f.payload))
          ++ (wires fs ++ rest))
        ≡ yield_frame f (feed [] (wires fs ++ rest))
    feeds =
        unfold feed in
        parse_one f.addr f.ftype (crc8_dvbs2 (f.ftype ∷ f.payload)) _ f.payload (wires fs ++ rest)
          ha l refl (omega arith)
