-- ===== src/Bridge/Rpc.antt =====
-- modules/drone_bridge/rpc.py: requests and responses over BLE, in fragments.
-- A path is its UTF-8 bytes. A dictionary is the function of its look-up.
pub mod Packets
pub mod Reassembly
pub mod Requests
pub mod Slices
pub mod Responses
mod Examples
use nova_robotics_drone_cont.Common.{
  ℕ, zero, suc, ◌+◌, ◌-◌, ◌*◌, ◌^◌, max, Bool, true, false, ◌&&◌, not, Option, none, some, List, [],
  ◌∷◌, ◌++◌, map, leb, ltb, ◌==◌, if◌then◌else◌, get_or, length, take, drop, bit_and, bit_or,
}
use nova_robotics_drone_cont.Common.Result.{Result, ok, err}
use nova_robotics_drone_cont.Common.Bytes.{le, of_le, is_utf8}

abbrev pub hdr_size : ℕ
hdr_size = 10

abbrev pub att_overhead_bytes : ℕ
att_overhead_bytes = 3

abbrev pub flag_eom : ℕ
flag_eom = 0x01

abbrev pub flag_error : ℕ
flag_error = 0x02

pub record RpcRequest : Type 0 where
  pub req_id : ℕ
  pub flags : ℕ
  pub method : ℕ
  pub path : List ℕ
  pub body : List ℕ

pub data RpcError : Type 0 where
  too_short : ℕ → RpcError
  truncated : ℕ → ℕ → RpcError
  bad_utf8 : RpcError

unfoldable pub decode : List ℕ → Result RpcError RpcRequest
decode buf =
    let path_len = of_le (take 2 (drop 4 buf)) in
    let body_len = of_le (take 4 (drop 6 buf)) in
    let expected = hdr_size + path_len + body_len in
    let path = take path_len (drop hdr_size buf) in
    if ltb (length buf) hdr_size
    then err (too_short (length buf))
    else (if ltb (length buf) expected
        then err (truncated expected (length buf))
        else (if not (is_utf8 path)
            then err bad_utf8
            else ok (record {
              req_id = of_le (take 2 buf);
              flags = get_or buf 2 0;
              method = get_or buf 3 0;
              path = path;
              body = take body_len (drop (hdr_size + path_len) buf);
            })))

-- The bytes of one packet, `struct.pack(REQ_HDR, ...)` and what follows it.
abbrev pub req_packet : ℕ → ℕ → ℕ → List ℕ → List ℕ → List ℕ
req_packet req_id flags method path body =
    le 2 req_id ++ (flags ∷ method ∷ (le 2 (length path) ++ (le 4 (length body) ++ (path ++ body))))

abbrev pub req_fits : ℕ → ℕ → ℕ → List ℕ → List ℕ → Bool
req_fits req_id flags method path body =
    ltb req_id (2 ^ 16)
    && ltb flags (2 ^ 8)
    && ltb method (2 ^ 8)
    && ltb (length path) (2 ^ 16)
    && ltb (length body) (2 ^ 32)

-- `none` is the `struct.error` of a field that does not fit.
abbrev pub pack_req : ℕ → ℕ → ℕ → List ℕ → List ℕ → Option (List ℕ)
pack_req req_id flags method path body =
    if req_fits req_id flags method path body
    then some (req_packet req_id flags method path body)
    else none

unfoldable pub encode : RpcRequest → Option (List ℕ)
encode r =
    let flags = if r.flags == 0 then flag_eom else r.flags in
    pack_req r.req_id flags r.method r.path r.body

-- A slice of the body and whether it is the last.
pub record Slice : Type 0 where
  pub chunk : List ℕ
  pub eom : Bool

-- The loop of both `fragment`s; `rest` is `self.body[offset:]`, and the fuel is at least its length.
unfoldable pub slices : ℕ → ℕ → List ℕ → List Slice
slices zero max_body rest = []
slices (suc fuel) max_body [] = []
slices (suc fuel) max_body (b ∷ rest) =
    let rest' = drop max_body (b ∷ rest) in
    record { chunk = take max_body (b ∷ rest); eom = length rest' == 0 }
    ∷ slices fuel max_body rest'

abbrev pub eom_flag : Bool → ℕ
eom_flag true = flag_eom
eom_flag false = 0

-- All the packets, or none if one of them fails.
abbrev pub all_packed : List (Option (List ℕ)) → Option (List (List ℕ))
all_packed [] = some []
all_packed (none ∷ ps) = none
all_packed (some p ∷ ps) = elim (all_packed ps) [ none ↦ none | some qs ↦ some (p ∷ qs) ]

abbrev pub req_max_body : RpcRequest → ℕ → ℕ
req_max_body r mtu = max 1 (mtu - (hdr_size + length r.path + att_overhead_bytes))

abbrev pub req_slice : RpcRequest → Slice → Option (List ℕ)
req_slice r s = pack_req r.req_id (eom_flag s.eom) r.method r.path s.chunk

-- `RpcRequest.fragment`
unfoldable pub fragment : RpcRequest → ℕ → Option (List (List ℕ))
unfolding slices
fragment r mtu =
    let max_body = req_max_body r mtu in
    if leb (length r.body) max_body
    then all_packed (pack_req r.req_id flag_eom r.method r.path r.body ∷ [])
    else all_packed (map (req_slice r) (slices (length r.body) max_body r.body))

abbrev pub Dict {ℓ} : Type ℓ → Type ℓ
Dict A = ℕ → Option A

abbrev pub assign {ℓ} : {A : Type ℓ} → Dict A → ℕ → Option A → Dict A
assign d k v i = if i == k then v else d i

pub record RequestReassembler : Type 0 where
  pub bodies : Dict (List ℕ)
  pub heads : Dict (ℕ × List ℕ)

abbrev pub default {ℓ} : {A : Type ℓ} → Option A → A → A
default none d = d
default (some a) d = a

-- The rest of `feed`, on a decoded fragment.
unfoldable pub take_in : RequestReassembler → RpcRequest → RequestReassembler × Option RpcRequest
take_in st sub =
    let body = default (st.bodies sub.req_id) [] ++ sub.body in
    let head = default (st.heads sub.req_id) (sub.method, sub.path) in
    if bit_and sub.flags flag_eom == 0
    then (
      record {
        bodies = assign st.bodies sub.req_id (some body);
        heads = assign st.heads sub.req_id (some head);
      },
      none,
    )
    else (
      record { bodies = assign st.bodies sub.req_id none; heads = assign st.heads sub.req_id none },
      some (record sub { method = head.0; path = head.1; body = body }),
    )

-- What one call gives: a whole message, nothing yet, or a `ValueError`.
pub data Delivery (A : Type 0) : Type 0 where
  pending : Delivery A
  complete : A → Delivery A
  refused : RpcError → Delivery A

abbrev pub deliver : {S A : Type 0} → S × Option A → S × Delivery A
deliver (st, none) = (st, pending)
deliver (st, some r) = (st, complete r)

abbrev pub feed_decoded :
    RequestReassembler → Result RpcError RpcRequest → RequestReassembler × Delivery RpcRequest
feed_decoded st (err e) = (st, refused e)
feed_decoded st (ok sub) = deliver (take_in st sub)

-- `RequestReassembler.feed`
unfoldable pub feed : RequestReassembler → List ℕ → RequestReassembler × Delivery RpcRequest
unfolding take_in decode
feed st payload = feed_decoded st (decode payload)

unfoldable pub drop_id : RequestReassembler → ℕ → RequestReassembler
drop_id st req_id = record {
  bodies = assign st.bodies req_id none;
  heads = assign st.heads req_id none;
}

unfoldable pub clear : RequestReassembler → RequestReassembler
clear st = record { bodies = λ i. none; heads = λ i. none }
