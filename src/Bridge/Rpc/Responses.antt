-- ===== src/Bridge/Rpc/Responses.antt =====
-- modules/drone_bridge/rpc.py: responses, in fragments, and their reassembly.
pub mod RoundTrip
use nova_robotics_drone_cont.Common.{
  ℕ, ◌-◌, ◌^◌, max, Bool, true, false, ◌&&◌, not, Option, none, some, List, [], ◌∷◌, ◌++◌, map, ltb,
  ◌==◌, if◌then◌else◌, get_or, length, take, drop, bit_and, bit_or,
}
use nova_robotics_drone_cont.Common.Bytes.{le, of_le}
use nova_robotics_drone_cont.Bridge.Rpc.{
  hdr_size, att_overhead_bytes, flag_eom, flag_error, eom_flag, Slice, slices, all_packed, Dict,
  assign, default, Delivery, pending, complete, refused, too_short,
}

pub record RpcResponse : Type 0 where
  pub req_id : ℕ
  pub status : ℕ
  pub body : List ℕ
  pub is_error : Bool

abbrev pub error_flag : Bool → ℕ
error_flag true = flag_error
error_flag false = 0

-- `RpcResponse._flags`
abbrev pub rsp_flags : RpcResponse → Bool → ℕ
rsp_flags r eom = bit_or (eom_flag eom) (error_flag r.is_error)

-- `struct.pack(RSP_HDR, ...)` and the slice behind it.
abbrev pub rsp_packet : ℕ → ℕ → ℕ → List ℕ → List ℕ
rsp_packet req_id status flags chunk =
    le 2 req_id ++ (le 2 status ++ (flags ∷ 0 ∷ (le 4 (length chunk) ++ chunk)))

-- `none` is the `struct.error` of a field that does not fit; the flags are below 4.
abbrev pub pack_rsp : ℕ → ℕ → ℕ → List ℕ → Option (List ℕ)
pack_rsp req_id status flags chunk =
    if ltb req_id (2 ^ 16) && ltb status (2 ^ 16) && ltb (length chunk) (2 ^ 32)
    then some (rsp_packet req_id status flags chunk)
    else none

unfoldable pub encode_single : RpcResponse → Option (List ℕ)
encode_single r = pack_rsp r.req_id r.status (rsp_flags r true) r.body

abbrev pub rsp_max_payload : ℕ → ℕ
rsp_max_payload mtu = max 1 (mtu - att_overhead_bytes - hdr_size)

abbrev pub rsp_slice : RpcResponse → Slice → Option (List ℕ)
rsp_slice r s = pack_rsp r.req_id r.status (rsp_flags r s.eom) s.chunk

-- `RpcResponse.fragment`
unfoldable pub fragment_rsp : RpcResponse → ℕ → Option (List (List ℕ))
unfolding slices
fragment_rsp r mtu =
    if length r.body == 0
    then all_packed (pack_rsp r.req_id r.status (rsp_flags r true) [] ∷ [])
    else all_packed (map (rsp_slice r) (slices (length r.body) (rsp_max_payload mtu) r.body))

pub record ResponseReassembler : Type 0 where
  pub buffers : Dict (List ℕ)
  pub heads : Dict (ℕ × ℕ × Bool)

-- The header of a payload, `struct.unpack_from(RSP_HDR, payload, 0)`, and the slice.
pub record RspParts : Type 0 where
  pub req_id : ℕ
  pub status : ℕ
  pub flags : ℕ
  pub slice : List ℕ

abbrev pub rsp_parts : List ℕ → RspParts
rsp_parts payload = record {
  req_id = of_le (take 2 payload);
  status = of_le (take 2 (drop 2 payload));
  flags = get_or payload 4 0;
  slice = take (of_le (take 4 (drop 6 payload))) (drop hdr_size payload);
}

-- The rest of `feed`, on the parts of the payload.
unfoldable pub take_rsp :
    ResponseReassembler → RspParts → ResponseReassembler × Delivery RpcResponse
take_rsp st p =
    let buf = default (st.buffers p.req_id) [] ++ p.slice in
    let is_error = not (bit_and p.flags flag_error == 0) in
    if bit_and p.flags flag_eom == 0
    then (
      record {
        buffers = assign st.buffers p.req_id (some buf);
        heads = assign st.heads p.req_id (some (p.status, p.flags, is_error));
      },
      pending,
    )
    else (
      record { buffers = assign st.buffers p.req_id none; heads = assign st.heads p.req_id none },
      complete (record { req_id = p.req_id; status = p.status; body = buf; is_error = is_error }),
    )

-- `ResponseReassembler.feed`
unfoldable pub feed_rsp : ResponseReassembler → List ℕ → ResponseReassembler × Delivery RpcResponse
unfolding take_rsp
feed_rsp st payload =
    if ltb (length payload) hdr_size
    then (st, refused (too_short (length payload)))
    else take_rsp st (rsp_parts payload)
