-- ===== src/Bridge/Rpc/Responses/RoundTrip.antt =====
-- modules/drone_bridge/rpc.py: a response in fragments, put together again.
use nova_robotics_drone_cont.Common.{
  ℕ, ◌^◌, ◌≤◌, ◌<◌, ◌≡◌, refl, ap, ◌∙◌, Bool, true, false, none, some, List, [], ◌∷◌, ◌++◌, map,
  ltb, ◌==◌, lt→ltb, if◌then◌else◌, length, arith, All, Bool-cases, inl, inr,
}
use nova_robotics_drone_cont.Common.Bytes.{of_le-le_2, of_le-le_4}
use nova_robotics_drone_cont.Bridge.Rpc.{
  Slice, slices, all_packed, assign, default, complete, pending,
}
use nova_robotics_drone_cont.Bridge.Rpc.Packets.{take_all}
use nova_robotics_drone_cont.Bridge.Rpc.Reassembly.{assign-assign, assign_same}
use nova_robotics_drone_cont.Bridge.Rpc.Slices.{
  feed_all, last, more, Receiver, run_slices, slices_bound,
}
use nova_robotics_drone_cont.Bridge.Rpc.Responses.{
  RpcResponse, rsp_flags, rsp_packet, pack_rsp, rsp_max_payload, rsp_slice, fragment_rsp,
  ResponseReassembler, rsp_parts, take_rsp, feed_rsp,
}

-- A response whose fields fit the header.
pub record RspFits (r : RpcResponse) : Type 0 where
  pub req_id : r.req_id < 2 ^ 16
  pub status : r.status < 2 ^ 16
  pub body : length r.body < 2 ^ 32

abbrev of_response : RpcResponse → Slice → List ℕ
of_response r s = rsp_packet r.req_id r.status (rsp_flags r s.eom) s.chunk

pub close_id : ResponseReassembler → ℕ → ResponseReassembler
close_id st req_id = record {
  buffers = assign st.buffers req_id none;
  heads = assign st.heads req_id none;
}

abbrev held : RpcResponse → ResponseReassembler → List ℕ → List ℕ → ResponseReassembler
held r st so_far chunk = record {
  buffers = assign st.buffers r.req_id (some (so_far ++ chunk));
  heads = assign st.heads r.req_id (some (r.status, rsp_flags r false, r.is_error));
}

abbrev RspOpen : RpcResponse → ResponseReassembler → List ℕ → Type 0
RspOpen r st so_far = default (st.buffers r.req_id) [] ≡ so_far

module _ (r : RpcResponse) (f : RspFits r) where
  packet_is_long :
      (flags : ℕ) (chunk : List ℕ)
      → ltb (length (rsp_packet r.req_id r.status flags chunk)) 10 ≡ false
  packet_is_long flags chunk = ground arith

  parts_lem :
      (flags : ℕ) (chunk : List ℕ)
      → length chunk ≤ length r.body
      → rsp_parts (rsp_packet r.req_id r.status flags chunk)
        ≡ record { req_id = r.req_id; status = r.status; flags = flags; slice = chunk }
  parts_lem flags chunk h =
      rw
        (
          of_le-le_4 (length chunk) (let k = f.body in omega arith),
          of_le-le_2 r.req_id f.req_id,
          of_le-le_2 r.status f.status,
          take_all chunk,
        )
        refl

  feed_parts :
      (st : ResponseReassembler) (flags : ℕ) (chunk : List ℕ)
      → length chunk ≤ length r.body
      → feed_rsp st (rsp_packet r.req_id r.status flags chunk)
        ≡ take_rsp st
            (record { req_id = r.req_id; status = r.status; flags = flags; slice = chunk })
  unfolding feed_rsp
  feed_parts st flags chunk h =
      rw (packet_is_long flags chunk) (ap (take_rsp st) (parts_lem flags chunk h))

  feed_more_rsp :
      (st : ResponseReassembler) (so_far chunk : List ℕ)
      → length chunk ≤ length r.body
      → RspOpen r st so_far
      → feed_rsp st (of_response r (more chunk)) ≡ (held r st so_far chunk, pending)
  unfolding take_rsp
  feed_more_rsp st so_far chunk h o = feed_parts st (rsp_flags r false) chunk h ∙ at r.is_error refl
    where
      at :
          (b : Bool)
          → r.is_error ≡ b
          → take_rsp st (record {
            req_id = r.req_id;
            status = r.status;
            flags = rsp_flags r false;
            slice = chunk;
          })
            ≡ (held r st so_far chunk, pending)
      at true e = rw (o, e) refl
      at false e = rw (o, e) refl

  feed_last_rsp :
      (st : ResponseReassembler) (so_far chunk : List ℕ)
      → length chunk ≤ length r.body
      → RspOpen r st so_far
      → feed_rsp st (of_response r (last chunk))
        ≡ (close_id st r.req_id, complete (record r { body = so_far ++ chunk }))
  unfolding take_rsp close_id
  feed_last_rsp st so_far chunk h o = feed_parts st (rsp_flags r true) chunk h ∙ at r.is_error refl
    where
      at :
          (b : Bool)
          → r.is_error ≡ b
          → take_rsp st (record {
            req_id = r.req_id;
            status = r.status;
            flags = rsp_flags r true;
            slice = chunk;
          })
            ≡ (close_id st r.req_id, complete (record r { body = so_far ++ chunk }))
      at true e = rw (o, e) refl
      at false e = rw (o, e) refl

  rsp_receiver : Receiver feed_rsp (of_response r) (length r.body)
  unfolding close_id
  rsp_receiver = record {
    Open = RspOpen r;
    keep = held r;
    close = λ st. close_id st r.req_id;
    whole = λ body. record r { body = body };
    on_more = feed_more_rsp;
    on_last = feed_last_rsp;
    open_kept =
        λ st so_far chunk o. rw (assign_same st.buffers r.req_id (some (so_far ++ chunk))) refl;
    close_kept = λ st so_far chunk o t. record {
      buffers = assign-assign st.buffers r.req_id (some (so_far ++ chunk)) none t;
      heads =
          assign-assign st.heads r.req_id (some (r.status, rsp_flags r false, r.is_error)) none t;
    };
  }

  pack_rsp_lem :
      (flags : ℕ) (chunk : List ℕ)
      → length chunk ≤ length r.body
      → pack_rsp r.req_id r.status flags chunk ≡ some (rsp_packet r.req_id r.status flags chunk)
  pack_rsp_lem flags chunk h =
      rw
        (
          lt→ltb r.req_id (2 ^ 16) f.req_id,
          lt→ltb r.status (2 ^ 16) f.status,
          lt→ltb (length chunk) (2 ^ 32) (let k = f.body in omega arith),
        )
        refl

  All-pack_rsp :
      (ss : List Slice)
      → All (λ s. length s.chunk ≤ length r.body) ss
      → all_packed (map (rsp_slice r) ss) ≡ some (map (of_response r) ss)
  All-pack_rsp [] h = refl
  All-pack_rsp (s ∷ ss) h =
      rw (pack_rsp_lem (rsp_flags r s.eom) s.chunk h.0, All-pack_rsp ss h.1) refl

  -- The fragments of the response, as packets.
  rsp_fragments : ℕ → List (List ℕ)
  rsp_fragments mtu =
      if length r.body == 0
      then of_response r (last []) ∷ []
      else map (of_response r) (slices (length r.body) (rsp_max_payload mtu) r.body)

  fragment_rsp_lem : (mtu : ℕ) → fragment_rsp r mtu ≡ some (rsp_fragments mtu)
  unfolding fragment_rsp rsp_fragments
  fragment_rsp_lem mtu = elim (Bool-cases (length r.body == 0)) [
    | inl e ↦ rw (e, pack_rsp_lem (rsp_flags r true) [] (omega arith)) refl
    | inr e ↦
        rw
          (
            e,
            All-pack_rsp (slices (length r.body) (rsp_max_payload mtu) r.body) (
                slices_bound (length r.body) (rsp_max_payload mtu) (length r.body) r.body
                  (omega arith)),
          )
          refl
  ]

  rsp_fragments_deliver :
      (mtu : ℕ) (st : ResponseReassembler)
      → st.buffers r.req_id ≡ none
      → feed_all feed_rsp st (rsp_fragments mtu) ≡ (close_id st r.req_id, complete r ∷ [])
  unfolding rsp_fragments feed_all rsp_receiver
  rsp_fragments_deliver mtu st o = elim (Bool-cases (length r.body == 0)) [
    | inl e ↦
        rw (e, feed_last_rsp st [] [] (omega arith) (rw o refl))
          (ap (λ b. (close_id st r.req_id, complete (record r { body = b }) ∷ []))
            (nothing r.body (ground arith)))
    | inr e ↦ rw e (
        run_slices rsp_receiver (rsp_max_payload mtu) (omega arith) (length r.body) r.body st []
          (omega arith) (ground arith) (omega arith) (rw o refl))
  ]
    where
      nothing : (b : List ℕ) → length b ≡ 0 → [] ≡ b
      nothing [] h = refl
      nothing (x ∷ xs) h = absurd (omega arith)

-- A response whose fields fit the header is cut into fragments without fail, for any MTU. A
-- reassembler with no buffer for its id delivers, over these fragments, exactly that response, its
-- status and error mark included, once and nothing else, and then holds nothing for the id.
pub responses_arrive :
    (r : RpcResponse) (mtu : ℕ) (st : ResponseReassembler)
    → RspFits r
    → st.buffers r.req_id ≡ none
    → (ps : List (List ℕ)) × (fragment_rsp r mtu ≡ some ps)
      × (feed_all feed_rsp st ps ≡ (close_id st r.req_id, complete r ∷ []))
responses_arrive r mtu st f b =
    (rsp_fragments r f mtu, fragment_rsp_lem r f mtu, rsp_fragments_deliver r f mtu st b)
