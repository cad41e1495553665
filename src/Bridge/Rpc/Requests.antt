-- ===== src/Bridge/Rpc/Requests.antt =====
-- modules/drone_bridge/rpc.py: a request in fragments, put together again.
use nova_robotics_drone_cont.Common.{
  ℕ, ◌^◌, ◌≤◌, ◌<◌, ◌≡◌, refl, Bool, true, false, none, some, List, [], ◌∷◌, map, leb,
  if◌then◌else◌, length, arith, All, Bool-cases, inl, inr,
}
use nova_robotics_drone_cont.Bridge.Rpc.{
  RpcRequest, flag_eom, eom_flag, Slice, slices, all_packed, req_max_body, req_slice, fragment,
  RequestReassembler, Delivery, complete, drop_id, feed,
}
use nova_robotics_drone_cont.Bridge.Rpc.Slices.{
  feed_all, last, more, Receiver, run_slices, slices_bound,
}
use nova_robotics_drone_cont.Bridge.Rpc.Packets.{Fits, packet_of, pack_req_lem}
use nova_robotics_drone_cont.Bridge.Rpc.Reassembly.{
  piece, Open, kept, feed_more, feed_last, kept-Open, drop_kept,
}

-- The same request with its body shortened fits too.
piece-Fits :
    (r : RpcRequest) (s : Slice) → Fits r → length s.chunk ≤ length r.body → Fits (piece r s)
piece-Fits r s f h = record {
  req_id = f.req_id;
  flags = flag_bound s.eom;
  method = f.method;
  path = f.path;
  body = (let k = f.body in omega arith);
  utf8 = f.utf8;
}
  where
    flag_bound : (b : Bool) → eom_flag b < 2 ^ 8
    flag_bound true = omega arith
    flag_bound false = omega arith

abbrev of_request : RpcRequest → Slice → List ℕ
of_request r s = packet_of (piece r s)

abbrev pub pieces : RpcRequest → ℕ → ℕ → List ℕ → List (List ℕ)
pieces r fuel max_body rest = map (of_request r) (slices fuel max_body rest)

-- The fragments of `rest` complete a request of which `so_far` is there.
abbrev Completes :
    RequestReassembler
    → RpcRequest
    → List ℕ
    → RequestReassembler × List (Delivery RpcRequest)
    → Type 0
Completes st r body fed =
    fed ≡ (drop_id st r.req_id, complete (record r { flags = flag_eom; body = body }) ∷ [])

receiver : (r : RpcRequest) → Fits r → Receiver feed (of_request r) (length r.body)
receiver r f = record {
  Open = λ st so_far. Open st r so_far;
  keep = λ st so_far chunk. kept st r so_far chunk;
  close = λ st. drop_id st r.req_id;
  whole = λ body. record r { flags = flag_eom; body = body };
  on_more = λ st so_far chunk h o. feed_more st r so_far chunk o (piece-Fits r (more chunk) f h);
  on_last = λ st so_far chunk h o. feed_last st r so_far chunk o (piece-Fits r (last chunk) f h);
  open_kept = λ st so_far chunk o. kept-Open st r so_far chunk o;
  close_kept = λ st so_far chunk o. drop_kept st r so_far chunk o;
}

-- The fragments of a request, as packets.
fragments : RpcRequest → ℕ → List (List ℕ)
fragments r mtu =
    if leb (length r.body) (req_max_body r mtu)
    then packet_of (record r { flags = flag_eom }) ∷ []
    else pieces r (length r.body) (req_max_body r mtu) r.body

module _ (r : RpcRequest) (f : Fits r) where
  All-pack :
      (ss : List Slice)
      → All (λ s. length s.chunk ≤ length r.body) ss
      → all_packed (map (req_slice r) ss) ≡ some (map (of_request r) ss)
  All-pack [] h = refl
  All-pack (s ∷ ss) h = rw (pack_req_lem (piece r s) (piece-Fits r s f h.0), All-pack ss h.1) refl

  sole-Fits : Fits (record r { flags = flag_eom })
  sole-Fits = piece-Fits r (record { chunk = r.body; eom = true }) f (omega arith)

  -- `fragment` never fails on a request whose fields fit.
  fragment_lem : (mtu : ℕ) → fragment r mtu ≡ some (fragments r mtu)
  unfolding fragment fragments
  fragment_lem mtu = elim (Bool-cases (leb (length r.body) (req_max_body r mtu))) [
    | inl e ↦ rw (e, pack_req_lem (record r { flags = flag_eom }) sole-Fits) refl
    | inr e ↦
        rw
          (
            e,
            All-pack (slices (length r.body) (req_max_body r mtu) r.body) (
                slices_bound (length r.body) (req_max_body r mtu) (length r.body) r.body
                  (omega arith)),
          )
          refl
  ]

  fragments_complete :
      (mtu : ℕ) (st : RequestReassembler)
      → Open st r []
      → Completes st r r.body (feed_all feed st (fragments r mtu))
  unfolding fragments feed_all receiver
  fragments_complete mtu st o = elim (Bool-cases (leb (length r.body) (req_max_body r mtu))) [
    | inl e ↦ rw (e, feed_last st r [] r.body o sole-Fits) refl
    | inr e ↦ rw e (
        run_slices (receiver r f) (req_max_body r mtu) (omega arith) (length r.body) r.body st []
          (omega arith) (ground arith) (omega arith) o)
  ]

-- A request whose fields fit the header and whose path is UTF-8 is cut into fragments without fail,
-- for any MTU. A reassembler that holds nothing for its id delivers, over these fragments, exactly
-- that request, once and with the flag EOM, and nothing else. After it the reassembler is as before
-- for every id, and holds nothing for this one.
pub fragments_arrive :
    (r : RpcRequest) (mtu : ℕ) (st : RequestReassembler)
    → Fits r
    → st.bodies r.req_id ≡ none
    → st.heads r.req_id ≡ none
    → (ps : List (List ℕ)) × (fragment r mtu ≡ some ps)
      × (feed_all feed st ps ≡ (drop_id st r.req_id, complete (record r { flags = flag_eom }) ∷ []))
fragments_arrive r mtu st f b h = (
  fragments r mtu,
  fragment_lem r f mtu,
  fragments_complete r f mtu st (record { body = rw b refl; head = rw h refl }),
)
