-- ===== src/Bridge/Rpc/Reassembly.antt =====
-- modules/drone_bridge/rpc.py: what one fragment does to the reassembler.
use nova_robotics_drone_cont.Common.{
  ℕ, ◌≡◌, refl, Bool, true, false, Option, none, some, List, [], ◌++◌, ◌==◌, if◌then◌else◌, ==_iff,
}
use nova_robotics_drone_cont.Bridge.Rpc.{
  RpcRequest, flag_eom, eom_flag, Slice, Dict, assign, default, RequestReassembler, take_in,
  pending, complete, feed, drop_id,
}
use nova_robotics_drone_cont.Bridge.Rpc.Packets.{Fits, packet_of, decode-packet_of}

-- The request that a fragment holds.
abbrev pub piece : RpcRequest → Slice → RpcRequest
piece r s = record r { flags = eom_flag s.eom; body = s.chunk }

-- What is open for a request: the body so far, and the first fragment's method and path.
pub record Open (st : RequestReassembler) (r : RpcRequest) (so_far : List ℕ) : Type 0 where
  pub body : default (st.bodies r.req_id) [] ≡ so_far
  pub head : default (st.heads r.req_id) (r.method, r.path) ≡ (r.method, r.path)

collapse :
    {A : Type 0}
    → (b : Bool) (v w x : Option A) → (if b then w else (if b then v else x)) ≡ (if b then w else x)
collapse true v w x = refl
collapse false v w x = refl

pub assign-assign :
    {A : Type 0} → (d : Dict A) (k : ℕ) (v w : Option A) → assign (assign d k v) k w ≡ assign d k w
assign-assign d k v w = λ t i. collapse (i == k) v w (d i) t

pub assign_same : {A : Type 0} → (d : Dict A) (k : ℕ) (v : Option A) → assign d k v k ≡ v
assign_same d k v = rw ((==_iff k k).1 refl) refl

abbrev pub kept : RequestReassembler → RpcRequest → List ℕ → List ℕ → RequestReassembler
kept st r so_far chunk = record {
  bodies = assign st.bodies r.req_id (some (so_far ++ chunk));
  heads = assign st.heads r.req_id (some (r.method, r.path));
}

module _ (st : RequestReassembler) (r : RpcRequest) (so_far chunk : List ℕ)
    (o : Open st r so_far) where
  pub feed_more :
      Fits (piece r (record { chunk = chunk; eom = false }))
      → feed st (packet_of (piece r (record { chunk = chunk; eom = false })))
        ≡ (kept st r so_far chunk, pending)
  unfolding feed take_in
  feed_more f =
      rw (decode-packet_of (piece r (record { chunk = chunk; eom = false })) f, o.body, o.head) refl

  pub feed_last :
      Fits (piece r (record { chunk = chunk; eom = true }))
      → feed st (packet_of (piece r (record { chunk = chunk; eom = true })))
        ≡ (drop_id st r.req_id, complete (record r { flags = flag_eom; body = so_far ++ chunk }))
  unfolding feed take_in drop_id
  feed_last f =
      rw (decode-packet_of (piece r (record { chunk = chunk; eom = true })) f, o.body, o.head) refl

  pub kept-Open : Open (kept st r so_far chunk) r (so_far ++ chunk)
  kept-Open = record {
    body = rw (assign_same st.bodies r.req_id (some (so_far ++ chunk))) refl;
    head = rw (assign_same st.heads r.req_id (some (r.method, r.path))) refl;
  }

  pub drop_kept : drop_id (kept st r so_far chunk) r.req_id ≡ drop_id st r.req_id
  unfolding drop_id
  drop_kept = λ t. record {
    bodies = assign-assign st.bodies r.req_id (some (so_far ++ chunk)) none t;
    heads = assign-assign st.heads r.req_id (some (r.method, r.path)) none t;
  }
