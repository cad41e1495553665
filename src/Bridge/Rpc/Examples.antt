-- ===== src/Bridge/Rpc/Examples.antt =====
-- modules/drone_bridge/rpc.py: a request and a response in fragments.
use nova_robotics_drone_cont.Common.{
  ℕ, true, ◌≡◌, refl, none, some, List, [], ◌∷◌, arith, length, replicate,
}
use nova_robotics_drone_cont.Common.Result.{err}
use nova_robotics_drone_cont.Common.Bytes.{is_utf8}
use nova_robotics_drone_cont.Bridge.Rpc.{
  RpcRequest, RequestReassembler, decode, too_short, fragment, flag_eom, complete, drop_id, feed,
}
use nova_robotics_drone_cont.Bridge.Rpc.Packets.{Fits}
use nova_robotics_drone_cont.Bridge.Rpc.Slices.{feed_all}
use nova_robotics_drone_cont.Bridge.Rpc.Responses.{
  RpcResponse, fragment_rsp, ResponseReassembler, feed_rsp,
}
use nova_robotics_drone_cont.Bridge.Rpc.Responses.RoundTrip.{RspFits, close_id, responses_arrive}
use nova_robotics_drone_cont.Bridge.Rpc.Requests.{fragments_arrive}

-- PUT /x with a body of 20 bytes.
abbrev request : RpcRequest
request = record {
  req_id = 700;
  flags = 0;
  method = 4;
  path = b'/' ∷ b'x' ∷ [];
  body = replicate 20 7;
}

abbrev empty : RequestReassembler
empty = record { bodies = λ i. none; heads = λ i. none }

request-Fits : Fits request
unfolding is_utf8
request-Fits = record {
  req_id = omega arith;
  flags = omega arith;
  method = omega arith;
  path = omega arith;
  body = omega arith;
  utf8 = refl;
}

-- At an MTU of 23 each fragment holds eight bytes of the body.
three_fragments : (ps : List (List ℕ)) × (fragment request 23 ≡ some ps) × (length ps ≡ 3)
unfolding fragment
three_fragments = (_, refl, refl)

nothing_decoded : decode (1 ∷ 2 ∷ []) ≡ err (too_short 2)
unfolding decode
nothing_decoded = refl

fragments_arrive_example :
    (ps : List (List ℕ)) × (fragment request 23 ≡ some ps)
    × (feed_all feed empty ps
        ≡ (drop_id empty request.req_id, complete (record request { flags = flag_eom }) ∷ []))
fragments_arrive_example = fragments_arrive request 23 empty request-Fits refl refl

-- A refusal with a body of 30 bytes.
abbrev refusal : RpcResponse
refusal = record { req_id = 700; status = 503; body = replicate 30 9; is_error = true }

abbrev idle : ResponseReassembler
idle = record { buffers = λ i. none; heads = λ i. none }

refusal-Fits : RspFits refusal
refusal-Fits = record { req_id = omega arith; status = omega arith; body = omega arith }

three_notifications : (ps : List (List ℕ)) × (fragment_rsp refusal 23 ≡ some ps) × (length ps ≡ 3)
unfolding fragment_rsp
three_notifications = (_, refl, refl)

responses_arrive_example :
    (ps : List (List ℕ)) × (fragment_rsp refusal 23 ≡ some ps)
    × (feed_all feed_rsp idle ps ≡ (close_id idle 700, complete refusal ∷ []))
responses_arrive_example = responses_arrive refusal 23 idle refusal-Fits refl
