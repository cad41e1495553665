-- ===== src/Bridge/Rpc/Packets.antt =====
-- modules/drone_bridge/rpc.py: one packet, encoded and decoded.
use nova_robotics_drone_cont.Common.{
  ℕ, zero, suc, ◌+◌, ◌^◌, ◌<◌, ◌≡◌, refl, sym, ap, ◌∙◌, true, false, some, List, [], ◌∷◌, ◌++◌, ltb,
  lt→ltb, length, take, drop, arith, length-append, take-append, drop-append,
}
use nova_robotics_drone_cont.Common.Result.{ok}
use nova_robotics_drone_cont.Common.Bytes.{is_utf8, of_le-le_2, of_le-le_4}
use nova_robotics_drone_cont.Bridge.Rpc.{RpcRequest, decode, req_packet, pack_req}

-- A request whose fields fit the header, with a path of UTF-8.
pub record Fits (r : RpcRequest) : Type 0 where
  pub req_id : r.req_id < 2 ^ 16
  pub flags : r.flags < 2 ^ 8
  pub method : r.method < 2 ^ 8
  pub path : length r.path < 2 ^ 16
  pub body : length r.body < 2 ^ 32
  pub utf8 : is_utf8 r.path ≡ true

abbrev pub packet_of : RpcRequest → List ℕ
packet_of r = req_packet r.req_id r.flags r.method r.path r.body

packet_length : (r : RpcRequest) → length (packet_of r) ≡ 10 + length r.path + length r.body
packet_length r = omega (arith, length-append r.path r.body)

pub take_all : (xs : List ℕ) → take (length xs) xs ≡ xs
take_all [] = refl
take_all (x ∷ xs) = ap (◌∷◌ x) (take_all xs)

body_at : (p b : List ℕ) → take (length b) (drop (length p) (p ++ b)) ≡ b
body_at p b = rw (drop-append p b (length p) refl) (take_all b)

drop_nil : (n : ℕ) → drop {A = ℕ} n [] ≡ []
drop_nil zero = refl
drop_nil (suc n) = refl

drop_add : (m n : ℕ) (xs : List ℕ) → drop (m + n) xs ≡ drop n (drop m xs)
drop_add zero n xs = ap (λ k. drop k xs) (let e : 0 + n ≡ n = omega arith in e)
drop_add (suc m) n [] = drop_nil (suc m + n) ∙ sym (drop_nil n)
drop_add (suc m) n (x ∷ xs) =
    ap (λ k. drop k (x ∷ xs)) (let e : suc m + n ≡ suc (m + n) = omega arith in e) ∙ drop_add m n xs

long_enough : (r : RpcRequest) → ltb (length (packet_of r)) 10 ≡ false
long_enough r = ground (arith, packet_length r)

all_there :
    (r : RpcRequest) → ltb (length (packet_of r)) (10 + length r.path + length r.body) ≡ false
all_there r = ground (arith, packet_length r)

-- A packet of fields that fit decodes to exactly these fields.
pub decode-packet_of : (r : RpcRequest) → Fits r → decode (packet_of r) ≡ ok r
unfolding decode
decode-packet_of r f =
    rw
      (
        of_le-le_2 (length r.path) f.path,
        of_le-le_4 (length r.body) f.body,
        of_le-le_2 r.req_id f.req_id,
        long_enough r,
        all_there r,
        drop_add 10 (length r.path) (packet_of r),
        take-append r.path r.body (length r.path) refl,
        f.utf8,
        body_at r.path r.body,
      )
      refl

pub pack_req_lem :
    (r : RpcRequest)
    → Fits r
    → pack_req r.req_id r.flags r.method r.path r.body ≡ some (packet_of r)
pack_req_lem r f =
    rw
      (
        lt→ltb r.req_id (2 ^ 16) f.req_id,
        lt→ltb r.flags (2 ^ 8) f.flags,
        lt→ltb r.method (2 ^ 8) f.method,
        lt→ltb (length r.path) (2 ^ 16) f.path,
        lt→ltb (length r.body) (2 ^ 32) f.body,
      )
      refl
