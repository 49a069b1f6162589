-- ===== src/DataNode/Acks.antt =====
-- The other packets of the protocol: acknowledgements (DNSrv_gen_ackpkt of the simulated datanode,
-- DNProto_ReqAck_ntoh) and heartbeats (DNProto_gen_HBPacket).
use kt.Base.{ℕ, ◌+◌, ◌*◌, ◌/◌, ◌^◌, ◌≤◌, ◌<◌, ◌≡◌, ap₂, ◌∙◌, arith}
use kt.Base.BitOr.{bit_or, bit_or_zero}
use kt.DataNode.Bytes.{Buffer, store, load, load-store, load-store_other}
use kt.DataNode.Protocol.{magic_num}

-- `CN2DN_UDRWResp_hder_t` in host order.
pub record RespHder : Type 0 where
  pub magic_num1 : ℕ
  pub response_type : ℕ
  pub num_of_lb : ℕ
  pub p_req_id : ℕ
  pub dnid : ℕ
  pub magic_num2 : ℕ

-- `DNSrv_gen_ackpkt`.
unfoldable pub dn_srv_gen_ackpkt : Buffer → ℕ → ℕ → ℕ → ℕ → Buffer
unfolding store
dn_srv_gen_ackpkt pkt acktype num_of_lb p_req_id dn_req_id =
    let b1 = store 8 pkt 0 magic_num in
    let b2 = store 1 b1 8 acktype in
    let b3 = store 1 b2 9 0 in
    let b4 = store 2 b3 10 num_of_lb in
    let b5 = store 4 b4 12 0 in
    let b6 = store 4 b5 16 (magic_num / 2 ^ 32) in
    let b7 = store 4 b6 20 (magic_num / 2 ^ 32) in
    let b8 = store 8 b7 24 magic_num in let b9 = store 4 b8 16 p_req_id in store 4 b9 20 dn_req_id

-- `DNProto_ReqAck_ntoh`.
unfoldable pub req_ack_ntoh : Buffer → RespHder
unfolding load
req_ack_ntoh pkt = record {
  magic_num1 = load 8 pkt 0;
  response_type = load 1 pkt 8;
  num_of_lb = bit_or 32 (load 2 pkt 10) (load 1 pkt 9 * 2 ^ 16);
  p_req_id = load 4 pkt 16;
  dnid = load 4 pkt 20;
  magic_num2 = load 8 pkt 24;
}

-- `DNProto_gen_HBPacket`: the buffer and the length.
unfoldable pub gen_hb_packet : Buffer → Buffer × ℕ
unfolding store
gen_hb_packet buf =
    let b1 = store 8 buf 0 magic_num in let b2 = store 1 b1 8 10 in (store 8 b2 24 magic_num, 32)

resp_equal :
    (a b : RespHder)
    → a.magic_num1 ≡ b.magic_num1
    → a.response_type ≡ b.response_type
    → a.num_of_lb ≡ b.num_of_lb
    → a.p_req_id ≡ b.p_req_id
    → a.dnid ≡ b.dnid
    → a.magic_num2 ≡ b.magic_num2
    → a ≡ b
resp_equal a b m t n p d m' = λ i. record {
  magic_num1 = m i;
  response_type = t i;
  num_of_lb = n i;
  p_req_id = p i;
  dnid = d i;
  magic_num2 = m' i;
}

-- The client reads from an acknowledgement what the datanode has put into it, whatever its buffer
-- held before: a type of 8 bits, a number of blocks of 16 bits, and two ids of 32 bits.
pub req_ack_ntoh-dn_srv_gen_ackpkt :
    (pkt : Buffer) (acktype num_of_lb p_req_id dn_req_id : ℕ)
    → acktype < 2 ^ 8
    → num_of_lb < 2 ^ 16
    → p_req_id < 2 ^ 32
    → dn_req_id < 2 ^ 32
    → req_ack_ntoh (dn_srv_gen_ackpkt pkt acktype num_of_lb p_req_id dn_req_id) ≡ record {
      magic_num1 = magic_num;
      response_type = acktype;
      num_of_lb = num_of_lb;
      p_req_id = p_req_id;
      dnid = dn_req_id;
      magic_num2 = magic_num;
    }
unfolding dn_srv_gen_ackpkt req_ack_ntoh
req_ack_ntoh-dn_srv_gen_ackpkt pkt t n p d t8 n16 p32 d32 =
    let half = magic_num / 2 ^ 32 in
    let b1 = store 8 pkt 0 magic_num in
    let b2 = store 1 b1 8 t in
    let b3 = store 1 b2 9 0 in
    let b4 = store 2 b3 10 n in
    let b5 = store 4 b4 12 0 in
    let b6 = store 4 b5 16 half in
    let b7 = store 4 b6 20 half in
    let b8 = store 8 b7 24 magic_num in
    let b9 = store 4 b8 16 p in
    let b10 = store 4 b9 20 d in
    let front : (w off : ℕ) → off + w ≤ 12 → load w b10 off ≡ load w b4 off = λ w off le.
      load-store_other w 4 b9 off 20 d (omega (arith, le))
      ∙ load-store_other w 4 b8 off 16 p (omega (arith, le))
      ∙ load-store_other w 8 b7 off 24 magic_num (omega (arith, le))
      ∙ load-store_other w 4 b6 off 20 half (omega (arith, le))
      ∙ load-store_other w 4 b5 off 16 half (omega (arith, le))
      ∙ load-store_other w 4 b4 off 12 0 (omega (arith, le)) in
    let count = front 2 10 (omega arith) ∙ load-store 2 b3 10 n (omega (arith, n16)) in
    let high =
      front 1 9 (omega arith)
      ∙ load-store_other 1 2 b3 9 10 n (omega arith)
      ∙ load-store 1 b2 9 0 (omega arith) in
    resp_equal (req_ack_ntoh b10) _
      (front 8 0 (omega arith)
        ∙ load-store_other 8 2 b3 0 10 n (omega arith)
        ∙ load-store_other 8 1 b2 0 9 0 (omega arith)
        ∙ load-store_other 8 1 b1 0 8 t (omega arith)
        ∙ load-store 8 pkt 0 magic_num (omega arith))
      (front 1 8 (omega arith)
        ∙ load-store_other 1 2 b3 8 10 n (omega arith)
        ∙ load-store_other 1 1 b2 8 9 0 (omega arith)
        ∙ load-store 1 b1 8 t (omega (arith, t8)))
      (ap₂ (λ x y. bit_or 32 x (y * 2 ^ 16)) count high ∙ bit_or_zero 32 n (omega (arith, n16)))
      (load-store_other 4 4 b9 16 20 d (omega arith) ∙ load-store 4 b8 16 p (omega (arith, p32)))
      (load-store 4 b9 20 d (omega (arith, d32)))
      (load-store_other 8 4 b9 24 20 d (omega arith)
        ∙ load-store_other 8 4 b8 24 16 p (omega arith)
        ∙ load-store 8 b7 24 magic_num (omega arith))
