-- ===== src/DataNode/PacketExamples.antt =====
-- A write of two blocks and an acknowledgement of them.
use kt.Base.{ℕ, ltb, ◌≡◌, refl, some, List, [], ◌∷◌, arith}
use kt.DataNode.Bytes.{Buffer}
use kt.DataNode.Protocol.{DnReq, fp_sha1, gen_req_packet, dn_srv_rcv_hder, magic_num}
use kt.DataNode.Packets.{IsInRange, taken, dn_srv_rcv_hder-gen_req_packet}
use kt.DataNode.Acks.{req_ack_ntoh, dn_srv_gen_ackpkt, req_ack_ntoh-dn_srv_gen_ackpkt}

-- A buffer that holds something already.
abbrev used : Buffer
used = λ i. 170

-- A digest of one byte.
abbrev first_byte : List ℕ → List ℕ
first_byte [] = []
first_byte (b ∷ bs) = b ∷ []

-- The fingerprint of the first block is in the cache.
abbrev write_req : DnReq
write_req = record {
  req_opcode = 3;
  caller_req_id = 70000;
  req_id = 5;
  num_hbids = 2;
  arr_hbids = 1099511627776 ∷ 258 ∷ [];
  num_phyloc = 1;
  phy_loc_rlo = 4294967298 ∷ [];
  u_data_seg = ((7 ∷ []) ∷ []) ∷ ((9 ∷ []) ∷ []) ∷ [];
  dn_payload_offset = 0;
  ref_fp_map = λ i. ltb i 1;
  ref_fp_cache = λ i. i;
}

write_req-IsInRange : IsInRange write_req
write_req-IsInRange = record {
  opcode = omega arith;
  caller = omega arith;
  id = omega arith;
  some_hbids = omega arith;
  few_hbids = omega arith;
  few_phyloc = omega arith;
  hbids = refl;
  phyloc = refl;
}

dn_srv_rcv_hder-gen_req_packet_example :
    (let (pkt, packet_len, fp_map, fp_cache) =
        gen_req_packet first_byte first_byte fp_sha1 used write_req used in
      dn_srv_rcv_hder packet_len pkt ≡ some (taken write_req))
dn_srv_rcv_hder-gen_req_packet_example =
    dn_srv_rcv_hder-gen_req_packet first_byte first_byte write_req write_req-IsInRange used fp_sha1
      used refl

length_run : (gen_req_packet first_byte first_byte fp_sha1 used write_req used).1 ≡ 96
unfolding gen_req_packet
length_run = refl

req_ack_ntoh-dn_srv_gen_ackpkt_example :
    req_ack_ntoh (dn_srv_gen_ackpkt used 103 2 70000 5) ≡ record {
      magic_num1 = magic_num;
      response_type = 103;
      num_of_lb = 2;
      p_req_id = 70000;
      dnid = 5;
      magic_num2 = magic_num;
    }
req_ack_ntoh-dn_srv_gen_ackpkt_example =
    req_ack_ntoh-dn_srv_gen_ackpkt used 103 2 70000 5 (omega arith) (omega arith) (omega arith)
      (omega arith)
