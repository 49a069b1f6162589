-- ===== src/DataNode/Protocol.antt =====
-- discoDN_client/discoC_DN_protocol.c with DN_PROTOCOL_VERSION 1, fingerprint.c, and what the
-- simulated datanode does with the packets: discoDN_simulator/discoDNSrv_protocol.c and
-- _DNSrv_rcv_hder of discoDNSrv_simulator.c. The digests of lib/sha1.c and lib/md5.c are parameters.
use kt.Base.{
  ℕ, zero, suc, ◌+◌, ◌*◌, ◌/◌, ◌%◌, ◌^◌, Bool, true, ◌||◌, Option, none, some, ltb, List, [], ◌∷◌,
  ◌==◌, if◌then◌else◌,
}
use kt.DataNode.Bytes.{Buffer, store, load, memcpy, read_bytes}

-- MAGIC_NUM.
abbrev pub magic_num : ℕ
magic_num = 11936128518282651045

abbrev pub is_write_opcode : ℕ → Bool
is_write_opcode op = op == 3 || op == 12 || op == 14 || op == 16

abbrev pub is_read_opcode : ℕ → Bool
is_read_opcode op = op == 4 || op == 13 || op == 15 || op == 17

pub data FpMethod : Type 0 where
  fp_disable fp_sha1 fp_md5 : FpMethod

-- The entries of `DNUData_Req_t` that make a packet. A segment of user data is a list of blocks.
pub record DnReq : Type 0 where
  pub req_opcode : ℕ
  pub caller_req_id : ℕ
  pub req_id : ℕ
  pub num_hbids : ℕ
  pub arr_hbids : List ℕ
  pub num_phyloc : ℕ
  pub phy_loc_rlo : List ℕ
  pub u_data_seg : List (List (List ℕ))
  pub dn_payload_offset : ℕ
  pub ref_fp_map : ℕ → Bool
  pub ref_fp_cache : Buffer

-- `_gen_DNReq_header`; the reserved bytes keep what the buffer had.
unfoldable pub gen_dn_req_header : Buffer → ℕ → ℕ → ℕ → ℕ → ℕ → ℕ → Buffer
gen_dn_req_header buf off opcode num_hbids num_triplets nnreq_id dnreq_id =
    let b1 = store 8 buf off magic_num in
    let b2 = store 1 b1 (off + 8) opcode in
    let b3 = store 2 b2 (off + 9) num_hbids in
    let b4 = store 2 b3 (off + 11) num_triplets in
    let b5 = store 4 b4 (off + 16) nnreq_id in
    let b6 = store 4 b5 (off + 20) dnreq_id in store 8 b6 (off + 24) magic_num

-- `_fill_u64_array_pkt`, for the first entries of an array.
unfoldable pub fill_u64_array_pkt : Buffer → ℕ → List ℕ → ℕ → Buffer
fill_u64_array_pkt buf off arr zero = buf
fill_u64_array_pkt buf off [] (suc n) = buf
fill_u64_array_pkt buf off (x ∷ arr) (suc n) =
    fill_u64_array_pkt (store 8 buf off x) (off + 8) arr n

-- `fill_DNReq_read_mask_pkt`, with the bytes of DNProto_ReadMask_buffer.
unfoldable pub fill_dn_req_read_mask_pkt : Buffer → ℕ → ℕ → Buffer → Buffer
unfolding memcpy
fill_dn_req_read_mask_pkt mask num_hbids off buf =
    memcpy buf off (read_bytes (8 * num_hbids) mask 0)

-- The state of the loops of `_cal_fingerprint`.
pub record FpState : Type 0 where
  pub buf : Buffer
  pub fp_dst : ℕ
  pub lb_off : ℕ
  pub fp_map : ℕ → Bool
  pub fp_cache : Buffer

abbrev pub zeros : ℕ → List ℕ
zeros zero = []
zeros (suc n) = 0 ∷ zeros n

module _ (sha1 md5_sum : List ℕ → List ℕ) where
  abbrev pub digest : FpMethod → List ℕ → List ℕ
  digest fp_sha1 payload = sha1 payload
  digest fp_md5 payload = md5_sum payload
  digest fp_disable payload = []

  -- The body of the inner loop.
  unfoldable pub cal_block : FpMethod → List ℕ → FpState → FpState
  unfolding memcpy
  cal_block fp_method payload s =
      let src = s.lb_off * 20 % 2 ^ 32 in
      let made = memcpy s.buf s.fp_dst (digest fp_method payload) in
      let hit = s.fp_map s.lb_off in
      record {
        buf = if hit then memcpy s.buf s.fp_dst (read_bytes 20 s.fp_cache src) else made;
        fp_dst = s.fp_dst + 20;
        lb_off = (s.lb_off + 1) % 2 ^ 32;
        fp_map = λ i. if s.lb_off == i then true else s.fp_map i;
        fp_cache = if hit then s.fp_cache else memcpy s.fp_cache src (read_bytes 20 made s.fp_dst);
      }

  unfoldable pub cal_blocks : FpMethod → List (List ℕ) → FpState → FpState
  unfolding cal_block
  cal_blocks fp_method [] s = s
  cal_blocks fp_method (payload ∷ ps) s = cal_blocks fp_method ps (cal_block fp_method payload s)

  unfoldable pub cal_segs : FpMethod → List (List (List ℕ)) → FpState → FpState
  unfolding cal_blocks
  cal_segs fp_method [] s = s
  cal_segs fp_method (seg ∷ segs) s = cal_segs fp_method segs (cal_blocks fp_method seg s)

  -- `_cal_fingerprint`.
  unfoldable pub cal_fingerprint : FpMethod → Buffer → ℕ → DnReq → FpState
  unfolding cal_segs
  cal_fingerprint fp_method buf off r = cal_segs fp_method r.u_data_seg (record {
    buf = buf;
    fp_dst = off;
    lb_off = (r.dn_payload_offset / 2 ^ 12) % 2 ^ 32;
    fp_map = r.ref_fp_map;
    fp_cache = r.ref_fp_cache;
  })

  -- `get_fingerprint`: the buffer, and the map and the cache of fingerprints.
  unfoldable pub get_fingerprint : FpMethod → Buffer → ℕ → DnReq → Buffer × (ℕ → Bool) × Buffer
  unfolding cal_fingerprint memcpy
  get_fingerprint fp_disable buf off r =
      (memcpy buf off (zeros (20 * r.num_hbids)), r.ref_fp_map, r.ref_fp_cache)
  get_fingerprint fp_method buf off r =
      let s = cal_fingerprint fp_method buf off r in (s.buf, s.fp_map, s.fp_cache)

  -- `DNProto_gen_ReqPacket`: the buffer, the length, and the map and the cache of fingerprints.
  unfoldable pub gen_req_packet :
      FpMethod → Buffer → DnReq → Buffer → Buffer × ℕ × (ℕ → Bool) × Buffer
  unfolding gen_dn_req_header fill_u64_array_pkt fill_dn_req_read_mask_pkt get_fingerprint
  gen_req_packet fp_method mask r buf =
      let b1 =
        gen_dn_req_header buf 0 r.req_opcode r.num_hbids r.num_phyloc r.caller_req_id r.req_id in
      let b2 = fill_u64_array_pkt b1 32 r.arr_hbids r.num_hbids in
      let at = 32 + 8 * r.num_hbids in
      let (fp_buf, fp_map, fp_cache) = get_fingerprint fp_method b2 at r in
      if is_write_opcode r.req_opcode
      then (
        fill_u64_array_pkt fp_buf (at + 20 * r.num_hbids) r.phy_loc_rlo r.num_phyloc,
        at + 20 * r.num_hbids + 8 * r.num_phyloc,
        fp_map,
        fp_cache,
      )
      else if is_read_opcode r.req_opcode
      then (
        fill_u64_array_pkt (fill_dn_req_read_mask_pkt mask r.num_hbids at b2) (at + 8 * r.num_hbids)
            r.phy_loc_rlo r.num_phyloc,
        at + 8 * r.num_hbids + 8 * r.num_phyloc,
        r.ref_fp_map,
        r.ref_fp_cache,
      )
      else (
        fill_u64_array_pkt b2 at r.phy_loc_rlo r.num_phyloc,
        at + 8 * r.num_phyloc,
        r.ref_fp_map,
        r.ref_fp_cache,
      )

-- `CN2DN_UDRWReq_hder_t` in host order.
pub record ReqHder : Type 0 where
  pub magic_num1 : ℕ
  pub opcode : ℕ
  pub num_hbids : ℕ
  pub num_triplets : ℕ
  pub nnreq_id : ℕ
  pub dnreq_id : ℕ
  pub magic_num2 : ℕ

-- `DNClient_ReqHder_ntoh`.
unfoldable pub req_hder_ntoh : Buffer → ReqHder
unfolding load
req_hder_ntoh pkt = record {
  magic_num1 = load 8 pkt 0;
  opcode = load 1 pkt 8;
  num_hbids = load 2 pkt 9;
  num_triplets = load 2 pkt 11;
  nnreq_id = load 4 pkt 16;
  dnreq_id = load 4 pkt 20;
  magic_num2 = load 8 pkt 24;
}

-- MAX_LBS_PER_IOR.
abbrev pub max_lbs_per_ior : ℕ
max_lbs_per_ior = 33

-- What the datanode takes from a packet: of the two arrays, which have room for max_lbs_per_ior
-- numbers of 8 bytes, the bytes that are copied there.
pub record CnReq : Type 0 where
  pub pkt_hder : ReqHder
  pub arr_hbids : List ℕ
  pub phy_loc_rlo : List ℕ

-- The arrays behind a header, copied as they are; there are none behind one that is the whole packet.
-- The code does not check that they fit: there is no result where a copy would run past its array.
unfoldable pub rcv_arrays : ℕ → Buffer → ReqHder → Option CnReq
rcv_arrays pkt_len pkt h =
    let at = 32 + 8 * h.num_hbids in
    let skip =
      if is_write_opcode h.opcode
      then 20 * h.num_hbids
      else if is_read_opcode h.opcode
      then 8 * h.num_hbids
      else 0 in
    if h.opcode == 10 || pkt_len == 32
    then some (record { pkt_hder = h; arr_hbids = []; phy_loc_rlo = [] })
    else if ltb max_lbs_per_ior h.num_hbids || ltb max_lbs_per_ior h.num_triplets
    then none
    else some (record {
      pkt_hder = h;
      arr_hbids = read_bytes (8 * h.num_hbids) pkt 32;
      phy_loc_rlo = read_bytes (8 * h.num_triplets) pkt (at + skip);
    })

-- `_DNSrv_rcv_hder`, up to CNReq_init_request, which repeats numbers of the header in other entries.
unfoldable pub dn_srv_rcv_hder : ℕ → Buffer → Option CnReq
unfolding req_hder_ntoh rcv_arrays
dn_srv_rcv_hder pkt_len pkt = rcv_arrays pkt_len pkt (req_hder_ntoh pkt)
