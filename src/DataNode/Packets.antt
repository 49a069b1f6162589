-- ===== src/DataNode/Packets.antt =====
-- A whole packet of DNProto_gen_ReqPacket, as the datanode reads it.
use mathlib.Core.Path.{subst}
use kt.Base.{
  ℕ, ◌%◌, ◌^◌, ◌+◌, ◌*◌, ◌^◌, ◌≤◌, ◌<◌, ◌≡◌, refl, ap, sym, ◌∙◌, false, ◌||◌, ltb, some, List, [],
  ◌∷◌, arith, length, ◌==◌, if◌then◌else◌, Bool-cases, inl, inr,
}
use kt.DataNode.Bytes.{Buffer, memcpy_other, read_bytes}
use kt.DataNode.Protocol.{
  is_write_opcode, is_read_opcode, FpMethod, fp_disable, fp_sha1, fp_md5, DnReq, FpState,
  gen_dn_req_header, fill_u64_array_pkt, fill_dn_req_read_mask_pkt, cal_block, cal_blocks, cal_segs,
  cal_fingerprint, get_fingerprint, zeros, digest, gen_req_packet, req_hder_ntoh, CnReq,
  max_lbs_per_ior, rcv_arrays, dn_srv_rcv_hder,
}
use kt.DataNode.Header.{
  header, req_hder_ntoh-gen_dn_req_header, fill_u64_array_pkt_other, net_array,
  read_bytes-fill_u64_array_pkt, read_bytes_same, req_hder_ntoh_same,
}

-- What the datanode is to take from the packet of a request.
abbrev pub taken : DnReq → CnReq
taken r = record {
  pkt_hder = header r.req_opcode r.num_hbids r.num_phyloc r.caller_req_id r.req_id;
  arr_hbids = net_array r.arr_hbids;
  phy_loc_rlo = net_array r.phy_loc_rlo;
}

-- The numbers of a request fit into their types, and its arrays are as long as it says and fit into
-- those of the datanode's request.
pub record IsInRange (r : DnReq) : Type 0 where
  pub opcode : r.req_opcode < 2 ^ 8
  pub caller : r.caller_req_id < 2 ^ 32
  pub id : r.req_id < 2 ^ 32
  pub some_hbids : 0 < r.num_hbids
  pub few_hbids : r.num_hbids ≤ max_lbs_per_ior
  pub few_phyloc : r.num_phyloc ≤ max_lbs_per_ior
  pub hbids : length r.arr_hbids ≡ r.num_hbids
  pub phyloc : length r.phy_loc_rlo ≡ r.num_phyloc

module _ (sha1 md5_sum : List ℕ → List ℕ) where
  -- Fingerprints are written from their place on.
  cal_block_below :
      (m : FpMethod) (payload : List ℕ) (s : FpState) (i : ℕ)
      → i < s.fp_dst
      → (cal_block sha1 md5_sum m payload s).buf i ≡ s.buf i
  unfolding cal_block
  cal_block_below m payload s i lt = elim (Bool-cases (s.fp_map s.lb_off)) [
    | inl hit ↦
        rw (cal_block, hit)
          (memcpy_other s.buf s.fp_dst (read_bytes 20 s.fp_cache (s.lb_off * 20 % 2 ^ 32)) i
            (inl lt))
    | inr miss ↦
        rw (cal_block, miss)
          (memcpy_other s.buf s.fp_dst (digest sha1 md5_sum m payload) i (inl lt))
  ]

  cal_block_dst :
      (m : FpMethod) (payload : List ℕ) (s : FpState)
      → s.fp_dst ≤ (cal_block sha1 md5_sum m payload s).fp_dst
  unfolding cal_block
  cal_block_dst m payload s = omega arith

  cal_blocks_below :
      (m : FpMethod) (ps : List (List ℕ)) (s : FpState) (i : ℕ)
      → i < s.fp_dst
      → ((cal_blocks sha1 md5_sum m ps s).buf i ≡ s.buf i)
        × (s.fp_dst ≤ (cal_blocks sha1 md5_sum m ps s).fp_dst)
  unfolding cal_blocks
  cal_blocks_below m [] s i lt = (refl, omega arith)
  cal_blocks_below m (p ∷ ps) s i lt =
      let up = cal_block_dst m p s in
      let (same, le) =
        cal_blocks_below m ps (cal_block sha1 md5_sum m p s) i (omega (arith, lt, up)) in
      (same ∙ cal_block_below m p s i lt, omega (arith, le, up))

  cal_segs_below :
      (m : FpMethod) (segs : List (List (List ℕ))) (s : FpState) (i : ℕ)
      → i < s.fp_dst
      → (cal_segs sha1 md5_sum m segs s).buf i ≡ s.buf i
  unfolding cal_segs
  cal_segs_below m [] s i lt = refl
  cal_segs_below m (seg ∷ segs) s i lt =
      let (same, le) = cal_blocks_below m seg s i lt in
      cal_segs_below m segs (cal_blocks sha1 md5_sum m seg s) i (omega (arith, lt, le)) ∙ same

  get_fingerprint_below :
      (m : FpMethod) (buf : Buffer) (off : ℕ) (r : DnReq) (i : ℕ)
      → i < off
      → (get_fingerprint sha1 md5_sum m buf off r).0 i ≡ buf i
  unfolding get_fingerprint cal_fingerprint
  get_fingerprint_below fp_disable buf off r i lt =
      memcpy_other buf off (zeros (20 * r.num_hbids)) i (inl lt)
  get_fingerprint_below fp_sha1 buf off r i lt = cal_segs_below fp_sha1 r.u_data_seg _ i lt
  get_fingerprint_below fp_md5 buf off r i lt = cal_segs_below fp_md5 r.u_data_seg _ i lt

  mask_below :
      (mask : Buffer) (n off : ℕ) (buf : Buffer) (i : ℕ)
      → i < off
      → fill_dn_req_read_mask_pkt mask n off buf i ≡ buf i
  unfolding fill_dn_req_read_mask_pkt
  mask_below mask n off buf i lt = memcpy_other buf off (read_bytes (8 * n) mask 0) i (inl lt)

  module _ (r : DnReq) (q : IsInRange r) (buf : Buffer) where
    abbrev headed : Buffer
    headed = gen_dn_req_header buf 0 r.req_opcode r.num_hbids r.num_phyloc r.caller_req_id r.req_id

    abbrev with_hbids : Buffer
    with_hbids = fill_u64_array_pkt headed 32 r.arr_hbids r.num_hbids

    -- The packet, if what stands between the arrays keeps what stands before.
    module _ (middle : Buffer) (skip : ℕ)
        (below : (i : ℕ) → i < 32 + 8 * r.num_hbids → middle i ≡ with_hbids i)
        (between : skip ≡ (
          if is_write_opcode r.req_opcode
          then 20 * r.num_hbids
          else if is_read_opcode r.req_opcode
          then 8 * r.num_hbids
          else 0)) where
      abbrev packet : Buffer
      packet = fill_u64_array_pkt middle (32 + 8 * r.num_hbids + skip) r.phy_loc_rlo r.num_phyloc

      packet_below : (i : ℕ) → i < 32 + 8 * r.num_hbids → packet i ≡ with_hbids i
      packet_below i lt =
          fill_u64_array_pkt_other middle (32 + 8 * r.num_hbids + skip) r.phy_loc_rlo r.num_phyloc i
            (inl (omega (arith, lt)))
          ∙ below i lt

      packet_header : (i : ℕ) → i < 32 → packet i ≡ headed i
      packet_header i lt =
          packet_below i (omega (arith, lt))
          ∙ fill_u64_array_pkt_other headed 32 r.arr_hbids r.num_hbids i (inl lt)

      packet_hbids : read_bytes (8 * r.num_hbids) packet 32 ≡ net_array r.arr_hbids
      packet_hbids =
          read_bytes_same (8 * r.num_hbids) packet with_hbids 32 (λ i le lt. packet_below i lt)
          ∙ read_bytes-fill_u64_array_pkt headed 32 r.arr_hbids r.num_hbids q.hbids

      packet_rlo :
          read_bytes (8 * r.num_phyloc) packet (32 + 8 * r.num_hbids + skip)
          ≡ net_array r.phy_loc_rlo
      packet_rlo =
          read_bytes-fill_u64_array_pkt middle (32 + 8 * r.num_hbids + skip) r.phy_loc_rlo
            r.num_phyloc q.phyloc

      packet_hder :
          req_hder_ntoh packet
          ≡ header r.req_opcode r.num_hbids r.num_phyloc r.caller_req_id r.req_id
      packet_hder =
          req_hder_ntoh_same packet headed packet_header
          ∙ req_hder_ntoh-gen_dn_req_header buf r.req_opcode r.num_hbids r.num_phyloc
              r.caller_req_id r.req_id q.opcode (omega (arith, q.few_hbids))
              (omega (arith, q.few_phyloc)) q.caller q.id

      rcv_packet :
          (r.req_opcode == 10) ≡ false
          → dn_srv_rcv_hder (32 + 8 * r.num_hbids + skip + 8 * r.num_phyloc) packet ≡ some (taken r)
      unfolding dn_srv_rcv_hder rcv_arrays
      rcv_packet no_beat =
          let some_hbids = q.some_hbids in
          let long : (r.req_opcode == 10 || 32 + 8 * r.num_hbids + skip + 8 * r.num_phyloc == 32)
              ≡ false =
            ground (arith, no_beat, some_hbids) in
          let fit : (ltb max_lbs_per_ior r.num_hbids || ltb max_lbs_per_ior r.num_phyloc) ≡ false =
            ground (arith, q.few_hbids, q.few_phyloc) in
          ap (rcv_arrays (32 + 8 * r.num_hbids + skip + 8 * r.num_phyloc) packet) packet_hder
          ∙ rw (rcv_arrays, long, fit, sym between)
              (λ i. some (record {
                pkt_hder = header r.req_opcode r.num_hbids r.num_phyloc r.caller_req_id r.req_id;
                arr_hbids = packet_hbids i;
                phy_loc_rlo = packet_rlo i;
              }))

    -- The datanode takes from the packet of a request, whatever its buffer held before, what was put
    -- into it: the header's numbers in its own byte order, and of both arrays exactly their bytes, each
    -- number's 8 with the most significant first, since it copies them without conversion. So it does
    -- for every opcode but a heartbeat's, and however fingerprints are made, if the request asks for
    -- some block, its opcode and ids fit into their types, and each array is as long as the request
    -- says, with at most MAX_LBS_PER_IOR entries.
    pub dn_srv_rcv_hder-gen_req_packet :
        (m : FpMethod) (mask : Buffer)
        → (r.req_opcode == 10) ≡ false
        → (let (pkt, packet_len, fp_map, fp_cache) = gen_req_packet sha1 md5_sum m mask r buf in
            dn_srv_rcv_hder packet_len pkt ≡ some (taken r))
    unfolding gen_req_packet
    dn_srv_rcv_hder-gen_req_packet m mask no_beat =
        let at = 32 + 8 * r.num_hbids in
        elim (Bool-cases (is_write_opcode r.req_opcode)) [
          | inl write ↦
              rw (gen_req_packet, write)
                (rcv_packet (get_fingerprint sha1 md5_sum m with_hbids at r).0 (20 * r.num_hbids)
                  (λ i lt. get_fingerprint_below m with_hbids at r i lt) (rw write refl) no_beat)
          | inr not_write ↦ elim (Bool-cases (is_read_opcode r.req_opcode)) [
            | inl read ↦
                rw (gen_req_packet, not_write, read)
                  (rcv_packet (fill_dn_req_read_mask_pkt mask r.num_hbids at with_hbids)
                    (8 * r.num_hbids) (λ i lt. mask_below mask r.num_hbids at with_hbids i lt)
                    (rw (not_write, read) refl) no_beat)
            | inr not_read ↦
                let none_between : at + 0 ≡ at = omega arith in
                rw (gen_req_packet, not_write, not_read)
                  (subst
                    (λ k.
                      dn_srv_rcv_hder (k + 8 * r.num_phyloc)
                        (fill_u64_array_pkt with_hbids k r.phy_loc_rlo r.num_phyloc)
                      ≡ some (taken r))
                    none_between
                    (rcv_packet with_hbids 0 (λ i lt. refl) (rw (not_write, not_read) refl)
                      no_beat))
          ]
        ]
