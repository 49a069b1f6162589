-- ===== src/DataNode/Header.antt =====
-- The header and the arrays of a packet to a datanode, as they are read.
use kt.Base.{
  ℕ, zero, suc, ◌+◌, ◌*◌, ◌^◌, ◌≤◌, ◌<◌, ◌≡◌, ◌⊎◌, refl, ap, ap₂, ◌∙◌, ◌/◌, ◌%◌, List, [], ◌∷◌,
  ◌++◌, arith, length, inl,
}
use kt.DataNode.Bytes.{
  Buffer, store, store_other, read_bytes, load_same, load-store, load-store_other,
}
use kt.DataNode.Protocol.{magic_num, gen_dn_req_header, fill_u64_array_pkt, ReqHder, req_hder_ntoh}

abbrev pub header : ℕ → ℕ → ℕ → ℕ → ℕ → ReqHder
header opcode num_hbids num_triplets nnreq_id dnreq_id = record {
  magic_num1 = magic_num;
  opcode = opcode;
  num_hbids = num_hbids;
  num_triplets = num_triplets;
  nnreq_id = nnreq_id;
  dnreq_id = dnreq_id;
  magic_num2 = magic_num;
}

-- Headers are equal if their numbers are.
header_equal :
    (a b : ReqHder)
    → a.magic_num1 ≡ b.magic_num1
    → a.opcode ≡ b.opcode
    → a.num_hbids ≡ b.num_hbids
    → a.num_triplets ≡ b.num_triplets
    → a.nnreq_id ≡ b.nnreq_id
    → a.dnreq_id ≡ b.dnreq_id
    → a.magic_num2 ≡ b.magic_num2
    → a ≡ b
header_equal a b m op n t nn dn m' = λ i. record {
  magic_num1 = m i;
  opcode = op i;
  num_hbids = n i;
  num_triplets = t i;
  nnreq_id = nn i;
  dnreq_id = dn i;
  magic_num2 = m' i;
}

pub req_hder_ntoh-gen_dn_req_header :
    (buf : Buffer) (opcode n t nn dn : ℕ)
    → opcode < 2 ^ 8
    → n < 2 ^ 16
    → t < 2 ^ 16
    → nn < 2 ^ 32
    → dn < 2 ^ 32
    → req_hder_ntoh (gen_dn_req_header buf 0 opcode n t nn dn) ≡ header opcode n t nn dn
unfolding gen_dn_req_header req_hder_ntoh
req_hder_ntoh-gen_dn_req_header buf opcode n t nn dn op8 n16 t16 nn32 dn32 =
    let b1 = store 8 buf 0 magic_num in
    let b2 = store 1 b1 8 opcode in
    let b3 = store 2 b2 9 n in
    let b4 = store 2 b3 11 t in
    let b5 = store 4 b4 16 nn in
    let b6 = store 4 b5 20 dn in
    let b7 = store 8 b6 24 magic_num in
    header_equal (req_hder_ntoh b7) (header opcode n t nn dn)
      (load-store_other 8 8 b6 0 24 magic_num (omega arith)
        ∙ load-store_other 8 4 b5 0 20 dn (omega arith)
        ∙ load-store_other 8 4 b4 0 16 nn (omega arith)
        ∙ load-store_other 8 2 b3 0 11 t (omega arith)
        ∙ load-store_other 8 2 b2 0 9 n (omega arith)
        ∙ load-store_other 8 1 b1 0 8 opcode (omega arith)
        ∙ load-store 8 buf 0 magic_num (omega arith))
      (load-store_other 1 8 b6 8 24 magic_num (omega arith)
        ∙ load-store_other 1 4 b5 8 20 dn (omega arith)
        ∙ load-store_other 1 4 b4 8 16 nn (omega arith)
        ∙ load-store_other 1 2 b3 8 11 t (omega arith)
        ∙ load-store_other 1 2 b2 8 9 n (omega arith)
        ∙ load-store 1 b1 8 opcode (omega (arith, op8)))
      (load-store_other 2 8 b6 9 24 magic_num (omega arith)
        ∙ load-store_other 2 4 b5 9 20 dn (omega arith)
        ∙ load-store_other 2 4 b4 9 16 nn (omega arith)
        ∙ load-store_other 2 2 b3 9 11 t (omega arith)
        ∙ load-store 2 b2 9 n (omega (arith, n16)))
      (load-store_other 2 8 b6 11 24 magic_num (omega arith)
        ∙ load-store_other 2 4 b5 11 20 dn (omega arith)
        ∙ load-store_other 2 4 b4 11 16 nn (omega arith)
        ∙ load-store 2 b3 11 t (omega (arith, t16)))
      (load-store_other 4 8 b6 16 24 magic_num (omega arith)
        ∙ load-store_other 4 4 b5 16 20 dn (omega arith)
        ∙ load-store 4 b4 16 nn (omega (arith, nn32)))
      (load-store_other 4 8 b6 20 24 magic_num (omega arith)
        ∙ load-store 4 b5 20 dn (omega (arith, dn32)))
      (load-store 8 b6 24 magic_num (omega arith))

-- What is outside the array is left.
pub fill_u64_array_pkt_other :
    (buf : Buffer) (off : ℕ) (arr : List ℕ) (n i : ℕ)
    → (i < off) ⊎ (off + 8 * n ≤ i)
    → fill_u64_array_pkt buf off arr n i ≡ buf i
unfolding fill_u64_array_pkt
fill_u64_array_pkt_other buf off arr zero i out = refl
fill_u64_array_pkt_other buf off [] (suc n) i out = refl
fill_u64_array_pkt_other buf off (x ∷ arr) (suc n) i out =
    fill_u64_array_pkt_other (store 8 buf off x) (off + 8) arr n i (omega (arith, out))
    ∙ store_other 8 buf off x i (omega (arith, out))

-- The bytes of a number of w bytes, the most significant first, and of a whole array of 8 bytes each.
abbrev pub net_bytes : ℕ → ℕ → List ℕ
net_bytes zero x = []
net_bytes (suc k) x = net_bytes k (x / 256) ++ x % 256 ∷ []

abbrev pub net_array : List ℕ → List ℕ
net_array [] = []
net_array (x ∷ arr) = net_bytes 8 x ++ net_array arr

pub read_bytes_same :
    (n : ℕ) (a b : Buffer) (off : ℕ)
    → ((i : ℕ) → off ≤ i → i < off + n → a i ≡ b i)
    → read_bytes n a off ≡ read_bytes n b off
read_bytes_same zero a b off same = refl
read_bytes_same (suc n) a b off same =
    ap₂ (λ y ys. y ∷ ys) (same off (omega arith) (omega arith))
      (read_bytes_same n a b (off + 1) (λ i le lt. same i (omega (arith, le)) (omega (arith, lt))))

read_bytes-append :
    (n m k : ℕ) (buf : Buffer) (off : ℕ)
    → k ≡ n + m
    → read_bytes k buf off ≡ read_bytes n buf off ++ read_bytes m buf (off + n)
read_bytes-append zero m k buf off e =
    let same : k ≡ m = omega (arith, e) in
    let at : off ≡ off + 0 = omega arith in ap₂ (λ j o. read_bytes j buf o) same at
read_bytes-append (suc n) m zero buf off e = absurd (omega (arith, e))
read_bytes-append (suc n) m (suc k) buf off e =
    let at : off + 1 + n ≡ off + suc n = omega arith in
    ap (λ ys. buf off ∷ ys)
      (read_bytes-append n m k buf (off + 1) (omega (arith, e))
        ∙ ap (λ o. read_bytes n buf (off + 1) ++ read_bytes m buf o) at)

read_bytes-store :
    (w : ℕ) (buf : Buffer) (off x : ℕ) → read_bytes w (store w buf off x) off ≡ net_bytes w x
unfolding store
read_bytes-store zero buf off x = refl
read_bytes-store (suc k) buf off x =
    let last : store (suc k) buf off x (off + k) ≡ x % 256 = ground arith in
    read_bytes-append k 1 (suc k) (store (suc k) buf off x) off (omega arith)
    ∙ ap₂ (λ ys y. ys ++ y ∷ [])
        (read_bytes_same k (store (suc k) buf off x) (store k buf off (x / 256)) off
            (λ i le lt. ground (arith, lt))
          ∙ read_bytes-store k buf off (x / 256))
        last

-- And the array stands there in network order.
pub read_bytes-fill_u64_array_pkt :
    (buf : Buffer) (off : ℕ) (arr : List ℕ) (n : ℕ)
    → length arr ≡ n
    → read_bytes (8 * n) (fill_u64_array_pkt buf off arr n) off ≡ net_array arr
unfolding fill_u64_array_pkt
read_bytes-fill_u64_array_pkt buf off [] zero e = refl
read_bytes-fill_u64_array_pkt buf off [] (suc n) e = absurd (omega (arith, e))
read_bytes-fill_u64_array_pkt buf off (x ∷ arr) zero e = absurd (omega (arith, e))
read_bytes-fill_u64_array_pkt buf off (x ∷ arr) (suc n) e =
    let stored = store 8 buf off x in
    let all = fill_u64_array_pkt stored (off + 8) arr n in
    read_bytes-append 8 (8 * n) (8 * suc n) all off (omega arith)
    ∙ ap₂ (λ xs ys. xs ++ ys)
        (read_bytes_same 8 all stored off
            (λ i le lt. fill_u64_array_pkt_other stored (off + 8) arr n i (inl lt))
          ∙ read_bytes-store 8 buf off x)
        (read_bytes-fill_u64_array_pkt stored (off + 8) arr n (omega (arith, e)))

pub req_hder_ntoh_same :
    (a b : Buffer) → ((i : ℕ) → i < 32 → a i ≡ b i) → req_hder_ntoh a ≡ req_hder_ntoh b
unfolding req_hder_ntoh
req_hder_ntoh_same a b same =
    header_equal (req_hder_ntoh a) (req_hder_ntoh b)
      (load_same 8 a b 0 (λ i le lt. same i (omega (arith, lt))))
      (load_same 1 a b 8 (λ i le lt. same i (omega (arith, lt))))
      (load_same 2 a b 9 (λ i le lt. same i (omega (arith, lt))))
      (load_same 2 a b 11 (λ i le lt. same i (omega (arith, lt))))
      (load_same 4 a b 16 (λ i le lt. same i (omega (arith, lt))))
      (load_same 4 a b 20 (λ i le lt. same i (omega (arith, lt))))
      (load_same 8 a b 24 (λ i le lt. same i (omega (arith, lt))))
