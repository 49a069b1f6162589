-- ===== src/Metadata/Merge.antt =====
-- BlockDeviceDriver2/metadata_manager/metadata_cache.c: the places of the blocks of a metadata item at
-- one datanode, one by one as the cache keeps them, and merged as an item keeps them. An int32_t is
-- its bit pattern.
use kt.Base.{
  ℕ, zero, suc, ◌+◌, ◌-◌, ◌%◌, ◌^◌, Bool, not, List, [], ◌∷◌, drop, ltb, ◌==◌, if◌then◌else◌,
}
use kt.Metadata.Triple.{compose_triple, decompose_triple}

-- The fields of `mcache_dnloc_t` that name a place.
pub record PhyLoc : Type 0 where
  pub rbid : ℕ
  pub offset : ℕ

-- The triplets that `_create_MDItem` writes for the blocks of one datanode.
unfoldable pub create_triplets : List PhyLoc → List ℕ
create_triplets [] = []
create_triplets (l ∷ ls) = compose_triple l.rbid 1 l.offset ∷ create_triplets ls

-- The loop of `getContTripletLength` over the triplets after the first: `retLen` and `*accum_len`.
unfoldable pub cont_triplets : ℕ → ℕ → ℕ → ℕ → List ℕ → ℕ × ℕ
cont_triplets rbid offset ret_len accum_len [] = (ret_len, accum_len)
cont_triplets rbid offset ret_len accum_len (t ∷ ts) =
    let (rbid_n, len_n, offset_n) = decompose_triple t in
    let more = cont_triplets rbid offset (suc ret_len) ((accum_len + len_n) % 2 ^ 32) ts in
    if not (rbid_n == rbid)
    then (ret_len, accum_len)
    else if not ((offset + accum_len) % 2 ^ 32 == offset_n)
    then (ret_len, accum_len)
    else more

-- `getContTripletLength` of a triplet and those after it.
unfoldable pub get_cont_triplet_length : ℕ → List ℕ → ℕ × ℕ
unfolding cont_triplets
get_cont_triplet_length t [] = (1, 0)
get_cont_triplet_length t (u ∷ ts) =
    let (rbid, len, offset) = decompose_triple t in cont_triplets rbid offset 1 len (u ∷ ts)

-- The loop of `merge_lr_triplet` over the triplets of a datanode, with the rounds that are left: what
-- it stores. It stores at `store_index`, which is at most `start`, so it never stores what it has
-- still to read.
unfoldable pub merge_triplets : ℕ → List ℕ → List ℕ
unfolding get_cont_triplet_length
merge_triplets zero ts = []
merge_triplets (suc fuel) [] = []
merge_triplets (suc fuel) (t ∷ ts) =
    let (rbid_s, len_s, offset_s) = decompose_triple t in
    let (cont_len, accum_len) = get_cont_triplet_length t ts in
    (if ltb 1 cont_len then compose_triple rbid_s accum_len offset_s else t)
    ∷ merge_triplets fuel (drop cont_len (t ∷ ts))

-- A comparison of int32_t.
abbrev signed_lt : ℕ → ℕ → Bool
signed_lt a b = ltb ((a + 2 ^ 31) % 2 ^ 32) ((b + 2 ^ 31) % 2 ^ 32)

-- The inner loop of `_split_metadata`, which finds the place of block i; if no triplet has it, the
-- item of the cache keeps the zeros that it was allocated with.
unfoldable pub split_loc : ℕ → ℕ → List ℕ → PhyLoc
split_loc i prev_len [] = record { rbid = 0; offset = 0 }
split_loc i prev_len (t ∷ ts) =
    let (rbid, len, offset) = decompose_triple t in
    let rest = split_loc i ((prev_len + len) % 2 ^ 32) ts in
    if signed_lt i ((len + prev_len) % 2 ^ 32)
    then record { rbid = rbid; offset = (offset + i + (2 ^ 32 - prev_len % 2 ^ 32)) % 2 ^ 32 }
    else rest
