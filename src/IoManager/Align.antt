-- ===== src/IoManager/Align.antt =====
-- BlockDeviceDriver2/io_manager/discoC_IORequest.c: the blocks of 8 sectors that a request covers, and
-- for each of them the mask of the sectors that it covers (`ioReq_init_request`,
-- `_ioReq_set_lbalign_mask`). A uint64_t wraps at 2^64.
use kt.Base.{
  ℕ, zero, suc, ◌+◌, ◌-◌, ◌*◌, ◌/◌, ◌%◌, ◌^◌, ◌≤◌, ◌<◌, ◌≡◌, refl, Bool, true, ◌&&◌, none, some,
  List, [], ◌∷◌, arith, length, get_elem?, ltb, leb, ◌==◌, get_elem?_total, sym, ap, ◌∙◌,
  if◌then◌else◌, Bool-cases, inl, inr,
}
use mathlib.Core.Path.{subst}
use kt.Base.Bits.{set_bit, check_upto, check_upto_sound}
use kt.IoManager.Overlap.{UserIoAddr}

-- The address that `ioReq_init_request` computes from the first sector and the number of sectors.
unfoldable pub init_ioaddr : ℕ → ℕ → UserIoAddr
init_ioaddr kern_sect nr_ksects =
    let first = kern_sect / 8 in
    record {
      lbid_start = first;
      lbid_len =
          ((kern_sect + nr_ksects + (2 ^ 64 - 1)) % 2 ^ 64 / 8 + 2 ^ 64 - first + 1) % 2 ^ 32;
    }

-- The inner loop: k bits from j on.
unfoldable pub set_bits : ℕ → ℕ → ℕ → ℕ
unfolding set_bit
set_bits zero j mask = mask
set_bits (suc k) j mask = set_bits k (j + 1) (set_bit j mask)

-- The outer loop: a mask for each block from sect_start on. Each round passes a sector at least.
unfoldable pub mask_loop : ℕ → ℕ → ℕ → List ℕ
unfolding set_bits
mask_loop zero sect_start sect_end = []
mask_loop (suc fuel) sect_start sect_end =
    let startbit = sect_start % 8 in
    let rangebit = 8 - startbit in
    let bitlen =
      if leb sect_end ((sect_start + rangebit) % 2 ^ 64) then sect_end - sect_start else rangebit in
    let rest = mask_loop fuel ((sect_start + bitlen) % 2 ^ 64) sect_end in
    if ltb sect_start sect_end then set_bits bitlen startbit 0 ∷ rest else []

-- `mask[i]`, in a buffer of zeros.
unfoldable pub mask_at : List ℕ → ℕ → ℕ
mask_at masks i = elim (get_elem? masks i) [ none ↦ 0 | some m ↦ m ]

-- `_ioReq_set_lbalign_mask`: the masks that it writes, and whether the first and last are full. With
-- no sector the first is not, and the last is not read.
unfoldable pub set_lbalign_mask : ℕ → ℕ → List ℕ × Bool
unfolding mask_loop mask_at
set_lbalign_mask sect_begin sect_len =
    let masks = mask_loop sect_len sect_begin ((sect_begin + sect_len) % 2 ^ 64) in
    (masks, mask_at masks 0 == 0xff && mask_at masks (length masks - 1) == 0xff)

-- A mask is full exactly if all 8 bits were set.
mask_table :
    check_upto
      (λ s.
        check_upto
          (λ k.
            if leb (s + k) 8
            then if set_bits k s 0 == 0xff
              then s == 0 && k == 8
              else if s == 0
              then ltb k 8
              else true
            else true)
          9)
      8
    ≡ true
unfolding check_upto set_bits
mask_table = refl

mask_full : (s k : ℕ) → s < 8 → s + k ≤ 8 → (set_bits k s 0 == 0xff) ≡ (s == 0 && k == 8)
mask_full s k hs hk =
    let h = check_upto_sound _ 9 k (omega arith) (check_upto_sound _ 8 s hs mask_table) in
    ground (arith, h)

-- Whether the sectors from s to e cover the block.
abbrev pub covers : ℕ → ℕ → ℕ → Bool
covers s e lb = leb s (lb * 8) && leb (lb * 8 + 8) e

module _ (e : ℕ) (small : e + 8 ≤ 2 ^ 64) where
  -- How far a round goes.
  abbrev stop_at : ℕ → ℕ
  stop_at s = if leb e (s + (8 - s % 8)) then e else s + (8 - s % 8)

  mask_loop_next :
      (fuel s : ℕ)
      → s < e
      → mask_loop (suc fuel) s e ≡ set_bits (stop_at s - s) (s % 8) 0 ∷ mask_loop fuel (stop_at s) e
  unfolding mask_loop
  mask_loop_next fuel s lt = elim (Bool-cases (leb e (s + (8 - s % 8)))) [
    | inl last ↦
        let a : (s + (8 - s % 8)) % 2 ^ 64 ≡ s + (8 - s % 8) = omega (arith, small, lt) in
        let b : (s + (e - s)) % 2 ^ 64 ≡ e = omega (arith, small, lt) in
        let c : ltb s e ≡ true = ground (arith, lt) in simp (a, last, b, c)
    | inr more ↦
        let a : (s + (8 - s % 8)) % 2 ^ 64 ≡ s + (8 - s % 8) = omega (arith, small, lt) in
        let d : s + (8 - s % 8) - s ≡ 8 - s % 8 = omega arith in
        let c : ltb s e ≡ true = ground (arith, lt) in simp (a, more, d, c)
  ]

  mask_loop_end : (fuel : ℕ) → mask_loop fuel e e ≡ []
  unfolding mask_loop
  mask_loop_end zero = refl
  mask_loop_end (suc fuel) = ground arith

  -- From s on, each block that some sector from s to e lies in has a mask, which is full exactly if
  -- all its sectors do.
  abbrev Covered : ℕ → List ℕ → Type 0
  Covered s masks =
      (length masks ≡ (e - 1) / 8 - s / 8 + 1)
      × ((i m : ℕ) → get_elem? masks i ≡ some m → (m == 0xff) ≡ covers s e (s / 8 + i))

  first_full :
      (s : ℕ) → s < e → (set_bits (stop_at s - s) (s % 8) 0 == 0xff) ≡ covers s e (s / 8 + 0)
  first_full s lt = ground (arith, mask_full (s % 8) (stop_at s - s) (omega arith) (ground arith))

  Covered-last :
      (s m : ℕ)
      → s < e
      → e ≤ s + (8 - s % 8)
      → (m == 0xff) ≡ covers s e (s / 8 + 0)
      → Covered s (m ∷ [])
  Covered-last s m lt last full = (
    omega (arith, lt, last),
    λ i.
        elim i
          as (λ i. (k : ℕ) → get_elem? (m ∷ []) i ≡ some k → (k == 0xff) ≡ covers s e (s / 8 + i)) [
            | zero ↦ λ k h. ground (arith, h, full)
            | suc j ↦ λ k h. cc
          ],
  )

  Covered-cons :
      (s m : ℕ) (rest : List ℕ)
      → s + (8 - s % 8) < e
      → (m == 0xff) ≡ covers s e (s / 8 + 0)
      → Covered (s + (8 - s % 8)) rest
      → Covered s (m ∷ rest)
  Covered-cons s m rest more full (len, at) = (
    omega (arith, len, more),
    λ i.
        elim i
          as (λ i.
            (k : ℕ) → get_elem? (m ∷ rest) i ≡ some k → (k == 0xff) ≡ covers s e (s / 8 + i)) [
              | zero ↦ λ k h. ground (arith, h, full)
              | suc j ↦ λ k h. ground (arith, at j k h)
            ],
  )

  mask_loop_lem : (fuel s : ℕ) → s < e → e - s ≤ fuel → Covered s (mask_loop fuel s e)
  mask_loop_lem zero s lt h = absurd (omega arith)
  mask_loop_lem (suc fuel) s lt h =
      rw (mask_loop_next fuel s lt) (elim (Bool-cases (leb e (s + (8 - s % 8)))) [
        | inl last ↦
            let stop : stop_at s ≡ e = rw last in
            subst (λ q. Covered s (set_bits (stop_at s - s) (s % 8) 0 ∷ q))
              (sym (ap (λ n. mask_loop fuel n e) stop ∙ mask_loop_end fuel))
              (Covered-last s _ lt (ground (arith, last)) (first_full s lt))
        | inr more ↦
            let stop : stop_at s ≡ s + (8 - s % 8) = rw more in
            let lt' : s + (8 - s % 8) < e = ground (arith, more) in
            subst (λ n. Covered s (set_bits (stop_at s - s) (s % 8) 0 ∷ mask_loop fuel n e))
              (sym stop)
              (Covered-cons s _ _ lt' (first_full s lt)
                (mask_loop_lem fuel (s + (8 - s % 8)) lt' (omega (arith, h))))
      ])

mask_at_found :
    (masks : List ℕ) (i : ℕ) → i < length masks → get_elem? masks i ≡ some (mask_at masks i)
unfolding mask_at
mask_at_found masks i h =
    let (m, found) = get_elem?_total masks i h in found ∙ ap some (sym (rw (found, mask_at)))

-- A request of 1 to 256 sectors that ends at least 8 sectors below 2^64 has one mask for each block
-- that one of its sectors lies in, no more than the 33 that the buffer holds; a block's mask is full
-- exactly if all its sectors are in the request; and the request is found to be aligned exactly if it
-- starts and ends at the border of a block.
pub set_lbalign_mask_lem :
    (sect_begin sect_len : ℕ)
    → 0 < sect_len
    → sect_len ≤ 256
    → sect_begin + sect_len + 8 ≤ 2 ^ 64
    → let (masks, aligned) = set_lbalign_mask sect_begin sect_len in
      let addr = init_ioaddr sect_begin sect_len in
      (length masks ≡ addr.lbid_len)
      × (length masks ≤ 33)
      × ((i : ℕ)
          → i < length masks
          → (mask_at masks i == 0xff)
            ≡ covers sect_begin (sect_begin + sect_len) (addr.lbid_start + i))
      × (aligned ≡ (sect_begin % 8 == 0 && (sect_begin + sect_len) % 8 == 0))
unfolding set_lbalign_mask init_ioaddr
set_lbalign_mask_lem b n pos few big =
    let wrap : (b + n) % 2 ^ 64 ≡ b + n = omega arith in
    rw wrap (
      let (len, at) = mask_loop_lem (b + n) big n b (omega arith) (omega arith) in
      let masks = mask_loop n b (b + n) in
      let full = λ (i : ℕ) (h : i < length masks). at i _ (mask_at_found masks i h) in
      (
        omega (arith, len),
        omega (arith, len),
        full,
        ground
            (arith, len, full 0 (omega (arith, len)), full (length masks - 1) (omega (arith, len))),
      ))
