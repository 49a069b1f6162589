-- ===== src/IoManager/Overlap.antt =====
-- BlockDeviceDriver2/io_manager/ioreq_ovlp.c: whether two ranges of logical blocks overlap, and
-- whether two requests have to be looked at at all.
use kt.Base.{
  ℕ, ◌+◌, ◌-◌, ◌%◌, ◌^◌, ◌≤◌, ◌<◌, ◌≡◌, ◌⊎◌, Option, none, some, arith, ltb, leb, ◌==◌,
  if◌then◌else◌,
}

-- The blocks of a `UserIO_addr_t`: a uint64_t and a uint32_t.
pub record UserIoAddr : Type 0 where
  pub lbid_start : ℕ
  pub lbid_len : ℕ

-- `IOR_ovlp_wait_t`, without IOR_Wait_NoOvlp.
pub data IorOvlpWait : Type 0 where
  payload_all_ovlp payload_partial_ovlp md_all_ovlp md_partial_ovlp : IorOvlpWait

-- The last block of a range, on a uint64_t.
abbrev pub last_lb : UserIoAddr → ℕ
last_lb a = (a.lbid_start + a.lbid_len + (2 ^ 64 - 1)) % 2 ^ 64

-- `chk_lb_ovlp`: the kind of overlap, `*ovlp_s` and `*ovlp_l`; `none` is IOR_Wait_NoOvlp, which
-- sets neither.
unfoldable pub chk_lb_ovlp : UserIoAddr → UserIoAddr → Option (IorOvlpWait × ℕ × ℕ)
chk_lb_ovlp ior_prev ior_next =
    let next_e = last_lb ior_next in
    let prev_e = last_lb ior_prev in
    if ltb next_e ior_prev.lbid_start
    then none
    else if ltb prev_e ior_next.lbid_start
    then none
    else if ltb ior_next.lbid_start ior_prev.lbid_start
    then some (
      payload_partial_ovlp,
      ior_prev.lbid_start,
      if leb prev_e next_e
          then ior_prev.lbid_len
          else (next_e + 2 ^ 64 - ior_prev.lbid_start + 1) % 2 ^ 32,
    )
    else if ior_prev.lbid_start == ior_next.lbid_start
    then if ltb prev_e next_e
      then some (payload_partial_ovlp, ior_prev.lbid_start, ior_prev.lbid_len)
      else some (payload_all_ovlp, ior_prev.lbid_start, ior_next.lbid_len)
    else some (
      payload_partial_ovlp,
      ior_next.lbid_start,
      if leb next_e prev_e
          then ior_next.lbid_len
          else (prev_e + 2 ^ 64 - ior_next.lbid_start + 1) % 2 ^ 32,
    )

-- A range that is not empty and does not pass the end of the address space.
pub record IsRange (a : UserIoAddr) : Type 0 where
  pub nonempty : 0 < a.lbid_len
  pub len32 : a.lbid_len < 2 ^ 32
  pub within : a.lbid_start + a.lbid_len ≤ 2 ^ 64

abbrev pub end_lb : UserIoAddr → ℕ
end_lb a = a.lbid_start + a.lbid_len

-- The ranges have no block in common.
abbrev pub Apart : UserIoAddr → UserIoAddr → Type 0
Apart a b = (end_lb a ≤ b.lbid_start) ⊎ (end_lb b ≤ a.lbid_start)

-- The blocks from s, l of them, are those that both ranges have.
pub record IsMeet (a b : UserIoAddr) (s l : ℕ) : Type 0 where
  pub some_lb : 0 < l
  pub from_first : a.lbid_start ≤ s
  pub from_second : b.lbid_start ≤ s
  pub to_first : s + l ≤ end_lb a
  pub to_second : s + l ≤ end_lb b
  pub starts : (s ≡ a.lbid_start) ⊎ (s ≡ b.lbid_start)
  pub ends : (s + l ≡ end_lb a) ⊎ (s + l ≡ end_lb b)

last_lb_lem : (a : UserIoAddr) → IsRange a → last_lb a + 1 ≡ end_lb a
last_lb_lem a h = omega (arith, h.nonempty, h.within)

-- What an answer of `chk_lb_ovlp` says of the two ranges.
abbrev pub Says : UserIoAddr → UserIoAddr → Option (IorOvlpWait × ℕ × ℕ) → Type 0
Says a b none = Apart a b
Says a b (some (t, s, l)) = IsMeet a b s l

-- Two ranges, neither empty nor past the end of the address space, are found not to overlap only
-- when they have no block in common, and otherwise the start and length reported are those of the
-- blocks that both have.
pub chk_lb_ovlp_exact : (a b : UserIoAddr) → IsRange a → IsRange b → Says a b (chk_lb_ovlp a b)
unfolding chk_lb_ovlp
chk_lb_ovlp_exact a b h k = ground (arith, last_lb_lem a h, last_lb_lem b k)
