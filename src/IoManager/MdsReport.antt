-- ===== src/IoManager/MdsReport.antt =====
-- When a write goes on to report its metadata.
use kt.Base.{
  ℕ, ◌+◌, ◌-◌, ◌^◌, ◌<◌, ◌≡◌, refl, inl, inr, Bool, some, List, [], ◌∷◌, ◌++◌, arith, All, All-set,
  All-get_elem?, get_elem?, set, ◌==◌, if◌then◌else◌, Bool-cases,
}
use kt.IoManager.ReqFsm
use kt.IoManager.SegFsm
use kt.IoManager.Answers.{SegReq, IoRequest, Effect}
use kt.IoManager.History.{
  Parts, for_user, for_mds, handle, answer, History, start, next, sum_of, sum_of-set, submits,
  submits-append,
}
use kt.IoManager.MdsSteps.{IsSegRun, mds_wait, io_more, io_last, seg_done, ci_user-IsApart}
use kt.IoManager.UserKept.{lbs}

-- The blocks of a segment that has not yet answered its request.
abbrev pub open_mds : SegReq → ℕ
open_mds s = if s.ci_mds_remain_lb == 0 then 0 else s.lbid_len

abbrev pub mds_left : SegReq → ℕ
mds_left s = s.ci_mds_remain_lb

record IsRun (es : List Effect) (q : Parts) : Type 0 where
  segs_ok : All IsSegRun q.segs
  remain : q.io.ci_mds_remain_lb ≡ sum_of open_mds q.segs
  small : sum_of open_mds q.segs < 2 ^ 31
  phase :
      q.io.io_req_stat
      ≡ (if sum_of open_mds q.segs == 0 then ReqFsm.State.report_md else ReqFsm.rw_user_data)
  sent : submits es ≡ (if sum_of open_mds q.segs == 0 then 1 else 0)

-- A segment that starts to write.
abbrev pub IsWriting : SegReq → Type 0
IsWriting s =
    (0 < s.lbid_len)
    × (s.lbid_len < 2 ^ 31)
    × (s.ci_mds_remain_lb ≡ s.lbid_len)
    × (s.io_seg_req_stat ≡ SegFsm.wud)

pub record IsBegun (p : Parts) : Type 0 where
  pub segs_new : All IsWriting p.segs
  pub some_lb : 0 < sum_of lbs p.segs
  pub small : sum_of lbs p.segs < 2 ^ 31
  pub remain : p.io.ci_mds_remain_lb ≡ sum_of lbs p.segs
  pub phase : p.io.io_req_stat ≡ ReqFsm.rw_user_data

begun_sums :
    (ss : List SegReq) → All IsWriting ss → (sum_of open_mds ss ≡ sum_of lbs ss) × All IsSegRun ss
begun_sums [] h = (refl, tt)
begun_sums (s ∷ ss) (n, h) =
    let (a, d) = begun_sums ss h in
    (
      ground (arith, n, a),
      (
        record {
          some_lb = n.0;
          within = omega (arith, n.2);
          short = n.1;
          phase = ground (arith, n);
        },
        d,
      ),
    )

begun-IsRun : (p : Parts) → IsBegun p → IsRun [] p
begun-IsRun p st =
    let (a, d) = begun_sums p.segs st.segs_new in
    record {
      segs_ok = d;
      remain = omega (arith, st.remain, a);
      small = omega (arith, st.small, a);
      phase = ground (arith, st.phase, st.some_lb, a);
      sent = ground (arith, st.some_lb, a);
    }

mds_left_open :
    (ss : List SegReq) → All IsSegRun ss → (sum_of mds_left ss == 0) ≡ (sum_of open_mds ss == 0)
mds_left_open [] h = refl
mds_left_open (s ∷ ss) (k, h) = ground (arith, mds_left_open ss h, k.some_lb)

-- A step after which the segment is as open as before.
level-IsRun :
    {es : List Effect} {q : Parts} (i : ℕ) (s s' : SegReq) (r' : IoRequest) (more : List Effect)
    → IsRun es q
    → get_elem? q.segs i ≡ some s
    → IsSegRun s'
    → open_mds s' ≡ open_mds s
    → r'.ci_mds_remain_lb ≡ q.io.ci_mds_remain_lb
    → r'.io_req_stat ≡ q.io.io_req_stat
    → submits more ≡ 0
    → IsRun (more ++ es) (record { io = r'; segs = set q.segs i s' })
level-IsRun {es} {q} i s s' r' more k e ok opens rem stat quiet =
    let sum = sum_of-set open_mds q.segs i s s' e in
    let same : sum_of open_mds (set q.segs i s') ≡ sum_of open_mds q.segs =
      omega (arith, sum, opens) in
    let more_lem = submits-append more es in
    record {
      segs_ok = All-set IsSegRun q.segs i s' k.segs_ok ok;
      remain = omega (arith, k.remain, rem, same);
      small = omega (arith, k.small, same);
      phase = ground (arith, k.phase, stat, same);
      sent = ground (arith, k.sent, more_lem, quiet, same);
    }

done-IsRun :
    {es : List Effect} {q : Parts} (i : ℕ) (s : SegReq) (n : ℕ)
    → IsRun es q
    → get_elem? q.segs i ≡ some s
    → 0 < n
    → n ≡ s.ci_mds_remain_lb
    → IsRun ((handle s q.io (for_mds n)).2 ++ es) (answer q i s (for_mds n))
unfolding handle answer
done-IsRun {es} {q} i s n k e pos last =
    let ok = All-get_elem? IsSegRun q.segs i k.segs_ok e in
    let s' = record s { ci_mds_remain_lb = 0; io_seg_req_stat = SegFsm.ci2ior } in
    let wud : s.io_seg_req_stat ≡ SegFsm.wud = ground (arith, ok.phase, pos, last) in
    let opens : open_mds s ≡ s.lbid_len = ground (arith, pos, last) in
    let sum = sum_of-set open_mds q.segs i s s' e in
    let sum' : sum_of open_mds (set q.segs i s') + s.lbid_len ≡ sum_of open_mds q.segs =
      omega (arith, sum, opens) in
    let segs' =
      All-set IsSegRun q.segs i s' k.segs_ok
        (record { some_lb = ok.some_lb; within = omega arith; short = ok.short; phase = refl }) in
    let busy : q.io.io_req_stat ≡ ReqFsm.rw_user_data = ground (arith, k.phase, sum', ok.some_lb) in
    let unsent : submits es ≡ 0 = ground (arith, k.sent, sum', ok.some_lb) in
    let small : q.io.ci_mds_remain_lb < 2 ^ 31 = omega (arith, k.remain, k.small) in
    rw (seg_done s q.io n last (omega (arith, ok.within, ok.short)) wud)
      (elim (Bool-cases (s.lbid_len == sum_of open_mds q.segs)) [
        | inr more ↦
            rw (io_more q.io s.lbid_len busy (ground (arith, more, sum', k.remain)) small) (record {
              segs_ok = segs';
              remain = omega (arith, sum', k.remain);
              small = omega (arith, sum', k.small);
              phase = ground (arith, busy, more, sum');
              sent = ground (arith, unsent, more, sum');
            })
        | inl none_left ↦
            rw (io_last q.io s.lbid_len busy (ground (arith, none_left, k.remain)) small) (
              let closed : sum_of open_mds (set q.segs i s') ≡ 0 =
                ground (arith, none_left, sum') in
              record {
                segs_ok = segs';
                remain = omega (arith, closed);
                small = omega (arith, closed);
                phase = ground (arith, closed);
                sent = ground (arith, unsent, closed);
              })
      ])

running :
    {p : Parts} {rs : List Bool} {es : List Effect} {q : Parts}
    → IsBegun p
    → History p rs es q
    → IsRun es q
unfolding handle answer
running {p} st start = begun-IsRun p st
running st (next {q = q} i s (for_user n res) h e due) =
    let k = running st h in
    let ok = All-get_elem? IsSegRun q.segs i k.segs_ok e in
    let a = ci_user-IsApart s q.io n res in
    level-IsRun i s _ _ _ k e
      (record {
        some_lb = omega (arith, ok.some_lb, a.seg_len);
        within = omega (arith, ok.within, a.seg_len, a.seg_remain);
        short = omega (arith, ok.short, a.seg_len);
        phase = ground (arith, ok.phase, a.seg_stat, a.seg_remain);
      })
      (ground (arith, a.seg_remain, a.seg_len)) a.io_remain a.io_stat a.unsent
running st (next {q = q} i s (for_mds n) h e (pos, le)) =
    let k = running st h in
    let ok = All-get_elem? IsSegRun q.segs i k.segs_ok e in
    elim (Bool-cases (n == s.ci_mds_remain_lb)) [
      | inl last ↦ done-IsRun i s n k e pos (ground (arith, last))
      | inr more ↦
          let lt : n < s.ci_mds_remain_lb = ground (arith, more, le) in
          rw (mds_wait s q.io n ok.within ok.short lt) (
            level-IsRun i s (record s { ci_mds_remain_lb = s.ci_mds_remain_lb - n }) q.io [] k e
              (record {
                some_lb = ok.some_lb;
                within = omega (arith, ok.within, lt);
                short = ok.short;
                phase = ground (arith, ok.phase, lt);
              })
              (ground (arith, lt)) refl refl refl)
    ]

-- Let a write start in the phase of user data with all its segments writing and unanswered, the
-- counters at the blocks of the segments, of which there are some and fewer than 2 ^ 31. Then after
-- any answers, in any order, each for blocks that are still due, the request is in the phase that
-- reports metadata and has been sent on exactly once when no segment has blocks left for the metadata
-- server, and before that it is in the phase of user data and has not been sent on.
pub submits_lem :
    {p : Parts} {rs : List Bool} {es : List Effect} {q : Parts}
    → IsBegun p
    → History p rs es q
    → (submits es ≡ (if sum_of mds_left q.segs == 0 then 1 else 0))
      × (q.io.io_req_stat
          ≡ (if sum_of mds_left q.segs == 0 then ReqFsm.State.report_md else ReqFsm.rw_user_data))
submits_lem {q = q} st h =
    let k = running st h in
    let left = mds_left_open q.segs k.segs_ok in
    (ground (arith, k.sent, left), ground (arith, k.phase, left))
