-- ===== src/IoManager/Stuck.antt =====
-- A write that waits for more blocks than its segments will answer.
use kt.Base.{
  ℕ, ◌-◌, ◌^◌, ◌≤◌, ◌<◌, ◌≡◌, ◌⊎◌, refl, inl, inr, Bool, some, List, [], ◌++◌, arith, All, All-set,
  All-get_elem?, get_elem?, set, ◌==◌, Bool-cases,
}
use kt.IoManager.ReqFsm
use kt.IoManager.SegFsm
use kt.IoManager.Answers.{SegReq, IoRequest, Effect}
use kt.IoManager.History.{
  Parts, for_user, for_mds, handle, answer, History, start, next, sum_of, sum_of-set, sum_of-le,
  submits, submits-append,
}
use kt.IoManager.MdsSteps.{mds_wait, io_more, seg_done, ci_user-IsApart}
use kt.IoManager.MdsReport.{open_mds}

-- A segment that writes, or has no blocks left for the metadata server.
pub record IsSegPast (s : SegReq) : Type 0 where
  pub some_lb : 0 < s.lbid_len
  pub within : s.ci_mds_remain_lb ≤ s.lbid_len
  pub short : s.lbid_len < 2 ^ 31
  pub phase : (s.ci_mds_remain_lb ≡ 0) ⊎ (s.io_seg_req_stat ≡ SegFsm.wud)

-- The request waits for more blocks than its segments will answer.
pub record IsStuck (es : List Effect) (q : Parts) : Type 0 where
  pub segs_ok : All IsSegPast q.segs
  pub more : sum_of open_mds q.segs < q.io.ci_mds_remain_lb
  pub small : q.io.ci_mds_remain_lb < 2 ^ 31
  pub busy : q.io.io_req_stat ≡ ReqFsm.rw_user_data
  pub unsent : submits es ≡ 0

level-IsStuck :
    {es : List Effect} {q : Parts} (i : ℕ) (s s' : SegReq) (r' : IoRequest) (new : List Effect)
    → IsStuck es q
    → get_elem? q.segs i ≡ some s
    → IsSegPast s'
    → open_mds s' ≡ open_mds s
    → r'.ci_mds_remain_lb ≡ q.io.ci_mds_remain_lb
    → r'.io_req_stat ≡ q.io.io_req_stat
    → submits new ≡ 0
    → IsStuck (new ++ es) (record { io = r'; segs = set q.segs i s' })
level-IsStuck {es} {q} i s s' r' new k e ok opens rem stat quiet =
    let sum = sum_of-set open_mds q.segs i s s' e in
    let more_lem = submits-append new es in
    record {
      segs_ok = All-set IsSegPast q.segs i s' k.segs_ok ok;
      more = omega (arith, k.more, sum, opens, rem);
      small = omega (arith, k.small, rem);
      busy = ground (arith, k.busy, stat);
      unsent = ground (arith, k.unsent, more_lem, quiet);
    }

done-IsStuck :
    {es : List Effect} {q : Parts} (i : ℕ) (s : SegReq) (n : ℕ)
    → IsStuck es q
    → get_elem? q.segs i ≡ some s
    → 0 < n
    → n ≡ s.ci_mds_remain_lb
    → IsStuck ((handle s q.io (for_mds n)).2 ++ es) (answer q i s (for_mds n))
unfolding handle answer
done-IsStuck {es} {q} i s n k e pos last =
    let ok = All-get_elem? IsSegPast q.segs i k.segs_ok e in
    let s' = record s { ci_mds_remain_lb = 0; io_seg_req_stat = SegFsm.ci2ior } in
    let wud : s.io_seg_req_stat ≡ SegFsm.wud = elim ok.phase [
      | inl none_left ↦ absurd (omega (arith, none_left, pos, last))
      | inr w ↦ w
    ] in
    let opens : open_mds s ≡ s.lbid_len = ground (arith, pos, last) in
    let sum = sum_of-set open_mds q.segs i s s' e in
    let lt : s.lbid_len < q.io.ci_mds_remain_lb =
      omega (arith, k.more, opens, sum_of-le open_mds q.segs i s e) in
    rw (seg_done s q.io n last (omega (arith, ok.within, ok.short)) wud) (
      rw (io_more q.io s.lbid_len k.busy lt k.small) (record {
        segs_ok = All-set IsSegPast q.segs i s' k.segs_ok (record {
          some_lb = ok.some_lb;
          within = omega arith;
          short = ok.short;
          phase = inl refl;
        });
        more = omega (arith, k.more, sum, opens, lt);
        small = omega (arith, k.small);
        busy = k.busy;
        unsent = k.unsent;
      }))

pub stuck :
    {p : Parts} {rs : List Bool} {es : List Effect} {q : Parts}
    → IsStuck [] p
    → History p rs es q
    → IsStuck es q
unfolding handle answer
stuck {p} st start = st
stuck st (next {q = q} i s (for_user n res) h e due) =
    let k = stuck st h in
    let ok = All-get_elem? IsSegPast q.segs i k.segs_ok e in
    let a = ci_user-IsApart s q.io n res in
    level-IsStuck i s _ _ _ k e
      (record {
        some_lb = omega (arith, ok.some_lb, a.seg_len);
        within = omega (arith, ok.within, a.seg_len, a.seg_remain);
        short = omega (arith, ok.short, a.seg_len);
        phase = ground (arith, ok.phase, a.seg_stat, a.seg_remain);
      })
      (ground (arith, a.seg_remain, a.seg_len)) a.io_remain a.io_stat a.unsent
stuck st (next {q = q} i s (for_mds n) h e (pos, le)) =
    let k = stuck st h in
    let ok = All-get_elem? IsSegPast q.segs i k.segs_ok e in
    elim (Bool-cases (n == s.ci_mds_remain_lb)) [
      | inl last ↦ done-IsStuck i s n k e pos (ground (arith, last))
      | inr more ↦
          let lt : n < s.ci_mds_remain_lb = ground (arith, more, le) in
          rw (mds_wait s q.io n ok.within ok.short lt) (
            level-IsStuck i s (record s { ci_mds_remain_lb = s.ci_mds_remain_lb - n }) q.io [] k e
              (record {
                some_lb = ok.some_lb;
                within = omega (arith, ok.within, lt);
                short = ok.short;
                phase = ground (arith, ok.phase, lt);
              })
              (ground (arith, lt)) refl refl refl)
    ]
