-- ===== src/IoManager/Reports.antt =====
-- The reports of a request's metadata: ioReq_MDReport_endfn of discoC_IORequest.c, called for each
-- segment whose report is acknowledged.
use kt.Base.{
  ℕ, zero, suc, ◌-◌, ◌^◌, ◌<◌, ◌≡◌, inl, inr, List, [], ◌∷◌, ◌++◌, arith, leb, if◌then◌else◌,
  lt_or_le,
}
use kt.IoManager.ReqFsm
use kt.IoManager.Answers.{
  IoRequest, Effect, iorf_submit_request, atomic_sub_return, md_report_endfn,
}
use kt.IoManager.History.{submits}
use kt.IoManager.SegSteps.{sub_small}

-- The request after k calls, and the effects, the last first.
abbrev pub reports : ℕ → IoRequest → IoRequest × List Effect
reports zero r = (r, [])
reports (suc k) r =
    let (r', es) = reports k r in let (r'', more) = md_report_endfn r' in (r'', more ++ es)

record IsReporting (n k : ℕ) (r : IoRequest) (es : List Effect) : Type 0 where
  left : r.num_of_ci2nn ≡ n - k
  phase : r.io_req_stat ≡ (if leb n k then ReqFsm.State.self_healing else ReqFsm.State.report_md)
  sent : submits es ≡ (if leb n k then 1 else 0)

report_more :
    (r : IoRequest)
    → r.io_req_stat ≡ ReqFsm.State.report_md
    → 1 < r.num_of_ci2nn
    → r.num_of_ci2nn < 2 ^ 31
    → md_report_endfn r
      ≡ (record r { io_req_stat = ReqFsm.State.report_md; num_of_ci2nn = r.num_of_ci2nn - 1 }, [])
unfolding md_report_endfn ReqFsm.update_state ReqFsm.update_io_req_state_report_md
report_more r e lt small =
    let b = sub_small 1 r.num_of_ci2nn (omega (arith, lt)) small in ground (arith, b, e, lt)

report_last :
    (r : IoRequest)
    → r.io_req_stat ≡ ReqFsm.State.report_md
    → r.num_of_ci2nn ≡ 1
    → md_report_endfn r ≡ (
      record r { io_req_stat = ReqFsm.State.self_healing; num_of_ci2nn = 0 },
      iorf_submit_request ∷ [],
    )
unfolding md_report_endfn ReqFsm.update_state ReqFsm.update_io_req_state_report_md
report_last r e one =
    let b : atomic_sub_return 1 r.num_of_ci2nn ≡ 0 = omega (arith, one) in ground (arith, b, e)

report_late :
    (r : IoRequest)
    → r.io_req_stat ≡ ReqFsm.State.self_healing
    → md_report_endfn r ≡ (record r { io_req_stat = ReqFsm.State.self_healing }, [])
unfolding md_report_endfn ReqFsm.update_state ReqFsm.update_io_req_state_self_heal
report_late r e = ground (arith, e)

report_step :
    (n k : ℕ) (r : IoRequest) (es : List Effect)
    → n < 2 ^ 31
    → IsReporting n k r es
    → IsReporting n (suc k) (md_report_endfn r).0 ((md_report_endfn r).1 ++ es)
report_step n k r es small i = elim (lt_or_le k n) [
  | inr over ↦ rw (report_late r (ground (arith, i.phase, over))) (record {
    left = omega (arith, i.left, over);
    phase = ground (arith, over);
    sent = ground (arith, i.sent, over);
  })
  | inl before ↦
      let busy : r.io_req_stat ≡ ReqFsm.State.report_md = ground (arith, i.phase, before) in
      elim (lt_or_le (suc k) n) [
        | inl more ↦
            rw (report_more r busy (omega (arith, i.left, more)) (omega (arith, i.left, small)))
              (record {
                left = omega (arith, i.left);
                phase = ground (arith, more);
                sent = ground (arith, i.sent, more);
              })
        | inr last ↦ rw (report_last r busy (omega (arith, i.left, before, last))) (record {
          left = omega (arith, last);
          phase = ground (arith, last);
          sent = ground (arith, i.sent, before, last);
        })
      ]
]

reporting :
    (k n : ℕ) (r : IoRequest)
    → r.io_req_stat ≡ ReqFsm.State.report_md
    → r.num_of_ci2nn ≡ n
    → 0 < n
    → n < 2 ^ 31
    → IsReporting n k (reports k r).0 (reports k r).1
reporting zero n r e num pos small = record {
  left = omega (arith, num);
  phase = ground (arith, e, pos);
  sent = ground (arith, pos);
}
reporting (suc k) n r e num pos small =
    report_step n k (reports k r).0 (reports k r).1 small (reporting k n r e num pos small)

-- A request in the phase that reports metadata, which counts n reports, 0 < n < 2 ^ 31, is sent on once
-- and goes on to healing with the n-th report that ends, and neither before nor again after it,
-- however many reports end.
pub md_report_endfn_once :
    (k n : ℕ) (r : IoRequest)
    → r.io_req_stat ≡ ReqFsm.State.report_md
    → r.num_of_ci2nn ≡ n
    → 0 < n
    → n < 2 ^ 31
    → (submits (reports k r).1 ≡ (if leb n k then 1 else 0))
      × ((reports k r).0.io_req_stat
          ≡ (if leb n k then ReqFsm.State.self_healing else ReqFsm.State.report_md))
md_report_endfn_once k n r e num pos small =
    let i = reporting k n r e num pos small in (i.sent, i.phase)
