-- ===== src/IoManager/UserCommit.antt =====
-- When a write is committed to the user.
use mathlib.Core.List.{append-nil}
use kt.Base.{
  ℕ, ◌-◌, ◌^◌, ◌<◌, ◌≡◌, ap, sym, ◌∙◌, inl, inr, Bool, true, false, ◌&&◌, some, List, [], ◌∷◌, ◌++◌,
  arith, All-set, All-get_elem?, get_elem?, set, ◌==◌, if◌then◌else◌, Bool-cases,
}
use kt.IoManager.Answers.{SegReq, DmsRq, Effect, commit_rqs}
use kt.IoManager.History.{
  Parts, for_user, for_mds, handle, answer, History, start, next, sum_of, conj, sum_of-set,
  sum_of-le, all_of-set, user_effects, user_effects-append, last_words, AreHeld,
}
use kt.IoManager.SegSteps.{
  IsSegOk, user_effects-commit_rqs, seg_wait, seg_shut, seg_shut_last, endfn-IsAside,
}
use kt.IoManager.UserKept.{
  open_lb, closed_ok, seg_ok, user_left, IsKept, IsStart, start-IsKept, closed_results, left_open,
  aside-IsKept, shut_seg, shut_segs,
}

wait-IsKept :
    {rqs : List DmsRq} {rs : List Bool} {es : List Effect} {q : Parts} (i : ℕ) (s : SegReq) (n : ℕ)
    (res : Bool)
    → IsKept rqs rs es q
    → get_elem? q.segs i ≡ some s
    → 0 < n
    → n < s.ci_user_remain_lb
    → IsKept rqs
        (res ∷ rs)
        ((handle s q.io (for_user n res)).2 ++ es)
        (answer q i s (for_user n res))
unfolding handle answer
wait-IsKept {rqs} {rs} {es} {q} i s n res k e pos lt =
    let ok = All-get_elem? IsSegOk q.segs i k.segs_ok e in
    rw (seg_wait s q.io n res ok lt) (
      let s' = record s {
        ci_user_result = s.ci_user_result && res;
        ci_user_remain_lb = s.ci_user_remain_lb - n;
      } in
      let opens : open_lb s' ≡ open_lb s = ground (arith, lt) in
      let closes : closed_ok s' ≡ (true && closed_ok s) = ground (arith, lt) in
      let oks : seg_ok s' ≡ (res && seg_ok s) = ground arith in
      let sum = sum_of-set open_lb q.segs i s s' e in
      let same : sum_of open_lb (set q.segs i s') ≡ sum_of open_lb q.segs =
        omega (arith, sum, opens) in
      let ands = all_of-set seg_ok q.segs i s s' res e oks in
      record {
        segs_ok = All-set IsSegOk q.segs i s' k.segs_ok (record {
          some_lb = ok.some_lb;
          within = omega (arith, ok.within, lt);
          short = ok.short;
          told = ground (arith, ok.told, lt);
        });
        remain = omega (arith, k.remain, same);
        small = omega (arith, k.small, same);
        told = ground (arith, k.told, same);
        result = k.result ∙ sym (all_of-set closed_ok q.segs i s s' true e closes);
        results = ap (λ b. res && b) k.results ∙ sym ands;
        whole =
            let big = sum_of-le open_lb q.segs i s e in
            let opened : open_lb s ≡ s.lbid_len = ground (arith, lt) in
            ground (arith, k.whole, same, big, opened, ok.some_lb);
        log =
            let big = sum_of-le open_lb q.segs i s e in
            let opened : open_lb s ≡ s.lbid_len = ground (arith, lt) in
            ground (arith, k.log, same, big, opened, ok.some_lb);
      })

shut-IsKept :
    {rqs : List DmsRq} {rs : List Bool} {es : List Effect} {q : Parts} (i : ℕ) (s : SegReq) (n : ℕ)
    (res : Bool)
    → AreHeld rqs
    → IsKept rqs rs es q
    → get_elem? q.segs i ≡ some s
    → 0 < n
    → n ≡ s.ci_user_remain_lb
    → IsKept rqs
        (res ∷ rs)
        ((handle s q.io (for_user n res)).2 ++ es)
        (answer q i s (for_user n res))
unfolding handle answer
shut-IsKept {rqs} {rs} {es} {q} i s n res held k e pos same =
    let ok = All-get_elem? IsSegOk q.segs i k.segs_ok e in
    let left : 0 < s.ci_user_remain_lb = omega (arith, pos, same) in
    let untold : s.fea_ci_user ≡ false = ground (arith, ok.told, left) in
    let (segs', sum', closed', oks') = shut_segs q.segs i s res k.segs_ok e left in
    let rem : s.ci_user_remain_lb < 2 ^ 31 = omega (arith, ok.within, ok.short) in
    let io_rem : q.io.ci_user_remain_lb < 2 ^ 31 = omega (arith, k.small, k.remain) in
    let io_untold : q.io.fea_ci_user ≡ false = ground (arith, k.told, sum', ok.some_lb) in
    let whole : q.io.rqs ≡ rqs = ground (arith, k.whole, sum', ok.some_lb) in
    let unlogged : user_effects es ≡ [] = ground (arith, k.log, sum', ok.some_lb) in
    let res_lem = ap (λ b. res && b) k.results ∙ sym oks' in
    elim (Bool-cases (s.lbid_len == sum_of open_lb q.segs)) [
      | inr more ↦
          rw (seg_shut s q.io n res same rem untold (ground (arith, more, sum', k.remain)) io_rem)
            (record {
              segs_ok = segs';
              remain = omega (arith, sum', k.remain);
              small = omega (arith, sum', k.small);
              told = ground (arith, k.told, more, sum', io_untold);
              result = ground (arith, closed', k.result);
              results = res_lem;
              whole = ground (arith, whole, more, sum');
              log = ground (arith, unlogged, more, sum');
            })
      | inl last ↦
          rw
            (seg_shut_last s q.io n res same rem untold (ground (arith, last, k.remain)) io_rem
              io_untold)
            (let none_open : sum_of open_lb (set q.segs i (shut_seg s res)) ≡ 0 =
                ground (arith, last, sum') in
              record {
                segs_ok = segs';
                remain = omega (arith, none_open);
                small = omega (arith, none_open);
                told = ground (arith, none_open);
                result = ground (arith, closed', k.result);
                results = res_lem;
                whole = ground (arith, none_open);
                log =
                    let said : (q.io.io_result && (s.ci_user_result && res)) ≡ (res && conj rs) =
                      ap (λ b. b && (s.ci_user_result && res)) k.result
                      ∙ sym closed'
                      ∙ closed_results _ segs' none_open
                      ∙ sym res_lem in
                    let calls = q.io.io_result && (s.ci_user_result && res) in
                    let words : user_effects (commit_rqs q.io.rqs calls) ≡ last_words calls rqs =
                      ap (λ l. user_effects (commit_rqs l calls)) whole
                      ∙ user_effects-commit_rqs rqs calls held in
                    let rest = user_effects-append (commit_rqs q.io.rqs calls) es in
                    let alone = append-nil (last_words calls rqs) in
                    let all = ap (λ b. last_words b rqs) said in
                    ground (arith, none_open, words, rest, unlogged, alone, all);
              })
    ]

kept :
    {p : Parts} {rs : List Bool} {es : List Effect} {q : Parts}
    → IsStart p
    → History p rs es q
    → IsKept p.io.rqs rs es q
unfolding handle answer
kept {p} st start = start-IsKept p st
kept st (next i s (for_user n res) h e (pos, le)) = elim (Bool-cases (n == s.ci_user_remain_lb)) [
  | inl last ↦ shut-IsKept i s n res st.held (kept st h) e pos (ground (arith, last))
  | inr more ↦ wait-IsKept i s n res (kept st h) e pos (ground (arith, more, le))
]
kept st (next {q = q} i s (for_mds n) h e due) =
    aside-IsKept i s _ _ _ (kept st h) e (endfn-IsAside s q.io n)

-- Let a write start with all its segments and itself unanswered, the counters at the blocks of the
-- segments, of which there are some and fewer than 2 ^ 31, and each of its requests of the block layer
-- held by at least one I/O request, by fewer than 2 ^ 31. Take any answers in any order, each for
-- blocks that are still due, and handled one after another, so that no two `&=` on a result overlap.
-- Then, when no segment has blocks left for the user, each of the requests of the block layer has been
-- told exactly once: it is ended with the conjunction of its own result and all the answers' if no
-- other I/O request holds it, and else keeps this conjunction and is held by one fewer. Before, none
-- has been told anything.
pub commits_lem :
    {p : Parts} {rs : List Bool} {es : List Effect} {q : Parts}
    → IsStart p
    → History p rs es q
    → user_effects es ≡ (if sum_of user_left q.segs == 0 then last_words (conj rs) p.io.rqs else [])
commits_lem {q = q} st h = let k = kept st h in ground (arith, k.log, left_open q.segs k.segs_ok)
