-- ===== src/IoManager/UserKept.antt =====
-- What holds of a write and its segments between the answers, and when it starts.
use kt.Base.{
  ℕ, ◌+◌, ◌^◌, ◌<◌, ◌≡◌, refl, sym, ◌∙◌, Bool, true, false, ◌&&◌, some, List, [], ◌∷◌, ◌++◌, arith,
  All, All-set, All-get_elem?, get_elem?, set, ◌==◌, if◌then◌else◌,
}
use kt.IoManager.Answers.{SegReq, IoRequest, DmsRq, Effect}
use kt.IoManager.History.{
  Parts, sum_of, all_of, conj, sum_of-set, all_of-set, user_effects, user_effects-append,
  last_words, AreHeld,
}
use kt.IoManager.SegSteps.{IsSegOk, IsAside}

-- The blocks of a segment that is not yet committed to its request.
abbrev pub open_lb : SegReq → ℕ
open_lb s = if s.ci_user_remain_lb == 0 then 0 else s.lbid_len

abbrev pub closed_ok : SegReq → Bool
closed_ok s = if s.ci_user_remain_lb == 0 then s.ci_user_result else true

abbrev pub seg_ok : SegReq → Bool
seg_ok s = s.ci_user_result

abbrev pub user_left : SegReq → ℕ
user_left s = s.ci_user_remain_lb

pub record IsKept (rqs : List DmsRq) (rs : List Bool) (es : List Effect) (q : Parts) : Type 0 where
  pub segs_ok : All IsSegOk q.segs
  pub remain : q.io.ci_user_remain_lb ≡ sum_of open_lb q.segs
  pub small : sum_of open_lb q.segs < 2 ^ 31
  pub told : q.io.fea_ci_user ≡ (sum_of open_lb q.segs == 0)
  pub result : q.io.io_result ≡ all_of closed_ok q.segs
  pub results : conj rs ≡ all_of seg_ok q.segs
  pub whole : q.io.rqs ≡ (if sum_of open_lb q.segs == 0 then [] else rqs)
  pub log : user_effects es ≡ (if sum_of open_lb q.segs == 0 then last_words (conj rs) rqs else [])

-- A write as it starts: nothing is answered yet.
abbrev pub IsStartSeg : SegReq → Type 0
IsStartSeg s =
    (0 < s.lbid_len)
    × (s.lbid_len < 2 ^ 31)
    × (s.ci_user_remain_lb ≡ s.lbid_len)
    × (s.ci_user_result ≡ true)
    × (s.fea_ci_user ≡ false)

abbrev pub lbs : SegReq → ℕ
lbs s = s.lbid_len

pub record IsStart (p : Parts) : Type 0 where
  pub segs_new : All IsStartSeg p.segs
  pub some_lb : 0 < sum_of lbs p.segs
  pub small : sum_of lbs p.segs < 2 ^ 31
  pub remain : p.io.ci_user_remain_lb ≡ sum_of lbs p.segs
  pub untold : p.io.fea_ci_user ≡ false
  pub good : p.io.io_result ≡ true
  pub held : AreHeld p.io.rqs

pub start_sums :
    (ss : List SegReq)
    → All IsStartSeg ss
    → (sum_of open_lb ss ≡ sum_of lbs ss)
      × (all_of closed_ok ss ≡ true)
      × (all_of seg_ok ss ≡ true)
      × All IsSegOk ss
start_sums [] h = (refl, refl, refl, tt)
start_sums (s ∷ ss) (n, h) =
    let (a, b, c, d) = start_sums ss h in
    (
      ground (arith, n, a),
      ground (arith, n, b),
      ground (arith, n, c),
      (
        record {
          some_lb = n.0;
          within = omega (arith, n.2);
          short = n.1;
          told = ground (arith, n);
        },
        d,
      ),
    )

pub start-IsKept : (p : Parts) → IsStart p → IsKept p.io.rqs [] [] p
start-IsKept p st =
    let (a, b, c, d) = start_sums p.segs st.segs_new in
    record {
      segs_ok = d;
      remain = omega (arith, st.remain, a);
      small = omega (arith, st.small, a);
      told = ground (arith, st.untold, st.some_lb, a);
      result = st.good ∙ sym b;
      results = sym c;
      whole = ground (arith, st.some_lb, a);
      log = ground (arith, st.some_lb, a);
    }

-- Once nothing is open, the results that count are all results.
pub closed_results :
    (ss : List SegReq)
    → All IsSegOk ss
    → sum_of open_lb ss ≡ 0
    → all_of closed_ok ss ≡ all_of seg_ok ss
closed_results [] h e = refl
closed_results (s ∷ ss) (k, h) e =
    let rest = closed_results ss h (omega (arith, e)) in ground (arith, rest, e, k.some_lb)

pub left_open :
    (ss : List SegReq) → All IsSegOk ss → (sum_of user_left ss == 0) ≡ (sum_of open_lb ss == 0)
left_open [] h = refl
left_open (s ∷ ss) (k, h) = ground (arith, left_open ss h, k.some_lb)

pub aside-IsKept :
    {rqs : List DmsRq} {rs : List Bool} {es : List Effect} {q : Parts} (i : ℕ) (s s' : SegReq)
    (r' : IoRequest) (more : List Effect)
    → IsKept rqs rs es q
    → get_elem? q.segs i ≡ some s
    → IsAside s q.io s' r' more
    → IsKept rqs rs (more ++ es) (record { io = r'; segs = set q.segs i s' })
aside-IsKept {rqs} {rs} {es} {q} i s s' r' more k e a =
    let ok = All-get_elem? IsSegOk q.segs i k.segs_ok e in
    let opens : open_lb s' ≡ open_lb s = ground (arith, a.seg_remain, a.seg_len) in
    let closes : closed_ok s' ≡ (true && closed_ok s) =
      ground (arith, a.seg_remain, a.seg_result) in
    let sum = sum_of-set open_lb q.segs i s s' e in
    let same : sum_of open_lb (set q.segs i s') ≡ sum_of open_lb q.segs =
      omega (arith, sum, opens) in
    record {
      segs_ok = All-set IsSegOk q.segs i s' k.segs_ok (record {
        some_lb = omega (arith, ok.some_lb, a.seg_len);
        within = omega (arith, ok.within, a.seg_len, a.seg_remain);
        short = omega (arith, ok.short, a.seg_len);
        told = ground (arith, ok.told, a.seg_told, a.seg_remain);
      });
      remain = omega (arith, k.remain, a.io_remain, same);
      small = omega (arith, k.small, same);
      told = ground (arith, k.told, a.io_told, same);
      result = a.io_res ∙ k.result ∙ sym (all_of-set closed_ok q.segs i s s' true e closes);
      results = k.results ∙ sym (all_of-set seg_ok q.segs i s s' true e a.seg_result);
      whole = ground (arith, a.io_rqs, k.whole, same);
      log =
          let more_lem = user_effects-append more es in
          ground (arith, more_lem, k.log, a.silent, same);
    }

-- What a segment is once all its blocks are answered for the user.
abbrev pub shut_seg : SegReq → Bool → SegReq
shut_seg s res = record s {
  ci_user_result = s.ci_user_result && res;
  ci_user_remain_lb = 0;
  fea_ci_user = true;
}

pub shut_segs :
    (ss : List SegReq) (i : ℕ) (s : SegReq) (res : Bool)
    → All IsSegOk ss
    → get_elem? ss i ≡ some s
    → 0 < s.ci_user_remain_lb
    → All IsSegOk (set ss i (shut_seg s res))
      × (sum_of open_lb (set ss i (shut_seg s res)) + s.lbid_len ≡ sum_of open_lb ss)
      × (all_of closed_ok (set ss i (shut_seg s res))
          ≡ (all_of closed_ok ss && (s.ci_user_result && res)))
      × (all_of seg_ok (set ss i (shut_seg s res)) ≡ (res && all_of seg_ok ss))
shut_segs ss i s res h e pos =
    let ok = All-get_elem? IsSegOk ss i h e in
    let s' = shut_seg s res in
    let opens : open_lb s ≡ s.lbid_len = ground (arith, pos) in
    let closes : closed_ok s' ≡ ((s.ci_user_result && res) && closed_ok s) = ground (arith, pos) in
    let oks : seg_ok s' ≡ (res && seg_ok s) = ground arith in
    let sum = sum_of-set open_lb ss i s s' e in
    let closed = all_of-set closed_ok ss i s s' (s.ci_user_result && res) e closes in
    (
      All-set IsSegOk ss i s' h
          (record { some_lb = ok.some_lb; within = omega arith; short = ok.short; told = refl }),
      omega (arith, sum, opens),
      ground (arith, closed),
      all_of-set seg_ok ss i s s' res e oks,
    )
