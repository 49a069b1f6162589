-- ===== src/IoManager/Walk.antt =====
-- What the walk for overlapping requests finds, where the memory for its items can be had.
use mathlib.Core.Path.{subst, sym}
use kt.Base.{
  ℕ, ◌≤◌, ◌<◌, ◌≡◌, ◌≢◌, ◌⊎◌, inl, inr, refl, if◌then◌else◌, Bool, true, false, ◌&&◌, Option, none,
  some, List, [], ◌∷◌, arith, length, All, count_if, ◌==◌,
}
use kt.IoManager.Overlap.{IorOvlpWait, IsRange, Apart, Says, chk_lb_ovlp, chk_lb_ovlp_exact}
use kt.IoManager.Pool.{IoReq, OvlpItem, Walk, no_ovlp, ovlp, chk_io_rw, gen_item, visit, chk_ovlp}

-- The two requests may run side by side: both read, or they have no block in common.
abbrev pub Calm : IoReq → IoReq → Type 0
Calm a b = (chk_io_rw a.iodir b.iodir ≡ true) ⊎ Apart a.usr_io_addr b.usr_io_addr

-- How many items make a request of that id wait, and make it wait for another.
abbrev pub waits : ℕ → List OvlpItem → ℕ
waits n items = count_if (λ x. x.wait_ior == n) items

abbrev pub waits_for : ℕ → ℕ → List OvlpItem → ℕ
waits_for n m items = count_if (λ x. x.wait_ior == n && x.process_ior == m) items

-- The state of the walk of r when it was never left.
pub record IsFound (r : IoReq) (w : Walk) : Type 0 where
  pub going : w.stop ≡ false
  pub kind : ((w.found ≡ []) × (w.ret ≡ no_ovlp)) ⊎ ((w.ret ≡ ovlp) × (0 < length w.found))
  pub own : waits r.io_req_id w.found ≡ length w.found
  pub others : (n : ℕ) → n ≢ r.io_req_id → waits n w.found ≡ 0

-- One step of the walk past c, from w to v.
record IsPast (c r : IoReq) (w v : Walk) : Type 0 where
  is_found : IsFound r v
  here : Calm c r ⊎ (0 < waits_for r.io_req_id c.io_req_id v.found)
  more : (m : ℕ) → waits_for r.io_req_id m w.found ≤ waits_for r.io_req_id m v.found

-- A request that must wait, or need not, for each of the list.
abbrev pub Served : IoReq → List OvlpItem → List IoReq → Type 0
Served r items q = All (λ c. Calm c r ⊎ (0 < waits_for r.io_req_id c.io_req_id items)) q

pub Served-mono :
    (r : IoReq) (xs ys : List OvlpItem) (q : List IoReq)
    → ((m : ℕ) → waits_for r.io_req_id m xs ≤ waits_for r.io_req_id m ys)
    → Served r xs q
    → Served r ys q
Served-mono r xs ys [] le h = h
Served-mono r xs ys (c ∷ q) le h =
    (ground (arith, h.0, le c.io_req_id), Served-mono r xs ys q le h.1)

eqb-neq : (n m : ℕ) → n ≢ m → (n == m) ≡ false
eqb-neq n m h = ground arith

module _ (mem_alloc : ℕ → ℕ → Bool) (has_mem : (n m : ℕ) → mem_alloc n m ≡ true) where
  gen_item_lem :
      (c r : IoReq) (o : Option (IorOvlpWait × ℕ × ℕ)) (w : Walk)
      → Says c.usr_io_addr r.usr_io_addr o
      → IsFound r w
      → IsPast c r w (gen_item mem_alloc c r o w)
  unfolding gen_item
  gen_item_lem c r none w h f = record { is_found = f; here = inl (inr h); more = λ m. omega arith }
  gen_item_lem c r (some (t, s, l)) w h f = rw (has_mem c.io_req_id r.io_req_id) (record {
    is_found = record {
      going = f.going;
      kind = ground arith;
      own = ground (arith, f.own);
      others = λ n d. ground (arith, f.others n d);
    };
    here = ground arith;
    more = λ m. ground arith;
  })

  visit_new :
      (c r : IoReq) (w : Walk)
      → r.io_req_id ≢ c.io_req_id
      → w.stop ≡ false
      → visit mem_alloc c r w ≡ (
          if chk_io_rw c.iodir r.iodir
          then w
          else gen_item mem_alloc c r (chk_lb_ovlp c.usr_io_addr r.usr_io_addr) w)
  unfolding visit
  visit_new c r w new go = simp (go, eqb-neq r.io_req_id c.io_req_id new)

  choose_lem :
      (c r : IoReq) (w : Walk) (b : Bool)
      → chk_io_rw c.iodir r.iodir ≡ b
      → IsRange c.usr_io_addr
      → IsRange r.usr_io_addr
      → IsFound r w
      → IsPast c r w
          (if b then w else gen_item mem_alloc c r (chk_lb_ovlp c.usr_io_addr r.usr_io_addr) w)
  choose_lem c r w true calm h k f = record {
    is_found = f;
    here = inl (inl calm);
    more = λ m. omega arith;
  }
  choose_lem c r w false clash h k f =
      gen_item_lem c r (chk_lb_ovlp c.usr_io_addr r.usr_io_addr) w (chk_lb_ovlp_exact _ _ h k) f

  visit_lem :
      (c r : IoReq) (w : Walk)
      → IsRange c.usr_io_addr
      → IsRange r.usr_io_addr
      → r.io_req_id ≢ c.io_req_id
      → IsFound r w
      → IsPast c r w (visit mem_alloc c r w)
  visit_lem c r w h k new f =
      subst (λ v. IsPast c r w v) (sym (visit_new c r w new f.going))
        (choose_lem c r w _ refl h k f)

  pub chk_ovlp_lem :
      (q : List IoReq) (r : IoReq)
      → IsRange r.usr_io_addr
      → All (λ c. IsRange c.usr_io_addr × (r.io_req_id ≢ c.io_req_id)) q
      → let w = chk_ovlp mem_alloc q r in IsFound r w × Served r w.found q
  unfolding chk_ovlp
  chk_ovlp_lem [] r k h =
      (record { going = refl; kind = inl (refl, refl); own = refl; others = λ n d. refl }, tt)
  chk_ovlp_lem (c ∷ q) r k h =
      let (f, s) = chk_ovlp_lem q r k h.1 in
      let past = visit_lem c r (chk_ovlp mem_alloc q r) h.0.0 k h.0.1 f in
      (past.is_found, (past.here, Served-mono r _ _ q past.more s))
