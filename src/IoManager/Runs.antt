-- ===== src/IoManager/Runs.antt =====
-- The runs of alike blocks that a request is cut into (find_cont_len).
use kt.Base.{
  ℕ, zero, suc, ◌+◌, ◌-◌, ◌≤◌, ◌<◌, ◌≡◌, refl, sym, ap, ◌∙◌, inl, inr, true, false, arith, ◌==◌,
  Bool-cases, lt_or_le,
}
use kt.IoManager.Pool.{IoDir, kernel_io_write}
use kt.IoManager.Split.{
  LbaFea, init, fw_4kalign, fw_non4kalign, ovw_4kalign, ovw_non4kalign, end, is_non4kalign, is_ovw,
  fea_code, chk_max_len_alloc_md, cont_loop, find_cont_len,
}

fea_of_code : ℕ → LbaFea
fea_of_code zero = init
fea_of_code (suc zero) = fw_4kalign
fea_of_code (suc (suc zero)) = fw_non4kalign
fea_of_code (suc (suc (suc zero))) = ovw_4kalign
fea_of_code (suc (suc (suc (suc zero)))) = ovw_non4kalign
fea_of_code (suc (suc (suc (suc (suc n))))) = end

fea_of_code-fea_code : (a : LbaFea) → fea_of_code (fea_code a) ≡ a
unfolding fea_of_code
fea_of_code-fea_code init = refl
fea_of_code-fea_code _ = refl

fea_eq : (a b : LbaFea) → (fea_code a == fea_code b) ≡ true → a ≡ b
fea_eq a b h =
    sym (fea_of_code-fea_code a)
    ∙ ap fea_of_code (let e : fea_code a ≡ fea_code b = ground (arith, h) in e)
    ∙ fea_of_code-fea_code b

-- What is known of a run of r blocks that begins the group.
pub record IsRun (io_rw : IoDir) (group : ℕ → LbaFea) (len k r : ℕ) : Type 0 where
  pub from : len ≤ r
  pub upto : r ≤ len + k
  pub same : (j : ℕ) → j < r → group j ≡ group 0
  pub alone : is_non4kalign (group 0) ≡ true → r ≡ len
  pub short : io_rw ≡ kernel_io_write → is_ovw (group 0) ≡ false → len < 32 → r ≤ 32

same_next :
    (group : ℕ → LbaFea) (len : ℕ)
    → ((j : ℕ) → j < len → group j ≡ group 0)
    → group len ≡ group 0
    → (j : ℕ) → j < suc len
    → group j ≡ group 0
same_next group len h e j lt = elim (lt_or_le j len) [
  | inl before ↦ h j before
  | inr at ↦ let eq : j ≡ len = omega (arith, at, lt) in ap group eq ∙ e
]

chk_write :
    (io_rw : IoDir) (a : LbaFea) (len : ℕ)
    → io_rw ≡ kernel_io_write
    → is_ovw a ≡ false
    → chk_max_len_alloc_md io_rw a len ≡ false
    → len < 32
unfolding chk_max_len_alloc_md
chk_write io_rw a len e f h = ground (arith, e, f, h)

cont_loop_lem :
    (io_rw : IoDir) (group : ℕ → LbaFea) (k len : ℕ)
    → ((j : ℕ) → j < len → group j ≡ group 0)
    → IsRun io_rw group len k (cont_loop io_rw group k len)
unfolding cont_loop
cont_loop_lem io_rw group zero len h = record {
  from = omega arith;
  upto = omega arith;
  same = h;
  alone = λ e. refl;
  short = λ e f lt. omega arith;
}
cont_loop_lem io_rw group (suc k) len h = elim (Bool-cases (is_non4kalign (group 0))) [
  | inl non4k ↦ rw non4k (record {
    from = omega arith;
    upto = omega arith;
    same = h;
    alone = λ e. refl;
    short = λ e f lt. omega (arith, lt);
  })
  | inr is4k ↦ rw is4k (elim (Bool-cases (fea_code (group 0) == fea_code (group len))) [
    | inr differ ↦ rw differ (record {
      from = omega arith;
      upto = omega arith;
      same = h;
      alone = λ e. refl;
      short = λ e f lt. omega (arith, lt);
    })
    | inl alike ↦
        let e0 = sym (fea_eq (group 0) (group len) alike) in
        rw alike (elim (Bool-cases (chk_max_len_alloc_md io_rw (group len) (len + 1))) [
          | inl full ↦ rw full (record {
            from = omega arith;
            upto = omega arith;
            same = λ j lt. same_next group len h e0 j (omega (arith, lt));
            alone = λ e. cc;
            short = λ e f lt. omega (arith, lt);
          })
          | inr room ↦ rw room (
              let ih =
                cont_loop_lem io_rw group k (len + 1)
                  (λ j lt. same_next group len h e0 j (omega (arith, lt))) in
              record {
                from = omega (arith, ih.from);
                upto = omega (arith, ih.upto);
                same = ih.same;
                alone = λ e. cc;
                short = λ e f lt.
                    ih.short e f (chk_write io_rw (group len) (len + 1) e (ap is_ovw e0 ∙ f) room);
              })
        ])
  ])
]

pub find_cont_len_lem :
    (io_rw : IoDir) (group : ℕ → LbaFea) (max_len : ℕ)
    → IsRun io_rw group 1 (max_len - 1) (find_cont_len group max_len io_rw)
unfolding find_cont_len
find_cont_len_lem io_rw group max_len =
    cont_loop_lem io_rw group (max_len - 1) 1
      (λ j lt. let e : j ≡ 0 = omega (arith, lt) in ap group e)
