-- ===== src/Work/Choose.antt =====
-- What `choose_work` and `choose_ep` choose.
use wfey.Prelude.{
  ℕ, zero, suc, ◌+◌, ◌≤◌, ◌<◌, ◌≡◌, ◌⊎◌, refl, Bool, some, arith, ltb, min, if◌then◌else◌,
}
use wfey.Prelude.Int.{ℤ, pos, negsuc, eqb_ℤ}
use wfey.Work.{mem_work, compwork, memwork, nullwork, work_translate, choose_work}

-- The number of `x` below `n` that a test accepts.
pub count_below : ℕ → (ℕ → Bool) → ℕ
count_below zero t = 0
count_below (suc n) t = count_below n t + (if t n then 1 else 0)

count_below-ltb : (n p : ℕ) → count_below n (λ x. ltb x p) ≡ min n p
unfolding count_below
count_below-ltb zero p = omega arith
count_below-ltb (suc n) p = ground (arith, count_below-ltb n p)

count_below-eq :
    (n : ℕ) (t u : ℕ → Bool) → ((x : ℕ) → x < n → t x ≡ u x) → count_below n t ≡ count_below n u
unfolding count_below
count_below-eq zero t u h = refl
count_below-eq (suc n) t u h =
    ground (arith, count_below-eq n t u (λ x lt. h x (omega arith)), h n (omega arith))

mem_iff : (p x : ℕ) → x < 100 → eqb_ℤ (choose_work (pos p) x) mem_work ≡ ltb x p
unfolding choose_work
mem_iff p x h = ground arith

-- For a percentage `p` up to 100, exactly `p` of the 100 residues of `rand()` choose the memory work.
mem_share : (p : ℕ) → p ≤ 100 → count_below 100 (λ x. eqb_ℤ (choose_work (pos p) x) mem_work) ≡ p
mem_share p h = omega (
  arith,
  count_below-eq 100 (λ x. eqb_ℤ (choose_work (pos p) x) mem_work) (λ x. ltb x p) (mem_iff p),
  count_below-ltb 100 p,
)

-- Whatever `-w` was given and `rand()` returned, the work chosen has a work function: the null work for -1,
-- else the memory or the computing work. So the exit of `work_translate` is not taken, and
-- the input and output work is never chosen.
choose_work-total :
    (work_perc : ℤ) (rand : ℕ)
    → ((work_perc ≡ negsuc 0) × (work_translate (choose_work work_perc rand) ≡ some nullwork))
      ⊎ (work_translate (choose_work work_perc rand) ≡ some memwork)
      ⊎ (work_translate (choose_work work_perc rand) ≡ some compwork)
unfolding choose_work work_translate
choose_work-total work_perc rand = ground arith
