-- ===== src/Work/Mem.antt =====
-- `memwork` of wfey.c: fill an array of 2 MB with random bytes, then go through it in strides, WORK_COUNT times, with four
-- sums on 64 bits. A read out of the array is `none`; the bytes that the kernel delivers are an argument. The parts
-- under MEMCHECK are not compiled.
use wfey.Prelude.{
  ℕ, zero, suc, ◌+◌, ◌-◌, ◌*◌, ◌/◌, ◌%◌, ◌≤◌, ◌<◌, ◌≡◌, refl, true, false, Option, none, some, List,
  [], ◌∷◌, arith, ◌>>=?◌, ap, ◌∙◌, ltb, sum, map, ◌++◌, length, get_elem?, get_or,
  get_elem?-eq-get_or, lt→ltb,
}
use wfey.Clock.{word}
use wfey.Work.Transfer.{AllPositive, transfer_total}
use wfey.Work.Calls.{
  open_random, map_memory, unmap_memory, close_random, read, World, ok, Io, ok-bind, ◌>>◌, pure,
  sys, sys_unchecked, transfer,
}

abbrev pub stride : ℕ
stride = 11

-- DATA_SIZE, in bytes
abbrev pub arrsize : ℕ
arrsize = 2 * (1024 * 1024)

abbrev pub elems : ℕ
elems = arrsize / 8

abbrev pub limit : ℕ
limit = elems - stride * 4

pub record Acc : Type 0 where
  pub acc0 : ℕ
  pub acc1 : ℕ
  pub acc2 : ℕ
  pub acc3 : ℕ

-- The body of the loop over `j`.
unfoldable pub mem_step : List ℕ → ℕ → Acc → Option Acc
mem_step memarr j acc = get_elem? memarr j >>=? λ a0. get_elem? memarr (j + stride) >>=? λ a1.
    get_elem? memarr (j + stride * 2) >>=? λ a2. get_elem? memarr (j + stride * 3) >>=? λ a3.
    some (record {
      acc0 = (acc.acc0 + a0) % word;
      acc1 = (acc.acc1 + a1) % word;
      acc2 = (acc.acc2 + a2) % word;
      acc3 = (acc.acc3 + a3) % word;
    })

-- `for (uint64_t j = 0; j < limit; j += sx4)`, on fuel; `none` also if the fuel runs out. `j` is below
-- `limit` where `sx4` is added to it, so the sum cannot wrap.
pub mem_pass : List ℕ → ℕ → ℕ → Acc → Option Acc
mem_pass memarr zero j acc = none
mem_pass memarr (suc fuel) j acc = elim (ltb j limit) [
  | false ↦ some acc
  | true ↦ mem_step memarr j acc >>=? mem_pass memarr fuel (j + stride * 4)
]

-- The loop over `i`.
pub mem_rounds : List ℕ → ℕ → Acc → Option Acc
mem_rounds memarr zero acc = some acc
mem_rounds memarr (suc k) acc = mem_pass memarr limit 0 acc >>=? mem_rounds memarr k

abbrev pub acc_sum : Acc → ℕ
acc_sum a = (a.acc0 + a.acc1 + a.acc2 + a.acc3) % word

abbrev pub acc_start : Acc
acc_start = record { acc0 = 0; acc1 = 0; acc2 = 0; acc3 = 0 }

-- Behind the loop over `read`.
mem_rest : ℕ → List ℕ → Io (Option ℕ)
unfolding sys_unchecked
mem_rest rounds memarr = do
  sys_unchecked close_random
  sys_unchecked unmap_memory
  pure (mem_rounds memarr rounds acc_start >>=? λ a. some (acc_sum a))

-- The whole function: `rounds` is WORK_COUNT, and `memarr` what the bytes that were read make up.
unfoldable pub memwork : ℕ → List ℕ → Io (Option ℕ)
unfolding sys mem_rest
memwork rounds memarr = do
  sys open_random
  sys map_memory
  transfer read arrsize 0
  mem_rest rounds memarr

-- The sum of `m` members of the array, every eleventh from `j` on.
pub every : List ℕ → ℕ → ℕ → ℕ
every memarr j zero = 0
every memarr j (suc m) = get_or memarr j 0 + every memarr (j + stride) m

abbrev pub four_times : ℕ → ℕ
four_times zero = 0
four_times (suc n) = suc (suc (suc (suc (four_times n))))

every-four :
    (memarr : List ℕ) (j n : ℕ)
    → every memarr j (four_times (suc n))
      ≡ get_or memarr j 0
        + get_or memarr (j + 11) 0
        + get_or memarr (j + 22) 0
        + get_or memarr (j + 33) 0
        + every memarr (j + 44) (four_times n)
unfolding every
every-four memarr j n =
    let two : j + 11 + 11 ≡ j + 22 = omega arith in
    let three : j + 22 + 11 ≡ j + 33 = omega arith in
    let four : j + 33 + 11 ≡ j + 44 = omega arith in rw (two, three, four) (omega arith)

every_zero : (memarr : List ℕ) (j : ℕ) → every memarr j 0 ≡ 0
unfolding every
every_zero memarr j = refl

le→ltb_false : (a b : ℕ) → b ≤ a → ltb a b ≡ false
le→ltb_false a b h = ground arith

module _ (memarr : List ℕ) (whole : length memarr ≡ elems) where
  mem_step-total :
      (j : ℕ) (acc : Acc)
      → j < limit
      → (acc' : Acc) × (mem_step memarr j acc ≡ some acc')
        × (acc_sum acc'
            ≡ (acc_sum acc
                + (get_or memarr j 0
                    + get_or memarr (j + 11) 0
                    + get_or memarr (j + 22) 0
                    + get_or memarr (j + 33) 0))
              % word)
  unfolding mem_step
  mem_step-total j acc h = (
    record {
      acc0 = (acc.acc0 + get_or memarr j 0) % word;
      acc1 = (acc.acc1 + get_or memarr (j + 11) 0) % word;
      acc2 = (acc.acc2 + get_or memarr (j + 22) 0) % word;
      acc3 = (acc.acc3 + get_or memarr (j + 33) 0) % word;
    },
    rw
        (
          at j (omega arith),
          at (j + 11) (omega arith),
          at (j + 22) (omega arith),
          at (j + 33) (omega arith),
        )
        refl,
    omega arith,
  )
    where
      at : (i : ℕ) → i < elems → get_elem? memarr i ≡ some (get_or memarr i 0)
      at i lt = get_elem?-eq-get_or memarr i 0 (omega arith)

  mem_pass-total :
      (n fuel j : ℕ) (acc : Acc)
      → n < fuel
      → limit ≤ j + 44 * n
      → j + 44 * n < limit + 44
      → (acc' : Acc) × (mem_pass memarr fuel j acc ≡ some acc')
        × (acc_sum acc' ≡ (acc_sum acc + every memarr j (four_times n)) % word)
  unfolding mem_pass
  mem_pass-total n zero j acc h lo hi = absurd (omega arith)
  mem_pass-total zero (suc fuel) j acc h lo hi = (
    acc,
    rw (le→ltb_false j limit (omega arith), mem_pass) refl,
    omega (arith, every_zero memarr j),
  )
  mem_pass-total (suc n) (suc fuel) j acc h lo hi =
      let (a, e, sum) = mem_step-total j acc (omega arith) in
      let (b, f, total) =
        mem_pass-total n fuel (j + 44) a (omega arith) (omega arith) (omega arith) in
      (b, rw (lt→ltb j limit (omega arith), mem_pass, e) f, omega (arith, every-four memarr j n))

  -- A pass takes 5957 rounds of its loop.
  mem_pass-limit :
      (acc : Acc)
      → (acc' : Acc) × (mem_pass memarr limit 0 acc ≡ some acc')
        × (acc_sum acc' ≡ (acc_sum acc + every memarr 0 23828) % word)
  mem_pass-limit acc = mem_pass-total 5957 limit 0 acc (omega arith) (omega arith) (omega arith)

  mem_rounds-total :
      (k : ℕ) (acc : Acc)
      → (acc' : Acc) × (mem_rounds memarr k acc ≡ some acc')
        × (acc_sum acc' ≡ (acc_sum acc + k * every memarr 0 23828) % word)
  unfolding mem_rounds
  mem_rounds-total zero acc = (acc, refl, omega arith)
  mem_rounds-total (suc k) acc =
      let (a, e, total) = mem_pass-limit acc in
      let (b, f, rest) = mem_rounds-total k a in (b, rw e f, omega arith)

-- `memwork` with a kernel that opens the file, maps the memory and delivers DATA_SIZE bytes in any division into calls: whatever
-- `close` and `munmap` answer, it returns. It has read no member outside the array, and its result is `rounds` times the
-- sum of every eleventh of the array's members from the first on, 23828 of them, on 64 bits.
pub memwork-sum :
    (rounds : ℕ) (memarr : List ℕ) (fd address : ℕ) (chunks : List ℕ) (closed unmapped : Option ℕ)
    → length memarr ≡ elems
    → sum chunks ≡ arrsize
    → AllPositive chunks
    → (w : World) × (memwork rounds memarr (record {
      answers = some fd ∷ some address ∷ (map some chunks ++ (closed ∷ unmapped ∷ []));
      calls = [];
    })
        ≡ ok (some ((rounds * every memarr 0 23828) % word)) w)
unfolding memwork
memwork-sum rounds memarr fd address chunks closed unmapped whole all positive =
    let (calls, e) =
      transfer_total read chunks arrsize (closed ∷ unmapped ∷ []) (map_memory ∷ open_random ∷ [])
        all positive in
    let (a, f, total) = mem_rounds-total memarr whole rounds acc_start in
    let w : World = record { answers = []; calls = unmap_memory ∷ close_random ∷ calls } in
    (
      w,
      ok-bind (transfer read arrsize 0) (λ _. mem_rest rounds memarr) e
          ∙ rw f (ap (λ (x : ℕ). ok (some x) w) (omega arith)),
    )
