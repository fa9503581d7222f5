-- ===== src/Main/Cores.antt =====
-- The division of the cores among threads in `main` of wfey.c: the counter `cpuid`, the check of the number of threads,
-- the idle threads and the barrier at which sources, idle threads and `main` meet at the end.
use Prim.Native.Nat.add
use native.Mathlib.Nat.{zero-add, add-zero}
use mathlib.Core.Path.{subst}
use wfey.Prelude.{
  unless_eq-some, ◌↔◌, ℕ, zero, suc, ◌+◌, ◌-◌, ◌%◌, ◌^◌, ◌≤◌, ◌<◌, ◌≡◌, refl, sym, ◌∙◌, ap, Bool,
  false, Option, none, some, List, [], ◌∷◌, ◌++◌, arith, ltb, ◌==◌, length, if◌then◌else◌,
}
use wfey.Prelude.Int.{ℤ, pos, pos_part, to_u64, ◌+ℤ◌}
use wfey.Clock.{sub_64}

-- META_THREAD
abbrev pub meta_threads : ℕ
meta_threads = 1

-- RUNNER_CPU
abbrev pub runner_cpu : ℕ
runner_cpu = 0

-- The cores of `n` threads, numbered on from `cpuid`.
unfoldable pub take_cpus : ℕ → ℕ → List ℕ
take_cpus zero cpuid = []
take_cpus (suc n) cpuid = cpuid ∷ take_cpus n (cpuid + 1)

-- The cores that each kind of thread is pinned to, and the count with which `endbarrier` is initialised, if it is.
pub record Plan : Type 0 where
  pub ep_cpus : List ℕ
  pub source_cpus : List ℕ
  pub idle_cpus : List ℕ
  pub endbarrier : Option ℕ

abbrev pub threads : ℤ → ℤ → ℤ
threads num_processors num_sources = num_processors +ℤ num_sources

-- `(Num_Processors + Num_Sources) > (total_cpu - META_THREAD)`, compared as `uint64_t`
unfoldable pub too_many : ℤ → ℤ → ℕ → Bool
too_many num_processors num_sources total_cpu =
    ltb (sub_64 total_cpu meta_threads) (to_u64 (threads num_processors num_sources))

unfoldable pub num_idle : ℤ → ℤ → ℕ → ℕ
num_idle num_processors num_sources total_cpu =
    sub_64 total_cpu (to_u64 (threads num_processors num_sources +ℤ pos meta_threads))

-- The `if` over `pthread_barrier_init`, whose count is an `unsigned int`.
unfoldable pub init_endbarrier : ℤ → ℕ → Option ℕ
init_endbarrier num_sources idle =
    if idle == 0 then none else some ((idle + to_u64 num_sources + 1) % 2 ^ 32)

-- A loop from 0 to an `int` has as many rounds as its positive part. `none`: the program exits.
unfoldable pub plan_cores : ℤ → ℤ → ℕ → Option Plan
unfolding take_cpus
plan_cores num_processors num_sources total_cpu =
    let eps = pos_part num_processors in
    let srcs = pos_part num_sources in
    let source_end = 1 + eps + srcs in
    if too_many num_processors num_sources total_cpu
    then none
    else some (record {
      ep_cpus = take_cpus eps 1;
      source_cpus = take_cpus srcs (1 + eps);
      idle_cpus = take_cpus (total_cpu - source_end) source_end;
      endbarrier = init_endbarrier num_sources (num_idle num_processors num_sources total_cpu);
    })

take_cpus-append :
    (m n cpuid : ℕ) → take_cpus m cpuid ++ take_cpus n (cpuid + m) ≡ take_cpus (m + n) cpuid
unfolding take_cpus
take_cpus-append zero n cpuid = rw (zero-add, add-zero) refl
take_cpus-append (suc m) n cpuid =
    let next : cpuid + suc m ≡ cpuid + 1 + m = omega arith in
    rw (next, add.suc) (ap (λ l. cpuid ∷ l) (take_cpus-append m n (cpuid + 1)))

length-take_cpus : (n cpuid : ℕ) → length (take_cpus n cpuid) ≡ n
unfolding take_cpus
length-take_cpus zero cpuid = refl
length-take_cpus (suc n) cpuid = ap suc (length-take_cpus n (cpuid + 1))

take_cpus-cons : (n cpuid : ℕ) → 0 < n → cpuid ∷ take_cpus (n - 1) (cpuid + 1) ≡ take_cpus n cpuid
unfolding take_cpus
take_cpus-cons zero cpuid h = absurd (omega arith)
take_cpus-cons (suc n) cpuid h = let less : suc n - 1 ≡ n = omega arith in rw less refl

module _ (s total : ℕ) (hs : s < 2 ^ 31) (h : 0 < total) (ht : total < 2 ^ 31) where
  too_many-eq : too_many (pos 1) (pos s) total ≡ ltb total (s + 2)
  unfolding too_many
  too_many-eq = ground arith

  num_idle-eq : s + 2 ≤ total → num_idle (pos 1) (pos s) total ≡ total - (2 + s)
  unfolding num_idle
  num_idle-eq fits = ground arith

  -- What the program plans where it goes on.
  plan_cores-eq :
      (plan : Plan)
      → plan_cores (pos 1) (pos s) total ≡ some plan
      → (s + 2 ≤ total)
        × (record {
          ep_cpus = 1 ∷ [];
          source_cpus = take_cpus s 2;
          idle_cpus = take_cpus (total - (2 + s)) (2 + s);
          endbarrier = init_endbarrier (pos s) (total - (2 + s));
        }
            ≡ plan)
  unfolding plan_cores
  plan_cores-eq plan e =
      let (test, same) = unless_eq-some (too_many (pos 1) (pos s) total) e in
      let fits : s + 2 ≤ total = ground (arith, too_many-eq) in
      (fits, rw (num_idle-eq fits) at same)

  all_cpus :
      s + 2 ≤ total
      → 1 ∷ (take_cpus s 2 ++ take_cpus (total - (2 + s)) (2 + s)) ≡ take_cpus (total - 1) 1
  unfolding take_cpus
  all_cpus fits =
      let count : total - 1 ≡ suc (s + (total - (2 + s))) = omega arith in
      rw count (ap (λ l. 1 ∷ l) (take_cpus-append s (total - (2 + s)) 2))

  -- What follows the runner's core.
  pub plan_cores-fill :
      (plan : Plan)
      → plan_cores (pos 1) (pos s) total ≡ some plan
      → (s + 2 ≤ total)
        × (length plan.source_cpus ≡ s)
        × (plan.ep_cpus ++ (plan.source_cpus ++ plan.idle_cpus) ≡ take_cpus (total - 1) 1)
  plan_cores-fill plan e =
      let (fits, same) = plan_cores-eq plan e in
      subst
        (λ (p : Plan).
          (s + 2 ≤ total)
          × (length p.source_cpus ≡ s)
          × (p.ep_cpus ++ (p.source_cpus ++ p.idle_cpus) ≡ take_cpus (total - 1) 1))
        same (fits, length-take_cpus s 2, all_cpus fits)

  -- With one event processor and `s` sources, fewer than 2^31, on a machine with `total` cores, at least one and fewer than 2^31:
  -- if the program goes on, the runner, the processor and the sources fit, and the runner, the processor, the sources and the idle
  -- threads have in this order all cores of the machine, each just once.
  pub plan_cores-covers :
      (plan : Plan)
      → plan_cores (pos 1) (pos s) total ≡ some plan
      → (s + 2 ≤ total)
        × (length plan.source_cpus ≡ s)
        × (runner_cpu ∷ (plan.ep_cpus ++ (plan.source_cpus ++ plan.idle_cpus)) ≡ take_cpus total 0)
  plan_cores-covers plan e =
      let (fits, sources, others) = plan_cores-fill plan e in
      (fits, sources, rw others (take_cpus-cons total 0 h))

  -- The program exits if and only if the runner, the processor and the sources do not fit.
  pub plan_cores-exits : (plan_cores (pos 1) (pos s) total ≡ none) ↔ (total < s + 2)
  unfolding plan_cores
  plan_cores-exits = ground (arith, too_many-eq)

  -- With one event processor and `s` sources, fewer than 2^31, on a machine with `total` cores, at least one and fewer than 2^31:
  -- if the program goes on, `endbarrier` is initialised with the number of the sources, the idle threads and `main` together if
  -- there is an idle thread, and otherwise it is not initialised at all.
  pub endbarrier-count :
      (plan : Plan)
      → plan_cores (pos 1) (pos s) total ≡ some plan
      → plan.endbarrier ≡ (
          if length plan.idle_cpus == 0
          then none
          else some (length plan.source_cpus + length plan.idle_cpus + 1))
  unfolding init_endbarrier
  endbarrier-count plan e =
      let (fits, same) = plan_cores-eq plan e in
      subst
        (λ (p : Plan). p.endbarrier ≡ (
          if length p.idle_cpus == 0
          then none
          else some (length p.source_cpus + length p.idle_cpus + 1)))
        same (ground (arith, length-take_cpus s 2, length-take_cpus (total - (2 + s)) (2 + s)))

  -- Where an idle thread is left, the barrier is for the sources, the idle threads and `main`.
  pub endbarrier-idle :
      (plan : Plan)
      → s + 2 < total
      → plan_cores (pos 1) (pos s) total ≡ some plan
      → plan.endbarrier ≡ some (s + length plan.idle_cpus + 1)
  endbarrier-idle plan room e =
      let (fits, same) = plan_cores-eq plan e in
      let idle : length plan.idle_cpus ≡ total - (2 + s) =
        sym (ap (λ (p : Plan). length p.idle_cpus) same)
        ∙ length-take_cpus (total - (2 + s)) (2 + s) in
      let (_, sources, _) = plan_cores-fill plan e in ground (arith, endbarrier-count plan e)

  -- On a machine that the threads fill, the program goes on and leaves `endbarrier` without initialisation.
  pub full_machine_no_barrier :
      total ≡ s + 2
      → (plan : Plan) × (plan_cores (pos 1) (pos s) total ≡ some plan)
        × (plan.endbarrier ≡ none)
        × (length plan.source_cpus ≡ s)
  unfolding plan_cores init_endbarrier take_cpus
  full_machine_no_barrier full =
      let none_idle : total - (2 + s) ≡ 0 = omega arith in
      let fit : too_many (pos 1) (pos s) total ≡ false = ground (arith, too_many-eq) in
      (
        record {
          ep_cpus = 1 ∷ [];
          source_cpus = take_cpus s 2;
          idle_cpus = take_cpus (total - (2 + s)) (2 + s);
          endbarrier = none;
        },
        rw (fit, num_idle-eq (omega arith), none_idle) refl,
        refl,
        length-take_cpus s 2,
      )

no_cpus : (s : ℕ) → 0 - (1 + 1 + s) ≡ 0
no_cpus s = omega arith

-- With no cores at all the test for too many threads passes, and the barrier is for 2^32 - 1 threads.
pub no_cores_plan :
    (s : ℕ)
    → s < 2 ^ 31
    → (plan : Plan) × (plan_cores (pos 1) (pos s) 0 ≡ some plan)
      × (length plan.source_cpus ≡ s)
      × (length plan.idle_cpus ≡ 0)
      × (plan.endbarrier ≡ some (2 ^ 32 - 1))
unfolding plan_cores too_many num_idle init_endbarrier take_cpus
no_cores_plan s h =
    let fit : too_many (pos 1) (pos s) 0 ≡ false = ground arith in
    let barrier : init_endbarrier (pos s) (num_idle (pos 1) (pos s) 0) ≡ some (2 ^ 32 - 1) =
      ground arith in
    let idle : take_cpus (0 - (1 + 1 + s)) (1 + 1 + s) ≡ [] = rw (no_cpus s) refl in
    (
      record {
        ep_cpus = 1 ∷ [];
        source_cpus = take_cpus s 2;
        idle_cpus = [];
        endbarrier = some (2 ^ 32 - 1);
      },
      rw (fit, barrier, idle) refl,
      length-take_cpus s 2,
      refl,
      refl,
    )
