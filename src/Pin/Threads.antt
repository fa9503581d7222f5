-- ===== src/Pin/Threads.antt =====
-- The cores that `main` of wfey.c hands out, and what the threads make of them.
use wfey.Prelude.{
  ℕ, zero, suc, ◌+◌, ◌-◌, ◌^◌, ◌≤◌, ◌<◌, ◌≡◌, refl, ap, true, Option, some, List, ◌∷◌, ◌++◌, map,
  ltb, ◌==◌, arith,
}
use wfey.Prelude.Int.{pos}
use wfey.Main.Cores.{Plan, take_cpus, plan_cores, plan_cores-fill, runner_cpu}
use wfey.Pin.{Mask, Scheduler, pin_cpu, pin_cpu-eq}

abbrev pub only : ℕ → Mask
only cpu i = cpu == i

-- Each thread pins itself to the core that `main` has written into its argument.
abbrev pub pin_all : Scheduler → List ℕ → List (Option Mask)
pin_all k cpus = map (λ cpu. pin_cpu k (pos cpu)) cpus

module _ (k : Scheduler) where
  pinned : (cpu : ℕ) → cpu < k.cores → pin_cpu k (pos cpu) ≡ some (only cpu)
  pinned cpu h =
      let there : ltb cpu k.cores ≡ true = ground arith in rw (pin_cpu-eq k cpu, there) refl

  pin_all-take_cpus :
      (n cpuid : ℕ)
      → cpuid + n ≤ k.cores
      → pin_all k (take_cpus n cpuid) ≡ map (λ cpu. some (only cpu)) (take_cpus n cpuid)
  unfolding take_cpus
  pin_all-take_cpus zero cpuid h = refl
  pin_all-take_cpus (suc n) cpuid h =
      rw (pinned cpuid (omega arith), pin_all-take_cpus n (cpuid + 1) (omega arith)) refl

-- On a machine with the number of cores that `main` counts with, less than 2^31, and with one event processor: if `main` goes on,
-- then `main`, the processor, the sources and the idle threads can all be pinned, each to the one core that it is given.
pub plan_cores-pinned :
    (k : Scheduler) (s : ℕ) (plan : Plan)
    → s < 2 ^ 31
    → 0 < k.cores
    → k.cores < 2 ^ 31
    → plan_cores (pos 1) (pos s) k.cores ≡ some plan
    → pin_all k (runner_cpu ∷ plan.ep_cpus ++ (plan.source_cpus ++ plan.idle_cpus))
      ≡ map
          (λ cpu. some (only cpu))
          (runner_cpu ∷ plan.ep_cpus ++ (plan.source_cpus ++ plan.idle_cpus))
plan_cores-pinned k s plan hs h ht e =
    let (fits, _, covers) = plan_cores-fill s k.cores hs h ht plan e in
    rw (covers, pinned k runner_cpu h)
      (ap (λ l. some (only runner_cpu) ∷ l) (pin_all-take_cpus k (k.cores - 1) 1 (omega arith)))
