-- ===== src/Tests/Cores.antt =====
-- From the scripts' lines to the cores of the threads, on a machine with eight cores.
use wfey.Prelude.{
  ℕ, zero, suc, ◌+◌, ◌*◌, ◌<◌, ◌≡◌, ◌↔◌, ◌>>=?◌, refl, Bool, true, false, none, some, [], ◌∷◌, ◌++◌,
  map, if◌then◌else◌, arith,
}
use wfey.Prelude.Int.{pos}
use wfey.Prelude.Text.{decimal}
use wfey.CpuInfo.{get_cpu_info, total_cpu}
use wfey.CpuInfo.Reads.{plan_cores-printed}
use wfey.Main.Cores.{Plan, plan_cores, take_cpus, too_many, num_idle, init_endbarrier}
use wfey.Pin.{Mask, Scheduler}
use wfey.Main.Cores.{runner_cpu}
use wfey.Pin.Threads.{only, pin_all, plan_cores-pinned}

-- Four cores in each of two sockets.
plan_cores-printed_example :
    ((total_cpu (
          get_cpu_info
            record { output = some (decimal 4 ++ 10 ∷ []); close_fails = false }
            record { output = some (decimal 2 ++ 10 ∷ []); close_fails = false })
        >>=? plan_cores (pos 1) (pos 7))
      ≡ none)
    ↔ (0 < 4 * 2) × (4 * 2 < 7 + 2)
plan_cores-printed_example =
    plan_cores-printed 4 2 7 [] [] (omega arith) (omega arith) (omega arith) (omega arith)

-- A scheduler that looks for a core of the mask.
abbrev any_core : ℕ → Mask → Bool
any_core zero mask = false
any_core (suc n) mask = if mask n then true else any_core n mask

any_core-in : (n : ℕ) (mask : Mask) (i : ℕ) → i < n → mask i ≡ true → any_core n mask ≡ true
any_core-in zero mask i lt e = absurd (omega arith)
any_core-in (suc n) mask i lt e = grind (arith, any_core-in n mask i)

any_core-out : (n : ℕ) (mask : Mask) → ((i : ℕ) → i < n → mask i ≡ false) → any_core n mask ≡ false
any_core-out zero mask out = refl
any_core-out (suc n) mask out =
    rw (out n (omega arith), any_core-out n mask (λ i lt. out i (omega arith))) refl

abbrev eight_cores : Scheduler
eight_cores = record {
  getcpu = some 0;
  setaffinity = any_core 8;
  cores = 8;
  setsize = 1024;
  sees = omega arith;
  accepts = any_core-in 8;
  refuses = any_core-out 8;
}

abbrev eight_cores_plan : Plan
eight_cores_plan = record {
  ep_cpus = 1 ∷ [];
  source_cpus = 2 ∷ 3 ∷ [];
  idle_cpus = 4 ∷ 5 ∷ 6 ∷ 7 ∷ [];
  endbarrier = some 7;
}

eight_cores_planned : plan_cores (pos 1) (pos 2) 8 ≡ some eight_cores_plan
unfolding plan_cores too_many num_idle init_endbarrier take_cpus
eight_cores_planned = refl

plan_cores-pinned_example :
    pin_all eight_cores (runner_cpu ∷ 1 ∷ 2 ∷ 3 ∷ 4 ∷ 5 ∷ 6 ∷ 7 ∷ [])
    ≡ map (λ cpu. some (only cpu)) (runner_cpu ∷ 1 ∷ 2 ∷ 3 ∷ 4 ∷ 5 ∷ 6 ∷ 7 ∷ [])
plan_cores-pinned_example =
    plan_cores-pinned eight_cores 2 eight_cores_plan (omega arith) (omega arith) (omega arith)
      eight_cores_planned
