-- ===== src/Pin.antt =====
-- `pinCpu` of include/common.h. The scheduler is an argument, and so is the size of a `cpu_set_t`.
pub mod Threads
use mathlib.Core.Path.{fun_ext}
use wfey.Prelude.{
  ℕ, zero, suc, ◌+◌, ◌≤◌, ◌<◌, ◌≡◌, refl, ◌∙◌, ap, Bool, true, false, Option, none, some, List, [],
  ◌∷◌, ltb, ltb→lt, ◌==◌, if◌then◌else◌, arith, Bool-cases, inl, inr,
}
use wfey.Prelude.Int.{ℤ, pos, negsuc, eqb_ℤ}

abbrev pub Mask : Type 0
Mask = ℕ → Bool

-- `sched_getcpu`, none for -1; `sched_setaffinity`, true where it returns 0; and the cores that the machine has.
pub record Scheduler : Type 0 where
  pub getcpu : Option ℕ
  pub setaffinity : Mask → Bool
  pub cores : ℕ
  pub setsize : ℕ
  pub sees : cores ≤ setsize
  -- It takes a mask exactly if a core of the machine is in it.
  pub accepts : (mask : Mask) (i : ℕ) → i < cores → mask i ≡ true → setaffinity mask ≡ true
  pub refuses : (mask : Mask) → ((i : ℕ) → i < cores → mask i ≡ false) → setaffinity mask ≡ false

module _ (k : Scheduler) where
  -- `CPU_ZERO` and `CPU_SET`, which does nothing for a number past the set.
  abbrev pub cpu_set : ℕ → Mask
  cpu_set cpu i = if ltb cpu k.setsize then cpu == i else false

  -- The mask that the thread is pinned to; none where the program exits.
  unfoldable pub pin_to : ℕ → Option Mask
  pin_to cpu = if k.setaffinity (cpu_set cpu) then some (cpu_set cpu) else none

  -- An `int` below -1 is a number past the set.
  unfoldable pub pin_cpu : ℤ → Option Mask
  unfolding pin_to
  pin_cpu (pos cpu) = pin_to cpu
  pin_cpu (negsuc zero) = elim k.getcpu [ none ↦ none | some cpu ↦ pin_to cpu ]
  pin_cpu (negsuc (suc n)) = if k.setaffinity (λ i. false) then some (λ i. false) else none

  -- A thread is pinned to the core that it asks for, and to no other, if the machine has this core; and otherwise the program
  -- exits.
  pub pin_cpu-eq :
      (cpu : ℕ) → pin_cpu (pos cpu) ≡ (if ltb cpu k.cores then some (λ i. cpu == i) else none)
  unfolding pin_cpu
  pin_cpu-eq cpu = elim (Bool-cases (ltb cpu k.cores)) [
    | inl there ↦
        let within : ltb cpu k.setsize ≡ true = ground (arith, k.sees) in
        let same : cpu_set cpu ≡ (λ i. cpu == i) = fun_ext (λ i. rw within refl) in
        let taken =
          k.accepts (cpu_set cpu) cpu (ltb→lt cpu k.cores there) (rw within (ground arith)) in
        rw (there, taken) (ap some same)
    | inr missing ↦
        let refused = k.refuses (cpu_set cpu) (λ i lt. ground arith) in rw (missing, refused) refl
  ]
