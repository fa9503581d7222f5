-- ===== src/Main/Start.antt =====
-- From the options of `main` to the cores of its threads.
use wfey.Prelude.{
  ◌≢◌, ℕ, ◌≡◌, ◌⊎◌, inl, inr, refl, sym, ap, ◌∙◌, false, some, List, [], ◌∷◌, unless_eq-some, arith,
}
use wfey.Prelude.Int.{ℤ, pos, negsuc, pos_part, ltb_ℤ}
use wfey.Main.Args.{Rates, Opt, Settings, parse_args, parse_args-IsTaken}
use wfey.Main.Cores.{Plan, take_cpus, too_many, plan_cores}

-- The counts of processors that come through the checks.
one_or_negative :
    (n : ℤ) → ltb_ℤ (pos 1) n ≡ false → n ≢ pos 0 → (n ≡ pos 1) ⊎ ((k : ℕ) × (n ≡ negsuc k))
one_or_negative (pos n) h k =
    let not_none : n ≢ 0 = λ e. k (ap pos e) in let one : n ≡ 1 = ground arith in inl (ap pos one)
one_or_negative (negsuc n) h k = inr (n, refl)

ep_cpus-eq :
    (p s : ℤ) (total : ℕ) (plan : Plan)
    → plan_cores p s total ≡ some plan
    → plan.ep_cpus ≡ take_cpus (pos_part p) 1
unfolding plan_cores
ep_cpus-eq p s total plan e =
    let (_, same) = unless_eq-some (too_many p s total) e in sym (ap (λ (x : Plan). x.ep_cpus) same)

-- Whatever options `main` accepts: where it goes on to create its threads, it has set `-p` to 1 and the one processor is on core 1; or
-- the number given for `-p` was negative, and it goes on with no processor at all.
pub processors-planned :
    (rates : Rates) (opts : List (Opt rates)) (settings : Settings rates) (total : ℕ) (plan : Plan)
    → parse_args rates opts ≡ some settings
    → plan_cores settings.num_processors settings.num_sources total ≡ some plan
    → ((settings.num_processors ≡ pos 1) × (plan.ep_cpus ≡ 1 ∷ []))
      ⊎ ((k : ℕ) × (settings.num_processors ≡ negsuc k) × (plan.ep_cpus ≡ []))
unfolding take_cpus
processors-planned rates opts settings total plan parsed planned =
    let (taken, some_p, _) = parse_args-IsTaken rates opts settings parsed in
    let cpus = ep_cpus-eq settings.num_processors settings.num_sources total plan planned in
    elim (one_or_negative settings.num_processors taken.one_processor some_p) [
      | inl one ↦ inl (one, cpus ∙ ap (λ p. take_cpus (pos_part p) 1) one)
      | inr (k, negative) ↦ inr (k, negative, cpus ∙ ap (λ p. take_cpus (pos_part p) 1) negative)
    ]
