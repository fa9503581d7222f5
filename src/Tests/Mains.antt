-- ===== src/Tests/Mains.antt =====
-- The options and the cores at concrete inputs.
use wfey.Prelude.{
  ◌⊎◌, ◌≤◌, ◌+◌, ℕ, ◌≡◌, refl, Bool, false, none, some, List, [], ◌∷◌, arith, ◌==◌, length,
  if◌then◌else◌,
}
use wfey.Prelude.Int.{pos, negsuc}
use wfey.Main.Args
use wfey.Main.Args.{Rates, Opt, Settings, IsTaken, parse_args, take_options, all_accepted}
use wfey.Main.Start.{processors-planned}
use wfey.Main.Cores.{
  Plan, take_cpus, plan_cores, too_many, num_idle, init_endbarrier, plan_cores-covers,
  endbarrier-count,
}

-- A rate in hundredths of an event, with its sign.
abbrev hundredths : Rates
hundredths = record {
  Rate = Bool × ℕ;
  is_negative = λ r. r.0;
  is_zero = λ r. r.1 == 0;
  tiny = (false, 1);
  tiny_positive = refl;
}

abbrev options : List (Opt hundredths)
options =
    Opt.event_rate (false, 0)
    ∷ Opt.processors (pos 1)
    ∷ Opt.sources (pos 2)
    ∷ Opt.work (pos 30)
    ∷ []

abbrev settings : Settings hundredths
settings = record {
  num_sources = pos 2;
  num_processors = pos 1;
  rate = some (false, 1);
  work_perc = pos 30;
}

options_parsed : parse_args hundredths options ≡ some settings
unfolding parse_args Args.take_option
options_parsed = refl

-- A negative number of processors passes the check of the counts.
abbrev negative : List (Opt hundredths)
negative = Opt.processors (negsuc 0) ∷ Opt.sources (pos 2) ∷ []

abbrev negative_settings : Settings hundredths
negative_settings = record {
  num_sources = pos 2;
  num_processors = negsuc 0;
  rate = none;
  work_perc = pos 100;
}

negative_parsed : parse_args hundredths negative ≡ some negative_settings
unfolding parse_args Args.take_option
negative_parsed = refl

-- On four cores.
abbrev negative_plan : Plan
negative_plan = record {
  ep_cpus = [];
  source_cpus = 1 ∷ 2 ∷ [];
  idle_cpus = 3 ∷ [];
  endbarrier = some 5;
}

negative_planned : plan_cores (negsuc 0) (pos 2) 4 ≡ some negative_plan
unfolding plan_cores too_many num_idle init_endbarrier take_cpus
negative_planned = refl

processors-planned_example :
    ((negative_settings.num_processors ≡ pos 1) × (negative_plan.ep_cpus ≡ 1 ∷ []))
    ⊎ ((k : ℕ) × (negative_settings.num_processors ≡ negsuc k) × (negative_plan.ep_cpus ≡ []))
processors-planned_example =
    processors-planned hundredths negative negative_settings 4 negative_plan negative_parsed
      negative_planned

-- Two sources on six cores.
abbrev six : Plan
six = record {
  ep_cpus = 1 ∷ [];
  source_cpus = 2 ∷ 3 ∷ [];
  idle_cpus = 4 ∷ 5 ∷ [];
  endbarrier = some 5;
}

six_planned : plan_cores (pos 1) (pos 2) 6 ≡ some six
unfolding plan_cores too_many num_idle init_endbarrier
six_planned = refl

plan_cores-covers_example :
    (4 ≤ 6) × (length six.source_cpus ≡ 2) × (0 ∷ 1 ∷ 2 ∷ 3 ∷ 4 ∷ 5 ∷ [] ≡ take_cpus 6 0)
plan_cores-covers_example =
    plan_cores-covers 2 6 (omega arith) (omega arith) (omega arith) six six_planned

endbarrier-count_example : six.endbarrier ≡ (
    if length six.idle_cpus == 0
    then none
    else some (length six.source_cpus + length six.idle_cpus + 1))
endbarrier-count_example =
    endbarrier-count 2 6 (omega arith) (omega arith) (omega arith) six six_planned

-- On four cores there is no idle thread, and no initialisation of the barrier.
four_planned :
    plan_cores (pos 1) (pos 2) 4
    ≡ some
        (record { ep_cpus = 1 ∷ []; source_cpus = 2 ∷ 3 ∷ []; idle_cpus = []; endbarrier = none })
unfolding plan_cores too_many num_idle init_endbarrier
four_planned = refl
