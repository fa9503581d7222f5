-- ===== src/Tests/Lives.antt =====
-- A life of the program with two sources on five cores, from the first thread to the exit.
use wfey.Prelude.{◌≡◌, ◌++◌, refl, true, none, ℕ_discrete, List, [], ◌∷◌, arith}
use wfey.Config.{wfe_db_mon, busypoll_nodb}
use wfey.Main.Cores.{take_cpus, plan_cores, too_many, num_idle, init_endbarrier}
use wfey.Main.Life.{
  scanning, looping, gone, failed, exited, null, set_up, released, Life, Event, main, ep, src, idle,
  meet_ep, meet_src, meet_ep_again, meet_end, live, beginning,
}
use wfey.Main.Life.Access.{by_ep, sources-held}
use wfey.Main.Life.End.{live-can_end}
use wfey.Main.Life.Race.{ahead, scans_null}

abbrev raw_life : Life
raw_life = record {
  main_pc = failed;
  ep = gone;
  ep_end_flag = true;
  pressed = true;
  src = λ i. looping;
  src_end_flag = λ i. true;
  idle = λ i. gone;
  idles = 9;
  endbarrier = none;
  sources = released;
}

-- Up to a pass of the processor over the sources.
abbrev to_a_pass : List Event
to_a_pass =
    main
    ∷ ep
    ∷ meet_ep
    ∷ main
    ∷ main
    ∷ main
    ∷ main
    ∷ main
    ∷ main
    ∷ main
    ∷ main
    ∷ src 0
    ∷ src 1
    ∷ meet_src
    ∷ src 0
    ∷ src 0
    ∷ ep
    ∷ ep
    ∷ []

-- And up to the signal for the processor, which has left its loop since its end flag was set.
abbrev to_a_signal : List Event
to_a_signal = to_a_pass ++ main ∷ main ∷ ep ∷ ep ∷ []

abbrev to_the_exit : List Event
to_the_exit =
    to_a_signal
    ++ main
      ∷ meet_ep_again
      ∷ main
      ∷ main
      ∷ main
      ∷ main
      ∷ main
      ∷ src 0
      ∷ src 1
      ∷ idle 0
      ∷ meet_end
      ∷ main
      ∷ []

passes : (live wfe_db_mon 2 5 to_a_pass (beginning raw_life)).ep ≡ scanning
unfolding live plan_cores take_cpus too_many num_idle init_endbarrier ℕ_discrete
passes = refl

ends_well :
    let s = live wfe_db_mon 2 5 to_the_exit (beginning raw_life) in
    (s.main_pc ≡ exited) × (s.ep ≡ gone) × (s.src 0 ≡ gone) × (s.src 1 ≡ gone) × (s.idle 0 ≡ gone)
unfolding live plan_cores take_cpus too_many num_idle init_endbarrier ℕ_discrete
ends_well = (refl, refl, refl, refl, refl)

sources-held_example : (live wfe_db_mon 2 5 to_a_pass (beginning raw_life)).sources ≡ set_up 2
sources-held_example =
    sources-held wfe_db_mon 2 5 (omega arith) (omega arith) (omega arith) to_a_pass raw_life refl
      (by_ep passes)

scans_null_example :
    let s = live busypoll_nodb 2 5 ahead (beginning raw_life) in
    (s.ep ≡ scanning) × (s.sources ≡ null)
scans_null_example = scans_null busypoll_nodb 2 5 raw_life refl

live-can_end_example :
    (more : List Event) × ((live wfe_db_mon 2 5 (to_a_pass ++ more) (beginning raw_life)).main_pc
      ≡ exited)
live-can_end_example =
    live-can_end wfe_db_mon 2 5 (omega arith) (omega arith) (omega arith) to_a_pass raw_life
