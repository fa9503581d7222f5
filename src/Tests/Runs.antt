-- ===== src/Tests/Runs.antt =====
-- Concrete runs of the processor and its sources.
use wfey.Prelude.{
  ℕ, ◌≡◌, ◌⊎◌, refl, true, false, ◌++◌, Option, none, some, ℕ_discrete, List, [], ◌∷◌, arith,
}
use wfey.Prelude.Int.{pos}
use wfey.Clock.{Ts, ts_diff}
use wfey.Config.{Config, wfe_db_nomon, wfe_db_mon}
use wfey.Source.{Source, reset, active}
use wfey.System.{
  test, wait, scan, done, tally, check, press, signal, System, Action, ep, src, wake, inc, run,
  launch, Reach, launched, run-Reach,
}
use wfey.System.Mailbox.{mailbox}
use wfey.System.Mailbox.Counts.{moves, count_moves, is_raise, is_receive}
use wfey.System.Covered.{IsCovered, Reach-IsCovered}
use wfey.System.Wakeup.{SomeAt, no_lost_wakeup}
use wfey.System.Silent.{no_wakeups_without_sev}
use wfey.System.Overwrite.{activation_overwritten}
use wfey.System.Pass.{Passed, alone, pass_steps, pass_handles_all}

abbrev zero_ts : Ts
zero_ts = record { tv_sec = 0; tv_nsec = 0 }

abbrev pub at_ns : ℕ → Option Ts
at_ns n = some (record { tv_sec = 0; tv_nsec = n })

abbrev raw_source : Source
raw_source = record {
  ep = 0;
  id = 77;
  work_type = pos 2;
  end_flag = true;
  start_ts = zero_ts;
  end_ts = zero_ts;
  totalns = 9;
  minns = 9;
  maxns = 9;
  count = 9;
  state = active;
}

abbrev pub raw : System
raw = record {
  hw = record { db = 1; event_register = false; monitor = none };
  ep = record {
    pc = done;
    end_flag = true;
    wakeups = 5;
    spurious = 5;
    events = 5;
    inactive_start = zero_ts;
    inactive_total = 5;
    active_start = zero_ts;
    active_total = 5;
  };
  sources = λ i. raw_source;
  src_pc = λ i. check;
}

abbrev pub begin : Config → System
begin c = launch c (at_ns 1) raw

-- The processor goes to its `WFE`, and source 0 as far as the store of its event.
abbrev pub about_to_press : List Action
about_to_press =
    ep (at_ns 2) ∷ src 0 none true ∷ src 0 none true ∷ src 0 (at_ns 10) true ∷ src 0 none true ∷ []

abbrev pressing : System
pressing = run wfe_db_nomon 2 about_to_press (begin wfe_db_nomon)

pressing_lem :
    (pressing.ep.pc ≡ wait)
    × (pressing.hw.event_register ≡ false)
    × ((pressing.sources 0).state ≡ active)
    × (pressing.src_pc 0 ≡ press)
unfolding run launch ts_diff ℕ_discrete
pressing_lem = (refl, refl, refl, refl)

pressing-Reach : Reach wfe_db_nomon 2 pressing
pressing-Reach =
    run-Reach wfe_db_nomon 2 about_to_press (begin wfe_db_nomon) (launched (at_ns 1) raw)

no_lost_wakeup_example : (pressing.src_pc 0 ≡ press) ⊎ SomeAt 2 pressing.src_pc signal
no_lost_wakeup_example =
    no_lost_wakeup pressing-Reach pressing_lem.0 pressing_lem.1 0 (omega arith) pressing_lem.2

Reach-IsCovered_example : IsCovered pressing 0
Reach-IsCovered_example = Reach-IsCovered refl pressing-Reach 0 (omega arith)

-- The press, the `SEV`, and the processor's steps up to its scan.
abbrev woken : System
woken =
    run wfe_db_nomon 2 (src 0 none true ∷ src 0 none true ∷ ep (at_ns 20) ∷ ep none ∷ []) pressing

woken_lem : (woken.ep.pc ≡ scan 0) × (woken.ep.events ≡ 0) × (woken.ep.inactive_total ≡ 18)
unfolding run launch ts_diff ℕ_discrete
woken_lem = (refl, refl, refl)

-- One event, of 20 ns, is handled in the pass.
woken_pass :
    let s = run wfe_db_nomon 2 (alone (at_ns 30) 7) woken in
    (s.ep.pc ≡ test)
    × (s.ep.events ≡ 1)
    × ((s.sources 0).totalns ≡ 20)
    × ((s.sources 0).minns ≡ 20)
    × ((s.sources 0).state ≡ reset)
unfolding run launch ts_diff ℕ_discrete
woken_pass = (refl, refl, refl, refl, refl)

pass_handles_all_example :
    Passed
      (at_ns 30)
      woken
      0
      2
      (run wfe_db_nomon 2 (alone (at_ns 30) (pass_steps woken.sources 0 2)) woken)
unfolding run launch ts_diff ℕ_discrete
pass_handles_all_example =
    pass_handles_all wfe_db_nomon 2 (at_ns 30) woken woken_lem.0 (omega arith)

-- In the build with the monitor the same press does not wake the processor.
abbrev pressed_in_vain : List Action
pressed_in_vain =
    ep (at_ns 2)
    ∷ src 0 none true
    ∷ src 0 none true
    ∷ src 0 (at_ns 10) true
    ∷ src 0 none true
    ∷ src 0 none true
    ∷ ep (at_ns 20)
    ∷ []

pressed_in_vain_lem :
    let s = run wfe_db_mon 2 pressed_in_vain (begin wfe_db_mon) in
    (s.hw.db ≡ 1) × ((s.sources 0).state ≡ active) × (s.src_pc 0 ≡ check) × (s.ep.pc ≡ wait)
unfolding run launch ts_diff ℕ_discrete
pressed_in_vain_lem = (refl, refl, refl, refl)

no_wakeups_without_sev_example :
    ((run wfe_db_mon 2 pressed_in_vain (begin wfe_db_mon)).ep.wakeups ≡ 0)
    × ((run wfe_db_mon 2 pressed_in_vain (begin wfe_db_mon)).ep.events ≡ 0)
no_wakeups_without_sev_example =
    no_wakeups_without_sev wfe_db_mon refl refl 2 (at_ns 1) raw refl refl pressed_in_vain refl

-- An event from outside wakes it: the doorbell was pressed, so this is no spurious wake-up.
woken_from_outside :
    let s =
      run wfe_db_mon 2
        (wake ∷ ep (at_ns 30) ∷ ep none ∷ ep none ∷ [])
        (run wfe_db_mon 2 pressed_in_vain (begin wfe_db_mon)) in
    (s.ep.wakeups ≡ 1) × (s.ep.spurious ≡ 0) × (s.ep.pc ≡ scan 0)
unfolding run launch ts_diff ℕ_discrete
woken_from_outside = (refl, refl, refl)

-- The source makes its event active anew when the processor has done its work.
abbrev once_more : List Action
once_more =
    ep none
    ∷ src 0 none true
    ∷ src 0 none true
    ∷ src 0 (at_ns 31) true
    ∷ ep none
    ∷ ep (at_ns 32)
    ∷ src 0 none true
    ∷ []

scanning_lem :
    (woken.ep.pc ≡ scan 0)
    × ((woken.sources 0).state ≡ active)
    × (count_moves (is_raise 0) (moves wfe_db_nomon 2 once_more woken) ≡ 1)
unfolding run launch ts_diff ℕ_discrete
scanning_lem = (refl, refl, refl)

activation_overwritten_example :
    ((run wfe_db_nomon 2 (once_more ++ ep none ∷ []) woken).ep.pc ≡ tally 0)
    × (mailbox (run wfe_db_nomon 2 (once_more ++ ep none ∷ []) woken) 0 ≡ false)
    × (count_moves (is_receive 0) (moves wfe_db_nomon 2 (once_more ++ ep none ∷ []) woken) ≡ 1)
    × ((run wfe_db_nomon 2 (once_more ++ ep none ∷ []) woken).ep.events ≡ inc woken.ep.events)
activation_overwritten_example =
    activation_overwritten wfe_db_nomon 2 0 once_more none woken (omega arith) scanning_lem.0
      scanning_lem.1 refl

-- An activation that falls between the processor's look and its reset leaves no trace: the source was activated twice, and
-- one event was handled, though the doorbell is still pressed.
overwritten :
    let s =
      run wfe_db_nomon 2
        (ep none
          ∷ src 0 none true
          ∷ src 0 none true
          ∷ src 0 (at_ns 31) true
          ∷ src 0 none true
          ∷ src 0 none true
          ∷ ep none
          ∷ ep (at_ns 32)
          ∷ ep none
          ∷ ep none
          ∷ ep none
          ∷ ep none
          ∷ [])
        woken in
    (s.ep.pc ≡ test) × (s.ep.events ≡ 1) × ((s.sources 0).state ≡ reset) × (s.hw.db ≡ 1)
unfolding run launch ts_diff ℕ_discrete
overwritten = (refl, refl, refl, refl)
