-- ===== src/Tests/Mailboxes.antt =====
-- The events as a mailbox, at a run of the processor and its sources.
use wfey.Prelude.{
  false, sym, ◌∙◌, ◌≢◌, ℕ, zero, suc, arith, ◌<◌, ◌*◌, ◌-◌, ◌≤◌, ◌≡◌, refl, true, none, ℕ_discrete,
  List, [], ◌∷◌, ◌++◌,
}
use wfey.Clock.{ts_diff}
use wfey.Config.{wfe_db_nomon, busypoll_db}
use wfey.System.{
  signal, press, check, System, Action, ep, src, step, run, launch, Reach, run-Reach, launched,
}
use wfey.System.Mailbox.{receive, perform, IsAllowed, mailbox, move_of, step-IsAllowed}
use wfey.System.Mailbox.Counts.{moves, is_receive, count_moves}
use wfey.System.Mailbox.Delivery.{free_steps}
use wfey.System.Mailbox.Prompt.{receive_within}
use wfey.System.Mailbox.Settled.{settled_steps, receive_settled}
use wfey.Source.{active}
use wfey.System.Counters.{total, run-counters}
use wfey.Tests.Runs.{raw, at_ns, begin, about_to_press}

-- The event is raised, looked at and handled, as far as the store of its reset.
abbrev up_to_store : List Action
up_to_store =
    about_to_press
    ++ (src 0 none true
        ∷ src 0 none true
        ∷ ep (at_ns 20)
        ∷ ep none
        ∷ ep none
        ∷ ep none
        ∷ ep (at_ns 30)
        ∷ [])

abbrev storing : System
storing = run wfe_db_nomon 2 up_to_store (begin wfe_db_nomon)

storing_lem : move_of 2 storing (ep none) ≡ receive 0
unfolding run launch ts_diff ℕ_discrete
storing_lem = refl

storing-Reach : Reach wfe_db_nomon 2 storing
storing-Reach = run-Reach wfe_db_nomon 2 up_to_store (begin wfe_db_nomon) (launched (at_ns 1) raw)

step-IsAllowed_example :
    IsAllowed (move_of 2 storing (ep none)) (mailbox storing)
    × (mailbox (step wfe_db_nomon 2 (ep none) storing)
        ≡ perform (move_of 2 storing (ep none)) (mailbox storing))
step-IsAllowed_example = step-IsAllowed storing-Reach (ep none)

abbrev handled : List Action
handled = up_to_store ++ (ep none ∷ ep none ∷ [])

handled_lem : ((run wfe_db_nomon 2 handled (begin wfe_db_nomon)).sources 0).count ≡ 1
unfolding run launch ts_diff ℕ_discrete
handled_lem = refl

-- A source has rung in the build that polls the doorbell.
abbrev rung : System
rung =
    run busypoll_db 2
      (src 0 none true
        ∷ src 0 none true
        ∷ src 0 (at_ns 10) true
        ∷ src 0 none true
        ∷ src 0 none true
        ∷ [])
      (begin busypoll_db)

rung-Reach : Reach busypoll_db 2 rung
rung-Reach =
    run-Reach busypoll_db 2
      (src 0 none true
        ∷ src 0 none true
        ∷ src 0 (at_ns 10) true
        ∷ src 0 none true
        ∷ src 0 none true
        ∷ [])
      (begin busypoll_db) (launched (at_ns 1) raw)

rung_lem : ((rung.sources 0).state ≡ active) × (rung.src_pc 0 ≡ signal) × (rung.ep.end_flag ≡ false)
unfolding run launch ts_diff ℕ_discrete
rung_lem = (refl, refl, refl)

signal-ne-press : signal ≢ press
signal-ne-press h = cc

-- Meanwhile the other source steps, too.
abbrev eager : ℕ → List Action
eager zero = []
eager (suc k) = ep (at_ns 30) ∷ src 1 (at_ns 30) true ∷ eager k

rung_free : free_steps busypoll_db 2 (eager 18) rung ≡ 18
unfolding run launch ts_diff ℕ_discrete
rung_free = refl

receive_within_example : 0 < count_moves (is_receive 0) (moves busypoll_db 2 (eager 18) rung)
receive_within_example =
    receive_within rung-Reach 0 (omega arith) rung_lem.0 (λ e. signal-ne-press (sym rung_lem.1 ∙ e))
      rung_lem.2 (eager 18) tt (omega (arith, rung_free))

run-counters_example :
    let s = run wfe_db_nomon 2 handled (launch wfe_db_nomon (at_ns 1) raw) in
    (total 2 s.sources ≤ s.ep.events)
    × (s.ep.spurious ≤ s.ep.wakeups)
    × (s.ep.events ≤ 2 * (s.ep.wakeups - s.ep.spurious))
run-counters_example = run-counters wfe_db_nomon 2 (at_ns 1) raw handled (omega arith)

-- In the build wfe_db_nomon the source has executed its `SEV`, too; the processor is at its `WFE`.
abbrev signalled : List Action
signalled = about_to_press ++ (src 0 none true ∷ src 0 none true ∷ [])

abbrev called : System
called = run wfe_db_nomon 2 signalled (begin wfe_db_nomon)

called-Reach : Reach wfe_db_nomon 2 called
called-Reach = run-Reach wfe_db_nomon 2 signalled (begin wfe_db_nomon) (launched (at_ns 1) raw)

called_lem :
    ((called.sources 0).state ≡ active) × (called.src_pc 0 ≡ check) × (called.ep.end_flag ≡ false)
unfolding run launch ts_diff ℕ_discrete
called_lem = (refl, refl, refl)

check-ne-press : check ≢ press
check-ne-press h = cc

abbrev alone : ℕ → List Action
alone zero = []
alone (suc k) = ep (at_ns 30) ∷ alone k

called_settled : settled_steps 2 (alone 18) called ≡ 18
unfolding run launch ts_diff ℕ_discrete
called_settled = refl

receive_settled_example : 0 < count_moves (is_receive 0) (moves wfe_db_nomon 2 (alone 18) called)
receive_settled_example =
    receive_settled called-Reach 0 (omega arith) called_lem.0
      (λ e. check-ne-press (sym called_lem.1 ∙ e)) called_lem.2 (alone 18) tt
      (omega (arith, called_settled))
