-- ===== src/System/Silent.antt =====
-- The processor in `WFE` in wfe_db_mon, where `armMonitor` watches a slot of the stack, and in wfe_nodb, where no source
-- executes `SEV`.
use wfey.Prelude.{
  ℕ, ◌<◌, ◌≡◌, ◌≢◌, refl, true, false, Bool, inl, inr, Bool-cases, lt→ltb, Option, List, [], ◌∷◌,
  none, arith, ltb,
}
use wfey.Clock.{Ts}
use wfey.Config.{Config, wfe_db_nomon}
use wfey.Signal.{watches_doorbell}
use wfey.System.{
  EpPc, test, wait, scan, done, SrcPc, press, signal, ended, System, Action, ep, src, wake, stop_ep,
  stop_src, ep_step, src_step, step, run, launch, inc,
}

-- No event from outside the program is among the actions.
abbrev pub no_wake : List Action → Bool
no_wake [] = true
no_wake (wake ∷ rest) = false
no_wake (_ ∷ rest) = no_wake rest

abbrev asleep : EpPc → Bool
asleep test = true
asleep wait = true
asleep done = true
asleep _ = false

tail_quiet :
    (a : Action) (rest : List Action)
    → no_wake (a ∷ rest) ≡ true
    → (no_wake (a ∷ []) ≡ true) × (no_wake rest ≡ true)
tail_quiet (ep now) rest h = (refl, h)
tail_quiet wake rest h = cc
tail_quiet _ rest h = (refl, h)

-- The processor has not passed a `WFE`, and nothing under way will let it.
record IsAsleep (c : Config) (s : System) : Type 0 where
  quiet : s.hw.event_register ≡ false
  unwatched : watches_doorbell s.hw.monitor ≡ false
  before_wfe : asleep s.ep.pc ≡ true
  no_wakeups : s.ep.wakeups ≡ 0
  no_events : s.ep.events ≡ 0
  no_sev : (i : ℕ) → s.src_pc i ≢ signal
  bell : (i : ℕ) → s.src_pc i ≡ press → c.use_monitor ≡ true

module _ (c : Config) (n : ℕ) (waits : c.busy_poll ≡ false)
    (deaf : c.use_doorbell ≡ c.use_monitor) where
  ep_step-IsAsleep :
      (p : EpPc) (now : Option Ts) (s : System)
      → s.ep.pc ≡ p
      → IsAsleep c s
      → IsAsleep c (ep_step c n p now s)
  unfolding ep_step
  ep_step-IsAsleep test now s e q = ground arith
  ep_step-IsAsleep p now s e q = ground arith

  src_step-IsAsleep :
      (p : SrcPc) (j : ℕ) (now : Option Ts) (slept : Bool) (s : System)
      → s.src_pc j ≡ p
      → IsAsleep c s
      → IsAsleep c (src_step c n p j now slept s)
  unfolding src_step
  src_step-IsAsleep ended j now slept s e q = q
  src_step-IsAsleep p j now slept s e q = record {
    quiet = ground (arith, q.no_sev j);
    unwatched = ground (arith, q.no_sev j);
    before_wfe = ground (arith, q.no_sev j);
    no_wakeups = ground (arith, q.no_sev j);
    no_events = ground (arith, q.no_sev j);
    no_sev = λ i u. ground (arith, q.no_sev i, q.no_sev j, q.bell j);
    bell = λ i u. ground (arith, q.no_sev j, q.bell i, q.bell j);
  }

  step-IsAsleep :
      (a : Action) (s : System) → no_wake (a ∷ []) ≡ true → IsAsleep c s → IsAsleep c (step c n a s)
  unfolding step
  step-IsAsleep (ep now) s h q = ep_step-IsAsleep s.ep.pc now s refl q
  step-IsAsleep (src j now slept) s h q = elim (Bool-cases (ltb j n)) [
    | inl below ↦ rw below (src_step-IsAsleep (s.src_pc j) j now slept s refl q)
    | inr out ↦ rw out q
  ]
  step-IsAsleep wake s h q = cc
  step-IsAsleep stop_ep s h q = record {
    quiet = q.quiet;
    unwatched = q.unwatched;
    before_wfe = q.before_wfe;
    no_wakeups = q.no_wakeups;
    no_events = q.no_events;
    no_sev = q.no_sev;
    bell = q.bell;
  }
  step-IsAsleep (stop_src j) s h q = record {
    quiet = q.quiet;
    unwatched = q.unwatched;
    before_wfe = q.before_wfe;
    no_wakeups = q.no_wakeups;
    no_events = q.no_events;
    no_sev = q.no_sev;
    bell = q.bell;
  }

  run-IsAsleep :
      (acts : List Action) (s : System)
      → no_wake acts ≡ true
      → IsAsleep c s
      → IsAsleep c (run c n acts s)
  unfolding run
  run-IsAsleep [] s h q = q
  run-IsAsleep (a ∷ rest) s h q =
      run-IsAsleep rest (step c n a s) (tail_quiet a rest h).1
        (step-IsAsleep a s (tail_quiet a rest h).0 q)

  launch-IsAsleep :
      (now : Option Ts) (raw : System)
      → raw.hw.event_register ≡ false
      → raw.hw.monitor ≡ none
      → IsAsleep c (launch c now raw)
  unfolding launch
  launch-IsAsleep now raw er mon = record {
    quiet = ground arith;
    unwatched = ground arith;
    before_wfe = refl;
    no_wakeups = refl;
    no_events = refl;
    no_sev = λ i u. cc;
    bell = λ i u. cc;
  }

-- In a build that waits in `WFE`, and has the monitor if and only if it has the doorbell (wfe_nodb and
-- wfe_db_mon), started with the event register clear and no monitor armed: whatever the sources do, as long as
-- no event comes from outside the program, the processor does not pass its first `WFE`. It counts no
-- wake-up and handles no event.
pub no_wakeups_without_sev :
    (c : Config)
    → c.busy_poll ≡ false
    → c.use_doorbell ≡ c.use_monitor
    → (n : ℕ) (now : Option Ts) (raw : System) → raw.hw.event_register ≡ false
    → raw.hw.monitor ≡ none
    → (acts : List Action) → no_wake acts ≡ true
    → ((run c n acts (launch c now raw)).ep.wakeups ≡ 0)
      × ((run c n acts (launch c now raw)).ep.events ≡ 0)
no_wakeups_without_sev c waits deaf n now raw er mon acts h =
    (asleep_at_end.no_wakeups, asleep_at_end.no_events)
  where
    asleep_at_end : IsAsleep c (run c n acts (launch c now raw))
    asleep_at_end =
        run-IsAsleep c n waits deaf acts (launch c now raw) h
          (launch-IsAsleep c n waits deaf now raw er mon)

-- In the build wfe_db_nomon, in any state: when the processor waits in `WFE` and a source is about to press the
-- doorbell, the source's press and `SEV` and two steps of the processor bring it to the scan of its sources,
-- with one more wake-up and no spurious one.
ring_wakes :
    (n : ℕ) (now : Option Ts) (s : System) (i : ℕ)
    → i < n
    → s.ep.pc ≡ wait
    → s.src_pc i ≡ press
    → let s' = run wfe_db_nomon n (src i now true ∷ src i now true ∷ ep now ∷ ep now ∷ []) s in
      (s'.ep.pc ≡ scan 0) × (s'.ep.wakeups ≡ inc s.ep.wakeups) × (s'.ep.spurious ≡ s.ep.spurious)
unfolding run ep_step src_step
ring_wakes n now s i h e p = rw (lt→ltb i n h) (ground arith)
