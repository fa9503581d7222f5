-- ===== src/System.antt =====
-- A run of the benchmark: the loops of `epThread` and `sourceThread` of wfey.c over the shared memory, a
-- shared access at a time, in any order. What a thread does by itself goes with its next access. There is
-- one event processor: `main` refuses more.
pub mod Covered
pub mod Wakeup
pub mod Silent
pub mod Pass
pub mod Overwrite
pub mod Inactive
pub mod Mailbox
pub mod Counters
pub mod Latencies
use wfey.Prelude.{
  ℕ, zero, suc, ◌+◌, ◌%◌, Bool, true, false, Option, none, some, List, [], ◌∷◌, ltb, ◌==◌,
  if◌then◌else◌, update,
}
use wfey.Clock.{word, Ts, ts_now, ts_diff}
use wfey.Config.{Config}
use wfey.Signal.{
  Hardware, doorbell, doorbell_is_pressed_and_reset, doorbell_reset, doorbell_press, sev, wfe,
  arm_monitor,
}
use wfey.Source.{
  Source, active, stamp_start, stamp_end, store_state, account, source_event_is_active, init_source,
}
use wfey.Source

-- Where the event processor stands.
pub data EpPc : Type 0 where
  test : EpPc  -- `while ( !this->end_flag )`
  wait : EpPc  -- `WFE()`
  rearm : EpPc  -- `armMonitor(db)` of the loop
  take : EpPc  -- `wakeups++` and the look at the doorbell
  scan : ℕ → EpPc  -- the head of the loop over the sources, at index `i`
  work : ℕ → EpPc  -- `EP_handle_event`, before `src->work_func()`
  stamp : ℕ → EpPc  -- `source_event_reset`, before `ts_now`
  store : ℕ → EpPc  -- before its store
  tally : ℕ → EpPc  -- before its sums
  done : EpPc  -- behind the loop

-- Where a source stands.
pub data SrcPc : Type 0 where
  check : SrcPc  -- `while ( !this->end_flag )`
  nap : SrcPc  -- `nanosleep`
  interrupted : SrcPc  -- `if (this->end_flag)` in its loop
  start : SrcPc  -- `source_event_activate`, before `ts_now`
  activate : SrcPc  -- before its store
  press : SrcPc  -- `doorbell_press(db)`
  signal : SrcPc  -- `SEV()`
  ended : SrcPc  -- behind the loop

-- `struct EventProcessor` and the locals of `epThread`.
pub record Ep : Type 0 where
  pub pc : EpPc
  pub end_flag : Bool
  pub wakeups : ℕ
  pub spurious : ℕ
  pub events : ℕ
  pub inactive_start : Ts
  pub inactive_total : ℕ
  pub active_start : Ts
  pub active_total : ℕ

pub record System : Type 0 where
  pub hw : Hardware
  pub ep : Ep
  pub sources : ℕ → Source
  pub src_pc : ℕ → SrcPc

-- What happens next: a step of the processor, or of source `i`; an event for the processor's core from
-- outside the program, such as an interrupt; or a store of an end flag by `main`. The clock's answer
-- comes with a step, and so does whether a `nanosleep` ran to its end.
pub data Action : Type 0 where
  ep : Option Ts → Action
  src : ℕ → Option Ts → Bool → Action
  wake : Action
  stop_ep : Action
  stop_src : ℕ → Action

abbrev pub inc : ℕ → ℕ
inc n = (n + 1) % word

abbrev pub on_source : System → ℕ → (Source → Source) → System
on_source s i f = record s { sources = update s.sources i (f (s.sources i)) }

abbrev pub goto : System → EpPc → System
goto s p = record s { ep = record (s.ep) { pc = p } }

abbrev pub src_goto : System → ℕ → SrcPc → System
src_goto s i p = record s { src_pc = update s.src_pc i p }

module _ (c : Config) (n : ℕ) where
  abbrev pub wake_up : Option Ts → System → Option Hardware → System
  wake_up now s none = s
  wake_up now s (some hw) =
      let woken = ts_now now s.ep.inactive_start in
      record s {
        hw = hw;
        ep = record (s.ep) {
          pc = if c.use_monitor then rearm else take;
          inactive_total = (s.ep.inactive_total + ts_diff s.ep.inactive_start woken) % word;
        };
      }

  abbrev pub look_at_doorbell : System → System
  look_at_doorbell s =
      let (pressed, hw) = doorbell_is_pressed_and_reset s.hw in
      if pressed == 0
      then record s {
        hw = hw;
        ep = record (s.ep) { pc = test; wakeups = inc s.ep.wakeups; spurious = inc s.ep.spurious };
      }
      else record s { hw = hw; ep = record (s.ep) { pc = scan 0; wakeups = inc s.ep.wakeups } }

  -- The event processor's step, from where it stands.
  unfoldable pub ep_step : EpPc → Option Ts → System → System
  unfolding ts_now doorbell_is_pressed_and_reset wfe arm_monitor stamp_end store_state account
      source_event_is_active
  ep_step test now s =
      if s.ep.end_flag
      then (let ended_at = ts_now now s.ep.active_start in
          record s {
            ep = record (s.ep) { pc = done; active_total = ts_diff s.ep.active_start ended_at };
          })
      else if c.busy_poll
      then goto s take
      else record s {
        ep = record (s.ep) { pc = wait; inactive_start = ts_now now s.ep.inactive_start };
      }
  ep_step wait now s = wake_up now s (wfe s.hw)
  ep_step rearm now s = record (goto s take) { hw = arm_monitor doorbell s.hw }
  ep_step take now s =
      if c.use_doorbell
      then look_at_doorbell s
      else record s { ep = record (s.ep) { pc = scan 0; wakeups = inc s.ep.wakeups } }
  ep_step (scan i) now s =
      if ltb i n
      then (if source_event_is_active (s.sources i)
          then record s { ep = record (s.ep) { pc = work i; events = inc s.ep.events } }
          else goto s (scan (i + 1)))
      else goto s test
  ep_step (work i) now s = goto s (stamp i)
  ep_step (stamp i) now s = goto (on_source s i (stamp_end now)) (store i)
  ep_step (store i) now s = goto (on_source s i (store_state Source.reset)) (tally i)
  ep_step (tally i) now s = goto (on_source s i account) (scan (i + 1))
  ep_step done now s = s

  -- The step of source `i`, from where it stands.
  unfoldable pub src_step : SrcPc → ℕ → Option Ts → Bool → System → System
  unfolding doorbell_press sev stamp_start store_state
  src_step check i now slept s = src_goto s i (if (s.sources i).end_flag then ended else nap)
  src_step nap i now slept s = src_goto s i (if slept then start else interrupted)
  src_step interrupted i now slept s = src_goto s i (if (s.sources i).end_flag then start else nap)
  src_step start i now slept s = src_goto (on_source s i (stamp_start now)) i activate
  src_step activate i now slept s =
      src_goto (on_source s i (store_state active)) i (if c.use_doorbell then press else check)
  src_step press i now slept s =
      src_goto (record s { hw = doorbell_press s.hw }) i (if c.use_monitor then check else signal)
  src_step signal i now slept s = src_goto (record s { hw = sev s.hw }) i check
  src_step ended i now slept s = s

  unfoldable pub step : Action → System → System
  unfolding ep_step src_step sev
  step (ep now) s = ep_step s.ep.pc now s
  step (src i now slept) s = if ltb i n then src_step (s.src_pc i) i now slept s else s
  step wake s = record s { hw = sev s.hw }
  step stop_ep s = record s { ep = record (s.ep) { end_flag = true } }
  step (stop_src i) s = on_source s i (λ src. record src { end_flag = true })

  unfoldable pub run : List Action → System → System
  unfolding step
  run [] s = s
  run (a ∷ rest) s = run rest (step a s)

-- What the processor does to its doorbell and its monitor before the barrier.
unfoldable pub prepare : Config → Hardware → Hardware
unfolding doorbell_reset arm_monitor
prepare c hw =
    let belled = if c.use_doorbell then doorbell_reset hw else hw in
    if c.use_monitor then arm_monitor doorbell belled else belled

-- How the loops begin: the processor has passed its barrier, and `main` has set the sources up, the
-- events of which are numbered from 1 on, and has let them go. A processor that is ahead of `main`, and is in its loop before the sources
-- are set up, is the matter of Main/Life. `raw` is what the memory held before.
unfoldable pub launch : Config → Option Ts → System → System
unfolding prepare init_source ts_now
launch c now raw = record {
  hw = prepare c raw.hw;
  ep = record (raw.ep) {
    pc = test;
    end_flag = false;
    wakeups = 0;
    spurious = 0;
    events = 0;
    inactive_total = 0;
    active_start = ts_now now raw.ep.active_start;
    active_total = 0;
  };
  sources = λ i. record (init_source (i + 1) now (raw.sources i)) { end_flag = false };
  src_pc = λ i. check;
}

-- The states of a build that can be reached, with `n` sources.
pub data Reach (c : Config) (n : ℕ) : System → Type 0 where
  launched : (now : Option Ts) (raw : System) → Reach c n (launch c now raw)
  next : {s : System} → Reach c n s → (a : Action) → Reach c n (step c n a s)

pub run-Reach :
    (c : Config) (n : ℕ) (acts : List Action) (s : System)
    → Reach c n s
    → Reach c n (run c n acts s)
unfolding run
run-Reach c n [] s r = r
run-Reach c n (a ∷ rest) s r = run-Reach c n rest (step c n a s) (next r a)
